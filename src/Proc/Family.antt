-- ===== src/Proc/Family.antt =====
-- Parents and children in kernel/proc.c: who is there to wait for an exited process.
use lainos_fail.Base.{
  ℕ, ◌<◌, ◌≡◌, ◌≢◌, refl, ◌∙◌, [], true, false, Option, none, some, arith, ◌==◌, Bool-cases, inl,
  inr, update,
}
use lainos_fail.Proc.{
  Proc, Procs, unused, Chan, nproc, running, is_zombie, is_unused, wakeup1, take_slot, fork_into,
  reap, go_to_sleep, end_sleep, yield, schedule,
}
use lainos_fail.Proc.Table.{is_alive, is_born, wakeup1-SameKind}

-- Every process that has been set up, but `init`, has a parent that is alive.
pub record Family (init : ℕ) (t : Procs) : Type 0 where
  pub init_in : init < nproc
  pub init_alive : is_alive (t init).state ≡ true
  pub parents :
      (i : ℕ)
      → i < nproc
      → is_born (t i).state ≡ true
      → i ≢ init
      → (p : ℕ) × ((t i).parent ≡ some p) × (p < nproc) × (is_alive (t p).state ≡ true)

abbrev pub SameFamily : Procs → Procs → Type 0
SameFamily t t' =
    (j : ℕ)
    → ((t' j).parent ≡ (t j).parent)
      × (is_alive (t' j).state ≡ is_alive (t j).state)
      × (is_born (t' j).state ≡ is_born (t j).state)

pub SameFamily-Family : (init : ℕ) (t t' : Procs) → SameFamily t t' → Family init t → Family init t'
SameFamily-Family init t t' same f = record {
  init_in = f.init_in;
  init_alive = (same init).1 ∙ f.init_alive;
  parents = λ i lt born ne.
      let s = same i in
      let (p, e, p_in, p_alive) = f.parents i lt (ground (arith, s.2)) ne in
      (p, s.0 ∙ e, p_in, (same p).1 ∙ p_alive);
}

module _ (init : ℕ) (t : Procs) (f : Family init t) where
  pub wakeup1-Family : (chan : Option Chan) → Family init (wakeup1 chan t)
  wakeup1-Family chan =
      SameFamily-Family init t (wakeup1 chan t)
        (λ j. let w = wakeup1-SameKind chan t j in (w.0, w.1, w.2)) f

  pub go_to_sleep-Family :
      (me : ℕ) (chan : Option Chan) → (t me).state ≡ running → Family init (go_to_sleep me chan t)
  unfolding go_to_sleep
  go_to_sleep-Family me chan run =
      SameFamily-Family init t (go_to_sleep me chan t) (λ j. ground arith) f

  pub yield-Family : (me : ℕ) → (t me).state ≡ running → Family init (yield me t)
  unfolding yield
  yield-Family me run = SameFamily-Family init t (yield me t) (λ j. ground arith) f

  pub end_sleep-Family : (me : ℕ) → Family init (end_sleep me t)
  unfolding end_sleep
  end_sleep-Family me = SameFamily-Family init t (end_sleep me t) (λ j. ground arith) f

  pub schedule-Family : (i : ℕ) → Family init (schedule i t)
  unfolding schedule
  schedule-Family i = SameFamily-Family init t (schedule i t) (λ j. ground arith) f

  -- One slot gets a new content: a living process stays alive, and what is born has a parent.
  Family-update :
      (i : ℕ) (q : Proc)
      → (is_alive (t i).state ≡ true → is_alive q.state ≡ true)
      → (is_born q.state ≡ true
          → i ≢ init
          → (p : ℕ) × (q.parent ≡ some p) × (p < nproc) × (is_alive (t p).state ≡ true))
      → Family init (update t i q)
  Family-update i q keep born_too = record {
    init_in = f.init_in;
    init_alive = ground (arith, f.init_alive, keep);
    parents = λ j lt born ne. elim (Bool-cases (j == i)) [
      | inl here ↦
          let at : j ≡ i = ground arith in
          let (p, e, p_in, p_alive) = born_too (ground arith) (ground arith) in
          (p, ground arith, p_in, ground (arith, keep))
      | inr other ↦
          let (p, e, p_in, p_alive) = f.parents j lt (ground arith) ne in
          (p, ground arith, p_in, ground (arith, keep))
    ];
  }

  -- A reaped zombie was nobody's living parent.
  pub reap-Family : (i : ℕ) → is_zombie (t i).state ≡ true → Family init (reap i t)
  unfolding reap
  reap-Family i dead =
      let p = t i in
      Family-update i
        (record p { kstack = 0; state = unused; pid = 0; parent = none; name = []; killed = false })
        (λ alive. ground arith) (λ born ne. cc)

  pub take_slot-Family :
      (stack i next : ℕ)
      → is_unused (t i).state ≡ true
      → Family init (take_slot stack i (record { procs = t; nextpid = next })).1.procs
  unfolding take_slot
  take_slot-Family stack i next free = elim (Bool-cases (stack == 0)) [
    | inl failed ↦ rw failed (Family-update i _ (λ alive. ground arith) (λ born ne. cc))
    | inr given ↦ rw given (Family-update i _ (λ alive. ground arith) (λ born ne. cc))
  ]

  pub fork_into-Family :
      (me pages i next : ℕ)
      → me < nproc
      → (t me).state ≡ running
      → is_alive (t i).state ≡ false
      → Family init (fork_into me pages i (record { procs = t; nextpid = next })).1.procs
  unfolding fork_into
  fork_into-Family me pages i next me_in run fresh = elim (Bool-cases (pages == 0)) [
    | inl failed ↦ rw failed (Family-update i _ (λ alive. ground arith) (λ born ne. cc))
    | inr given ↦
        rw given
          (Family-update i _ (λ alive. ground arith) (λ born ne. (me, refl, me_in, ground arith)))
  ]

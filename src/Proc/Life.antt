-- ===== src/Proc/Life.antt =====
-- The life of processes under kernel/proc.c: every step of any process keeps the families whole,
-- so that an exited process always has a living parent to wait for it.
use lainos_fail.Base.{
  ℕ, zero, suc, ◌+◌, ◌<◌, ◌≡◌, ◌≢◌, refl, ◌∙◌, ap, true, false, Option, none, some, arith, ◌==◌,
  Bool-cases, inl, inr, update, done, panics,
}
use lainos_fail.Proc.{
  ProcState, Procs, Ptable, nproc, running, zombie, is_unused, wakeup1, find_unused, take_slot,
  alloc_found, allocproc, fork_slot, fork, adopt_from, parent_chan, exit, kill_from, kill, WaitScan,
  reaped, no_child, has_child, got, waits, wait_found, of_proc,
}
use lainos_fail.Proc.Table.{
  is_alive, is_born, adopt_from_at, find_unused_at, Scanned, wakeup1-SameKind,
}
use lainos_fail.Proc.Family.{
  Family, SameFamily, SameFamily-Family, wakeup1-Family, go_to_sleep-Family, reap-Family,
  take_slot-Family, fork_into-Family,
}

kill_from-SameFamily : (k i pid : ℕ) (t : Procs) → SameFamily t (kill_from k i pid t).1
unfolding kill_from
kill_from-SameFamily zero i pid t j = (refl, refl, refl)
kill_from-SameFamily (suc k) i pid t j = elim (Bool-cases ((t i).pid == pid)) [
  | inl hit ↦ rw hit (elim (Bool-cases (j == i)) [
    | inl here ↦ let e : j ≡ i = ground arith in ground arith
    | inr other ↦ ground arith
  ])
  | inr miss ↦ rw miss (kill_from-SameFamily k (i + 1) pid t j)
]

pub kill-Family : (init pid : ℕ) (t : Procs) → Family init t → Family init (kill pid t).1
unfolding kill
kill-Family init pid t f = SameFamily-Family init t _ (kill_from-SameFamily nproc 0 pid t) f

take_slot_other :
    (stack i : ℕ) (s : Ptable) (j : ℕ) → j ≢ i → (take_slot stack i s).1.procs j ≡ s.procs j
unfolding take_slot
take_slot_other stack i s j ne = ground arith

take_slot_got :
    (stack i : ℕ) (s : Ptable) (j : ℕ)
    → (take_slot stack i s).0 ≡ some j
    → (j ≡ i) × (is_alive ((take_slot stack i s).1.procs i).state ≡ false)
unfolding take_slot
take_slot_got stack i s j h = ground arith

module _ (init me : ℕ) (me_in : me < nproc) where
  fork_slot-Family :
      (pages : ℕ) (slot : Option ℕ) (s : Ptable)
      → Family init s.procs
      → (s.procs me).state ≡ running
      → ((i : ℕ) → slot ≡ some i → is_alive (s.procs i).state ≡ false)
      → Family init (fork_slot me pages slot s).1.procs
  unfolding fork_slot
  fork_slot-Family pages none s f run fresh = f
  fork_slot-Family pages (some i) s f run fresh =
      fork_into-Family init s.procs f me pages i s.nextpid me_in run (fresh i refl)

  alloc_found-Family :
      (stack pages : ℕ) (slot : Option ℕ) (s : Ptable)
      → Family init s.procs
      → (s.procs me).state ≡ running
      → ((i : ℕ) → slot ≡ some i → is_unused (s.procs i).state ≡ true)
      → let r = alloc_found stack slot s in Family init (fork_slot me pages r.0 r.1).1.procs
  unfolding alloc_found fork_slot
  alloc_found-Family stack pages none s f run free = f
  alloc_found-Family stack pages (some i) s f run free =
      let unused_i = free i refl in
      let r = take_slot stack i s in
      let ne : me ≢ i = λ e. cc (unused_i) in
      fork_slot-Family pages r.0 r.1 (take_slot-Family init s.procs f stack i s.nextpid unused_i)
        (ap (λ p. p.state) (take_slot_other stack i s me ne) ∙ run)
        (λ j e. let (at, dead) = take_slot_got stack i s j e in rw at dead)

  pub fork-Family :
      (stack pages : ℕ) (s : Ptable)
      → Family init s.procs
      → (s.procs me).state ≡ running
      → Family init (fork me stack pages s).1.procs
  unfolding fork allocproc
  fork-Family stack pages s f run =
      alloc_found-Family stack pages (find_unused nproc 0 s.procs) s f run
        (λ i e. (find_unused_at nproc 0 s.procs i e).2)

born_of_alive : (s : ProcState) → is_alive s ≡ true → is_born s ≡ true
born_of_alive s h = ground arith

-- The rest of `exit` once the processes that sleep on the parent have been woken.
exit_rest-Family :
    (init me : ℕ) (t : Procs)
    → Family init t
    → me ≢ init
    → is_alive (t me).state ≡ true
    → let t' = adopt_from nproc 0 me init t in
      let q = t' me in Family init (update t' me (record q { state = zombie }))
exit_rest-Family init me t f ne alive =
    let t' = adopt_from nproc 0 me init t in
    let at = adopt_from_at nproc 0 me init t in
    record {
      init_in = f.init_in;
      init_alive = ground (arith, at init, f.init_alive);
      parents = λ j lt born other.
          let was_born : is_born (t j).state ≡ true = elim (Bool-cases (j == me)) [
            | inl here ↦ let e : j ≡ me = ground arith in rw e (born_of_alive (t me).state alive)
            | inr differs ↦ ground (arith, at j)
          ] in
          let (p, e, p_in, p_alive) = f.parents j lt was_born other in
          elim (Bool-cases (p == me)) [
            | inl child ↦
                (init, ground (arith, at j), f.init_in, ground (arith, at init, f.init_alive))
            | inr kept ↦ (p, ground (arith, at j), p_in, ground (arith, at p))
          ];
    }

pub exit-Family :
    (init me : ℕ) (t : Procs) {t' : Procs}
    → Family init t
    → (t me).state ≡ running
    → exit me init t ≡ done t'
    → Family init t'
unfolding exit
exit-Family init me t {t'} f run h = elim (Bool-cases (me == init)) [
  | inl is_init ↦ let e : panics ≡ done t' = rw is_init at h in cc
  | inr other ↦
      let p = t me in
      let t₁ : Procs = update t me (record p { ofile = λ fd. none; cwd = none }) in
      let f₁ = SameFamily-Family init t t₁ (λ j. ground arith) f in
      let t₂ = wakeup1 (parent_chan p.parent) t₁ in
      let f₂ = wakeup1-Family init t₁ f₁ (parent_chan p.parent) in
      let alive : is_alive (t₂ me).state ≡ true =
        (wakeup1-SameKind (parent_chan p.parent) t₁ me).1 ∙ ground arith in
      let t₃ = adopt_from nproc 0 me init t₂ in
      let q = t₃ me in
      let last : update t₃ me (record q { state = zombie }) ≡ t' = cc (rw other at h) in
      rw last at (exit_rest-Family init me t₂ f₂ (ground arith) alive)
]

pub wait-Family :
    (init me : ℕ) (t : Procs)
    → Family init t
    → (t me).state ≡ running
    → (w : WaitScan) → Scanned t me 0 nproc false w
    → elim (wait_found me w t) as (λ r. Type 0) [
      | got r t' ↦ Family init t'
      | waits t' ↦ Family init t'
    ]
unfolding wait_found
wait-Family init me t f run (reaped pid i) h = reap-Family init t f i h.3
wait-Family init me t f run no_child h = f
wait-Family init me t f run has_child h = elim (Bool-cases (t me).killed) [
  | inl dead ↦ rw dead f
  | inr well ↦ rw well (go_to_sleep-Family init t f me (some (of_proc me)) run)
]

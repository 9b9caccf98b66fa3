-- ===== src/Proc/Waiting.antt =====
-- `wait`, `exit` and `kill` of kernel/proc.c against one another: who is woken, and what is reaped.
use lainos_fail.Base.{
  ℕ, zero, suc, ◌+◌, ◌≤◌, ◌<◌, ◌≡◌, ◌≢◌, ◌⊎◌, refl, true, false, [], Option, none, some, arith,
  ◌==◌, Bool-cases, inl, inr, update, update_self, update_ne, done, panics,
}
use lainos_fail.Proc.{
  ProcState, Procs, Chan, nproc, unused, sleeping, runnable, zombie, is_zombie, is_slot, wakeup1,
  adopt, adopt_from, parent_chan, exit, reap, go_to_sleep, WaitScan, reaped, no_child, has_child,
  Waited, got, waits, wait_found, wait, of_proc,
}
use lainos_fail.Proc.Table.{Scanned, wait_scan-Scanned, wakeup1_at}

-- A process that is RUNNABLE and sleeps on nothing new stays so while others are woken.
wakeup1_keeps :
    (chan : Option Chan) (t : Procs) (j : ℕ)
    → (t j).state ≡ runnable
    → (wakeup1 chan t j).state ≡ runnable
wakeup1_keeps chan t j h = ground (arith, wakeup1_at chan t j)

adopt_keeps :
    (me init i : ℕ) (t : Procs) (j : ℕ)
    → (t j).state ≡ runnable
    → (adopt me init i t j).state ≡ runnable
adopt_keeps me init i t j h =
    let p = t i in
    let t' : Procs = update t i (record p { parent = some init }) in
    let same : (t' j).state ≡ runnable = elim (Bool-cases (j == i)) [
      | inl here ↦ let e : j ≡ i = ground arith in ground arith
      | inr other ↦ ground arith
    ] in
    let w = wakeup1_keeps (some (of_proc init)) t' j same in ground (arith, w)

adopt_from_keeps :
    (k i me init : ℕ) (t : Procs) (j : ℕ)
    → (t j).state ≡ runnable
    → (adopt_from k i me init t j).state ≡ runnable
unfolding adopt_from
adopt_from_keeps zero i me init t j h = h
adopt_from_keeps (suc k) i me init t j h =
    adopt_from_keeps k (i + 1) me init (adopt me init i t) j (adopt_keeps me init i t j h)

-- `exit` makes a parent runnable that sleeps in `wait`, so the wakeup is not lost.
pub exit_wakes_parent :
    (me init p : ℕ) (t : Procs) {t' : Procs}
    → p < nproc
    → p ≢ me
    → (t me).parent ≡ some p
    → (t p).state ≡ sleeping
    → (t p).chan ≡ some (of_proc p)
    → exit me init t ≡ done t'
    → ((t' p).state ≡ runnable) × ((t' me).state ≡ zombie)
unfolding exit
exit_wakes_parent me init p t {t'} lt ne is_parent asleep on_self h =
    elim (Bool-cases (me == init)) [
      | inl is_init ↦ let e : panics ≡ done t' = rw is_init at h in absurd (cc)
      | inr other ↦
          let m = t me in
          let t₁ : Procs = update t me (record m { ofile = λ fd. none; cwd = none }) in
          let t₂ = wakeup1 (parent_chan m.parent) t₁ in
          let up : (t₂ p).state ≡ runnable =
            ground (arith, wakeup1_at (parent_chan m.parent) t₁ p) in
          let t₃ = adopt_from nproc 0 me init t₂ in
          let stays = adopt_from_keeps nproc 0 me init t₂ p up in
          let q = t₃ me in
          let last : update t₃ me (record q { state = zombie }) ≡ t' = cc (rw other at h) in
          rw (← last) (ground (arith, stays))
    ]

-- The slot `i` is free again, with nothing of its process left, and the other slots are as before.
pub record IsReaped (i : ℕ) (t t' : Procs) : Type 0 where
  pub free : (t' i).state ≡ unused
  pub no_pid : (t' i).pid ≡ 0
  pub no_parent : (t' i).parent ≡ none
  pub no_stack : (t' i).kstack ≡ 0
  pub no_name : (t' i).name ≡ []
  pub not_killed : (t' i).killed ≡ false
  pub others : (j : ℕ) → j ≢ i → t' j ≡ t j

-- The process `me` sleeps on its own slot, and the other slots are as before.
pub record IsAsleep (me : ℕ) (t t' : Procs) : Type 0 where
  pub asleep : (t' me).state ≡ sleeping
  pub on_self : (t' me).chan ≡ some (of_proc me)
  pub family : (t' me).parent ≡ (t me).parent
  pub kill_flag : (t' me).killed ≡ (t me).killed
  pub others : (j : ℕ) → j ≢ me → t' j ≡ t j

-- What one round of `wait` comes to: a zombie child is reaped whenever there is one, and the
-- caller sleeps on its own slot only while it has children, none of them a zombie.
pub data WaitDone (me : ℕ) (t : Procs) : Waited → Type 0 where
  reaps :
      (i : ℕ)
      → i < nproc
      → (t i).parent ≡ some me
      → (t i).state ≡ zombie
      → (t' : Procs) → IsReaped i t t'
      → WaitDone me t (got (some (t i).pid) t')
  fails :
      ((t me).killed ≡ true) ⊎ ((i : ℕ) → i < nproc → (t i).parent ≢ some me)
      → ((i : ℕ) → i < nproc → (t i).parent ≡ some me → (t i).state ≢ zombie)
      → WaitDone me t (got none t)
  sleeps_on_self :
      (i : ℕ)
      → i < nproc
      → (t i).parent ≡ some me
      → ((j : ℕ) → j < nproc → (t j).parent ≡ some me → (t j).state ≢ zombie)
      → ((t me).killed ≡ false)
      → (t' : Procs) → IsAsleep me t t'
      → WaitDone me t (waits t')

reap-IsReaped : (i : ℕ) (t : Procs) → IsReaped i t (reap i t)
unfolding reap
reap-IsReaped i t =
    let here : reap i t i ≡ record (t i) {
      kstack = 0;
      state = unused;
      pid = 0;
      parent = none;
      name = [];
      killed = false;
    } =
      update_self t i _ in
    record {
      free = rw here refl;
      no_pid = rw here refl;
      no_parent = rw here refl;
      no_stack = rw here refl;
      no_name = rw here refl;
      not_killed = rw here refl;
      others = λ j ne. update_ne t i _ j ne;
    }

go_to_sleep-IsAsleep : (me : ℕ) (t : Procs) → IsAsleep me t (go_to_sleep me (some (of_proc me)) t)
unfolding go_to_sleep
go_to_sleep-IsAsleep me t =
    let here : go_to_sleep me (some (of_proc me)) t me
        ≡ record (t me) { chan = some (of_proc me); state = sleeping } =
      update_self t me _ in
    record {
      asleep = rw here refl;
      on_self = rw here refl;
      family = rw here refl;
      kill_flag = rw here refl;
      others = λ j ne. update_ne t me _ j ne;
    }

is_slot_eq : (o : Option ℕ) (me : ℕ) → is_slot o me ≡ true → o ≡ some me
is_slot_eq o me h = ground arith

eq_is_slot : (o : Option ℕ) (me : ℕ) → o ≡ some me → is_slot o me ≡ true
eq_is_slot o me h = ground arith

zombie_eq : (s : ProcState) → is_zombie s ≡ true → s ≡ zombie
zombie_eq s h = ground arith

none_zombie :
    (me : ℕ) (t : Procs)
    → ((j : ℕ) → 0 ≤ j → j < nproc → is_slot (t j).parent me ≡ true → is_zombie (t j).state ≡ false)
    → (j : ℕ) → j < nproc
    → (t j).parent ≡ some me
    → (t j).state ≢ zombie
none_zombie me t h j lt mine dead =
    let no_zombie = h j (omega arith) lt (eq_is_slot (t j).parent me mine) in cc (dead)

wait_found-WaitDone :
    (me : ℕ) (t : Procs) (w : WaitScan)
    → Scanned t me 0 nproc false w
    → WaitDone me t (wait_found me w t)
unfolding wait_found
wait_found-WaitDone me t (reaped pid i) (lo, hi, mine, dead, e) = rw e (
    reaps i hi (is_slot_eq (t i).parent me mine) (zombie_eq (t i).state dead) (reap i t)
      (reap-IsReaped i t))
wait_found-WaitDone me t no_child (none_yet, all) =
    fails
      (inr (λ i lt mine.
        let no_child_here = all i (omega arith) lt in
        let child_here = eq_is_slot (t i).parent me mine in cc))
      (none_zombie me t (λ j lo lt mine. let no_child_here = all j lo lt in absurd (cc)))
wait_found-WaitDone me t has_child (some_child, none_dead) = elim (Bool-cases (t me).killed) [
  | inl dead ↦ rw dead (fails (inl dead) (none_zombie me t none_dead))
  | inr well ↦ elim some_child [
    | inl impossible ↦ absurd (cc)
    | inr (i, lo, hi, mine) ↦ rw well (
        sleeps_on_self i hi (is_slot_eq (t i).parent me mine) (none_zombie me t none_dead) well
          (go_to_sleep me (some (of_proc me)) t) (go_to_sleep-IsAsleep me t))
  ]
]

-- `wait` in any table returns the pid of a zombie child, whose slot is free again; or -1 where there is no child
-- or, with no zombie child, the caller is killed; or else the caller, which has a child, sleeps on its own slot.
pub wait-WaitDone : (me : ℕ) (t : Procs) → WaitDone me t (wait me t)
unfolding wait
wait-WaitDone me t =
    wait_found-WaitDone me t _ (wait_scan-Scanned nproc 0 me nproc false t (omega arith))

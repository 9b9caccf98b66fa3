-- ===== src/Spinlock/Mutex.antt =====
-- Mutual exclusion of the lock of kernel/spinlock.c, for any number of CPUs and any interleaving.
use lainos_fail.Base.{
  ℕ, ◌≡◌, ◌≢◌, refl, Bool, true, false, ◌&&◌, some, arith, if◌then◌else◌, Outcome, done, ◌>>=◌,
  Bool-cases, inl, inr, List, [], ◌∷◌,
}
use lainos_fail.Spinlock.{
  Cpu, initlock, is_cpu, holding, pushcli, popcli, Place, outside, spinning, taken, inside, leaving,
  Machine, enter, spin, sign, leave, free, advance,
}

-- The places between the `xchg` that took the lock and the one that frees it.
abbrev pub is_owner : Place → Bool
is_owner outside = false
is_owner spinning = false
is_owner taken = true
is_owner inside = true
is_owner leaving = true

abbrev pub is_inside : Place → Bool
is_inside outside = false
is_inside spinning = false
is_inside taken = false
is_inside inside = true
is_inside leaving = false

abbrev pub is_masked : Place → Bool
is_masked outside = false
is_masked spinning = true
is_masked taken = true
is_masked inside = true
is_masked leaving = true

-- An owner sees the lock taken; a second one is the same CPU; the lock names exactly the CPU inside;
-- a CPU from `acquire` to `release` has its interrupts off at depth 1.
pub record Exclusive (m : Machine) : Type 0 where
  pub held : (i : ℕ) → is_owner (m.place i) ≡ true → m.lock.locked ≡ true
  pub single : (i j : ℕ) → is_owner (m.place i) ≡ true → is_owner (m.place j) ≡ true → i ≡ j
  pub named : (i : ℕ) → is_inside (m.place i) ≡ true → m.lock.cpu ≡ some i
  pub names : (i : ℕ) → m.lock.cpu ≡ some i → is_inside (m.place i) ≡ true
  pub masked : (i : ℕ) → is_masked (m.place i) ≡ true → (m.cpus i).interrupts ≡ false
  pub depth : (i : ℕ) → (m.cpus i).ncli ≡ (if is_masked (m.place i) then 1 else 0)

-- A step does not panic and keeps the lock exclusive.
abbrev Goes : Outcome Machine → Type 0
Goes o = (m' : Machine) × (o ≡ done m') × Exclusive m'

enter_lem : (me : ℕ) (m : Machine) → Exclusive m → m.place me ≡ outside → Goes (enter me m)
unfolding holding pushcli
enter_lem me m ex at =
    let quiet : (m.lock.locked && is_cpu m.lock.cpu me) ≡ false = ground (arith, ex.names me, at) in
    rw quiet (
      _,
      refl,
      record {
        held = λ i own. ground (arith, ex.held i, at);
        single = λ i j own own'. ground (arith, ex.single i j, at);
        named = λ i own. ground (arith, ex.named i, at);
        names = λ i eq. ground (arith, ex.names i, at);
        masked = λ i own. ground (arith, ex.masked i, at);
        depth = λ i. ground (arith, ex.depth i, at);
      },
    )

spin_lem : (me : ℕ) (m : Machine) → Exclusive m → m.place me ≡ spinning → Goes (spin me m)
spin_lem me m ex at = elim (Bool-cases m.lock.locked) [
  | inl lock ↦ rw lock (
    _,
    refl,
    record {
      held = λ i own. refl;
      single = ex.single;
      named = ex.named;
      names = ex.names;
      masked = ex.masked;
      depth = ex.depth;
    },
  )
  | inr unlocked ↦ rw unlocked (
    _,
    refl,
    record {
      held = λ i own. refl;
      single = λ i j own own'. ground (arith, ex.held i, ex.held j, at);
      named = λ i own. ground (arith, ex.named i, at);
      names = λ i eq. ground (arith, ex.names i, at);
      masked = λ i own. ground (arith, ex.masked i, ex.masked me, at);
      depth = λ i. ground (arith, ex.depth i, at);
    },
  )
]

sign_lem : (me : ℕ) (m : Machine) → Exclusive m → m.place me ≡ taken → Goes (sign me m)
sign_lem me m ex at =
    let own : is_owner (m.place me) ≡ true = rw at refl in
    (
      _,
      refl,
      record {
        held = λ i own'. ex.held me own;
        single = λ i j own' own''. ground (arith, ex.single i j, at);
        named = λ i own'. ground (arith, ex.single i me, at);
        names = λ i eq. ground (arith, at);
        masked = λ i own'. ground (arith, ex.masked i, ex.masked me, at);
        depth = λ i. ground (arith, ex.depth i, at);
      },
    )

leave_lem : (me : ℕ) (m : Machine) → Exclusive m → m.place me ≡ inside → Goes (leave me m)
unfolding holding
leave_lem me m ex at =
    let own : is_owner (m.place me) ≡ true = rw at refl in
    let mine : m.lock.cpu ≡ some me = ex.named me (rw at refl) in
    let held : (m.lock.locked && is_cpu m.lock.cpu me) ≡ true =
      ground (arith, ex.held me own, mine) in
    rw held (
      _,
      refl,
      record {
        held = λ i own'. ex.held me own;
        single = λ i j own' own''. ground (arith, ex.single i j, at);
        named = λ i own'. ground (arith, ex.single i me, at);
        names = λ i eq. ground (arith, at);
        masked = λ i own'. ground (arith, ex.masked i, ex.masked me, at);
        depth = λ i. ground (arith, ex.depth i, at);
      },
    )

free_lem : (me : ℕ) (m : Machine) → Exclusive m → m.place me ≡ leaving → Goes (free me m)
unfolding popcli
free_lem me m ex at =
    let off : (m.cpus me).interrupts ≡ false = ex.masked me (rw at refl) in
    let one : (m.cpus me).ncli ≡ 1 = ground (arith, ex.depth me, at) in
    let own : is_owner (m.place me) ≡ true = rw at refl in
    let unnamed : (i : ℕ) → m.lock.cpu ≢ some i =
      λ i eq. ground (arith, ex.names i eq, ex.single i me, at) in
    rw (off, one)
      (
        _,
        refl,
        record {
          held = λ i own'. ground (arith, ex.single i me, at);
          single = λ i j own' own''. ground (arith, ex.single i j, at);
          named = λ i own'. ground (arith, ex.single i me, at);
          names = λ i eq. absurd (unnamed i eq);
          masked = λ i own'. ground (arith, ex.masked i, ex.masked me, at);
          depth = λ i. ground (arith, ex.depth i, at);
        },
      )

-- A step of any CPU of a machine with an exclusive lock does not panic, and keeps it exclusive.
pub advance-Exclusive : (me : ℕ) (m : Machine) → Exclusive m → Goes (advance me m)
unfolding advance
advance-Exclusive me m ex =
    elim (m.place me)
        as (λ p.
          m.place me ≡ p
          → Goes (elim p [
            | outside ↦ enter me m
            | spinning ↦ spin me m
            | taken ↦ sign me m
            | inside ↦ leave me m
            | leaving ↦ free me m
          ])) [
            | outside ↦ enter_lem me m ex
            | spinning ↦ spin_lem me m ex
            | taken ↦ sign_lem me m ex
            | inside ↦ leave_lem me m ex
            | leaving ↦ free_lem me m ex
          ]
      refl

-- The CPUs take one step each in the order of the list.
abbrev pub run : List ℕ → Machine → Outcome Machine
run [] m = done m
run (me ∷ later) m = advance me m >>= run later

run-Exclusive : (schedule : List ℕ) (m : Machine) → Exclusive m → Goes (run schedule m)
run-Exclusive [] m ex = (m, refl, ex)
run-Exclusive (me ∷ later) m ex =
    let (m₁, step, ex₁) = advance-Exclusive me m ex in rw step (run-Exclusive later m₁ ex₁)

-- Before anyone uses the lock.
abbrev pub at_start : (ℕ → Cpu) → Machine
at_start cpus = record { lock = initlock; cpus = cpus; place = λ i. outside }

start-Exclusive : (cpus : ℕ → Cpu) → ((i : ℕ) → (cpus i).ncli ≡ 0) → Exclusive (at_start cpus)
unfolding initlock
start-Exclusive cpus shallow = record {
  held = λ i own. ground arith;
  single = λ i j own own'. ground arith;
  named = λ i own. ground arith;
  names = λ i eq. ground arith;
  masked = λ i own. ground arith;
  depth = λ i. shallow i;
}

-- From a fresh lock and CPUs at depth 0, no interleaving of `acquire` and `release` panics, two CPUs
-- are never both between taking and freeing the lock, and `holding` is true exactly of the CPU in
-- its critical section, which has its interrupts off.
pub mutual_exclusion :
    (schedule : List ℕ) (cpus : ℕ → Cpu)
    → ((i : ℕ) → (cpus i).ncli ≡ 0)
    → (m : Machine) × (run schedule (at_start cpus) ≡ done m)
      × ((i j : ℕ) → is_owner (m.place i) ≡ true → is_owner (m.place j) ≡ true → i ≡ j)
      × ((i : ℕ) → holding i m.lock ≡ is_inside (m.place i))
      × ((i : ℕ) → is_inside (m.place i) ≡ true → (m.cpus i).interrupts ≡ false)
unfolding holding
mutual_exclusion schedule cpus shallow =
    let (m, ran, ex) = run-Exclusive schedule (at_start cpus) (start-Exclusive cpus shallow) in
    (
      m,
      ran,
      ex.single,
      λ i. ground (arith, ex.named i, ex.names i, ex.held i),
      λ i own. ground (arith, ex.masked i),
    )

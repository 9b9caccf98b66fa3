-- ===== src/Proc/Killing.antt =====
-- `kill` of kernel/proc.c, and what it does with pid 0, the pid of a slot that holds no process.
use lainos_fail.Base.{
  ℕ, zero, suc, ◌+◌, ◌≤◌, ◌<◌, ◌≡◌, ◌≢◌, refl, true, false, some, arith, ◌==◌, Bool-cases, inl, inr,
  update,
}
use lainos_fail.Proc.{
  Procs, nproc, embryo, sleeping, is_unused, marked, kill_from, kill, find_unused, take_slot,
  alloc_found, allocproc,
}

kill_from_first :
    (k i pid j : ℕ) (t : Procs)
    → i ≤ j
    → j < i + k
    → ((l : ℕ) → i ≤ l → l < j → (t l).pid ≢ pid)
    → (t j).pid ≡ pid
    → kill_from k i pid t ≡ (true, update t j (marked (t j)))
unfolding kill_from
kill_from_first zero i pid j t lo hi before e = absurd (omega arith)
kill_from_first (suc k) i pid j t lo hi before e = elim (Bool-cases (i == j)) [
  | inl here ↦
      let at : i ≡ j = ground arith in
      let hit : ((t i).pid == pid) ≡ true = rw at (ground arith) in rw (hit, at)
  | inr later ↦
      let lt : i < j = ground arith in
      let miss : ((t i).pid == pid) ≡ false = ground (arith, before i (omega arith) lt) in
      rw miss (
        kill_from_first k (i + 1) pid j t (omega arith) (omega arith)
          (λ l lo' hi'. before l (omega arith) hi') e)
]

kill_from_none :
    (k i pid : ℕ) (t : Procs)
    → ((l : ℕ) → i ≤ l → l < i + k → (t l).pid ≢ pid)
    → kill_from k i pid t ≡ (false, t)
unfolding kill_from
kill_from_none zero i pid t all = refl
kill_from_none (suc k) i pid t all =
    let miss : ((t i).pid == pid) ≡ false = ground (arith, all i (omega arith) (omega arith)) in
    rw miss (kill_from_none k (i + 1) pid t (λ l lo hi. all l (omega arith) (omega arith)))

-- The first slot with the pid.
pub record First (t : Procs) (pid j : ℕ) : Type 0 where
  pub inside : j < nproc
  pub before : (l : ℕ) → l < j → (t l).pid ≢ pid
  pub at : (t j).pid ≡ pid

-- `kill` succeeds exactly on a pid that some slot has: the first such slot is marked killed and
-- does not sleep any more, and every other slot is as it was. Without one nothing changes.
pub kill_lem :
    (pid : ℕ) (t : Procs)
    → ((j : ℕ)
        → First t pid j
        → ((kill pid t).0 ≡ true)
          × (((kill pid t).1 j).killed ≡ true)
          × (((kill pid t).1 j).state ≢ sleeping)
          × ((l : ℕ) → l ≢ j → (kill pid t).1 l ≡ t l))
      × (((l : ℕ) → l < nproc → (t l).pid ≢ pid) → kill pid t ≡ (false, t))
unfolding kill
kill_lem pid t = (
  λ j f.
      rw (kill_from_first nproc 0 pid j t (omega arith) f.inside (λ l lo hi. f.before l hi) f.at)
        (refl, ground arith, ground arith, λ l ne. ground arith),
  λ all. kill_from_none nproc 0 pid t (λ l lo hi. all l hi),
)

find_unused_first :
    (k i j : ℕ) (t : Procs)
    → i ≤ j
    → j < i + k
    → ((l : ℕ) → i ≤ l → l < j → is_unused (t l).state ≡ false)
    → is_unused (t j).state ≡ true
    → find_unused k i t ≡ some j
unfolding find_unused
find_unused_first zero i j t lo hi before e = absurd (omega arith)
find_unused_first (suc k) i j t lo hi before e = elim (Bool-cases (i == j)) [
  | inl here ↦
      let at : i ≡ j = ground arith in
      let hit : is_unused (t i).state ≡ true = rw at e in rw (hit, at)
  | inr later ↦
      let lt : i < j = ground arith in
      rw (before i (omega arith) lt) (
        find_unused_first k (i + 1) j t (omega arith) (omega arith)
          (λ l lo' hi'. before l (omega arith) hi') e)
]

-- Where the first slot with pid 0 is also the first free one, `kill` of pid 0 reports success,
-- and the next process that `allocproc` sets up in that slot is killed before it starts.
pub kill_zero_poisons :
    (j stack next : ℕ) (t : Procs)
    → First t 0 j
    → ((l : ℕ) → l < j → is_unused (t l).state ≡ false)
    → is_unused (t j).state ≡ true
    → stack ≢ 0
    → let (found, t') = kill 0 t in
      let (slot, s) = allocproc stack (record { procs = t'; nextpid = next }) in
      (found ≡ true) × (slot ≡ some j) × ((s.procs j).state ≡ embryo) × ((s.procs j).killed ≡ true)
unfolding kill allocproc alloc_found take_slot
kill_zero_poisons j stack next t f busy free given =
    let k = kill_from_first nproc 0 0 j t (omega arith) f.inside (λ l lo hi. f.before l hi) f.at in
    let t' : Procs = update t j (marked (t j)) in
    let found =
      find_unused_first nproc 0 j t' (omega arith) f.inside
        (λ l lo hi. let b = busy l hi in ground arith) (ground arith) in
    rw (k, found) (refl, ground arith, ground arith, ground arith)

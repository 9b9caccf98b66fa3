-- ===== src/Spinlock/Tests.antt =====
-- Two CPUs that take the lock in turn, and instances of the theorems of kernel/spinlock.c.
use lainos_fail.Base.{ℕ, ◌≡◌, refl, true, false, [], ◌∷◌, done}
use lainos_fail.Spinlock.{Cpu, Machine, holding}
use lainos_fail.Spinlock.Mutex.{is_owner, is_inside, run, at_start, mutual_exclusion}

abbrev idle : Cpu
idle = record { ncli = 0; intena = false; interrupts = true }

mutual_exclusion_example :
    (m : Machine) × (run (0 ∷ 1 ∷ 0 ∷ 1 ∷ 0 ∷ 1 ∷ []) (at_start (λ i. idle)) ≡ done m)
    × ((i j : ℕ) → is_owner (m.place i) ≡ true → is_owner (m.place j) ≡ true → i ≡ j)
    × ((i : ℕ) → holding i m.lock ≡ is_inside (m.place i))
    × ((i : ℕ) → is_inside (m.place i) ≡ true → (m.cpus i).interrupts ≡ false)
mutual_exclusion_example = mutual_exclusion (0 ∷ 1 ∷ 0 ∷ 1 ∷ 0 ∷ 1 ∷ []) (λ i. idle) (λ i. refl)

-- ===== src/Spinlock/Nesting.antt =====
-- `pushcli` and `popcli` of kernel/spinlock.c are matched.
use lainos_fail.Base.{
  ℕ, zero, suc, ◌-◌, ◌≡◌, ◌≢◌, refl, Bool, false, ◌&&◌, ◌==◌, arith, if◌then◌else◌, Outcome, done,
  ◌>>=◌, Bool-cases, inl, inr,
}
use lainos_fail.Spinlock.{Cpu, pushcli, popcli}

abbrev pub pushes : ℕ → Cpu → Cpu
pushes zero c = c
pushes (suc n) c = pushes n (pushcli c)

abbrev pub pops : ℕ → Cpu → Outcome Cpu
pops zero c = done c
pops (suc n) c = pops n c >>= popcli

popcli_lem :
    (c : Cpu) (d : ℕ)
    → c.interrupts ≡ false
    → c.ncli ≡ suc d
    → (c' : Cpu) × (popcli c ≡ done c')
      × (c'.ncli ≡ d)
      × (c'.interrupts ≡ ((d == 0) && c.intena))
      × (c'.intena ≡ c.intena)
unfolding popcli
popcli_lem c d off deep =
    let outer : Bool = (d == 0) && c.intena in
    let less : suc d - 1 ≡ d = omega arith in
    let test : (suc d == 0) ≡ false = ground arith in
    rw (off, deep, less, test)
      (elim (Bool-cases outer) [
        | inl e ↦ rw e (_, refl, refl, refl, refl)
        | inr e ↦ rw e (_, refl, refl, refl, refl)
      ])

-- As many `popcli` as `pushcli` restore the depth and the interrupt flag: interrupts that were off
-- stay off, and no `popcli` panics. `intena` is only kept while the depth is not 0.
pub pops-pushes :
    (n : ℕ) (c : Cpu)
    → (c.ncli ≢ 0 → c.interrupts ≡ false)
    → (c' : Cpu) × (pops n (pushes n c) ≡ done c')
      × (c'.ncli ≡ c.ncli)
      × (c'.interrupts ≡ c.interrupts)
      × (c.ncli ≢ 0 → c'.intena ≡ c.intena)
unfolding pushcli
pops-pushes zero c off = (c, refl, refl, refl, λ ne. refl)
pops-pushes (suc n) c off =
    let (c₁, ran, depth, flag, kept) = pops-pushes n (pushcli c) (λ ne. refl) in
    let (c₂, popped, depth₂, flag₂, kept₂) = popcli_lem c₁ c.ncli flag (ground (arith, depth)) in
    let saved : c₁.intena ≡ (if c.ncli == 0 then c.interrupts else c.intena) = kept (omega arith) in
    (
      c₂,
      rw ran popped,
      depth₂,
      ground (arith, flag₂, saved, off),
      λ ne. ground (arith, kept₂, saved),
    )

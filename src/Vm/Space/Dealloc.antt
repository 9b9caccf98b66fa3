-- ===== src/Vm/Space/Dealloc.antt =====
-- What `deallocuvm` of kernel/vm.c frees.
use lainos_fail.Base.{
  ℕ, zero, suc, ◌+◌, ◌-◌, ◌*◌, ◌/◌, ◌%◌, ◌^◌, ◌<◌, ◌≤◌, ◌≡◌, refl, sym, ◌∙◌, ap, subst, true, false,
  List, ◌∷◌, arith, ltb, leb, if◌then◌else◌, Bool-cases, Outcome, done, min, inl, inr, add32,
}
use lainos_fail.Kalloc.{page_size, kern_base, Kmem, page_round_up}
use lainos_fail.Vm.{pdx, is_present, walkpgdir}
use lainos_fail.Vm.Tree.{has_table, slot, entry_at, IsTree}
use lainos_fail.Vm.Pages.{same_page}
use lainos_fail.Vm.Space.Clears.{returned, returned-cong, Clears, Clears-kept, Clears-round}
use lainos_fail.Vm.Space.{free_entry, free_from, deallocuvm}
use lainos_fail.Vm.Space.Owned.{IsOwned}
use lainos_fail.Vm.Space.Free.{
  x, cleared, round_runs, round-IsTree, round_entry, round_dir, round-IsOwned,
}

-- What freeing the `n` pages from `a` does.
abbrev pub Frees : (kernel_end n pgdir a : ℕ) → Kmem → List ℕ → Outcome Kmem → Type 0
Frees kernel_end n pgdir a k ps o =
    (k' : Kmem) × (o ≡ done k')
    × IsTree kernel_end pgdir k' (returned n pgdir a k ps)
    × IsOwned kernel_end pgdir k' (returned n pgdir a k ps)
    × Clears pgdir a (a + n * page_size) k k'

-- Every address from `a` to `b` has a page table.
abbrev pub HasTables : (pgdir a b : ℕ) → Kmem → Type 0
HasTables pgdir a b k = (va : ℕ) → a ≤ va → va < b → has_table pgdir (pdx va) k ≡ true

free_from-stops :
    (fuel kernel_end pgdir a b : ℕ) (k : Kmem)
    → b ≤ a
    → free_from fuel kernel_end pgdir a b k ≡ done k
unfolding free_from
free_from-stops zero kernel_end pgdir a b k le = refl
free_from-stops (suc fuel) kernel_end pgdir a b k le =
    let stop : ltb a b ≡ false = ground (arith, le) in rw stop refl

free_from-goes :
    (fuel kernel_end pgdir a b : ℕ) (k k' : Kmem)
    → a < b
    → a + page_size < 2 ^ 32
    → has_table pgdir (pdx a) k ≡ true
    → free_entry kernel_end (slot pgdir a k) k ≡ done k'
    → free_from (suc fuel) kernel_end pgdir a b k
      ≡ free_from fuel kernel_end pgdir (a + page_size) b k'
unfolding free_from walkpgdir
free_from-goes fuel kernel_end pgdir a b k k' lt small there ran =
    let go : ltb a b ≡ true = ground (arith, lt) in
    let next : add32 a page_size ≡ a + page_size = omega (arith, small) in
    rw (go, there, ran, next) refl

-- An entry that is not present is left as it is.
skips :
    (kernel_end pte : ℕ) (k : Kmem)
    → is_present (k.word pte) ≡ false
    → free_entry kernel_end pte k ≡ done k
skips kernel_end pte k absent = rw absent refl

free_from-Frees :
    (n fuel kernel_end pgdir a b : ℕ) (k : Kmem) (ps : List ℕ)
    → kern_base < kernel_end
    → n ≤ fuel
    → a % page_size ≡ 0
    → b ≤ kern_base
    → b ≤ a + n * page_size
    → a + n * page_size < b + page_size
    → IsTree kernel_end pgdir k ps
    → IsOwned kernel_end pgdir k ps
    → HasTables pgdir a b k
    → Frees kernel_end n pgdir a k ps (free_from fuel kernel_end pgdir a b k)
free_from-Frees zero fuel kernel_end pgdir a b k ps end enough aligned user reach near t o has = (
  k,
  free_from-stops fuel kernel_end pgdir a b k (omega (arith, reach)),
  t,
  o,
  λ va small. ground arith,
)
free_from-Frees (suc n) zero kernel_end pgdir a b k ps end enough aligned user reach near t o has =
    absurd (omega (arith, enough))
free_from-Frees (suc n) (suc fuel) kernel_end pgdir a b k ps end enough aligned user reach near t o
      has =
    let low : a < b = omega (arith, near) in
    let there = has a (omega arith) low in
    let here : entry_at pgdir a k ≡ k.word (slot pgdir a k) = rw there refl in
    elim (Bool-cases (is_present (entry_at pgdir a k))) [
      | inr absent ↦
          let (k', ran, t', o', clear) =
            free_from-Frees n fuel kernel_end pgdir (a + page_size) b k ps end
              (omega (arith, enough)) (omega (arith, aligned)) user (omega (arith, reach))
              (omega (arith, near)) t o (λ va le lt. has va (omega (arith, le)) lt) in
          rw absent (
            k',
            free_from-goes fuel kernel_end pgdir a b k k low (omega (arith, low, user)) there (
                  skips kernel_end (slot pgdir a k) k
                    (subst (λ e. is_present e ≡ false) here absent))
                ∙ ran,
            t',
            o',
            Clears-kept n pgdir a k k' aligned absent clear,
          )
      | inl mapped ↦
          let user_a : a < kern_base = omega (arith, low, user) in
          let v : ℕ = x kernel_end pgdir a k ps end user_a t o there mapped in
          let k₂ : Kmem = cleared kernel_end pgdir a k ps end user_a t o there mapped in
          let entries = round_entry kernel_end pgdir a k ps end user_a t o there mapped in
          let (k', ran, t', o', clear) =
            free_from-Frees n fuel kernel_end pgdir (a + page_size) b k₂ (v ∷ ps) end
              (omega (arith, enough)) (omega (arith, aligned)) user (omega (arith, reach))
              (omega (arith, near))
              (round-IsTree kernel_end pgdir a k ps end user_a t o there mapped)
              (round-IsOwned kernel_end pgdir a k ps end user_a t o there mapped)
              (λ va le lt.
                ap (λ e. is_present e)
                  (round_dir kernel_end pgdir a k ps end user_a t o there mapped (pdx va)
                    (omega arith))
                ∙ has va (omega (arith, le)) lt) in
          let same : returned n pgdir (a + page_size) k₂ (v ∷ ps)
              ≡ returned n pgdir (a + page_size) k (v ∷ ps) =
            returned-cong n pgdir (a + page_size) k k₂ (v ∷ ps) (λ va le lt.
              let other : same_page va a ≡ false = ground (arith, le) in
              entries va (omega (arith, lt, near, user))
              ∙ ap (λ q. if q then 0 else entry_at pgdir va k) other) in
          rw mapped (
            k',
            free_from-goes fuel kernel_end pgdir a b k k₂ low (omega (arith, low, user)) there
                  (round_runs kernel_end pgdir a k ps end user_a t o there mapped)
                ∙ ran,
            subst (λ l. IsTree kernel_end pgdir k' l) same t',
            subst (λ l. IsOwned kernel_end pgdir k' l) same o',
            Clears-round n pgdir a k k₂ k' aligned mapped entries clear,
          )
    ]

deallocuvm-runs :
    (kernel_end pgdir oldsz newsz : ℕ) (k k' : Kmem)
    → leb oldsz newsz ≡ false
    → page_round_up newsz % 2 ^ 32 ≡ page_round_up newsz
    → free_from (oldsz / page_size + 1) kernel_end pgdir (page_round_up newsz) oldsz k ≡ done k'
    → deallocuvm kernel_end pgdir oldsz newsz k ≡ done (newsz, k')
unfolding deallocuvm
deallocuvm-runs kernel_end pgdir oldsz newsz k k' gt start ran = rw (gt, start, ran) refl

-- What shrinking to `newsz` does: the pages of the entries given up are freed, in the order of their addresses.
abbrev pub Shrinks :
    (kernel_end pgdir oldsz newsz : ℕ) → Kmem → List ℕ → Outcome (ℕ × Kmem) → Type 0
Shrinks kernel_end pgdir oldsz newsz k ps o =
    let a = page_round_up newsz in
    let ps' = returned ((page_round_up oldsz - a) / page_size) pgdir a k ps in
    (k' : Kmem) × (o ≡ done (min oldsz newsz, k'))
    × IsTree kernel_end pgdir k' ps'
    × IsOwned kernel_end pgdir k' ps'
    × Clears pgdir a (page_round_up oldsz) k k'

-- `deallocuvm` in the user part, whose pages belong to the process and have page tables, frees the pages
-- mapped from `newsz` up to `oldsz`, rounded up, clears their entries, and keeps every other entry; the tables
-- stay sound and the pages left still belong to the process alone. It returns the smaller size.
pub deallocuvm-Shrinks :
    (kernel_end pgdir oldsz newsz : ℕ) (k : Kmem) (ps : List ℕ)
    → kern_base < kernel_end
    → oldsz ≤ kern_base
    → IsTree kernel_end pgdir k ps
    → IsOwned kernel_end pgdir k ps
    → HasTables pgdir newsz oldsz k
    → Shrinks kernel_end pgdir oldsz newsz k ps (deallocuvm kernel_end pgdir oldsz newsz k)
unfolding deallocuvm
deallocuvm-Shrinks kernel_end pgdir oldsz newsz k ps end user t o has =
    elim (Bool-cases (leb oldsz newsz)) [
      | inl le ↦
          let none_freed : (page_round_up oldsz - page_round_up newsz) / page_size ≡ 0 =
            ground (arith, le) in
          let size : min oldsz newsz ≡ oldsz = ground (arith, le) in
          rw (le, none_freed, size) (k, refl, t, o, λ va small. ground (arith, le))
      | inr gt ↦
          let a : ℕ = page_round_up newsz in
          let n : ℕ = (page_round_up oldsz - a) / page_size in
          let lt : newsz < oldsz = ground (arith, gt) in
          let start : a % 2 ^ 32 ≡ a = omega (arith, lt, user) in
          let stop : a + n * page_size ≡ page_round_up oldsz = omega (arith, lt) in
          let size : min oldsz newsz ≡ newsz = ground (arith, lt) in
          let (k', ran, t', o', clear) =
            free_from-Frees n (oldsz / page_size + 1) kernel_end pgdir a oldsz k ps end
              (omega (arith, lt)) (omega arith) user (omega (arith, stop)) (omega (arith, stop)) t o
              (λ va le below. has va (omega (arith, le)) below) in
          let whole = deallocuvm-runs kernel_end pgdir oldsz newsz k k' gt start ran in
          (
            k',
            whole ∙ ap (λ m. done (m, k')) (sym size),
            t',
            o',
            subst (λ b. Clears pgdir a b k k') stop clear,
          )
    ]

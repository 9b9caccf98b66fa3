-- ===== src/Vm/Space/Clears.antt =====
-- The entries and the free list after pages of kernel/vm.c are given up.
use lainos_fail.Base.{
  ℕ, zero, suc, ◌+◌, ◌*◌, ◌%◌, ◌^◌, ◌<◌, ◌≤◌, ◌≡◌, refl, sym, ◌∙◌, ap, ap₂, subst, Bool, true,
  false, ◌&&◌, List, ◌∷◌, arith, ltb, leb, if◌then◌else◌, Bool-cases, inl, inr,
}
use lainos_fail.Kalloc.{page_size, Kmem}
use lainos_fail.Vm.{p2v, pte_addr, is_present}
use lainos_fail.Vm.Tree.{entry_at}
use lainos_fail.Vm.Pages.{same_page}
use lainos_fail.Vm.Pages.{same_entry}
use lainos_fail.Vm.Space.Owned.{page_of_entry}

-- The free list after the pages of the `n` entries from `a` on went in front of `ps`.
abbrev pub returned : (n pgdir a : ℕ) → Kmem → List ℕ → List ℕ
returned zero pgdir a k ps = ps
returned (suc n) pgdir a k ps =
    returned n pgdir (a + page_size) k
      (if is_present (entry_at pgdir a k) then page_of_entry pgdir a k ∷ ps else ps)

-- The entries that are present from `a` to `b` are cleared, and the others kept.
abbrev pub Clears : (pgdir a b : ℕ) → Kmem → Kmem → Type 0
Clears pgdir a b k k' =
    (va : ℕ)
    → va < 2 ^ 32
    → entry_at pgdir va k' ≡ (
        if leb a va && ltb va b && is_present (entry_at pgdir va k) then 0 else entry_at pgdir va k)

pub returned-cong :
    (n pgdir a : ℕ) (k k' : Kmem) (ps : List ℕ)
    → ((va : ℕ) → a ≤ va → va < a + n * page_size → entry_at pgdir va k' ≡ entry_at pgdir va k)
    → returned n pgdir a k' ps ≡ returned n pgdir a k ps
returned-cong zero pgdir a k k' ps same = refl
returned-cong (suc n) pgdir a k k' ps same =
    let here = same a (omega arith) (omega arith) in
    returned-cong n pgdir (a + page_size) k k' _
      (λ va le lt. same va (omega (arith, le)) (omega (arith, lt)))
    ∙ ap
        (λ e.
          returned n pgdir (a + page_size) k (if is_present e then p2v (pte_addr e) ∷ ps else ps))
        here

absent_stays : (b c p : Bool) (e : ℕ) → p ≡ false → (if b && c && p then 0 else e) ≡ e
absent_stays true true p e missing = rw missing refl
absent_stays true false p e missing = refl
absent_stays false c p e missing = refl

zero_if : (b : Bool) → (if b then 0 else 0) ≡ zero
zero_if true = refl
zero_if false = refl

later_range :
    (n a va : ℕ)
    → a % page_size ≡ 0
    → same_page va a ≡ false
    → (leb (a + page_size) va && ltb va (a + page_size + n * page_size))
      ≡ (leb a va && ltb va (a + suc n * page_size))
later_range n a va aligned other = ground (arith, aligned, other)

pub Clears-kept :
    (n pgdir a : ℕ) (k k' : Kmem)
    → a % page_size ≡ 0
    → is_present (entry_at pgdir a k) ≡ false
    → Clears pgdir (a + page_size) (a + page_size + n * page_size) k k'
    → Clears pgdir a (a + suc n * page_size) k k'
Clears-kept n pgdir a k k' aligned absent rest va small = elim (Bool-cases (same_page va a)) [
  | inl same ↦
      let e = same_entry pgdir k va a (ground (arith, same)) in
      let p : is_present (entry_at pgdir va k) ≡ false =
        subst (λ w. is_present w ≡ false) (sym e) absent in
      rest va small
      ∙ absent_stays (leb (a + page_size) va) (ltb va (a + page_size + n * page_size)) _
          (entry_at pgdir va k) p
      ∙ sym (absent_stays (leb a va) (ltb va (a + suc n * page_size)) _ (entry_at pgdir va k) p)
  | inr other ↦
      rest va small
      ∙ ap (λ q. if q && is_present (entry_at pgdir va k) then 0 else entry_at pgdir va k)
          (later_range n a va aligned other)
]

pub Clears-round :
    (n pgdir a : ℕ) (k k₂ k' : Kmem)
    → a % page_size ≡ 0
    → is_present (entry_at pgdir a k) ≡ true
    → ((va : ℕ)
        → va < 2 ^ 32
        → entry_at pgdir va k₂ ≡ (if same_page va a then 0 else entry_at pgdir va k))
    → Clears pgdir (a + page_size) (a + page_size + n * page_size) k₂ k'
    → Clears pgdir a (a + suc n * page_size) k k'
Clears-round n pgdir a k k₂ k' aligned mapped here rest va small =
    let new = here va small in
    elim (Bool-cases (same_page va a)) [
      | inl same ↦
          let e = same_entry pgdir k va a (ground (arith, same)) in
          let p : is_present (entry_at pgdir va k) ≡ true =
            subst (λ w. is_present w ≡ true) (sym e) mapped in
          let gone : entry_at pgdir va k₂ ≡ 0 =
            new ∙ ap (λ q. if q then 0 else entry_at pgdir va k) same in
          let inside : (leb a va && ltb va (a + suc n * page_size)) ≡ true =
            ground (arith, same, aligned) in
          rest va small
          ∙ rw gone
              (zero_if _ ∙ sym (ap₂ (λ q r. if q && r then 0 else entry_at pgdir va k) inside p))
      | inr other ↦
          let kept : entry_at pgdir va k₂ ≡ entry_at pgdir va k =
            new ∙ ap (λ q. if q then 0 else entry_at pgdir va k) other in
          rest va small
          ∙ ap
              (λ w.
                if leb (a + page_size) va && ltb va (a + page_size + n * page_size) && is_present w
                then 0
                else w)
              kept
          ∙ ap (λ q. if q && is_present (entry_at pgdir va k) then 0 else entry_at pgdir va k)
              (later_range n a va aligned other)
    ]

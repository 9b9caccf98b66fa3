-- ===== src/Vm/Map.antt =====
-- `mappages` of kernel/vm.c sets the entries of the pages it is given, and no other.
use Prim.Native.Nat.{bit_or}
use lainos_fail.Base.{
  ℕ, zero, suc, ◌+◌, ◌-◌, ◌*◌, ◌/◌, ◌^◌, ◌≤◌, ◌<◌, ◌≡◌, ◌⊎◌, inl, inr, refl, ap, sym, subst, ◌∙◌,
  Bool, true, false, List, [], arith, if◌then◌else◌, add32, sub32, Bool-cases, Outcome, done,
  panics,
}
use lainos_fail.Kalloc.{page_size, Kmem}
use lainos_fail.Vm.{
  pdx, is_present, or_flags, write_word, map_page, map_from, mappages, page_round_down,
}
use lainos_fail.Vm.Tree.{has_table, slot, entry_at, IsTree, written-IsTree}
use lainos_fail.Vm.Pages.{same_page, written_entry}
use lainos_fail.Vm.Walk.{walkpgdir-Walks}

-- The entry that `mappages` writes.
abbrev pub leaf : (pa perm : ℕ) → ℕ
leaf pa perm = or_flags pa (bit_or perm 1)

-- The entries after `n + 1` pages from `a` are mapped to those from `pa` on.
abbrev pub mapped_entry : (n a pa perm va old : ℕ) → ℕ
mapped_entry zero a pa perm va old = if same_page va a then leaf pa perm else old
mapped_entry (suc n) a pa perm va old =
    if same_page va a
    then leaf pa perm
    else mapped_entry n (a + page_size) (add32 pa page_size) perm va old

-- What mapping `n + 1` pages may do: panic at an entry that is present, run out of pages for page tables, or set the
-- entries.
abbrev pub Maps : (kernel_end pgdir n a pa perm : ℕ) → Kmem → Outcome (Bool × Kmem) → Type 0
Maps kernel_end pgdir n a pa perm k o =
    ((o ≡ panics)
      × ((i : ℕ) × (i ≤ n) × (is_present (entry_at pgdir (a + i * page_size) k) ≡ true)))
    ⊎ ((k' : Kmem) × (o ≡ done (false, k')) × IsTree kernel_end pgdir k' [])
    ⊎ ((k' : Kmem) × (ps' : List ℕ) × (o ≡ done (true, k'))
        × IsTree kernel_end pgdir k' ps'
        × ((va : ℕ)
            → va < 2 ^ 32
            → entry_at pgdir va k' ≡ mapped_entry n a pa perm va (entry_at pgdir va k)))

entry_at-slot :
    (pgdir va : ℕ) (k : Kmem)
    → has_table pgdir (pdx va) k ≡ true
    → entry_at pgdir va k ≡ k.word (slot pgdir va k)
entry_at-slot pgdir va k there = rw there refl

map_page-Maps :
    (kernel_end pgdir a pa perm : ℕ) (k : Kmem) (ps : List ℕ)
    → a < 2 ^ 32
    → IsTree kernel_end pgdir k ps
    → Maps kernel_end pgdir 0 a pa perm k (map_page pgdir a pa perm k)
map_page-Maps kernel_end pgdir a pa perm k ps word t =
    elim (walkpgdir-Walks kernel_end pgdir a k ps t) [
      | inl (ran, empty, missing) ↦
          inr (inl (k, rw ran refl, subst (λ l. IsTree kernel_end pgdir k l) empty t))
      | inr (k', ps', ran, there, t', leaves, same, frame) ↦
          let here : entry_at pgdir a k' ≡ k'.word (slot pgdir a k') =
            entry_at-slot pgdir a k' there in
          elim (Bool-cases (is_present (k'.word (slot pgdir a k')))) [
            | inl taken ↦
                let at : a + 0 * page_size ≡ a = omega arith in
                inl (
                  rw (ran, taken) refl,
                  (
                    0,
                    omega arith,
                    rw at (subst (λ e. is_present e ≡ true) (sym here ∙ same a) taken),
                  ),
                )
            | inr empty ↦
                let k'' : Kmem = write_word (slot pgdir a k') (leaf pa perm) k' in
                inr (
                  inr (
                    k'',
                    ps',
                    rw (ran, empty) refl,
                    written-IsTree kernel_end pgdir a (leaf pa perm) k' ps' t' there,
                    λ va small.
                        written_entry kernel_end pgdir a (leaf pa perm) k' ps' t' there word va
                          small
                        ∙ ap (λ old. if same_page va a then leaf pa perm else old) (same va),
                  ))
          ]
    ]

-- An address below the pages keeps its entry.
mapped_entry_below :
    (n a pa perm va old : ℕ)
    → va / page_size < a / page_size
    → mapped_entry n a pa perm va old ≡ old
mapped_entry_below zero a pa perm va old lt = ground (arith, lt)
mapped_entry_below (suc n) a pa perm va old lt =
    let e : same_page va a ≡ false = ground (arith, lt) in
    rw e (mapped_entry_below n (a + page_size) (add32 pa page_size) perm va old (omega (arith, lt)))

-- The first page and the later ones.
join :
    (n a pa perm va old : ℕ)
    → mapped_entry n
        (a + page_size)
        (add32 pa page_size)
        perm
        va
        (if same_page va a then leaf pa perm else old)
      ≡ (if same_page va a
          then leaf pa perm
          else mapped_entry n (a + page_size) (add32 pa page_size) perm va old)
join n a pa perm va old = elim (Bool-cases (same_page va a)) [
  | inl e ↦
      let at : va / page_size ≡ a / page_size = ground (arith, e) in
      rw e (
        mapped_entry_below n (a + page_size) (add32 pa page_size) perm va (leaf pa perm)
          (omega (arith, at)))
  | inr e ↦ rw e refl
]

map_from-Maps :
    (n kernel_end pgdir a pa perm : ℕ) (k : Kmem) (ps : List ℕ)
    → a + n * page_size < 2 ^ 32
    → IsTree kernel_end pgdir k ps
    → Maps kernel_end pgdir n a pa perm k (map_from n pgdir a pa perm k)
unfolding map_from
map_from-Maps zero kernel_end pgdir a pa perm k ps fits t =
    map_page-Maps kernel_end pgdir a pa perm k ps (omega (arith, fits)) t
map_from-Maps (suc n) kernel_end pgdir a pa perm k ps fits t =
    elim (map_page-Maps kernel_end pgdir a pa perm k ps (omega (arith, fits)) t) [
      | inl (stuck, (i, le, there)) ↦
          let first : i ≡ 0 = omega (arith, le) in
          inl (
            rw stuck refl,
            (
              0,
              omega arith,
              subst (λ j. is_present (entry_at pgdir (a + j * page_size) k) ≡ true) first there,
            ),
          )
      | inr (inl (k₁, ran, t₁)) ↦ inr (inl (k₁, rw ran refl, t₁))
      | inr (inr (k₁, ps₁, ran, t₁, entries)) ↦
          let next : add32 a page_size ≡ a + page_size = omega (arith, fits) in
          let later =
            map_from-Maps n kernel_end pgdir (a + page_size) (add32 pa page_size) perm k₁ ps₁
              (omega (arith, fits)) t₁ in
          elim later [
            | inl (stuck, (i, le, there)) ↦
                let at : a + page_size + i * page_size ≡ a + suc i * page_size = omega arith in
                let other : same_page (a + suc i * page_size) a ≡ false = ground arith in
                let old : entry_at pgdir (a + suc i * page_size) k₁
                    ≡ entry_at pgdir (a + suc i * page_size) k =
                  entries (a + suc i * page_size) (omega (arith, le, fits)) ∙ rw other refl in
                inl (
                  rw (ran, next) stuck,
                  (
                    suc i,
                    omega (arith, le),
                    subst (λ e. is_present e ≡ true) old
                        (subst (λ v. is_present (entry_at pgdir v k₁) ≡ true) at there),
                  ),
                )
            | inr (inl (k₂, failed, t₂)) ↦ inr (inl (k₂, rw (ran, next) failed, t₂))
            | inr (inr (k₂, ps₂, ran₂, t₂, entries₂)) ↦ inr (
                inr (
                  k₂,
                  ps₂,
                  rw (ran, next) ran₂,
                  t₂,
                  λ va small.
                      entries₂ va small
                      ∙ ap (λ e. mapped_entry n (a + page_size) (add32 pa page_size) perm va e)
                          (entries va small)
                      ∙ join n a pa perm va (entry_at pgdir va k),
                ))
          ]
    ]

-- `mappages` of a range that does not wrap maps each page of it to the page at the same distance from `pa`,
-- present and with the permissions, and changes no other entry; or it returns -1 with no page left for page
-- tables; it panics only where an entry of the range is present already. The tables stay sound.
pub mappages-Maps :
    (kernel_end pgdir va size pa perm : ℕ) (k : Kmem) (ps : List ℕ)
    → 0 < size
    → va + size < 2 ^ 32
    → IsTree kernel_end pgdir k ps
    → Maps kernel_end pgdir
        ((va + size - 1) / page_size - va / page_size)
        (page_round_down va)
        pa
        perm
        k
        (mappages pgdir va size pa perm k)
unfolding mappages
mappages-Maps kernel_end pgdir va size pa perm k ps some_bytes fits t =
    let n : ℕ = (va + size - 1) / page_size - va / page_size in
    let count : sub32 (page_round_down (sub32 (add32 va size) 1)) (page_round_down va) / page_size
        ≡ n =
      omega (arith, some_bytes, fits) in
    rw count (
      map_from-Maps n kernel_end pgdir (page_round_down va) pa perm k ps
        (omega (arith, some_bytes, fits)) t)

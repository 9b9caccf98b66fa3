-- ===== src/Vm/Walk.antt =====
-- `walkpgdir` of kernel/vm.c finds or makes the page table of an address.
use lainos_fail.Base.{
  ℕ, ◌+◌, ◌*◌, ◌%◌, ◌≤◌, ◌<◌, ◌≡◌, ◌≢◌, ◌⊎◌, inl, inr, refl, ap, ap₂, sym, subst, ◌∙◌, Bool, true,
  false, List, [], ◌∷◌, Option, none, some, All, arith, ltb, ◌==◌, update, update_self, update_ne,
  Bool-cases,
}
use lainos_fail.Kalloc.{page_size, Kmem, kalloc}
use lainos_fail.Kalloc.Chain.{IsPage, HasFree, Chain, Takes, kalloc_lem, Chain-frame}
use lainos_fail.Vm.{
  pdx, ptx, v2p, p2v, pte_addr, is_present, or_flags, table_flags, zeroed, walkpgdir,
}
use lainos_fail.Vm.Entries.{or_flags-add, pte_addr-add, p2v-v2p}
use lainos_fail.Vm.Tree.{dir_entry, has_table, table, slot, entry_at, IsTree, SamePage}

-- The pages that are free after a walk: as before, or without the first.
abbrev pub Leaves : (ps ps' : List ℕ) → Type 0
Leaves ps ps' = (ps' ≡ ps) ⊎ ((x : ℕ) × (ps ≡ x ∷ ps'))

-- What a walk that makes page tables does: it gives the entry's address in a sound tree with the same entries, or
-- fails with no page free.
abbrev pub Walks : (kernel_end pgdir va : ℕ) → Kmem → List ℕ → Option ℕ × Kmem → Type 0
Walks kernel_end pgdir va k ps o =
    ((o ≡ (none, k)) × (ps ≡ []) × (has_table pgdir (pdx va) k ≡ false))
    ⊎ ((k' : Kmem) × (ps' : List ℕ) × (o ≡ (some (slot pgdir va k'), k'))
        × (has_table pgdir (pdx va) k' ≡ true)
        × IsTree kernel_end pgdir k' ps'
        × Leaves ps ps'
        × ((va' : ℕ) → entry_at pgdir va' k' ≡ entry_at pgdir va' k)
        × ((q : ℕ) → q % page_size ≡ 0 → q ≢ pgdir → All (λ y. y ≢ q) ps → SamePage q k k'))

pub kalloc-word : (k : Kmem) → (kalloc k).1.word ≡ k.word
unfolding kalloc
kalloc-word k = elim (Bool-cases (k.freelist == 0)) [ inl e ↦ rw e refl | inr e ↦ rw e refl ]

kalloc-use_lock : (k : Kmem) → (kalloc k).1.use_lock ≡ k.use_lock
unfolding kalloc
kalloc-use_lock k = elim (Bool-cases (k.freelist == 0)) [ inl e ↦ rw e refl | inr e ↦ rw e refl ]

-- A page table made on the free page `x` for an entry that has none.
module _ (kernel_end pgdir va x fl : ℕ) (k : Kmem) (ps : List ℕ)
    (t : IsTree kernel_end pgdir k (x ∷ ps)) (page : IsPage kernel_end x)
    (out : All (λ y. y ≢ x) ps) (rest : HasFree kernel_end (record k { freelist = fl }) ps)
    (missing : has_table pgdir (pdx va) k ≡ false) where
  abbrev pde : ℕ
  pde = pgdir + 4 * pdx va

  abbrev made : Kmem
  made = record k {
    word = update (zeroed x k.word) pde (or_flags (v2p x) table_flags);
    freelist = fl;
  }

  entry_value : or_flags (v2p x) table_flags ≡ v2p x + 7
  entry_value = or_flags-add (v2p x) 7 (p2v-v2p kernel_end x page).1 (omega arith)

  new_entry : dir_entry pgdir (pdx va) made ≡ v2p x + 7
  new_entry = update_self (zeroed x k.word) pde _ ∙ entry_value

  new_present : has_table pgdir (pdx va) made ≡ true
  new_present = let even = (p2v-v2p kernel_end x page).1 in rw new_entry (ground (arith, even))

  new_page : table pgdir (pdx va) made ≡ x
  new_page =
      let low = (p2v-v2p kernel_end x page).1 in
      rw new_entry
        (ap p2v (pte_addr-add (v2p x) 7 low (omega arith)) ∙ (p2v-v2p kernel_end x page).0)

  apart_x : x ≢ pgdir
  apart_x = t.root_taken.0

  -- What is neither in the new page nor the entry stays.
  same_word : (a : ℕ) → (a < x) ⊎ (x + page_size ≤ a) → a ≢ pde → made.word a ≡ k.word a
  same_word a (inl lt) ne = ground (arith, lt, ne)
  same_word a (inr le) ne = ground (arith, le, ne)

  outside :
      (q o : ℕ) → q % page_size ≡ 0 → o < page_size → q ≢ x → (q + o < x) ⊎ (x + page_size ≤ q + o)
  outside q o aligned lt ne =
      let aligned' = page.aligned in
      elim (Bool-cases (ltb (q + o) x)) [
        | inl below ↦ inl (ground (arith, below))
        | inr above ↦ inr (ground (arith, above, aligned, aligned', lt, ne))
      ]

  other_entry : (i : ℕ) → i < 1024 → i ≢ pdx va → dir_entry pgdir i made ≡ dir_entry pgdir i k
  other_entry i lt ne =
      let root = t.root.aligned in
      let apart = apart_x in
      same_word (pgdir + 4 * i)
        (outside pgdir (4 * i) root (omega (arith, lt)) (λ e. apart (sym e))) (omega (arith, ne))

  made-SamePage : (q : ℕ) → q % page_size ≡ 0 → q ≢ pgdir → q ≢ x → SamePage q k made
  made-SamePage q aligned ne ne' o lt =
      let root = t.root.aligned in
      same_word (q + o) (outside q o aligned lt ne') (omega (arith, root, aligned, ne, lt))

  -- A property of the new table and of the others.
  each_table :
      (P : (i : ℕ) → ℕ → Type 0)
      → P (pdx va) x
      → ((i : ℕ) → i < 1024 → i ≢ pdx va → has_table pgdir i k ≡ true → P i (table pgdir i k))
      → (i : ℕ) → i < 1024
      → has_table pgdir i made ≡ true
      → P i (table pgdir i made)
  each_table P new old i lt h = elim (Bool-cases (i == pdx va)) [
    | inl e ↦
        let at : pdx va ≡ i = ground (arith, e) in
        subst (λ j. P j (table pgdir j made)) at (subst (λ v. P (pdx va) v) (sym new_page) new)
    | inr e ↦
        let ne : i ≢ pdx va = ground (arith, e) in
        let same = other_entry i lt ne in
        subst (λ w. P i (p2v (pte_addr w))) (sym same)
          (old i lt ne (subst (λ w. is_present w ≡ true) same h))
  ]

  made_apart :
      (i j : ℕ)
      → i < 1024
      → j < 1024
      → has_table pgdir i made ≡ true
      → has_table pgdir j made ≡ true
      → table pgdir i made ≡ table pgdir j made
      → i ≡ j
  made_apart i j lt lt' h h' =
      each_table (λ i v. v ≡ table pgdir j made → i ≡ j)
        (each_table (λ j w. x ≡ w → pdx va ≡ j) (λ e. refl)
          (λ j low ne there e. absurd (let taken = (t.taken j low there).0 in taken e)) j lt' h')
        (λ i low ne there.
          each_table (λ j w. table pgdir i k ≡ w → i ≡ j)
            (λ e. absurd (let taken = (t.taken i low there).0 in taken (sym e)))
            (λ j low' ne' there'. t.apart i j low low' there there') j lt' h')
        i lt h

  made-IsTree : IsTree kernel_end pgdir made ps
  made-IsTree = record {
    root = t.root;
    root_taken = t.root_taken.1;
    tables = each_table (λ i v. IsPage kernel_end v) page (λ i low ne there. t.tables i low there);
    taken = each_table (λ i v. All (λ y. y ≢ v) ps) out (λ i low ne there. (t.taken i low there).1);
    root_apart = each_table (λ i v. v ≢ pgdir) apart_x (λ i low ne there. t.root_apart i low there);
    apart = made_apart;
    free =
        Chain-frame kernel_end (zeroed x k.word) made.word pgdir fl ps
          (λ a aligned ne.
            (let root = t.root.aligned in
              update_ne (zeroed x k.word) pde _ a (omega (arith, root, aligned, ne))))
          (t.root_taken.1)
          (Chain-frame kernel_end k.word (zeroed x k.word) x fl ps
            (λ a aligned ne. (let aligned' = page.aligned in ground (arith, aligned, aligned', ne)))
            out rest);
  }

  made_entry : (va' : ℕ) → entry_at pgdir va' made ≡ entry_at pgdir va' k
  made_entry va' = elim (Bool-cases (pdx va' == pdx va)) [
    | inl e ↦
        let at : pdx va' ≡ pdx va = ground (arith, e) in
        let there : has_table pgdir (pdx va') made ≡ true = rw at new_present in
        let before : has_table pgdir (pdx va') k ≡ false = rw at missing in
        let here : slot pgdir va' made ≡ x + 4 * ptx va' =
          rw at (ap (λ v. v + 4 * ptx va') new_page) in
        let root = t.root.aligned in
        let aligned = page.aligned in
        let apart = apart_x in
        let zero_there : made.word (x + 4 * ptx va') ≡ 0 = ground (arith, root, aligned, apart) in
        rw (there, before) (ap made.word here ∙ zero_there)
    | inr e ↦
        let same = other_entry (pdx va') (omega arith) (ground (arith, e)) in
        elim (Bool-cases (has_table pgdir (pdx va') k)) [
          | inr none_there ↦ rw (same, none_there) refl
          | inl there ↦
              let ne = t.root_apart (pdx va') (omega arith) there in
              let taken = (t.taken (pdx va') (omega arith) there).0 in
              rw (same, there)
                (made-SamePage (table pgdir (pdx va') k)
                  ((t.tables (pdx va') (omega arith) there).aligned) ne (λ q. taken (sym q))
                  (4 * ptx va') (omega arith))
        ]
  ]

walk_new :
    (kernel_end pgdir va : ℕ) (k : Kmem) (ps : List ℕ)
    → IsTree kernel_end pgdir k ps
    → has_table pgdir (pdx va) k ≡ false
    → Takes kernel_end k ps
    → Walks kernel_end pgdir va k ps (walkpgdir pgdir va true k)
unfolding walkpgdir
walk_new kernel_end pgdir va k [] t missing takes = inl (rw (missing, takes) refl, refl, missing)
walk_new kernel_end pgdir va k (x ∷ ps) t missing (got, nonzero, out, free) =
    let page : IsPage kernel_end x = t.free.1 in
    let k₁ : Kmem = (kalloc k).1 in
    let fl : ℕ = k₁.freelist in
    let rest : HasFree kernel_end (record k { freelist = fl }) ps =
      subst (λ w. Chain kernel_end w fl ps) (kalloc-word k) free in
    let test : (x == 0) ≡ false = ground (arith, nonzero) in
    let k' : Kmem = made kernel_end pgdir va x fl k ps t page out rest missing in
    let here : slot pgdir va k' ≡ x + 4 * ptx va =
      ap (λ v. v + 4 * ptx va) (new_page kernel_end pgdir va x fl k ps t page out rest missing) in
    let shape : Bool → (ℕ → ℕ) → Kmem = λ l w. record {
      use_lock = l;
      freelist = fl;
      word = update (zeroed x w) (pgdir + 4 * pdx va) (or_flags (v2p x) table_flags);
    } in
    inr (
      k',
      ps,
      rw (missing, got, test, here)
          (ap₂ (λ l w. (some (x + 4 * ptx va), shape l w)) (kalloc-use_lock k) (kalloc-word k)),
      new_present kernel_end pgdir va x fl k ps t page out rest missing,
      made-IsTree kernel_end pgdir va x fl k ps t page out rest missing,
      inr (x, refl),
      made_entry kernel_end pgdir va x fl k ps t page out rest missing,
      λ q aligned ne other.
          made-SamePage kernel_end pgdir va x fl k ps t page out rest missing q aligned ne
            (λ e. other.0 (sym e)),
    )

-- `walkpgdir` that may allocate gives the address of the entry, in a sound tree with the same entries, whose
-- new page table is a page that was free; it returns null, and changes nothing, only where a page table is
-- missing and no page is free.
pub walkpgdir-Walks :
    (kernel_end pgdir va : ℕ) (k : Kmem) (ps : List ℕ)
    → IsTree kernel_end pgdir k ps
    → Walks kernel_end pgdir va k ps (walkpgdir pgdir va true k)
unfolding walkpgdir
walkpgdir-Walks kernel_end pgdir va k ps t = elim (Bool-cases (has_table pgdir (pdx va) k)) [
  | inl there ↦
      inr (k, ps, rw there refl, there, t, inl refl, λ va'. refl, λ q al ne out o lt. refl)
  | inr missing ↦ walk_new kernel_end pgdir va k ps t missing (kalloc_lem kernel_end k ps (t.free))
]

-- ===== src/Vm/Tree.antt =====
-- What a page table of kernel/vm.c maps, and what keeps it sound among the pages of kernel/kalloc.c.
use lainos_fail.Base.{
  ℕ, ◌+◌, ◌*◌, ◌%◌, ◌<◌, ◌≡◌, ◌≢◌, ◌⊎◌, inl, inr, refl, ap, subst, Bool, true, List, All, arith,
  ◌==◌, if◌then◌else◌, update_self, update_ne, Bool-cases,
}
use lainos_fail.Kalloc.{page_size, Kmem}
use lainos_fail.Kalloc.Chain.{IsPage, HasFree, Chain-frame}
use lainos_fail.Vm.{pdx, ptx, p2v, pte_addr, is_present, write_word}

-- Entry `i` of the directory, and the page table that it refers to.
abbrev pub dir_entry : (pgdir i : ℕ) → Kmem → ℕ
dir_entry pgdir i k = k.word (pgdir + 4 * i)

abbrev pub has_table : (pgdir i : ℕ) → Kmem → Bool
has_table pgdir i k = is_present (dir_entry pgdir i k)

abbrev pub table : (pgdir i : ℕ) → Kmem → ℕ
table pgdir i k = p2v (pte_addr (dir_entry pgdir i k))

-- The address of the entry of `va`, and the entry, which is 0 where there is no page table.
abbrev pub slot : (pgdir va : ℕ) → Kmem → ℕ
slot pgdir va k = table pgdir (pdx va) k + 4 * ptx va

abbrev pub entry_at : (pgdir va : ℕ) → Kmem → ℕ
entry_at pgdir va k = if has_table pgdir (pdx va) k then k.word (slot pgdir va k) else 0

-- The directory and its page tables are different pages that are not free.
pub record IsTree (kernel_end pgdir : ℕ) (k : Kmem) (ps : List ℕ) : Type 0 where
  pub root : IsPage kernel_end pgdir
  pub root_taken : All (λ y. y ≢ pgdir) ps
  pub tables : (i : ℕ) → i < 1024 → has_table pgdir i k ≡ true → IsPage kernel_end (table pgdir i k)
  pub taken : (i : ℕ) → i < 1024 → has_table pgdir i k ≡ true → All (λ y. y ≢ table pgdir i k) ps
  pub root_apart : (i : ℕ) → i < 1024 → has_table pgdir i k ≡ true → table pgdir i k ≢ pgdir
  pub apart :
      (i j : ℕ)
      → i < 1024
      → j < 1024
      → has_table pgdir i k ≡ true
      → has_table pgdir j k ≡ true
      → table pgdir i k ≡ table pgdir j k
      → i ≡ j
  pub free : HasFree kernel_end k ps

-- The page at `q` is as before.
abbrev pub SamePage : (q : ℕ) → Kmem → Kmem → Type 0
SamePage q k k' = (o : ℕ) → o < page_size → k'.word (q + o) ≡ k.word (q + o)

-- An entry is written in a page table: the tree stays.
module _ (kernel_end pgdir va e : ℕ) (k : Kmem) (ps : List ℕ) (t : IsTree kernel_end pgdir k ps)
    (there : has_table pgdir (pdx va) k ≡ true) where
  abbrev after : Kmem
  after = write_word (slot pgdir va k) e k

  pub in_dir : (i : ℕ) → i < 1024 → dir_entry pgdir i after ≡ dir_entry pgdir i k
  in_dir i lt =
      let page = t.tables (pdx va) (omega arith) there in
      let apart = t.root_apart (pdx va) (omega arith) there in
      let root = t.root.aligned in
      let aligned = page.aligned in
      update_ne k.word (slot pgdir va k) e (pgdir + 4 * i) (omega (arith, apart, root, aligned, lt))

  pub written_SamePage :
      (q : ℕ) → q % page_size ≡ 0 → q ≢ table pgdir (pdx va) k → SamePage q k after
  written_SamePage q aligned ne o lt =
      let page = (t.tables (pdx va) (omega arith) there).aligned in
      update_ne k.word (slot pgdir va k) e (q + o) (omega (arith, page, aligned, ne, lt))

  pub written-IsTree : IsTree kernel_end pgdir after ps
  written-IsTree = record {
    root = t.root;
    root_taken = t.root_taken;
    tables = λ i lt h.
        rw (in_dir i lt) (t.tables i lt (subst (λ x. is_present x ≡ true) (in_dir i lt) h));
    taken = λ i lt h.
        rw (in_dir i lt) (t.taken i lt (subst (λ x. is_present x ≡ true) (in_dir i lt) h));
    root_apart = λ i lt h.
        rw (in_dir i lt) (t.root_apart i lt (subst (λ x. is_present x ≡ true) (in_dir i lt) h));
    apart = λ i j lt lt' h h' same.
        t.apart i j lt lt' (subst (λ x. is_present x ≡ true) (in_dir i lt) h)
          (subst (λ x. is_present x ≡ true) (in_dir j lt') h')
          (subst (λ x. p2v (pte_addr x) ≡ table pgdir j k) (in_dir i lt)
            (subst (λ x. table pgdir i after ≡ p2v (pte_addr x)) (in_dir j lt') same));
    free =
        Chain-frame kernel_end k.word after.word (table pgdir (pdx va) k) k.freelist ps
          (λ a aligned ne.
            let page = (t.tables (pdx va) (omega arith) there).aligned in
            update_ne k.word (slot pgdir va k) e a (omega (arith, page, aligned, ne)))
          (t.taken (pdx va) (omega arith) there) (t.free);
  }

  -- The entry of `va` is the new one, and the others are as before.
  pub entry_at_written : entry_at pgdir va after ≡ e
  entry_at_written =
      let same = in_dir (pdx va) (omega arith) in
      rw (same, there) (update_self k.word (slot pgdir va k) e)

  pub entry_at_others :
      (va' : ℕ)
      → (pdx va' ≢ pdx va) ⊎ (ptx va' ≢ ptx va)
      → entry_at pgdir va' after ≡ entry_at pgdir va' k
  entry_at_others va' ne =
      let same = in_dir (pdx va') (omega arith) in
      elim (Bool-cases (has_table pgdir (pdx va') k)) [
        | inr none_there ↦ rw (same, none_there) refl
        | inl there' ↦
            let page = (t.tables (pdx va) (omega arith) there).aligned in
            let page' = (t.tables (pdx va') (omega arith) there').aligned in
            let slots : slot pgdir va' k ≢ slot pgdir va k = elim (Bool-cases (pdx va' == pdx va)) [
              | inl e ↦
                  let pd : pdx va' ≡ pdx va = ground (arith, e) in
                  let one : table pgdir (pdx va') k ≡ table pgdir (pdx va) k =
                    ap (λ i. table pgdir i k) pd in
                  let pt : ptx va' ≢ ptx va = elim ne [
                    | inl other ↦ absurd (other pd)
                    | inr other ↦ other
                  ] in
                  omega (arith, one, pt)
              | inr e ↦
                  let two : table pgdir (pdx va') k ≢ table pgdir (pdx va) k = λ q. absurd (
                    let pd =
                      t.apart (pdx va') (pdx va) (omega arith) (omega arith) there' there q in
                    ground (arith, pd, e)) in
                  omega (arith, two, page, page')
            ] in
            rw (same, there') (update_ne k.word (slot pgdir va k) e (slot pgdir va' k) slots)
      ]

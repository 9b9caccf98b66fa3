-- ===== src/Vm/Space/Owned.antt =====
-- The pages of a process under the tables of kernel/vm.c, and what `kfree` of one of them leaves.
use lainos_fail.Base.{
  ℕ, ◌+◌, ◌*◌, ◌/◌, ◌%◌, ◌<◌, ◌≡◌, ◌≢◌, refl, sym, ◌∙◌, ap, subst, true, false, List, ◌∷◌, All,
  arith, update, Bool-cases, done, inl, inr,
}
use lainos_fail.Kalloc.{page_size, kern_base, Kmem, junk, is_bad, kfree}
use lainos_fail.Kalloc.Chain.{IsPage, HasFree, Chain-frame}
use lainos_fail.Vm.{pdx, ptx, p2v, pte_addr, is_present}
use lainos_fail.Vm.Tree.{dir_entry, has_table, table, slot, entry_at, IsTree}

-- The page that the entry of `va` refers to.
abbrev pub page_of_entry : (pgdir va : ℕ) → Kmem → ℕ
page_of_entry pgdir va k = p2v (pte_addr (entry_at pgdir va k))

abbrev pub IsMapped : (pgdir va : ℕ) → Kmem → Type 0
IsMapped pgdir va k = is_present (entry_at pgdir va k) ≡ true

-- The user part maps different pages, which are neither free nor page tables.
pub record IsOwned (kernel_end pgdir : ℕ) (k : Kmem) (ps : List ℕ) : Type 0 where
  pub pages :
      (va : ℕ) → va < kern_base → IsMapped pgdir va k → IsPage kernel_end (page_of_entry pgdir va k)
  pub not_root : (va : ℕ) → va < kern_base → IsMapped pgdir va k → page_of_entry pgdir va k ≢ pgdir
  pub not_table :
      (va i : ℕ)
      → va < kern_base
      → i < 1024
      → IsMapped pgdir va k
      → has_table pgdir i k ≡ true
      → page_of_entry pgdir va k ≢ table pgdir i k
  pub not_free :
      (va : ℕ) → va < kern_base → IsMapped pgdir va k → All (λ y. y ≢ page_of_entry pgdir va k) ps
  pub once :
      (va va' : ℕ)
      → va < kern_base
      → va' < kern_base
      → IsMapped pgdir va k
      → IsMapped pgdir va' k
      → page_of_entry pgdir va k ≡ page_of_entry pgdir va' k
      → va / page_size ≡ va' / page_size

-- The page `x` can be freed: it is neither free nor part of the tree.
pub record IsLoose (kernel_end pgdir x : ℕ) (k : Kmem) (ps : List ℕ) : Type 0 where
  pub page : IsPage kernel_end x
  pub not_root : x ≢ pgdir
  pub not_table : (i : ℕ) → i < 1024 → has_table pgdir i k ≡ true → x ≢ table pgdir i k
  pub out : All (λ y. y ≢ x) ps

pub owned-IsLoose :
    (kernel_end pgdir va : ℕ) (k : Kmem) (ps : List ℕ)
    → IsOwned kernel_end pgdir k ps
    → va < kern_base
    → IsMapped pgdir va k
    → IsLoose kernel_end pgdir (page_of_entry pgdir va k) k ps
owned-IsLoose kernel_end pgdir va k ps o low present = record {
  page = o.pages va low present;
  not_root = o.not_root va low present;
  not_table = λ i lt h. o.not_table va i low lt present h;
  out = o.not_free va low present;
}

-- The page `x` is freed.
module _ (kernel_end pgdir x : ℕ) (k : Kmem) (ps : List ℕ) (t : IsTree kernel_end pgdir k ps)
    (loose : IsLoose kernel_end pgdir x k ps) where
  abbrev pub freed : Kmem
  freed = record k { word = update (junk x k.word) x k.freelist; freelist = x }

  pub kfree_runs : kfree kernel_end x k ≡ done freed
  unfolding kfree
  kfree_runs =
      let fine : is_bad kernel_end x ≡ false =
        ground (arith, loose.page.aligned, loose.page.above, loose.page.mapped, loose.page.below) in
      rw fine refl

  away : (q o : ℕ) → q % page_size ≡ 0 → o < page_size → x ≢ q → freed.word (q + o) ≡ k.word (q + o)
  away q o aligned lt ne =
      let aligned' = loose.page.aligned in ground (arith, aligned, aligned', lt, ne)

  pub freed_dir : (i : ℕ) → i < 1024 → dir_entry pgdir i freed ≡ dir_entry pgdir i k
  freed_dir i lt = away pgdir (4 * i) (t.root.aligned) (omega (arith, lt)) (loose.not_root)

  pub freed_entry : (va : ℕ) → entry_at pgdir va freed ≡ entry_at pgdir va k
  freed_entry va =
      let same = freed_dir (pdx va) (omega arith) in
      elim (Bool-cases (has_table pgdir (pdx va) k)) [
        | inl there ↦
            rw (same, there)
              (away (table pgdir (pdx va) k) (4 * ptx va)
                ((t.tables (pdx va) (omega arith) there).aligned) (omega arith)
                (loose.not_table (pdx va) (omega arith) there))
        | inr missing ↦ rw (same, missing) refl
      ]

  pub freed_table : (i : ℕ) → i < 1024 → has_table pgdir i freed ≡ has_table pgdir i k
  freed_table i lt = ap (λ e. is_present e) (freed_dir i lt)

  pub freed_slot : (va : ℕ) → slot pgdir va freed ≡ slot pgdir va k
  freed_slot va = ap (λ e. p2v (pte_addr e) + 4 * ptx va) (freed_dir (pdx va) (omega arith))

  freed_link : HasFree kernel_end freed (x ∷ ps)
  freed_link =
      let here : freed.word x ≡ k.freelist = ground arith in
      (
        refl,
        loose.page,
        loose.out,
        rw here (
            Chain-frame kernel_end k.word freed.word x k.freelist ps
              (λ a al ne. ground (arith, loose.page.aligned)) (loose.out) (t.free)),
      )

  was : (i : ℕ) → i < 1024 → has_table pgdir i freed ≡ true → has_table pgdir i k ≡ true
  was i lt h = subst (λ e. is_present e ≡ true) (freed_dir i lt) h

  pub freed-IsTree : IsTree kernel_end pgdir freed (x ∷ ps)
  freed-IsTree = record {
    root = t.root;
    root_taken = (loose.not_root, t.root_taken);
    tables = λ i lt h. rw (freed_dir i lt) (t.tables i lt (was i lt h));
    taken = λ i lt h.
        subst (λ e. All (λ y. y ≢ p2v (pte_addr e)) (x ∷ ps)) (sym (freed_dir i lt))
          (loose.not_table i lt (was i lt h), t.taken i lt (was i lt h));
    root_apart = λ i lt h. rw (freed_dir i lt) (t.root_apart i lt (was i lt h));
    apart = λ i j lt lt' h h' same. t.apart i j lt lt' (was i lt h) (was j lt' h') (
        sym (ap (λ e. p2v (pte_addr e)) (freed_dir i lt))
        ∙ same
        ∙ ap (λ e. p2v (pte_addr e)) (freed_dir j lt'));
    free = freed_link;
  }

-- ===== src/Vm/Space/Free.antt =====
-- One round of `deallocuvm` of kernel/vm.c.
use lainos_fail.Base.{
  ℕ, ◌^◌, ◌<◌, ◌≡◌, ◌≢◌, refl, sym, ◌∙◌, ap, subst, true, false, List, ◌∷◌, All, arith, ◌==◌,
  if◌then◌else◌, Bool-cases, done, inl, inr,
}
use lainos_fail.Kalloc.{kern_base, Kmem, kfree}
use lainos_fail.Kalloc.Chain.{IsPage}
use lainos_fail.Vm.{pdx, p2v, pte_addr, is_present, write_word}
use lainos_fail.Vm.Tree.{
  dir_entry, in_dir, has_table, table, slot, entry_at, IsTree, written-IsTree,
}
use lainos_fail.Vm.Space.{free_entry}
use lainos_fail.Vm.Space.Owned.{
  page_of_entry, IsMapped, IsOwned, IsLoose, owned-IsLoose, freed, kfree_runs, freed_entry,
  freed_table, freed_slot, freed_dir, freed-IsTree,
}
use lainos_fail.Vm.Pages.{same_page, written_entry}

free_entry_runs :
    (kernel_end pte e : ℕ) (k k' : Kmem)
    → k.word pte ≡ e
    → is_present e ≡ true
    → (pte_addr e == 0) ≡ false
    → kfree kernel_end (p2v (pte_addr e)) k ≡ done k'
    → free_entry kernel_end pte k ≡ done (write_word pte 0 k')
free_entry_runs kernel_end pte e k k' at present nonzero ran = rw (at, present, nonzero, ran) refl

-- A round at `a`: a mapped page is freed and its entry cleared.
module _ (kernel_end pgdir a : ℕ) (k : Kmem) (ps : List ℕ) (end : kern_base < kernel_end)
    (low : a < kern_base) (t : IsTree kernel_end pgdir k ps) (o : IsOwned kernel_end pgdir k ps)
    (there : has_table pgdir (pdx a) k ≡ true) (present : IsMapped pgdir a k) where
  abbrev pub x : ℕ
  x = page_of_entry pgdir a k

  pub loose : IsLoose kernel_end pgdir x k ps
  loose = owned-IsLoose kernel_end pgdir a k ps o low present

  abbrev k₁ : Kmem
  k₁ = freed kernel_end pgdir x k ps t loose

  abbrev pub cleared : Kmem
  cleared = write_word (slot pgdir a k₁) 0 k₁

  t₁ : IsTree kernel_end pgdir k₁ (x ∷ ps)
  t₁ = freed-IsTree kernel_end pgdir x k ps t loose

  there₁ : has_table pgdir (pdx a) k₁ ≡ true
  there₁ = freed_table kernel_end pgdir x k ps t loose (pdx a) (omega arith) ∙ there

  pub round_runs : free_entry kernel_end (slot pgdir a k) k ≡ done cleared
  round_runs =
      let here : k.word (slot pgdir a k) ≡ entry_at pgdir a k = rw there refl in
      let page = loose.page in
      free_entry_runs kernel_end (slot pgdir a k) (entry_at pgdir a k) k k₁ here present
        (ground (arith, page.above, end)) (kfree_runs kernel_end pgdir x k ps t loose)
      ∙ ap (λ s. done (write_word s 0 k₁)) (sym (freed_slot kernel_end pgdir x k ps t loose a))

  pub round-IsTree : IsTree kernel_end pgdir cleared (x ∷ ps)
  round-IsTree = written-IsTree kernel_end pgdir a 0 k₁ (x ∷ ps) t₁ there₁

  pub round_entry :
      (va : ℕ)
      → va < 2 ^ 32
      → entry_at pgdir va cleared ≡ (if same_page va a then 0 else entry_at pgdir va k)
  round_entry va small =
      written_entry kernel_end pgdir a 0 k₁ (x ∷ ps) t₁ there₁ (omega (arith, low)) va small
      ∙ ap (λ e. if same_page va a then 0 else e) (freed_entry kernel_end pgdir x k ps t loose va)

  pub round_dir : (i : ℕ) → i < 1024 → dir_entry pgdir i cleared ≡ dir_entry pgdir i k
  round_dir i lt =
      in_dir kernel_end pgdir a 0 k₁ (x ∷ ps) t₁ there₁ i lt
      ∙ freed_dir kernel_end pgdir x k ps t loose i lt

  -- What is mapped after the round was mapped before, elsewhere.
  still :
      (va : ℕ)
      → va < kern_base
      → IsMapped pgdir va cleared
      → (same_page va a ≡ false) × (entry_at pgdir va cleared ≡ entry_at pgdir va k)
  still va lt mapped =
      let new = round_entry va (omega (arith, lt)) in
      elim (Bool-cases (same_page va a)) [
        | inl e ↦ absurd (
            ground (
              arith,
              subst (λ w. is_present w ≡ true)
                  (new ∙ ap (λ b. if b then 0 else entry_at pgdir va k) e) mapped,
            ))
        | inr e ↦ (e, new ∙ ap (λ b. if b then 0 else entry_at pgdir va k) e)
      ]

  pub round-IsOwned : IsOwned kernel_end pgdir cleared (x ∷ ps)
  round-IsOwned =
      let before : (va : ℕ) → va < kern_base → IsMapped pgdir va cleared → IsMapped pgdir va k =
        (λ va lt h. subst (λ e. is_present e ≡ true) ((still va lt h).1) h) in
      let page : (va : ℕ)
          → va < kern_base
          → IsMapped pgdir va cleared
          → page_of_entry pgdir va k ≡ page_of_entry pgdir va cleared =
        (λ va lt h. ap (λ e. p2v (pte_addr e)) (sym ((still va lt h).1))) in
      record {
        pages = λ va lt h.
            subst (λ v. IsPage kernel_end v) (page va lt h) (o.pages va lt (before va lt h));
        not_root =
            λ va lt h. subst (λ v. v ≢ pgdir) (page va lt h) (o.not_root va lt (before va lt h));
        not_table = λ va i lt lt' h h'.
            let d = round_dir i lt' in
            subst (λ v. v ≢ table pgdir i cleared) (page va lt h)
              (subst (λ e. page_of_entry pgdir va k ≢ p2v (pte_addr e)) (sym d)
                (o.not_table va i lt lt' (before va lt h) (subst (λ e. is_present e ≡ true) d h')));
        not_free = λ va lt h.
            subst (λ v. All (λ y. y ≢ v) (x ∷ ps)) (page va lt h)
              (
                (λ e. absurd (
                    let one = o.once va a lt low (before va lt h) present (sym e) in
                    let apart = (still va lt h).0 in ground (arith, one, apart))),
                o.not_free va lt (before va lt h),
              );
        once = λ va va' lt lt' h h' same.
            o.once va va' lt lt' (before va lt h) (before va' lt' h')
              (page va lt h ∙ same ∙ sym (page va' lt' h'));
      }

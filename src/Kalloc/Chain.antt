-- ===== src/Kalloc/Chain.antt =====
-- The free list of kernel/kalloc.c as a list of pages.
use lainos_fail.Base.{
  ℕ, ◌+◌, ◌%◌, ◌≤◌, ◌<◌, ◌≡◌, ◌≢◌, refl, false, List, [], ◌∷◌, arith, ◌==◌, All, update, done,
}
use lainos_fail.Kalloc.{page_size, kern_base, phys_top, Kmem, junk, is_bad, kfree, kalloc}

-- A page that `kfree` takes: aligned, above the kernel, and below the end of physical memory.
pub record IsPage (kernel_end v : ℕ) : Type 0 where
  pub aligned : v % page_size ≡ 0
  pub above : kernel_end ≤ v
  pub mapped : kern_base ≤ v
  pub below : v < kern_base + phys_top

module _ (kernel_end : ℕ) where
  -- From `p` the free list leads through the distinct pages `ps` to 0.
  abbrev pub Chain : (ℕ → ℕ) → (p : ℕ) → List ℕ → Type 0
  Chain word p [] = p ≡ 0
  Chain word p (x ∷ xs) =
      (p ≡ x) × IsPage kernel_end x × All (λ y. y ≢ x) xs × Chain word (word x) xs

  abbrev pub HasFree : Kmem → List ℕ → Type 0
  HasFree k ps = Chain k.word k.freelist ps

  -- A write to one page leaves the links in the others.
  pub Chain-frame :
      (word word' : ℕ → ℕ) (v p : ℕ) (ps : List ℕ)
      → ((a : ℕ) → a % page_size ≡ 0 → a ≢ v → word' a ≡ word a)
      → All (λ y. y ≢ v) ps
      → Chain word p ps
      → Chain word' p ps
  Chain-frame word word' v p [] same out c = c
  Chain-frame word word' v p (x ∷ xs) same out c = (
    c.0,
    c.1,
    c.2,
    rw (same x c.1.aligned out.0) (Chain-frame word word' v (word x) xs same out.1 c.3),
  )

  -- `kfree` of a page that is not free puts it in front of the free list.
  pub kfree-HasFree :
      (v : ℕ) (k : Kmem) (ps : List ℕ)
      → IsPage kernel_end v
      → All (λ y. y ≢ v) ps
      → HasFree k ps
      → (k' : Kmem) × (kfree kernel_end v k ≡ done k')
        × HasFree k' (v ∷ ps)
        × (k'.use_lock ≡ k.use_lock)
  unfolding kfree
  kfree-HasFree v k ps page out c =
      let fine : is_bad kernel_end v ≡ false =
        ground (arith, page.aligned, page.above, page.mapped, page.below) in
      let word' : ℕ → ℕ = update (junk v k.word) v k.freelist in
      let here : word' v ≡ k.freelist = ground arith in
      (
        record k { word = word'; freelist = v },
        rw fine,
        (
          refl,
          page,
          out,
          rw here (
              Chain-frame k.word word' v k.freelist ps (λ a al ne. ground (arith, page.aligned)) out
                c),
        ),
        refl,
      )

  -- `kalloc` from the free list `ps`: the first page leaves it, or there is none and 0 is returned.
  abbrev pub Takes : Kmem → List ℕ → Type 0
  Takes k [] = kalloc k ≡ (0, k)
  Takes k (x ∷ xs) = ((kalloc k).0 ≡ x) × (x ≢ 0) × All (λ y. y ≢ x) xs × HasFree (kalloc k).1 xs

  -- `kalloc` takes the first page off the free list, which then holds the others only, so that no
  -- page is given out twice; it returns 0 and changes nothing exactly where no page is free.
  pub kalloc_lem : (k : Kmem) (ps : List ℕ) → HasFree k ps → Takes k ps
  unfolding kalloc
  kalloc_lem k [] c = ground arith
  kalloc_lem k (x ∷ xs) c =
      let ne : x ≢ 0 = ground (arith, c.1.mapped) in
      let test : (k.freelist == 0) ≡ false = ground arith in
      (c.0, ne, c.2, rw test (rw (c.0) (c.3)))

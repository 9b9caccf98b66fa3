-- ===== src/Kalloc/Range.antt =====
-- `freerange` of kernel/kalloc.c: the loop that gives a range of memory to the free list.
use lainos_fail.Base.{
  ℕ, zero, suc, ◌+◌, ◌/◌, ◌%◌, ◌*◌, ◌≤◌, ◌<◌, ◌≡◌, refl, ◌∙◌, List, ◌∷◌, arith, leb, Bool-cases,
  inl, inr, All, All-mono, ◌⊎◌, Outcome, done,
}
use lainos_fail.Kalloc.{page_size, kern_base, phys_top, Kmem, page_round_up, free_pages, freerange}
use lainos_fail.Kalloc.Chain.{IsPage, HasFree, kfree-HasFree}

-- `n` pages from `p` upwards, put one by one in front of `ps`.
abbrev pub with_pages : (n p : ℕ) → List ℕ → List ℕ
with_pages zero p ps = ps
with_pages (suc n) p ps = with_pages n (p + page_size) (p ∷ ps)

-- No page of `ps` is in the range that is still to be freed.
abbrev pub IsOutside : (p vend : ℕ) → List ℕ → Type 0
IsOutside p vend ps = All (λ y. (y < p) ⊎ (vend ≤ y)) ps

module _ (kernel_end : ℕ) where
  -- What the loop leaves from `p` up to `vend`: every whole page of it is free.
  abbrev pub IsFreed : (p vend : ℕ) → List ℕ → Kmem → Outcome Kmem → Type 0
  IsFreed p vend ps k out =
      (n : ℕ) × (k' : Kmem) × (out ≡ done k')
      × HasFree kernel_end k' (with_pages n p ps)
      × (vend < p + (n + 1) * page_size)
      × ((n ≡ 0) ⊎ (p + n * page_size ≤ vend))
      × (k'.use_lock ≡ k.use_lock)

  IsOutside-next :
      (p vend : ℕ) (ps : List ℕ) → IsOutside p vend ps → IsOutside (p + page_size) vend (p ∷ ps)
  IsOutside-next p vend ps out = (inl (omega arith), All-mono (λ y o. ground arith) ps out)

  pub free_pages_lem :
      (fuel p vend : ℕ) (ps : List ℕ) (k : Kmem)
      → p % page_size ≡ 0
      → kernel_end ≤ p
      → kern_base ≤ p
      → vend ≤ kern_base + phys_top
      → vend < p + fuel * page_size
      → IsOutside p vend ps
      → HasFree kernel_end k ps
      → IsFreed p vend ps k (free_pages kernel_end fuel p vend k)
  unfolding free_pages
  free_pages_lem zero p vend ps k al lo hi top enough out free =
      (0, k, refl, free, omega arith, inl refl, refl)
  free_pages_lem (suc fuel) p vend ps k al lo hi top enough out free =
      elim (Bool-cases (leb (p + page_size) vend)) [
        | inr e ↦ rw e (0, k, refl, free, ground arith, inl refl, refl)
        | inl e ↦
            let room : p + page_size ≤ vend = ground arith in
            let page : IsPage kernel_end p = record {
              aligned = al;
              above = lo;
              mapped = hi;
              below = omega arith;
            } in
            let (k1, freed, free1, lock1) =
              kfree-HasFree kernel_end p k ps page (All-mono (λ y o. ground arith) ps out) free in
            let (n, k2, run, free2, near, far, lock2) =
              free_pages_lem fuel (p + page_size) vend (p ∷ ps) k1 (ground arith) (omega arith)
                (omega arith) top (omega arith) (IsOutside-next p vend ps out) free1 in
            rw (e, freed) (suc n, k2, run, free2, omega arith, inr (ground arith), lock2 ∙ lock1)
      ]

  -- `freerange` frees every whole page of a range that is in the kernel's map and not yet free, and
  -- no other: it does not panic, and the fuel is enough.
  pub freerange_lem :
      (vstart vend : ℕ) (ps : List ℕ) (k : Kmem)
      → kernel_end ≤ vstart
      → kern_base ≤ vstart
      → vend ≤ kern_base + phys_top
      → IsOutside (page_round_up vstart) vend ps
      → HasFree kernel_end k ps
      → IsFreed (page_round_up vstart) vend ps k (freerange kernel_end vstart vend k)
  unfolding freerange
  freerange_lem vstart vend ps k lo hi top out free =
      free_pages_lem (vend / page_size + 1) (page_round_up vstart) vend ps k (ground arith)
        (ground arith) (ground arith) top (ground arith) out free

-- ===== src/Kalloc/Tests.antt =====
-- A memory with one free page, and instances of the theorems of kernel/kalloc.c.
use lainos_fail.Base.{◌≡◌, refl, true, false, [], ◌∷◌, arith, done}
use lainos_fail.Kalloc.{Kmem, kfree}
use lainos_fail.Kalloc.Chain.{HasFree, kfree-HasFree}

-- The kernel ends at 0x80010000; the page at 0x80020000 is free.
abbrev one_page : Kmem
one_page = record { use_lock = false; freelist = 0x80020000; word = λ a. 0 }

abbrev no_page : Kmem
no_page = record { use_lock = true; freelist = 0; word = λ a. 7 }

one_page-HasFree : HasFree 0x80010000 one_page (0x80020000 ∷ [])
one_page-HasFree = (
  refl,
  record { aligned = refl; above = omega arith; mapped = omega arith; below = omega arith },
  tt,
  refl,
)

kfree-HasFree_example :
    (k' : Kmem) × (kfree 0x80010000 0x80030000 one_page ≡ done k')
    × HasFree 0x80010000 k' (0x80030000 ∷ 0x80020000 ∷ [])
    × (k'.use_lock ≡ false)
kfree-HasFree_example =
    kfree-HasFree 0x80010000 0x80030000 one_page (0x80020000 ∷ [])
      (record { aligned = refl; above = omega arith; mapped = omega arith; below = omega arith })
      (omega arith, tt) one_page-HasFree

-- ===== src/Vm/Tests.antt =====
-- Page tables of kernel/vm.c at concrete addresses.
use lainos_fail.Base.{
  ℕ, ◌+◌, ◌-◌, ◌/◌, ◌%◌, ◌^◌, ◌≤◌, ◌<◌, ◌≡◌, ◌≢◌, refl, sym, ◌∙◌, true, false, List, [], ◌∷◌, arith,
  ltb, ◌==◌, if◌then◌else◌, done, inl, inr, Bool-cases,
}
use lainos_fail.Kalloc.{page_size, kern_base, Kmem}
use lainos_fail.Kalloc.Chain.{IsPage}
use lainos_fail.Vm.{clearpteu, pdx, ptx, mappages, page_round_down, walkpgdir, copyout, user_write}
use lainos_fail.Vm.Tree.{has_table, table, IsTree, entry_at}
use lainos_fail.Vm.Walk.{Walks, walkpgdir-Walks}
use lainos_fail.Vm.Map.{Maps, mappages-Maps}
use lainos_fail.Vm.Copy.{NoSharing, allows, kernel_address, Copies}
use lainos_fail.Vm.Space.{deallocuvm, allocuvm}
use lainos_fail.Vm.Space.Owned.{page_of_entry, IsMapped, IsOwned}
use lainos_fail.Vm.Space.Dealloc.{Shrinks, deallocuvm-Shrinks}
use lainos_fail.Vm.Space.Alloc.{allocuvm_leaks}
use lainos_fail.Vm.Guard.{Guards, clearpteu-Guards}
use lainos_fail.Vm.Copyout.{copyout-Copies}

-- A zeroed memory with an empty directory and one free page.
abbrev dir : ℕ
dir = 0x80100000

abbrev spare : ℕ
spare = 0x80101000

abbrev blank : Kmem
blank = record { use_lock = true; freelist = spare; word = λ a. 0 }

IsPage-at :
    (v : ℕ) → v % page_size ≡ 0 → kern_base ≤ v → v < kern_base + 0xE000000 → IsPage kern_base v
IsPage-at v aligned above below = record {
  aligned = aligned;
  above = above;
  mapped = above;
  below = below;
}

blank-IsTree : IsTree kern_base dir blank (spare ∷ [])
blank-IsTree = record {
  root = IsPage-at dir (omega arith) (omega arith) (omega arith);
  root_taken = (omega arith, tt);
  tables = λ i lt h. absurd (ground (arith, h));
  taken = λ i lt h. absurd (ground (arith, h));
  root_apart = λ i lt h. absurd (ground (arith, h));
  apart = λ i j lt lt' h h' e. absurd (ground (arith, h));
  free = (refl, IsPage-at spare (omega arith) (omega arith) (omega arith), tt, refl);
}

walkpgdir-Walks_example :
    Walks kern_base dir 0x3000 blank (spare ∷ []) (walkpgdir dir 0x3000 true blank)
walkpgdir-Walks_example = walkpgdir-Walks kern_base dir 0x3000 blank (spare ∷ []) blank-IsTree

mappages-Maps_example :
    Maps kern_base dir
      ((0x3004 + 0x2000 - 1) / page_size - 0x3004 / page_size)
      (page_round_down 0x3004)
      0x200000
      user_write
      blank
      (mappages dir 0x3004 0x2000 0x200000 user_write blank)
mappages-Maps_example =
    mappages-Maps kern_base dir 0x3004 0x2000 0x200000 user_write blank (spare ∷ []) (omega arith)
      (omega arith) blank-IsTree

-- The user's page 0 is the page at 0x102000.
abbrev small : Kmem
small = record {
  use_lock = true;
  freelist = 0;
  word = λ a. if a == dir then 0x101007 else if a == spare then 0x102007 else 0;
}

-- Elsewhere the entries are 0.
other_entry : (x : ℕ) → x < 2 ^ 32 → ltb x page_size ≡ false → entry_at dir x small ≡ 0
other_entry x lt far = elim (Bool-cases (pdx x == 0)) [
  | inr other ↦ ground (arith, other)
  | inl e ↦
      let first : pdx x ≡ 0 = ground (arith, e) in
      let second : ptx x ≢ 0 = ground (arith, first, lt, far) in rw first (ground (arith, second))
]

first_only : (x : ℕ) → x < 2 ^ 32 → allows dir small x ≡ true → x < page_size
first_only x lt ok = elim (Bool-cases (ltb x page_size)) [
  | inl near ↦ ground (arith, near)
  | inr far ↦ absurd (let zero_entry = other_entry x lt far in ground (arith, ok, zero_entry))
]

first_address : (x : ℕ) → x < page_size → kernel_address dir small x ≡ 0x80102000 + x
first_address x lt =
    let first : pdx x ≡ 0 = omega (arith, lt) in
    let second : ptx x ≡ 0 = omega (arith, lt) in rw (first, second) (omega (arith, lt))

small-NoSharing : NoSharing dir small
small-NoSharing x y lt lt' ok ok' e =
    let here = first_address x (first_only x lt ok) in
    let there = first_address y (first_only y lt' ok') in
    let same = sym here ∙ e ∙ there in omega (arith, same)

abbrev two_bytes : List ℕ
two_bytes = 7 ∷ 8 ∷ []

copyout-Copies_example :
    Copies dir 4095 two_bytes small (λ a. 0) (copyout 0 dir 4095 two_bytes small (λ a. 0))
copyout-Copies_example =
    copyout-Copies 0 dir 4095 two_bytes small (λ a. 0) (omega arith) small-NoSharing
      (λ i lt. let first : pdx (4095 + i) ≡ 0 = omega (arith, lt) in rw first refl)

-- The kernel ends below the directory.
abbrev small_end : ℕ
small_end = 0x80080000

small_tables : (i : ℕ) → i < 1024 → has_table dir i small ≡ true → table dir i small ≡ spare
small_tables i lt there = elim (Bool-cases (i == 0)) [
  | inl e ↦ let zero_index : i ≡ 0 = ground (arith, e) in rw zero_index refl
  | inr e ↦ absurd (ground (arith, e, there, lt))
]

small_index : (i : ℕ) → i < 1024 → has_table dir i small ≡ true → i ≡ 0
small_index i lt there = ground (arith, lt, there)

small-IsTree : IsTree small_end dir small []
small-IsTree = record {
  root = record {
    aligned = omega arith;
    above = omega arith;
    mapped = omega arith;
    below = omega arith;
  };
  root_taken = tt;
  tables = λ i lt h. rw (small_tables i lt h) (record {
    aligned = omega arith;
    above = omega arith;
    mapped = omega arith;
    below = omega arith;
  });
  taken = λ i lt h. tt;
  root_apart = λ i lt h. rw (small_tables i lt h) (omega arith);
  apart = λ i j lt lt' h h' e. small_index i lt h ∙ sym (small_index j lt' h');
  free = refl;
}

small_near : (va : ℕ) → va < kern_base → IsMapped dir va small → va < page_size
small_near va lt mapped = elim (Bool-cases (ltb va page_size)) [
  | inl near ↦ ground (arith, near)
  | inr far ↦ absurd (
      let zero_entry = other_entry va (omega (arith, lt)) far in ground (arith, mapped, zero_entry))
]

small_page :
    (va : ℕ) → va < kern_base → IsMapped dir va small → page_of_entry dir va small ≡ 0x80102000
small_page va lt mapped =
    let near = small_near va lt mapped in
    let first : pdx va ≡ 0 = omega (arith, near) in
    let second : ptx va ≡ 0 = omega (arith, near) in rw (first, second) refl

small-IsOwned : IsOwned small_end dir small []
small-IsOwned = record {
  pages = λ va lt h. rw (small_page va lt h) (record {
    aligned = omega arith;
    above = omega arith;
    mapped = omega arith;
    below = omega arith;
  });
  not_root = λ va lt h. rw (small_page va lt h) (omega arith);
  not_table = λ va i lt lt' h h'. λ e. absurd (
      let one = small_page va lt h in
      let two = small_tables i lt' h' in let same = sym one ∙ e ∙ two in omega (arith, same));
  not_free = λ va lt h. tt;
  once = λ va va' lt lt' h h' e.
      let near = small_near va lt h in
      let near' = small_near va' lt' h' in omega (arith, near, near');
}

deallocuvm-Shrinks_example :
    Shrinks small_end dir 4096 0 small [] (deallocuvm small_end dir 4096 0 small)
deallocuvm-Shrinks_example =
    deallocuvm-Shrinks small_end dir 4096 0 small [] (omega arith) (omega arith) small-IsTree
      small-IsOwned (λ va le lt. let first : pdx va ≡ 0 = omega (arith, lt) in rw first refl)

allocuvm_leaks_example :
    (k' : Kmem) × (allocuvm kern_base dir 0 4096 blank ≡ done (4096, k'))
    × (entry_at dir 0 k' ≡ 0)
    × (k'.freelist ≡ 0)
allocuvm_leaks_example =
    allocuvm_leaks kern_base dir 0 4096 spare blank blank-IsTree refl (omega arith) (omega arith)
      (omega arith)

clearpteu-Guards_example : Guards small_end dir 16 small [] (clearpteu dir 16 small)
clearpteu-Guards_example =
    clearpteu-Guards small_end dir 16 small [] small-IsTree refl (omega arith)

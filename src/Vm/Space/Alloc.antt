-- ===== src/Vm/Space/Alloc.antt =====
-- `allocuvm` of kernel/vm.c where no page is left for a page table.
use lainos_fail.Base.{
  ℕ, zero, suc, ◌+◌, ◌*◌, ◌/◌, ◌%◌, ◌^◌, ◌<◌, ◌≤◌, ◌≡◌, refl, sym, ◌∙◌, ap₂, subst, true, false,
  List, [], ◌∷◌, arith, ◌==◌, none, ltb, leb, done, add32, sub32,
}
use lainos_fail.Kalloc.{page_size, kern_base, Kmem, kalloc, page_round_up}
use lainos_fail.Kalloc.Chain.{kalloc_lem}
use lainos_fail.Vm.{pdx, is_present, zeroed, walkpgdir, map_from, mappages, page_round_down}
use lainos_fail.Vm.Tree.{dir_entry, has_table, entry_at, IsTree}
use lainos_fail.Vm.Walk.{kalloc-word}
use lainos_fail.Vm.Space.{add_page, grow_from, allocuvm}

kalloc_zero : (k : Kmem) → k.freelist ≡ 0 → kalloc k ≡ (0, k)
unfolding kalloc
kalloc_zero k e = rw e refl

walk_fails :
    (pgdir va : ℕ) (k : Kmem)
    → k.freelist ≡ 0
    → has_table pgdir (pdx va) k ≡ false
    → walkpgdir pgdir va true k ≡ (none, k)
unfolding walkpgdir
walk_fails pgdir va k e missing = let none_free = kalloc_zero k e in rw (missing, none_free) refl

-- Without a page for the page table the page `mem` is zeroed and not mapped.
add_page_fails :
    (pgdir a mem : ℕ) (k : Kmem)
    → a % page_size ≡ 0
    → a + page_size < 2 ^ 32
    → k.freelist ≡ 0
    → has_table pgdir (pdx a) (record k { word = zeroed mem k.word }) ≡ false
    → add_page pgdir a mem k ≡ done (record k { word = zeroed mem k.word })
unfolding mappages map_from
add_page_fails pgdir a mem k aligned small empty missing =
    let first : page_round_down a ≡ a = omega (arith, aligned) in
    let pages : sub32 (page_round_down (sub32 (add32 a page_size) 1)) (page_round_down a)
          / page_size
        ≡ 0 =
      omega (arith, aligned, small) in
    let walk =
      walk_fails pgdir (page_round_down a) (record k { word = zeroed mem k.word }) empty
        (subst (λ v. has_table pgdir (pdx v) (record k { word = zeroed mem k.word }) ≡ false)
          (sym first) missing) in
    rw (pages, walk) refl

zeroed-dir :
    (kernel_end pgdir i x : ℕ) (k : Kmem) (ps : List ℕ)
    → IsTree kernel_end pgdir k (x ∷ ps)
    → i < 1024
    → zeroed x k.word (pgdir + 4 * i) ≡ dir_entry pgdir i k
zeroed-dir kernel_end pgdir i x k ps t lt =
    let free_page = (t.free.1).aligned in
    let root = t.root.aligned in
    let apart = t.root_taken.0 in ground (arith, free_page, root, apart, lt)

grow_from-stops :
    (fuel kernel_end pgdir a oldsz newsz : ℕ) (k : Kmem)
    → newsz ≤ a
    → grow_from fuel kernel_end pgdir a oldsz newsz k ≡ done (newsz, k)
unfolding grow_from
grow_from-stops zero kernel_end pgdir a oldsz newsz k le = refl
grow_from-stops (suc fuel) kernel_end pgdir a oldsz newsz k le =
    let stop : ltb a newsz ≡ false = ground (arith, le) in rw stop refl

grow_from-one :
    (fuel kernel_end pgdir a oldsz newsz : ℕ) (k k' : Kmem)
    → a < newsz
    → newsz ≤ a + page_size
    → a + page_size < 2 ^ 32
    → ((kalloc k).0 == 0) ≡ false
    → add_page pgdir a (kalloc k).0 (kalloc k).1 ≡ done k'
    → grow_from (suc fuel) kernel_end pgdir a oldsz newsz k ≡ done (newsz, k')
unfolding grow_from
grow_from-one fuel kernel_end pgdir a oldsz newsz k k' lt le small some_page added =
    let go : ltb a newsz ≡ true = ground (arith, lt) in
    let next : add32 a page_size ≡ a + page_size = omega (arith, small) in
    rw (go, some_page, added, next)
      (grow_from-stops fuel kernel_end pgdir (a + page_size) oldsz newsz k' le)

-- `allocuvm` by one page, with one page free and no page table for it, returns the new size, although
-- the address is not mapped afterwards and the page is on the free list no more.
pub allocuvm_leaks :
    (kernel_end pgdir oldsz newsz x : ℕ) (k : Kmem)
    → IsTree kernel_end pgdir k (x ∷ [])
    → has_table pgdir (pdx (page_round_up oldsz)) k ≡ false
    → page_round_up oldsz < newsz
    → newsz ≤ page_round_up oldsz + page_size
    → newsz < kern_base
    → (k' : Kmem) × (allocuvm kernel_end pgdir oldsz newsz k ≡ done (newsz, k'))
      × (entry_at pgdir (page_round_up oldsz) k' ≡ 0)
      × (k'.freelist ≡ 0)
unfolding allocuvm
allocuvm_leaks kernel_end pgdir oldsz newsz x k t missing lt le user =
    let a : ℕ = page_round_up oldsz in
    let (first, nonzero, out, empty) = kalloc_lem kernel_end k (x ∷ []) (t.free) in
    let k₁ : Kmem = (kalloc k).1 in
    let k₂ : Kmem = record k₁ { word = zeroed (kalloc k).0 k₁.word } in
    let dir : dir_entry pgdir (pdx a) k₂ ≡ dir_entry pgdir (pdx a) k =
      ap₂ (λ m w. zeroed m w (pgdir + 4 * pdx a)) first (kalloc-word k)
      ∙ zeroed-dir kernel_end pgdir (pdx a) x k [] t (omega arith) in
    let missing' : has_table pgdir (pdx a) k₂ ≡ false =
      subst (λ e. is_present e ≡ false) (sym dir) missing in
    let added =
      add_page_fails pgdir a (kalloc k).0 k₁ (omega arith) (omega (arith, lt, user)) empty
        missing' in
    let some_page : ((kalloc k).0 == 0) ≡ false = ground (arith, first, nonzero) in
    let fuel : newsz / page_size + 1 ≡ suc (newsz / page_size) = omega arith in
    let high : leb kern_base newsz ≡ false = ground (arith, user) in
    let grows : ltb newsz oldsz ≡ false = ground (arith, lt) in
    let unmapped : entry_at pgdir a k₂ ≡ 0 = rw missing' refl in
    let ran =
      grow_from-one (newsz / page_size) kernel_end pgdir a oldsz newsz k k₂ lt le
        (omega (arith, lt, user)) some_page added in
    (k₂, rw (high, grows, fuel) ran, unmapped, empty)

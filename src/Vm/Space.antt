-- ===== src/Vm/Space.antt =====
-- kernel/vm.c: the growing and shrinking of a process's address space.
pub mod Owned
mod Free
pub mod Clears
pub mod Dealloc
pub mod Alloc
use lainos_fail.Base.{
  ℕ, zero, suc, ◌+◌, ◌*◌, ◌/◌, ◌%◌, ◌^◌, true, false, Option, none, some, ltb, leb, ◌==◌,
  if◌then◌else◌, add32, Outcome, done, panics, ◌>>=◌,
}
use lainos_fail.Kalloc.{page_size, kern_base, Kmem, kalloc, kfree, page_round_up}
use lainos_fail.Vm.{
  p2v, v2p, pte_addr, is_present, user_write, write_word, zeroed, walkpgdir, mappages,
}

-- The page of an entry is freed, and the entry cleared.
abbrev pub free_entry : (kernel_end pte : ℕ) → Kmem → Outcome Kmem
free_entry kernel_end pte k =
    let pa = pte_addr (k.word pte) in
    let freed = kfree kernel_end (p2v pa) k >>= λ k'. done (write_word pte 0 k') in
    if is_present (k.word pte) then (if pa == 0 then panics else freed) else done k

abbrev pub free_at : (kernel_end : ℕ) → Option ℕ → Kmem → Outcome Kmem
free_at kernel_end none k = done k
free_at kernel_end (some pte) k = free_entry kernel_end pte k

-- The address of the next round: without a page table, `NPTENTRIES` pages further.
abbrev pub next_page : Option ℕ → (a : ℕ) → ℕ
next_page none a = add32 (add32 a (1023 * page_size)) page_size
next_page (some pte) a = add32 a page_size

-- The loop of `deallocuvm`, with one unit of fuel for a page.
unfoldable pub free_from : (fuel kernel_end pgdir a oldsz : ℕ) → Kmem → Outcome Kmem
free_from zero kernel_end pgdir a oldsz k = done k
free_from (suc fuel) kernel_end pgdir a oldsz k =
    let pte = (walkpgdir pgdir a false k).0 in
    let rest =
      free_at kernel_end pte k >>= free_from fuel kernel_end pgdir (next_page pte a) oldsz in
    if ltb a oldsz then rest else done k

-- A size below `KERNBASE` has fewer pages than the fuel. The size is returned.
unfoldable pub deallocuvm : (kernel_end pgdir oldsz newsz : ℕ) → Kmem → Outcome (ℕ × Kmem)
deallocuvm kernel_end pgdir oldsz newsz k =
    let freed =
      free_from (oldsz / page_size + 1) kernel_end pgdir (page_round_up newsz % 2 ^ 32) oldsz k in
    if leb oldsz newsz then done (oldsz, k) else freed >>= λ k'. done (newsz, k')

-- `memset(mem, 0, PGSIZE)` and `mappages`, whose result the source ignores.
abbrev pub add_page : (pgdir a mem : ℕ) → Kmem → Outcome Kmem
add_page pgdir a mem k =
    mappages pgdir a page_size (v2p mem) user_write (record k { word = zeroed mem k.word }) >>= λ r.
    done (r.1)

-- The loop of `allocuvm`, with one unit of fuel for a page.
unfoldable pub grow_from : (fuel kernel_end pgdir a oldsz newsz : ℕ) → Kmem → Outcome (ℕ × Kmem)
grow_from zero kernel_end pgdir a oldsz newsz k = done (newsz, k)
grow_from (suc fuel) kernel_end pgdir a oldsz newsz k =
    let mem = kalloc k in
    let rest =
      add_page pgdir a mem.0 mem.1
      >>= grow_from fuel kernel_end pgdir (add32 a page_size) oldsz newsz in
    let undone = deallocuvm kernel_end pgdir newsz oldsz mem.1 >>= λ r. done (0, r.1) in
    if ltb a newsz then (if mem.0 == 0 then undone else rest) else done (newsz, k)

unfoldable pub allocuvm : (kernel_end pgdir oldsz newsz : ℕ) → Kmem → Outcome (ℕ × Kmem)
allocuvm kernel_end pgdir oldsz newsz k =
    let grown =
      grow_from (newsz / page_size + 1) kernel_end pgdir (page_round_up oldsz) oldsz newsz k in
    if leb kern_base newsz then done (0, k) else if ltb newsz oldsz then done (oldsz, k) else grown

-- ===== src/Vm.antt =====
-- kernel/vm.c: page tables of two levels, in the memory that kernel/kalloc.c hands out by pages. A page
-- table is the address of its first word. `|` of an address and flags acts on its low 12 bits, `&`
-- with a mask is `/` and `%`.
mod Entries
mod Tree
mod Pages
mod Walk
mod Map
mod Copy
mod Copyout
mod Guard
mod Space
mod Tests
use Prim.Native.Nat.{bit_or}
use lainos_fail.Base.{
  ℕ, zero, suc, ◌+◌, ◌-◌, ◌*◌, ◌/◌, ◌%◌, ◌^◌, Bool, true, false, not, ◌&&◌, ◌||◌, List, [], ◌∷◌,
  ◌++◌, Option, none, some, ltb, leb, ◌==◌, if◌then◌else◌, update, add32, sub32, min, length, take,
  drop, Outcome, done, panics, ◌>>=◌,
}
use lainos_fail.Mem.{Memory}
use lainos_fail.Fs.Inode.{put_bytes}
use lainos_fail.Kalloc.{page_size, kern_base, Kmem, kalloc, kfree, page_round_up}

-- `PDX`, `PTX`, `PGROUNDDOWN`, `v2p` and `p2v`
abbrev pub pdx : (va : ℕ) → ℕ
pdx va = va / 2 ^ 22 % 1024

abbrev pub ptx : (va : ℕ) → ℕ
ptx va = va / 2 ^ 12 % 1024

abbrev pub page_round_down : (a : ℕ) → ℕ
page_round_down a = a / page_size * page_size

abbrev pub v2p : (v : ℕ) → ℕ
v2p v = sub32 v kern_base

abbrev pub p2v : (pa : ℕ) → ℕ
p2v pa = add32 pa kern_base

-- `PTE_ADDR`, `PTE_FLAGS`, and the tests of `PTE_P` and `PTE_U`
abbrev pub pte_addr : (e : ℕ) → ℕ
pte_addr e = e / page_size * page_size

abbrev pub pte_flags : (e : ℕ) → ℕ
pte_flags e = e % page_size

abbrev pub is_present : (e : ℕ) → Bool
is_present e = e % 2 == 1

abbrev pub is_user : (e : ℕ) → Bool
is_user e = e / 4 % 2 == 1

-- `a | flags` for flags below the page size
abbrev pub or_flags : (a flags : ℕ) → ℕ
or_flags a flags = a / page_size * page_size + bit_or (a % page_size) flags

-- `PTE_W | PTE_U`, and `PTE_P | PTE_W | PTE_U`
abbrev pub user_write : ℕ
user_write = 6

abbrev pub table_flags : ℕ
table_flags = 7

-- `memset(v, 0, PGSIZE)`
abbrev pub zeroed : (v : ℕ) → (ℕ → ℕ) → ℕ → ℕ
zeroed v word a = if leb v a && ltb a (v + page_size) then 0 else word a

abbrev pub write_word : (a w : ℕ) → Kmem → Kmem
write_word a w k = record k { word = update k.word a w }

-- A page table made for the directory entry at `pde`, with the address of the entry `i` in it.
abbrev pub new_table : (pde i : ℕ) → ℕ × Kmem → Option ℕ × Kmem
new_table pde i (pg, k) = if pg == 0 then (none, k) else (
  some (pg + 4 * i),
  record k { word = update (zeroed pg k.word) pde (or_flags (v2p pg) table_flags) },
)

-- The address of the entry of `va`, or a null pointer.
unfoldable pub walkpgdir : (pgdir va : ℕ) → (alloc : Bool) → Kmem → Option ℕ × Kmem
walkpgdir pgdir va alloc k =
    let pde = pgdir + 4 * pdx va in
    if is_present (k.word pde)
    then (some (p2v (pte_addr (k.word pde)) + 4 * ptx va), k)
    else if not alloc
    then (none, k)
    else new_table pde (ptx va) (kalloc k)

-- `*pte = pa | perm | PTE_P`; the result is false for -1.
abbrev pub set_entry : (pa perm : ℕ) → Option ℕ × Kmem → Outcome (Bool × Kmem)
set_entry pa perm (none, k) = done (false, k)
set_entry pa perm (some pte, k) =
    if is_present (k.word pte)
    then panics
    else done (true, write_word pte (or_flags pa (bit_or perm 1)) k)

abbrev pub map_page : (pgdir va pa perm : ℕ) → Kmem → Outcome (Bool × Kmem)
map_page pgdir va pa perm k = set_entry pa perm (walkpgdir pgdir va true k)

-- The loop of `mappages` over the page at `a` and `n` more.
unfoldable pub map_from : (n pgdir a pa perm : ℕ) → Kmem → Outcome (Bool × Kmem)
map_from zero pgdir a pa perm k = map_page pgdir a pa perm k
map_from (suc n) pgdir a pa perm k = map_page pgdir a pa perm k >>= λ r.
    if r.0
    then map_from n pgdir (add32 a page_size) (add32 pa page_size) perm r.1
    else done (false, r.1)

-- The first and the last page are `a` and `last`; addresses wrap.
unfoldable pub mappages : (pgdir va size pa perm : ℕ) → Kmem → Outcome (Bool × Kmem)
mappages pgdir va size pa perm k =
    let a = page_round_down va in
    let last = page_round_down (sub32 (add32 va size) 1) in
    map_from (sub32 last a / page_size) pgdir a pa perm k

-- `*pte &= ~PTE_U`
abbrev pub clear_user : Kmem → Option ℕ → Outcome Kmem
clear_user k none = panics
clear_user k (some pte) =
    done (write_word pte (if is_user (k.word pte) then k.word pte - 4 else k.word pte) k)

unfoldable pub clearpteu : (pgdir uva : ℕ) → Kmem → Outcome Kmem
clearpteu pgdir uva k = clear_user k (walkpgdir pgdir uva false k).0

-- The page of an entry, or 0.
abbrev pub entry_page : (e : ℕ) → ℕ
entry_page e = if not (is_present e) || not (is_user e) then 0 else p2v (pte_addr e)

-- `null_entry` is the word at address 0: the source reads it as the entry where there is no page table.
abbrev pub page_of : (null_entry : ℕ) → Kmem → Option ℕ → ℕ
page_of null_entry k none = entry_page null_entry
page_of null_entry k (some pte) = entry_page (k.word pte)

unfoldable pub uva2ka : (null_entry pgdir uva : ℕ) → Kmem → ℕ
uva2ka null_entry pgdir uva k = page_of null_entry k (walkpgdir pgdir uva false k).0

-- The loop of `copyout`, on fuel, in the bytes of memory; the page tables do not change.
unfoldable pub copy_loop : (fuel null_entry pgdir va : ℕ) → List ℕ → Kmem → Memory → Bool × Memory
copy_loop zero null_entry pgdir va buf k mem = (true, mem)
copy_loop (suc fuel) null_entry pgdir va buf k mem =
    let va0 = page_round_down va in
    let pa0 = uva2ka null_entry pgdir va0 k in
    let n = min (page_size - (va - va0)) (length buf) in
    let next =
      copy_loop fuel null_entry pgdir (add32 va0 page_size) (drop n buf) k
        (put_bytes (take n buf) (pa0 + (va - va0)) mem) in
    if length buf == 0 then (true, mem) else if pa0 == 0 then (false, mem) else next

-- A page holds at least one byte, so the bytes left are fuel enough. The result is false for -1.
unfoldable pub copyout : (null_entry pgdir va : ℕ) → (buf : List ℕ) → Kmem → Memory → Bool × Memory
copyout null_entry pgdir va buf k mem = copy_loop (length buf) null_entry pgdir va buf k mem

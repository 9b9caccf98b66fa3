-- ===== src/Kalloc.antt =====
-- kernel/kalloc.c: the allocator of physical pages. A free page holds in its first word the address
-- of the next one. `word` is the memory by address, at multiples of 4; `kernel_end` is the linker's
-- symbol `end`, below the end of physical memory.
pub mod Chain
mod Range
mod Tests
use lainos_fail.Base.{
  ℕ, zero, suc, ◌+◌, ◌-◌, ◌*◌, ◌/◌, ◌%◌, ◌^◌, Bool, true, false, not, ◌&&◌, ◌||◌, ltb, leb, ◌==◌,
  if◌then◌else◌, update, Outcome, done, panics, ◌>>=◌, sub32,
}

-- `PGSIZE`, and `KERNBASE` and `PHYSTOP` of sys/memlayout.h
abbrev pub page_size : ℕ
page_size = 4096

abbrev pub kern_base : ℕ
kern_base = 0x80000000

abbrev pub phys_top : ℕ
phys_top = 0xE000000

-- `kmem` and the memory
pub record Kmem : Type 0 where
  pub use_lock : Bool
  pub freelist : ℕ
  pub word : ℕ → ℕ

-- `memset(v, 1, PGSIZE)`
abbrev pub junk : (v : ℕ) → (ℕ → ℕ) → ℕ → ℕ
junk v word a = if leb v a && ltb a (v + page_size) then 0x01010101 else word a

-- The test of `kfree`: `v % PGSIZE || v < end || v2p(v) >= PHYSTOP`.
abbrev pub is_bad : (kernel_end v : ℕ) → Bool
is_bad kernel_end v =
    not (v % page_size == 0) || ltb v kernel_end || leb phys_top (sub32 v kern_base)

unfoldable pub kfree : (kernel_end v : ℕ) → Kmem → Outcome Kmem
kfree kernel_end v k =
    if is_bad kernel_end v
    then panics
    else done (record k { word = update (junk v k.word) v k.freelist; freelist = v })

-- The page, or 0, and the allocator after it.
unfoldable pub kalloc : Kmem → ℕ × Kmem
kalloc k = (k.freelist, if k.freelist == 0 then k else record k { freelist = k.word k.freelist })

-- `PGROUNDUP`
abbrev pub page_round_up : ℕ → ℕ
page_round_up a = (a + page_size - 1) / page_size * page_size

-- The loop of `freerange`, with one unit of fuel for a page.
unfoldable pub free_pages : (kernel_end fuel p vend : ℕ) → Kmem → Outcome Kmem
free_pages kernel_end zero p vend k = done k
free_pages kernel_end (suc fuel) p vend k =
    let rest = kfree kernel_end p k >>= free_pages kernel_end fuel (p + page_size) vend in
    if leb (p + page_size) vend then rest else done k

unfoldable pub freerange : (kernel_end vstart vend : ℕ) → Kmem → Outcome Kmem
freerange kernel_end vstart vend k =
    free_pages kernel_end (vend / page_size + 1) (page_round_up vstart) vend k

unfoldable pub kinit1 : (kernel_end vstart vend : ℕ) → Kmem → Outcome Kmem
kinit1 kernel_end vstart vend k = freerange kernel_end vstart vend (record k { use_lock = false })

unfoldable pub kinit2 : (kernel_end vstart vend : ℕ) → Kmem → Outcome Kmem
kinit2 kernel_end vstart vend k =
    freerange kernel_end vstart vend k >>= λ k'. done (record k' { use_lock = true })

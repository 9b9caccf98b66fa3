-- ===== src/Vm/Entries.antt =====
-- Addresses and flags in the entries of kernel/vm.c.
use Prim.Native.Nat.{bit_or}
use lainos_fail.Base.{ℕ, ◌+◌, ◌%◌, ◌<◌, ◌≡◌, refl, arith, ◌==◌, passes, passes_at}
use lainos_fail.Kalloc.{page_size}
use lainos_fail.Kalloc.Chain.{IsPage}
use lainos_fail.Vm.{v2p, p2v, pte_addr, or_flags}

-- `0 | f` for flags, by evaluation.
bit_or-zero : (f : ℕ) → f < page_size → bit_or 0 f ≡ f
unfolding passes
bit_or-zero f lt = let e = passes_at page_size (λ x. bit_or 0 x == x) f refl lt in ground (arith, e)

pub or_flags-add : (a f : ℕ) → a % page_size ≡ 0 → f < page_size → or_flags a f ≡ a + f
or_flags-add a f e lt = let low = bit_or-zero f lt in rw (e, low) (omega (arith, e))

-- An entry made of a page and flags shows both.
pub pte_addr-add : (a f : ℕ) → a % page_size ≡ 0 → f < page_size → pte_addr (a + f) ≡ a
pte_addr-add a f e lt = omega (arith, e, lt)

pub p2v-v2p : (kernel_end v : ℕ) → IsPage kernel_end v → (p2v (v2p v) ≡ v) × (v2p v % page_size ≡ 0)
p2v-v2p kernel_end v p =
    (omega (arith, p.mapped, p.below), omega (arith, p.mapped, p.below, p.aligned))

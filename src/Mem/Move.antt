-- ===== src/Mem/Move.antt =====
-- `memmove` of kernel/string.c.
use lainos_fail.Base.{
  ℕ, zero, suc, ◌+◌, ◌-◌, ◌≤◌, ◌<◌, ◌≡◌, ◌⊎◌, inl, inr, ◌&&◌, arith, leb, ltb, Bool-cases,
  if◌then◌else◌, update,
}
use lainos_fail.Mem.{Ptr, Memory, copy_up, copy_down, memmove}

-- `n` bytes at `dst` are what `old` had at `src`, the others are as in `old`.
abbrev pub moved : (dst src : Ptr) → ℕ → Memory → Memory
moved dst src n old a = if leb dst a && ltb a (dst + n) then old (src + (a - dst)) else old a

-- Copying upwards is right when the source is not below a destination that it overlaps.
pub copy_up-moved :
    (n : ℕ) (d s : Ptr) (m : Memory) (a : Ptr)
    → (d ≤ s) ⊎ (s + n ≤ d)
    → copy_up n d s m a ≡ moved d s n m a
unfolding copy_up
copy_up-moved zero d s m a h = ground arith
copy_up-moved (suc n) d s m a h =
    rw (copy_up-moved n (d + 1) (s + 1) (update m d (m s)) a (omega arith)) (ground arith)

pub copy_down-moved :
    (n : ℕ) (d s : Ptr) (m : Memory) (a : Ptr)
    → s < d
    → copy_down n (d + n) (s + n) m a ≡ moved d s n m a
unfolding copy_down
copy_down-moved zero d s m a h = ground arith
copy_down-moved (suc n) d s m a h =
    let top : d + suc n - 1 ≡ d + n = omega arith in
    let last : s + suc n - 1 ≡ s + n = omega arith in
    rw (top, last, copy_down-moved n d s (update m (d + n) (m (s + n))) a h) (ground arith)

-- `memmove` copies the bytes that the source held before the call, also where the two ranges
-- overlap, and leaves every other byte of the memory alone.
pub memmove_lem :
    (dst src : Ptr) (n : ℕ) (m : Memory) (a : Ptr) → memmove dst src n m a ≡ moved dst src n m a
unfolding memmove
memmove_lem dst src n m a = elim (Bool-cases (ltb src dst && ltb dst (src + n))) [
  | inl down ↦ rw down (copy_down-moved n dst src m a (ground arith))
  | inr up ↦ rw up (copy_up-moved n dst src m a (ground arith))
]

-- ===== src/Args.antt =====
-- kernel/syscall.c: how a system call takes its arguments from the stack of the process. `sz` is
-- `proc->sz`, `esp` the saved stack pointer, `m` the memory of the process by byte.
mod Bounds
mod Tests
use lainos_fail.Base.{
  ℕ, zero, suc, ◌+◌, ◌-◌, ◌*◌, ◌%◌, ◌^◌, Bool, ◌||◌, Option, none, some, leb, ltb, ◌==◌,
  if◌then◌else◌, add32,
}
use lainos_fail.Mem.{Ptr, Memory}

-- `*(int *)addr`, as its 32-bit pattern
abbrev pub word_at : Ptr → Memory → ℕ
word_at a m = m a + m (a + 1) * 256 + m (a + 2) * 65536 + m (a + 3) * 16777216

unfoldable pub fetchint : (sz addr : ℕ) → Memory → Option ℕ
fetchint sz addr m = if leb sz addr || ltb sz (add32 addr 4) then none else some (word_at addr m)

-- The loop of `fetchstr` over the `k` bytes from `s`.
unfoldable pub find_nul : (k : ℕ) → (s : Ptr) → Memory → Option Ptr
find_nul zero s m = none
find_nul (suc k) s m = let rest = find_nul k (s + 1) m in if m s == 0 then some s else rest

abbrev pub string_from : Ptr → Option Ptr → Option (Ptr × ℕ)
string_from addr none = none
string_from addr (some s) = some (addr, s - addr)

-- The pointer and the length returned.
unfoldable pub fetchstr : (sz addr : ℕ) → Memory → Option (Ptr × ℕ)
fetchstr sz addr m = if leb sz addr then none else string_from addr (find_nul (sz - addr) addr m)

abbrev pub argint : (sz esp n : ℕ) → Memory → Option ℕ
argint sz esp n m = fetchint sz ((esp + 4 + 4 * n) % 2 ^ 32) m

-- `size` is the 32-bit pattern of the `int`.
abbrev pub check_ptr : (sz size : ℕ) → Option ℕ → Option Ptr
check_ptr sz size none = none
check_ptr sz size (some i) = if leb sz i || ltb sz (add32 i size) then none else some i

unfoldable pub argptr : (sz esp n size : ℕ) → Memory → Option Ptr
argptr sz esp n size m = check_ptr sz size (argint sz esp n m)

abbrev pub string_arg : (sz : ℕ) → Memory → Option ℕ → Option (Ptr × ℕ)
string_arg sz m none = none
string_arg sz m (some addr) = fetchstr sz addr m

unfoldable pub argstr : (sz esp n : ℕ) → Memory → Option (Ptr × ℕ)
argstr sz esp n m = string_arg sz m (argint sz esp n m)

-- ===== src/Mem.antt =====
-- kernel/string.c over a flat memory of bytes. A pointer is an address; C defines pointer
-- arithmetic inside an object only, so addresses do not wrap here.
pub mod Move
pub mod Fill
pub mod Compare
pub mod Copy
mod Tests
use Prim.Native.Nat.{bit_or}
use lainos_fail.Base.{
  ℕ, zero, suc, ◌+◌, ◌-◌, ◌*◌, ◌/◌, ◌%◌, ◌^◌, Bool, true, false, not, ◌&&◌, Option, none, some, ltb,
  ◌==◌, if◌then◌else◌, update, ℤ, pos, sub_ℕ,
}

abbrev pub Ptr : Type 0
Ptr = ℕ

abbrev pub Memory : Type 0
Memory = Ptr → ℕ

-- `while (n-- > 0) *d++ = *s++`
unfoldable pub copy_up : ℕ → (d s : Ptr) → Memory → Memory
copy_up zero d s m = m
copy_up (suc n) d s m = copy_up n (d + 1) (s + 1) (update m d (m s))

-- `while (n-- > 0) *--d = *--s`
unfoldable pub copy_down : ℕ → (d s : Ptr) → Memory → Memory
copy_down zero d s m = m
copy_down (suc n) d s m = copy_down n (d - 1) (s - 1) (update m (d - 1) (m (s - 1)))

unfoldable pub memmove : (dst src : Ptr) → ℕ → Memory → Memory
memmove dst src n m =
    if ltb src dst && ltb dst (src + n)
    then copy_down n (dst + n) (src + n) m
    else copy_up n dst src m

-- `rep stosb` of sys/x86.h
unfoldable pub stosb : Ptr → (byte : ℕ) → (count : ℕ) → Memory → Memory
stosb d byte zero m = m
stosb d byte (suc n) m = stosb (d + 1) byte n (update m d (byte % 256))

-- a 32-bit word at `d`, lowest byte first
abbrev pub store_word : Ptr → ℕ → Memory → Memory
store_word d w m =
    update
      (update (update (update m d (w % 256)) (d + 1) (w / 256 % 256)) (d + 2) (w / 65536 % 256))
      (d + 3) (w / 16777216 % 256)

-- `rep stosl` of sys/x86.h
unfoldable pub stosl : Ptr → (word : ℕ) → (count : ℕ) → Memory → Memory
stosl d w zero m = m
stosl d w (suc n) m = stosl (d + 4) w n (store_word d w m)

-- `(c << 24) | (c << 16) | (c << 8) | c`
unfoldable pub four_bytes : ℕ → ℕ
four_bytes c = bit_or (bit_or (bit_or (c * 2 ^ 24) (c * 2 ^ 16)) (c * 2 ^ 8)) c

-- `c` is the 32-bit pattern of the `int`; `c &= 0xFF` is `% 256`.
unfoldable pub memset : Ptr → (c n : ℕ) → Memory → Memory
memset dst c n m =
    if (dst % 4 == 0) && (n % 4 == 0)
    then stosl dst (four_bytes (c % 256)) (n / 4) m
    else stosb dst c n m

unfoldable pub memcmp : (n : ℕ) → (s1 s2 : Ptr) → Memory → ℤ
memcmp zero s1 s2 m = pos 0
memcmp (suc n) s1 s2 m =
    if not (m s1 == m s2) then sub_ℕ (m s1) (m s2) else memcmp n (s1 + 1) (s2 + 1) m

unfoldable pub strncmp : (n : ℕ) → (p q : Ptr) → Memory → ℤ
strncmp zero p q m = pos 0
strncmp (suc n) p q m =
    if not (m p == 0) && (m p == m q) then strncmp n (p + 1) (q + 1) m else sub_ℕ (m p) (m q)

-- `while (n-- > 0) *s++ = 0`
unfoldable pub zero_rest : ℕ → Ptr → Memory → Memory
zero_rest zero s m = m
zero_rest (suc n) s m = zero_rest n (s + 1) (update m s 0)

unfoldable pub strncpy : (n : ℕ) → (s t : Ptr) → Memory → Memory
strncpy zero s t m = m
strncpy (suc n) s t m =
    let m' = update m s (m t) in
    let rest = strncpy n (s + 1) (t + 1) m' in
    if not (m t == 0) then rest else zero_rest n (s + 1) m'

-- The loop of `safestrcpy` with `--n` rounds, and its final `*s = 0`.
unfoldable pub safe_loop : ℕ → (s t : Ptr) → Memory → Memory
safe_loop zero s t m = update m s 0
safe_loop (suc n) s t m =
    let m' = update m s (m t) in
    let rest = safe_loop n (s + 1) (t + 1) m' in
    if not (m t == 0) then rest else update m' (s + 1) 0

unfoldable pub safestrcpy : (n : ℕ) → (s t : Ptr) → Memory → Memory
safestrcpy n s t m = if n == 0 then m else safe_loop (n - 1) s t m

-- `for (n = 0; s[n]; n++)` on fuel; `none` when the fuel runs out.
unfoldable pub strlen : (fuel n : ℕ) → Ptr → Memory → Option ℕ
strlen zero n s m = none
strlen (suc fuel) n s m =
    let rest = strlen fuel (n + 1) s m in if m (s + n) == 0 then some n else rest

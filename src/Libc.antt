-- ===== src/Libc.antt =====
-- libc/string.c, the string functions of the programs, over a flat memory of bytes. A loop that runs
-- up to a NUL byte has fuel, and returns `none` when that runs out; a null pointer is an inner `none`.
mod Strings
mod Blocks
mod Measure
mod Search
mod Substring
mod Tests
use lainos_fail.Base.{
  ℕ, zero, suc, ◌+◌, ◌-◌, ◌%◌, Bool, true, false, not, ◌&&◌, Option, none, some, ◌==◌,
  if◌then◌else◌, update, ℤ, sub_ℕ,
}
use lainos_fail.Mem.{Ptr, Memory}

-- `while (s[rc]) ++rc`
unfoldable pub strlen : (fuel rc : ℕ) → (s : Ptr) → Memory → Option ℕ
strlen zero rc s m = none
strlen (suc fuel) rc s m =
    let rest = strlen fuel (rc + 1) s m in if not (m (s + rc) == 0) then rest else some rc

-- The loop of `strnlen` with `left` rounds up to `maxlen`.
unfoldable pub strnlen : (left len : ℕ) → (s : Ptr) → Memory → ℕ
strnlen zero len s m = len
strnlen (suc left) len s m =
    let rest = strnlen left (len + 1) s m in if m (s + len) == 0 then len else rest

unfoldable pub strcmp : (fuel : ℕ) → (s1 s2 : Ptr) → Memory → Option ℤ
strcmp zero s1 s2 m = none
strcmp (suc fuel) s1 s2 m =
    let rest = strcmp fuel (s1 + 1) (s2 + 1) m in
    if not (m s1 == 0) && (m s1 == m s2) then rest else some (sub_ℕ (m s1) (m s2))

-- `while ((*s1++ = *s2++));`
unfoldable pub strcpy : (fuel : ℕ) → (s1 s2 : Ptr) → Memory → Option Memory
strcpy zero s1 s2 m = none
strcpy (suc fuel) s1 s2 m =
    let m' = update m s1 (m s2) in
    let rest = strcpy fuel (s1 + 1) (s2 + 1) m' in if not (m s2 == 0) then rest else some m'

-- `while (*++s1);`
abbrev pub skip_rest : (fuel : ℕ) → (s1 : Ptr) → Memory → Option Ptr
skip_rest zero s1 m = none
skip_rest (suc fuel) s1 m =
    let rest = skip_rest fuel (s1 + 1) m in if not (m (s1 + 1) == 0) then rest else some (s1 + 1)

-- The end of the string at `s1`, where `strcat` starts to copy.
abbrev pub string_end : (fuel : ℕ) → (s1 : Ptr) → Memory → Option Ptr
string_end fuel s1 m = if not (m s1 == 0) then skip_rest fuel s1 m else some s1

abbrev pub copy_at : (fuel : ℕ) → (s2 : Ptr) → Memory → Option Ptr → Option Memory
copy_at fuel s2 m none = none
copy_at fuel s2 m (some e) = strcpy fuel e s2 m

unfoldable pub strcat : (fuel : ℕ) → (s1 s2 : Ptr) → Memory → Option Memory
strcat fuel s1 s2 m = copy_at fuel s2 m (string_end fuel s1 m)

-- `c` is the 32-bit pattern of the `int`.
unfoldable pub strchr : (fuel : ℕ) → (s : Ptr) → (c : ℕ) → Memory → Option (Option Ptr)
strchr zero s c m = none
strchr (suc fuel) s c m =
    let rest = strchr fuel (s + 1) c m in
    if m s == c % 256 then some (some s) else if not (m s == 0) then rest else some none

-- `while (*p) if (x == *p++) ...`: is `x` in the string at `p`?
abbrev pub is_in : (fuel : ℕ) → (x : ℕ) → (p : Ptr) → Memory → Option Bool
is_in zero x p m = none
is_in (suc fuel) x p m =
    let rest = is_in fuel x (p + 1) m in
    if not (m p == 0) then (if x == m p then some true else rest) else some false

-- One round of the outer loop of `strcspn`, `strspn`, `strpbrk` and `strstr`: `stop` when the test is `sense`.
abbrev pub unless : {A : Type 0} → (sense : Bool) → (stop rest : Option A) → Option Bool → Option A
unless sense stop rest none = none
unless true stop rest (some found) = if found then stop else rest
unless false stop rest (some found) = if found then rest else stop

unfoldable pub strcspn : (fuel set_fuel len : ℕ) → (s1 s2 : Ptr) → Memory → Option ℕ
strcspn zero set_fuel len s1 s2 m = none
strcspn (suc fuel) set_fuel len s1 s2 m =
    let rest = strcspn fuel set_fuel (len + 1) s1 s2 m in
    if not (m (s1 + len) == 0)
    then unless true (some len) rest (is_in set_fuel (m (s1 + len)) s2 m)
    else some len

unfoldable pub strspn : (fuel set_fuel len : ℕ) → (s1 s2 : Ptr) → Memory → Option ℕ
strspn zero set_fuel len s1 s2 m = none
strspn (suc fuel) set_fuel len s1 s2 m =
    let rest = strspn fuel set_fuel (len + 1) s1 s2 m in
    if not (m (s1 + len) == 0)
    then unless false (some len) rest (is_in set_fuel (m (s1 + len)) s2 m)
    else some len

unfoldable pub strpbrk : (fuel set_fuel : ℕ) → (p1 s2 : Ptr) → Memory → Option (Option Ptr)
strpbrk zero set_fuel p1 s2 m = none
strpbrk (suc fuel) set_fuel p1 s2 m =
    let rest = strpbrk fuel set_fuel (p1 + 1) s2 m in
    if not (m p1 == 0)
    then unless true (some (some p1)) rest (is_in set_fuel (m p1) s2 m)
    else some none

-- `while (*p2 && (*p1 == *p2)) ...`, and whether it stops at the end of `p2`.
unfoldable pub is_at : (fuel : ℕ) → (p1 p2 : Ptr) → Memory → Option Bool
is_at zero p1 p2 m = none
is_at (suc fuel) p1 p2 m =
    let rest = is_at fuel (p1 + 1) (p2 + 1) m in
    if not (m p2 == 0) && (m p1 == m p2) then rest else some (m p2 == 0)

unfoldable pub strstr : (fuel set_fuel : ℕ) → (s1 s2 : Ptr) → Memory → Option (Option Ptr)
strstr zero set_fuel s1 s2 m = none
strstr (suc fuel) set_fuel s1 s2 m =
    let rest = strstr fuel set_fuel (s1 + 1) s2 m in
    if not (m s1 == 0)
    then unless true (some (some s1)) rest (is_at set_fuel s1 s2 m)
    else some none

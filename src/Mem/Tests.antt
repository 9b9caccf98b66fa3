-- ===== src/Mem/Tests.antt =====
-- Runs of kernel/string.c and instances of its theorems.
use lainos_fail.Base.{
  ℕ, ◌+◌, ◌-◌, ◌≤◌, ◌<◌, ◌≢◌, ◌≡◌, refl, [], ◌∷◌, some, arith, ltb, if◌then◌else◌, negsuc,
}
use lainos_fail.Mem.{Memory, memset, memmove, copy_down, memcmp, strlen}
use lainos_fail.Mem.Move.{moved, memmove_lem}
use lainos_fail.Mem.Fill.{filled, memset_lem}
use lainos_fail.Mem.Compare.{bytes}
use lainos_fail.Mem.Copy.{strlen_lem}

-- "abc" at address 100, NULs elsewhere
abbrev abc : Memory
abc = λ a. if ltb a 100 then 0 else if ltb a 103 then a - 3 else 0

overlap : bytes (memmove 101 100 3 abc) 100 4 ≡ b'a' ∷ b'a' ∷ b'b' ∷ b'c' ∷ []
unfolding memmove copy_down
overlap = refl

first_difference : memcmp 4 100 101 abc ≡ negsuc 0
unfolding memcmp
first_difference = refl

abc_before : (i : ℕ) → 0 ≤ i → i < 0 + 3 → abc (100 + i) ≢ 0
abc_before i lo hi = ground arith

strlen_lem_example : strlen 8 0 100 abc ≡ some 3
strlen_lem_example = strlen_lem 8 0 3 100 abc abc_before refl (omega arith)

memmove_lem_example : memmove 101 100 3 abc 103 ≡ moved 101 100 3 abc 103
memmove_lem_example = memmove_lem 101 100 3 abc 103

memset_lem_example : memset 100 0x1ff 8 abc 105 ≡ filled 100 0xff 8 abc 105
memset_lem_example = memset_lem 100 0x1ff 8 abc 105

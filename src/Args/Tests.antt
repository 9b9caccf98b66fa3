-- ===== src/Args/Tests.antt =====
-- A process of 4096 bytes whose stack holds the address 16, of the string "A", and instances of the
-- theorems of kernel/syscall.c.
use lainos_fail.Base.{ℕ, ◌+◌, ◌≡◌, ◌≢◌, ◌<◌, refl, some, ◌==◌, if◌then◌else◌}
use lainos_fail.Mem.{Memory}
use lainos_fail.Args.{fetchint, find_nul, fetchstr, argptr, argstr}
use lainos_fail.Args.Bounds.{argstr_lem}

abbrev memory : Memory
memory a = if a == 104 then 16 else if a == 16 then 65 else 0

takes_string : argstr 4096 100 0 memory ≡ some (16, 1)
unfolding argstr fetchstr fetchint find_nul
takes_string = refl

takes_block : argptr 4096 100 0 32 memory ≡ some 16
unfolding argptr fetchint
takes_block = refl

argstr_lem_example : (17 < 4096) × (memory 17 ≡ 0) × ((i : ℕ) → i < 1 → memory (16 + i) ≢ 0)
argstr_lem_example = argstr_lem 4096 100 0 memory 16 1 takes_string

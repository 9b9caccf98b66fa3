-- ===== src/Files/Tests.antt =====
-- One process with an open pipe end, and instances of the theorems of kernel/file.c.
use lainos_fail.Base.{ℕ, zero, suc, ◌≡◌, refl, arith, true, false, none, some, [], ◌∷◌, done}
use lainos_fail.Files.{Open, File, Ftable, Descriptors, fd_none, fd_pipe}
use lainos_fail.Files.Count.{total, sum}
use lainos_fail.Files.Refs.{Counted, dups, closes, performs, performs-Counted}

abbrev unused_file : File
unused_file = record {
  type = fd_none;
  ref = 0;
  readable = false;
  writable = false;
  pipe = 0;
  ip = 0;
  off = 0;
}

abbrev files : Ftable
files zero = record unused_file { type = fd_pipe; ref = 1; readable = true; pipe = 7 }
files (suc n) = unused_file

abbrev ofile : ℕ → Descriptors
ofile zero zero = some 0
ofile zero (suc fd) = none
ofile (suc p) fd = none

abbrev one_open : Open
one_open = record { files = files; ofile = ofile; closings = [] }

counts : (f : ℕ) → (files f).ref ≡ total ofile f
unfolding total sum
counts zero = refl
counts (suc f) = ground arith

untyped : (f : ℕ) → (files f).ref ≡ 0 → (files f).type ≡ fd_none
untyped zero eq = absurd (ground (arith, eq))
untyped (suc f) eq = refl

one_open-Counted : Counted one_open
one_open-Counted = record { counts = counts; untyped = untyped }

performs-Counted_example :
    (s' : Open) × (performs (dups 0 0 ∷ closes 0 0 ∷ closes 1 3 ∷ closes 0 1 ∷ []) one_open
      ≡ done s')
    × Counted s'
performs-Counted_example =
    performs-Counted (dups 0 0 ∷ closes 0 0 ∷ closes 1 3 ∷ closes 0 1 ∷ []) one_open
      (omega arith, (omega arith, (omega arith, (omega arith, tt)))) one_open-Counted

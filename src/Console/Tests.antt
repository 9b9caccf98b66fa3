-- ===== src/Console/Tests.antt =====
-- The console of kernel/console.c at concrete inputs.
use lainos_fail.Base.{
  ℕ, ◌*◌, ◌≤◌, ◌≡◌, refl, true, false, List, [], ◌∷◌, arith, ◌==◌, if◌then◌else◌,
}
use lainos_fail.Console.{Input, on_key, consoleintr, consoleread, Cga, cgaputc}
use lainos_fail.Console.Print.{printint, put_digits}
use lainos_fail.Console.Keys.{ready, line, IsValid}
use lainos_fail.Console.Edit.{Shows, presses, consoleintr-Shows}
use lainos_fail.Console.Read.{Fetches, consoleread-Fetches}
use lainos_fail.Console.Screen.{cgaputc_lem}

-- The indices stand shortly before they wrap; `hi` and a newline were handed over, and `ab` is edited.
abbrev late : Input
late = record {
  buf = λ i.
      if i == 125
      then 104
      else if i == 126
      then 105
      else if i == 127
      then 10
      else if i == 0
      then 97
      else 98;
  r = 4294967293;
  w = 0;
  e = 2;
}

late-IsValid : IsValid late
late-IsValid = record {
  r_word = omega arith;
  w_word = omega arith;
  e_word = omega arith;
  order = refl;
  bounded = omega arith;
  plain = (omega arith, (omega arith, tt));
}

-- Backspace, `c`, return.
abbrev keys : List ℕ
keys = 127 ∷ 99 ∷ 13 ∷ []

consoleintr-Shows_example : Shows (consoleintr keys late) (presses keys (ready late) (line late))
consoleintr-Shows_example = consoleintr-Shows keys late late-IsValid

edits : ready (consoleintr keys late).input ≡ 104 ∷ 105 ∷ 10 ∷ 97 ∷ 99 ∷ 10 ∷ []
unfolding consoleintr on_key
edits = refl

consoleread-Fetches_example : Fetches 20 false false late (consoleread 20 false late)
consoleread-Fetches_example = consoleread-Fetches 20 false late late-IsValid

prints : printint 4294967254 10 true ≡ 45 ∷ 52 ∷ 50 ∷ []
unfolding printint put_digits
prints = refl

-- `5%`
abbrev percent : List ℕ
percent = 53 ∷ 37 ∷ []

-- The cursor in the last cell of the last row.
abbrev bottom : Cga
bottom = record { crt = λ x. 0; pos = 1999 }

cgaputc_lem_example :
    ((cgaputc 65 bottom).pos ≤ 24 * 80)
    × ((x : ℕ) → 25 * 80 ≤ x → (cgaputc 65 bottom).crt x ≡ bottom.crt x)
cgaputc_lem_example = cgaputc_lem 65 bottom (omega arith)

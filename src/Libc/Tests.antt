-- ===== src/Libc/Tests.antt =====
-- A memory with the strings "abc" at 100, "bc" at 200 and "" at 300, and instances of the theorems
-- of libc/string.c.
use lainos_fail.Base.{ℕ, ◌≡◌, refl, arith, Option, some, List, [], ◌∷◌, if◌then◌else◌, ◌==◌}
use lainos_fail.Mem.{Memory}
use lainos_fail.Libc.{strstr}
use lainos_fail.Libc.Strings.{HasString}
use lainos_fail.Libc.Search.{at_offset}
use lainos_fail.Libc.Substring.{IsFirst, strstr_lem}

abbrev memory : Memory
memory a =
    if a == 100
    then 97
    else if a == 101
    then 98
    else if a == 102
    then 99
    else if a == 200
    then 98
    else if a == 201
    then 99
    else 0

abbrev abc : List ℕ
abc = 97 ∷ 98 ∷ 99 ∷ []

abbrev bc : List ℕ
bc = 98 ∷ 99 ∷ []

has_abc : HasString memory 100 abc
has_abc = (refl, omega arith, (refl, omega arith, (refl, omega arith, refl)))

has_bc : HasString memory 200 bc
has_bc = (refl, omega arith, (refl, omega arith, refl))

strstr_lem_example :
    (r : Option ℕ) × (strstr 4 3 100 200 memory ≡ some (at_offset 100 r)) × IsFirst bc abc r
strstr_lem_example =
    strstr_lem abc bc 4 3 100 200 memory (omega arith) (omega arith) (λ e. ground (arith, e))
      has_abc has_bc

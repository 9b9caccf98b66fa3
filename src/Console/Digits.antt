-- ===== src/Console/Digits.antt =====
-- `printint` and `cprintf` of kernel/console.c: what is printed stands for the number.
use lainos_fail.Base.{
  ℕ, zero, suc, ◌+◌, ◌-◌, ◌*◌, ◌≤◌, ◌≡◌, inl, inr, refl, ap, ◌∙◌, Bool, false, List, [], ◌∷◌, arith,
  ltb, ◌==◌, if◌then◌else◌, length, Bool-cases,
}
use lainos_fail.Console.Print.{is_minus, magnitude, int_buf, printint, print_from, cprintf}

-- The value of a digit's character, and of a numeral with its first digit first.
abbrev pub digit_value : (c : ℕ) → ℕ
digit_value c = if ltb c 58 then c - 48 else c - 87

abbrev pub numeral : (base acc : ℕ) → List ℕ → ℕ
numeral base acc [] = acc
numeral base acc (c ∷ cs) = numeral base (acc * base + digit_value c) cs

-- The value of digits with the last one first, followed by `high`.
abbrev reversed_value : (base : ℕ) → List ℕ → ℕ
reversed_value base [] = 0
reversed_value base (c ∷ cs) = digit_value c + reversed_value base cs * base

abbrev power : (base k : ℕ) → ℕ
power base zero = 1
power base (suc k) = base * power base k

-- What is printed: a minus sign where the number is negated, and its magnitude's numeral.
abbrev pub Prints : (xx base : ℕ) → (sign : Bool) → Type 0
Prints xx base sign =
    (ds : List ℕ) × (printint xx base sign ≡ (if is_minus sign xx then 45 ∷ ds else ds))
    × (numeral base 0 ds ≡ magnitude sign xx)

abbrev pub InBuffer : (xx base : ℕ) → (sign : Bool) → Type 0
InBuffer xx base sign = length (int_buf xx base sign) ≤ 16

print_from-plain :
    (text_at : ℕ → List ℕ) (args : ℕ → ℕ) (k c : ℕ) (fmt : List ℕ)
    → (c == b'%') ≡ false
    → print_from text_at args k (c ∷ fmt) ≡ c ∷ print_from text_at args k fmt
unfolding print_from
print_from-plain text_at args k c [] ne = rw ne refl
print_from-plain text_at args k c (d ∷ fmt) ne = rw ne refl

-- A text in which every percent sign stands twice.
abbrev pub escape : List ℕ → List ℕ
escape [] = []
escape (c ∷ cs) = if c == b'%' then c ∷ (c ∷ escape cs) else c ∷ escape cs

print_from-escape :
    (text_at : ℕ → List ℕ) (args : ℕ → ℕ) (k : ℕ) (text : List ℕ)
    → print_from text_at args k (escape text) ≡ text
unfolding print_from
print_from-escape text_at args k [] = refl
print_from-escape text_at args k (c ∷ cs) = elim (Bool-cases (c == b'%')) [
  | inl e ↦
      let at : c ≡ b'%' = ground (arith, e) in
      let rest = print_from-escape text_at args k cs in rw (e, at, rest) refl
  | inr ne ↦ rw ne (
      print_from-plain text_at args k c (escape cs) ne
      ∙ ap (λ r. c ∷ r) (print_from-escape text_at args k cs))
]

-- `cprintf` of a text with its percent signs doubled prints the text, and takes no argument.
pub cprintf-escape :
    (text_at : ℕ → List ℕ) (args : ℕ → ℕ) (text : List ℕ)
    → cprintf text_at args (escape text) ≡ text
unfolding cprintf
cprintf-escape text_at args text = print_from-escape text_at args 0 text

-- ===== src/Console/Print.antt =====
-- kernel/console.c: `printint` and `cprintf`. What they print is the list of the characters passed to `consputc`.
use lainos_fail.Base.{
  ℕ, zero, suc, ◌+◌, ◌/◌, ◌%◌, ◌^◌, Bool, true, false, ◌&&◌, ◌||◌, List, [], ◌∷◌, ◌++◌, ltb, leb,
  ◌==◌, if◌then◌else◌, sub32,
}

-- `digits[x % base]`
abbrev pub digit : ℕ → ℕ
digit d = if ltb d 10 then 48 + d else 87 + d

-- The loop of `printint` that fills `buf`, least digit first, on fuel; the buffer as far as it is filled.
unfoldable pub put_digits : (fuel base x : ℕ) → List ℕ
put_digits zero base x = []
put_digits (suc fuel) base x =
    let rest = put_digits fuel base (x / base) in
    digit (x % base) ∷ (if x / base == 0 then [] else rest)

-- The magnitude that `printint` prints, from the bits of `xx`, and whether it is negated.
abbrev pub is_minus : (sign : Bool) → (xx : ℕ) → Bool
is_minus sign xx = sign && leb (2 ^ 31) xx

abbrev pub magnitude : (sign : Bool) → (xx : ℕ) → ℕ
magnitude sign xx = if is_minus sign xx then sub32 0 xx else xx

-- The characters that `printint` has in `buf`, and what it prints: they are read backwards. No `uint` has more
-- than 32 digits in a base from 2 on.
abbrev pub int_buf : (xx base : ℕ) → (sign : Bool) → List ℕ
int_buf xx base sign =
    put_digits 32 base (magnitude sign xx) ++ (if is_minus sign xx then 45 ∷ [] else [])

abbrev pub backwards : (xs acc : List ℕ) → List ℕ
backwards [] acc = acc
backwards (x ∷ xs) acc = backwards xs (x ∷ acc)

unfoldable pub printint : (xx base : ℕ) → (sign : Bool) → List ℕ
printint xx base sign = backwards (int_buf xx base sign) []

-- "(null)"
abbrev pub null_text : List ℕ
null_text = 40 ∷ 110 ∷ 117 ∷ 108 ∷ 108 ∷ 41 ∷ []

-- `args` are the words after `fmt` on the stack, `text_at` the strings in memory by address.
abbrev pub print_directive : (text_at : ℕ → List ℕ) → (c arg : ℕ) → List ℕ
print_directive text_at c arg =
    if c == b'd'
    then printint arg 10 true
    else if c == b'x' || c == b'p'
    then printint arg 16 false
    else if c == b's'
    then (if arg == 0 then null_text else text_at arg)
    else if c == b'%'
    then c ∷ []
    else b'%' ∷ c ∷ []

-- Whether a directive takes a word.
abbrev pub takes_arg : (c : ℕ) → Bool
takes_arg c = c == b'd' || c == b'x' || c == b'p' || c == b's'

-- The loop of `cprintf` over the bytes of `fmt` before its NUL, at the word `k` of `args`.
unfoldable pub print_from :
    (text_at : ℕ → List ℕ) → (args : ℕ → ℕ) → (k : ℕ) → (fmt : List ℕ) → List ℕ
print_from text_at args k [] = []
print_from text_at args k (c ∷ []) = if c == b'%' then [] else c ∷ []
print_from text_at args k (c ∷ (d ∷ fmt)) =
    let plain = print_from text_at args k (d ∷ fmt) in
    let after = print_from text_at args (if takes_arg d then k + 1 else k) fmt in
    if c == b'%' then print_directive text_at d (args k) ++ after else c ∷ plain

unfoldable pub cprintf : (text_at : ℕ → List ℕ) → (args : ℕ → ℕ) → (fmt : List ℕ) → List ℕ
cprintf text_at args fmt = print_from text_at args 0 fmt

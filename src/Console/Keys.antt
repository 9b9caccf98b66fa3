-- ===== src/Console/Keys.antt =====
-- The keys of kernel/console.c edit a line of bytes.
use lainos_fail.Base.{
  ℕ, suc, ◌+◌, ◌%◌, ◌^◌, ◌≤◌, ◌<◌, ◌≡◌, ◌≢◌, refl, ap, ap₂, sym, subst, ◌∙◌, Bool, true, false, not,
  ◌&&◌, ◌||◌, List, [], ◌∷◌, ◌++◌, arith, ltb, ◌==◌, if◌then◌else◌, length, All, sub32, replicate,
}
use lainos_fail.Console.{input_buf, newline, end_of_file, backspace, Input, Keyed, back}
use lainos_fail.Console.Window.{window, window-append}

-- The bytes handed over and not yet read, and the line that is edited.
abbrev pub ready : Input → List ℕ
ready s = window s.buf s.r (sub32 s.w s.r)

abbrev pub line : Input → List ℕ
line s = window s.buf s.w (sub32 s.e s.w)

-- The indices are in order, and the line has no newline.
pub record IsValid (s : Input) : Type 0 where
  pub r_word : s.r < 2 ^ 32
  pub w_word : s.w < 2 ^ 32
  pub e_word : s.e < 2 ^ 32
  pub order : sub32 s.w s.r + sub32 s.e s.w ≡ sub32 s.e s.r
  pub bounded : sub32 s.e s.r ≤ input_buf
  pub plain : All (λ c. c ≢ newline) (line s)

-- The terminal without its buffer: the bytes ready, the line, and what was echoed and whether the readers
-- were woken.
pub record Terminal : Type 0 where
  pub given : List ℕ
  pub edited : List ℕ
  pub shown : List ℕ
  pub wakes : Bool

abbrev pub drop_last : List ℕ → List ℕ
drop_last [] = []
drop_last (x ∷ []) = []
drop_last (x ∷ (y ∷ xs)) = x ∷ drop_last (y ∷ xs)

abbrev pub rub_out : List ℕ → List ℕ
rub_out [] = []
rub_out (x ∷ xs) = backspace ∷ []

abbrev pub typed : (c : ℕ) → (given edited : List ℕ) → Terminal
typed c given edited =
    let line' = edited ++ c ∷ [] in
    if c == newline || c == end_of_file || length given + length line' == input_buf
    then record { given = given ++ line'; edited = []; shown = c ∷ []; wakes = true }
    else record { given = given; edited = line'; shown = c ∷ []; wakes = false }

-- What a key does: Control-U rubs out the line, backspace its last byte; a byte that fits is put at the
-- line's end, and hands it over where it ends the line, ends the input or fills the buffer.
abbrev pub press : (c : ℕ) → (given edited : List ℕ) → Terminal
press c given edited =
    if c == 16
    then record { given = given; edited = edited; shown = []; wakes = false }
    else if c == 21
    then record {
      given = given;
      edited = [];
      shown = replicate (length edited) backspace;
      wakes = false;
    }
    else if c == 8 || c == 127
    then record { given = given; edited = drop_last edited; shown = rub_out edited; wakes = false }
    else if not (c == 0) && ltb (length given + length edited) input_buf
    then typed (if c == 13 then newline else c) given edited
    else record { given = given; edited = edited; shown = []; wakes = false }

abbrev pub seen : Keyed → Terminal
seen k = record { given = ready k.input; edited = line k.input; shown = k.echo; wakes = k.woken }

-- A list that ends at an index gives its last byte.
pub line-snoc :
    (buf : ℕ → ℕ) (i n : ℕ)
    → window buf i (suc n) ≡ window buf i n ++ buf ((i + n) % input_buf) ∷ []
line-snoc buf i n =
    let e : suc n ≡ n + 1 = omega arith in ap (λ k. window buf i k) e ∙ window-append buf i n 1

All-snoc :
    (xs : List ℕ) (c : ℕ)
    → All (λ x. x ≢ newline) (xs ++ c ∷ [])
    → All (λ x. x ≢ newline) xs × (c ≢ newline)
All-snoc [] c h = (tt, h.0)
All-snoc (x ∷ xs) c h = let r = All-snoc xs c (h.1) in ((h.0, r.0), r.1)

pub snoc-All :
    (xs : List ℕ) (c : ℕ)
    → All (λ x. x ≢ newline) xs
    → c ≢ newline
    → All (λ x. x ≢ newline) (xs ++ c ∷ [])
snoc-All [] c h ne = (ne, tt)
snoc-All (x ∷ xs) c h ne = (h.0, snoc-All xs c (h.1) ne)

pub drop_last-snoc : (xs : List ℕ) (c : ℕ) → drop_last (xs ++ c ∷ []) ≡ xs
drop_last-snoc [] c = refl
drop_last-snoc (x ∷ []) c = refl
drop_last-snoc (x ∷ (y ∷ xs)) c = ap (λ r. x ∷ r) (drop_last-snoc (y ∷ xs) c)

pub rub_out-snoc : (xs : List ℕ) (c : ℕ) → rub_out (xs ++ c ∷ []) ≡ backspace ∷ []
rub_out-snoc [] c = refl
rub_out-snoc (x ∷ xs) c = refl

-- The line before its last byte.
pub back-line :
    (s : Input) (n : ℕ)
    → IsValid s
    → sub32 s.e s.w ≡ suc n
    → (line s ≡ line (back s) ++ s.buf (sub32 s.e 1 % input_buf) ∷ [])
      × (sub32 (back s).e s.w ≡ n)
      × IsValid (back s)
      × (s.buf (sub32 s.e 1 % input_buf) ≢ newline)
back-line s n v e =
    let shorter : sub32 (sub32 s.e 1) s.w ≡ n = omega (arith, e, v.e_word, v.w_word) in
    let at : (s.w + n) % input_buf ≡ sub32 s.e 1 % input_buf =
      omega (arith, e, v.e_word, v.w_word) in
    let split : line s ≡ line (back s) ++ s.buf (sub32 s.e 1 % input_buf) ∷ [] =
      ap (λ k. window s.buf s.w k) e
      ∙ line-snoc s.buf s.w n
      ∙ ap₂ (λ k x. window s.buf s.w k ++ s.buf x ∷ []) (sym shorter) at in
    let parts =
      All-snoc (line (back s)) _ (subst (λ l. All (λ c. c ≢ newline) l) split (v.plain)) in
    (
      split,
      shorter,
      record {
        r_word = v.r_word;
        w_word = v.w_word;
        e_word = omega arith;
        order = omega (arith, e, v.r_word, v.e_word, v.w_word, v.order);
        bounded = omega (arith, e, v.r_word, v.e_word, v.w_word, v.order, v.bounded);
        plain = parts.0;
      },
      parts.1,
    )

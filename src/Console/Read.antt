-- ===== src/Console/Read.antt =====
-- `consoleread` of kernel/console.c takes bytes from the front.
use lainos_fail.Base.{
  ℕ, zero, suc, ◌+◌, ◌%◌, ◌≤◌, ◌<◌, ◌≡◌, ◌≢◌, ◌⊎◌, inl, inr, refl, ap, sym, subst, ◌∙◌, Bool, true,
  false, List, [], ◌∷◌, ◌++◌, arith, ◌==◌, if◌then◌else◌, length, All, Bool-cases, add32, sub32,
}
use lainos_fail.Console.{
  input_buf, newline, end_of_file, Input, Stop, returned, failed, asleep, Fetched, advance,
  read_loop, consoleread,
}
use lainos_fail.Console.Window.{window, window-wrap}
use lainos_fail.Console.Keys.{ready, line, IsValid}

-- A newline stands only at the end.
abbrev pub IsLine : List ℕ → Type 0
IsLine [] = Unit
IsLine (c ∷ []) = Unit
IsLine (c ∷ (d ∷ cs)) = (c ≢ newline) × IsLine (d ∷ cs)

abbrev pub EndsLine : List ℕ → Type 0
EndsLine [] = ⊥
EndsLine (c ∷ []) = c ≡ newline
EndsLine (c ∷ (d ∷ cs)) = EndsLine (d ∷ cs)

abbrev pub Begins : ℕ → List ℕ → Type 0
Begins c [] = ⊥
Begins c (x ∷ xs) = x ≡ c

-- Why a read of `n` bytes stops with `out`, before `rest`, having taken the bytes `eof` besides.
abbrev pub Why : (n : ℕ) → (got killed : Bool) → (out eof rest : List ℕ) → Stop → Type 0
Why n got killed out eof rest returned =
    ((eof ≡ []) × (length out ≡ n))
    ⊎ ((eof ≡ []) × EndsLine out)
    ⊎ ((eof ≡ end_of_file ∷ []) × (out ≡ []) × (got ≡ false))
    ⊎ ((eof ≡ []) × Begins end_of_file rest × ((got ≡ true) ⊎ (0 < length out)))
Why n got killed out eof rest failed = (eof ≡ []) × (rest ≡ []) × (length out < n) × (killed ≡ true)
Why n got killed out eof rest asleep =
    (eof ≡ []) × (rest ≡ []) × (length out < n) × (killed ≡ false)

-- What a read takes off the front: at most `n` bytes, of one line, without an end-of-file.
abbrev pub Fetches : (n : ℕ) → (got killed : Bool) → Input → Fetched → Type 0
Fetches n got killed s f =
    (eof : List ℕ) × (ready s ≡ f.out ++ (eof ++ ready f.input))
    × Why n got killed f.out eof (ready f.input) f.stop
    × (length f.out ≤ n)
    × IsLine f.out
    × All (λ c. c ≢ end_of_file) f.out
    × (line f.input ≡ line s)
    × IsValid f.input

ready-nil : (s : Input) → IsValid s → s.r ≡ s.w → ready s ≡ []
ready-nil s v e =
    let z : sub32 s.w s.r ≡ 0 = omega (arith, e, v.w_word) in ap (λ k. window s.buf s.r k) z

advance_lem :
    (s : Input)
    → IsValid s
    → s.r ≢ s.w
    → (ready s ≡ s.buf (s.r % input_buf) ∷ ready (advance s)) × IsValid (advance s)
advance_lem s v ne =
    let k : ℕ = sub32 s.w (add32 s.r 1) in
    let count : sub32 s.w s.r ≡ suc k = omega (arith, ne, v.w_word, v.r_word) in
    let wrap : (s.r + 1) % input_buf ≡ add32 s.r 1 % input_buf = omega arith in
    (
      ap (λ j. window s.buf s.r j) count
          ∙ ap (λ xs. s.buf (s.r % input_buf) ∷ xs)
              (window-wrap s.buf (s.r + 1) (add32 s.r 1) k wrap),
      record {
        r_word = omega arith;
        w_word = v.w_word;
        e_word = v.e_word;
        order = omega (arith, ne, v.order, v.bounded, v.r_word, v.w_word, v.e_word);
        bounded = omega (arith, ne, v.order, v.bounded, v.r_word, v.w_word, v.e_word);
        plain = v.plain;
      },
    )

-- A byte more in front.
IsLine-cons : (c : ℕ) (cs : List ℕ) → c ≢ newline → IsLine cs → IsLine (c ∷ cs)
IsLine-cons c [] ne h = tt
IsLine-cons c (d ∷ cs) ne h = (ne, h)

EndsLine-cons : (c : ℕ) (cs : List ℕ) → EndsLine cs → EndsLine (c ∷ cs)
EndsLine-cons c [] h = absurd h
EndsLine-cons c (d ∷ cs) h = h

Why-cons :
    (n c : ℕ) (got killed : Bool) (out eof rest : List ℕ) (stop : Stop)
    → Why n true killed out eof rest stop
    → Why (suc n) got killed (c ∷ out) eof rest stop
Why-cons n c got killed out eof rest returned (inl (e, h)) = inl (e, ap suc h)
Why-cons n c got killed out eof rest returned (inr (inl (e, h))) =
    inr (inl (e, EndsLine-cons c out h))
Why-cons n c got killed out eof rest returned (inr (inr (inl (e, h, g)))) = absurd (cc)
Why-cons n c got killed out eof rest returned (inr (inr (inr (e, h, g)))) =
    inr (inr (inr (e, h, inr (omega arith))))
Why-cons n c got killed out eof rest failed (e, h, lt, k) = (e, h, omega (arith, lt), k)
Why-cons n c got killed out eof rest asleep (e, h, lt, k) = (e, h, omega (arith, lt), k)

stuck :
    (n : ℕ) (got killed : Bool) (s : Input)
    → IsValid s
    → ready s ≡ []
    → Fetches
        (suc n)
        got
        killed
        s
        (record { out = []; stop = if killed then failed else asleep; input = s })
stuck n got true s v nil = ([], refl, (refl, nil, omega arith, refl), omega arith, tt, tt, refl, v)
stuck n got false s v nil = ([], refl, (refl, nil, omega arith, refl), omega arith, tt, tt, refl, v)

at_eof :
    (n : ℕ) (got killed : Bool) (s : Input)
    → IsValid s
    → IsValid (advance s)
    → s.buf (s.r % input_buf) ≡ end_of_file
    → ready s ≡ s.buf (s.r % input_buf) ∷ ready (advance s)
    → Fetches
        (suc n)
        got
        killed
        s
        (record { out = []; stop = returned; input = if got then s else advance s })
at_eof n true killed s v v' e next = (
  [],
  refl,
  inr (inr (inr (refl, subst (λ l. Begins end_of_file l) (sym next) e, inl refl))),
  omega arith,
  tt,
  tt,
  refl,
  v,
)
at_eof n false killed s v v' e next = (
  end_of_file ∷ [],
  next ∙ ap (λ c. c ∷ ready (advance s)) e,
  inr (inr (inl (refl, refl, refl))),
  omega arith,
  tt,
  tt,
  refl,
  v',
)

read_loop-Fetches :
    (n : ℕ) (got killed : Bool) (s : Input)
    → IsValid s
    → Fetches n got killed s (read_loop n got killed s)
unfolding read_loop
read_loop-Fetches zero got killed s v = ([], refl, inl (refl, refl), omega arith, tt, tt, refl, v)
read_loop-Fetches (suc n) got killed s v = elim (Bool-cases (s.r == s.w)) [
  | inl e ↦ rw e (stuck n got killed s v (ready-nil s v (ground (arith, e))))
  | inr ne ↦
      let c : ℕ = s.buf (s.r % input_buf) in
      let (next, v') = advance_lem s v (ground (arith, ne)) in
      elim (Bool-cases (c == end_of_file)) [
        | inl eof ↦ rw (ne, eof) (at_eof n got killed s v v' (ground (arith, eof)) next)
        | inr no_eof ↦ elim (Bool-cases (c == newline)) [
          | inl nl ↦
              rw (ne, no_eof, nl)
                (
                  [],
                  next,
                  inr (inl (refl, ground (arith, nl))),
                  omega arith,
                  tt,
                  (ground (arith, no_eof), tt),
                  refl,
                  v',
                )
          | inr plain ↦
              let rest = read_loop n true killed (advance s) in
              let (e, split, why, short, one, none_in, same, v'') =
                read_loop-Fetches n true killed (advance s) v' in
              rw (ne, no_eof, plain)
                (
                  e,
                  next ∙ ap (λ xs. c ∷ xs) split,
                  Why-cons n c got killed rest.out e (ready rest.input) rest.stop why,
                  omega (arith, short),
                  IsLine-cons c rest.out (ground (arith, plain)) one,
                  (ground (arith, no_eof), none_in),
                  same,
                  v'',
                )
        ]
      ]
]

-- `consoleread` takes a prefix of the bytes handed over, in order: at most `n`, up to the end of a line
-- or before an end-of-file; an end-of-file in front is taken and gives no byte. It sleeps, or fails where the
-- process is killed, only with nothing left to take. The line that is edited stays.
pub consoleread-Fetches :
    (n : ℕ) (killed : Bool) (s : Input)
    → IsValid s
    → Fetches n false killed s (consoleread n killed s)
unfolding consoleread
consoleread-Fetches n killed s v = read_loop-Fetches n false killed s v

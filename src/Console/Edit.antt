-- ===== src/Console/Edit.antt =====
-- `consoleintr` of kernel/console.c edits the line as its keys say.
use lainos_fail.Base.{
  ℕ, zero, suc, ◌+◌, ◌-◌, ◌%◌, ◌<◌, ◌≡◌, ◌≢◌, inl, inr, refl, ap, ap₂, sym, subst, ◌∙◌, Bool, false,
  not, ◌&&◌, ◌||◌, List, [], ◌∷◌, ◌++◌, arith, ltb, ◌==◌, if◌then◌else◌, update, length,
  length-append, All, Bool-cases, add32, sub32, replicate,
}
use lainos_fail.Console.{
  input_buf, newline, end_of_file, backspace, Input, Keyed, back, kill_line, erase, store, on_key,
  consoleintr,
}
use lainos_fail.Console.Window.{window, length-window, window-wrap, window-append, window-update}
use lainos_fail.Console.Keys.{
  ready, line, IsValid, Terminal, drop_last, rub_out, typed, press, seen, back-line, drop_last-snoc,
  rub_out-snoc, snoc-All, line-snoc,
}

-- A handler does to the state what the terminal does without its buffer.
abbrev pub Shows : Keyed → Terminal → Type 0
Shows k t = (seen k ≡ t) × IsValid k.input

Terminal-ext :
    {g g' e e' s s' : List ℕ} {b b' : Bool}
    → g ≡ g'
    → e ≡ e'
    → s ≡ s'
    → b ≡ b'
    → ◌≡◌ {A = Terminal}
        (record { given = g; edited = e; shown = s; wakes = b })
        (record { given = g'; edited = e'; shown = s'; wakes = b' })
Terminal-ext p q r t = λ i. record { given = p i; edited = q i; shown = r i; wakes = t i }

line-nil : (s : Input) → IsValid s → s.e ≡ s.w → line s ≡ []
line-nil s v e =
    let z : sub32 s.e s.w ≡ 0 = omega (arith, e, v.w_word) in ap (λ k. window s.buf s.w k) z

length-line : (s : Input) → length (line s) ≡ sub32 s.e s.w
length-line s = length-window s.buf s.w (sub32 s.e s.w)

kill_line-Shows :
    (n : ℕ) (s : Input)
    → IsValid s
    → sub32 s.e s.w ≡ n
    → Shows
        (kill_line n s)
        (record { given = ready s; edited = []; shown = replicate n backspace; wakes = false })
unfolding kill_line
kill_line-Shows zero s v e =
    (Terminal-ext refl (line-nil s v (omega (arith, e, v.w_word, v.e_word))) refl refl, v)
kill_line-Shows (suc n) s v e =
    let (split, shorter, v', plain) = back-line s n v e in
    let ne : (s.e == s.w) ≡ false = ground (arith, e, v.w_word) in
    let no_newline : (s.buf (sub32 s.e 1 % input_buf) == newline) ≡ false = ground (arith, plain) in
    let (same, v'') = kill_line-Shows n (back s) v' shorter in
    rw (ne, no_newline)
      (
        Terminal-ext (ap (λ t. t.given) same) (ap (λ t. t.edited) same)
            (ap (λ t. backspace ∷ t.shown) same) (ap (λ t. t.wakes) same),
        v'',
      )

erase-Shows :
    (s : Input)
    → IsValid s
    → Shows (erase s) (record {
      given = ready s;
      edited = drop_last (line s);
      shown = rub_out (line s);
      wakes = false;
    })
erase-Shows s v = elim (Bool-cases (s.e == s.w)) [
  | inl e ↦
      let nil = line-nil s v (ground (arith, e)) in
      rw e (Terminal-ext refl (nil ∙ sym (ap drop_last nil)) (sym (ap rub_out nil)) refl, v)
  | inr ne ↦
      let some_left : sub32 s.e s.w ≡ suc (sub32 s.e s.w - 1) =
        ground (arith, ne, v.e_word, v.w_word) in
      let (split, shorter, v', plain) = back-line s (sub32 s.e s.w - 1) v some_left in
      rw ne (
        Terminal-ext refl (sym (ap drop_last split ∙ drop_last-snoc (line (back s)) _))
            (sym (ap rub_out split ∙ rub_out-snoc (line (back s)) _)) refl,
        v',
      )
]

-- The state after a byte is stored at the end of the line.
abbrev stored : (c : ℕ) → Input → Input
stored c s = record s { buf = update s.buf (s.e % input_buf) c; e = add32 s.e 1 }

stored_lem :
    (c : ℕ) (s : Input)
    → IsValid s
    → sub32 s.e s.r < input_buf
    → (ready (stored c s) ≡ ready s)
      × (line (stored c s) ≡ line s ++ c ∷ [])
      × (window (stored c s).buf s.r (sub32 (add32 s.e 1) s.r) ≡ ready s ++ (line s ++ c ∷ []))
      × (sub32 (add32 s.e 1) s.r ≡ sub32 s.e s.r + 1)
stored_lem c s v room =
    let a : ℕ = sub32 s.w s.r in
    let b : ℕ = sub32 s.e s.w in
    let total : a + b ≡ sub32 s.e s.r = v.order in
    let buf' : ℕ → ℕ = update s.buf (s.e % input_buf) c in
    let end_r : (s.r + sub32 s.e s.r) % input_buf ≡ s.e % input_buf =
      omega (arith, v.r_word, v.e_word) in
    let end_w : (s.w + b) % input_buf ≡ s.e % input_buf = omega (arith, v.w_word, v.e_word) in
    let before : window buf' s.r a ≡ window s.buf s.r a =
      ap (λ x. window (update s.buf x c) s.r a) (sym end_r)
      ∙ window-update s.buf s.r a (sub32 s.e s.r) c (omega (arith, total)) room in
    let old : window buf' s.w b ≡ window s.buf s.w b =
      ap (λ x. window (update s.buf x c) s.w b) (sym end_w)
      ∙ window-update s.buf s.w b b c (omega arith) (omega (arith, total, room)) in
    let last : buf' ((s.w + b) % input_buf) ≡ c = ap buf' end_w ∙ ground arith in
    let longer : window buf' s.w (suc b) ≡ line s ++ c ∷ [] =
      line-snoc buf' s.w b ∙ ap₂ (λ xs x. xs ++ x ∷ []) old last in
    let e' : ℕ = add32 s.e 1 in
    let count_w : sub32 e' s.w ≡ suc b = omega (arith, v.w_word, v.e_word, total, room) in
    let count_r : sub32 e' s.r ≡ sub32 s.e s.r + 1 = omega (arith, v.r_word, v.e_word, room) in
    let count : sub32 e' s.r ≡ a + suc b = omega (arith, count_r, total) in
    let wrap : (s.r + a) % input_buf ≡ s.w % input_buf = omega (arith, v.r_word, v.w_word) in
    (
      before,
      ap (λ k. window buf' s.w k) count_w ∙ longer,
      ap (λ k. window buf' s.r k) count
          ∙ window-append buf' s.r a (suc b)
          ∙ ap₂ (λ xs ys. xs ++ ys) before (window-wrap buf' (s.r + a) s.w (suc b) wrap ∙ longer),
      count_r,
    )

store-Shows :
    (c : ℕ) (s : Input)
    → IsValid s
    → sub32 s.e s.r < input_buf
    → Shows (store c s) (typed c (ready s) (line s))
store-Shows c s v room =
    let (before, longer, whole, count) = stored_lem c s v room in
    let e' : ℕ = add32 s.e 1 in
    let lengths : length (ready s) + length (line s ++ c ∷ []) ≡ sub32 e' s.r =
      (let n₁ = length-window s.buf s.r (sub32 s.w s.r) in
        let n₂ = length-append (line s) (c ∷ []) in
        let n₃ = length-line s in omega (arith, n₁, n₂, n₃, count, v.order)) in
    let full : (length (ready s) + length (line s ++ c ∷ []) == input_buf)
        ≡ (e' == add32 s.r input_buf) =
      rw lengths (ground (arith, v.r_word, v.e_word, count, room)) in
    elim (Bool-cases (c == newline || c == end_of_file || e' == add32 s.r input_buf)) [
      | inl over ↦
          let nothing : sub32 e' e' ≡ 0 = omega arith in
          rw (full, over)
            (
              Terminal-ext whole (ap (λ k. window (stored c s).buf e' k) nothing) refl refl,
              record {
                r_word = v.r_word;
                w_word = omega arith;
                e_word = omega arith;
                order = omega (arith, nothing);
                bounded = omega (arith, count, room);
                plain = (rw nothing tt);
              },
            )
      | inr more ↦
          let ne : c ≢ newline = ground (arith, more) in
          rw (full, more)
            (
              Terminal-ext before longer refl refl,
              record {
                r_word = v.r_word;
                w_word = v.w_word;
                e_word = omega arith;
                order = omega (arith, count, v.order, v.w_word, v.e_word, v.r_word, room);
                bounded = omega (arith, count, room);
                plain =
                    subst (λ l. All (λ x. x ≢ newline) l) (sym longer)
                      (snoc-All (line s) c (v.plain) ne);
              },
            )
    ]

-- A key does to the ring buffer what it does to the line of a terminal, with the same echo, and wakes the
-- readers where the line is handed over; the indices stay in order, at most 128 bytes apart.
pub on_key-Shows : (c : ℕ) (s : Input) → IsValid s → Shows (on_key c s) (press c (ready s) (line s))
unfolding on_key
on_key-Shows c s v = elim (Bool-cases (c == 16)) [
  | inl e ↦ rw e (refl, v)
  | inr e₁ ↦ elim (Bool-cases (c == 21)) [
    | inl e ↦ rw (e₁, e, length-line s) (kill_line-Shows (sub32 s.e s.w) s v refl)
    | inr e₂ ↦ elim (Bool-cases (c == 8 || c == 127)) [
      | inl e ↦ rw (e₁, e₂, e) (erase-Shows s v)
      | inr e₃ ↦
          let n₁ = length-window s.buf s.r (sub32 s.w s.r) in
          let n₂ = length-line s in
          let n : length (ready s) + length (line s) ≡ sub32 s.e s.r =
            omega (arith, n₁, n₂, v.order) in
          elim (Bool-cases (not (c == 0) && ltb (sub32 s.e s.r) input_buf)) [
            | inl e ↦
                rw (e₁, e₂, e₃, n, e)
                  (store-Shows (if c == 13 then newline else c) s v (ground (arith, e)))
            | inr e ↦ rw (e₁, e₂, e₃, n, e) (refl, v)
          ]
    ]
  ]
]

-- The terminal after a run of keys.
abbrev pub presses : List ℕ → (given edited : List ℕ) → Terminal
presses [] given edited = record { given = given; edited = edited; shown = []; wakes = false }
presses (c ∷ cs) given edited =
    let t = press c given edited in
    let rest = presses cs t.given t.edited in
    record {
      given = rest.given;
      edited = rest.edited;
      shown = t.shown ++ rest.shown;
      wakes = t.wakes || rest.wakes;
    }

-- `consoleintr` on any keys does to the ring buffer what the keys do one after the other to the line of a
-- terminal: Control-U and backspace edit only bytes not yet handed over, with the echo that rubs
-- them out; a newline, Control-D or the full buffer hands the line over and wakes the readers; no byte
-- is overwritten before it is read.
pub consoleintr-Shows :
    (cs : List ℕ) (s : Input) → IsValid s → Shows (consoleintr cs s) (presses cs (ready s) (line s))
unfolding consoleintr
consoleintr-Shows [] s v = (refl, v)
consoleintr-Shows (c ∷ cs) s v =
    let (same, v') = on_key-Shows c s v in
    let (same', v'') = consoleintr-Shows cs (on_key c s).input v' in
    let whole : presses cs (ready (on_key c s).input) (line (on_key c s).input)
        ≡ presses cs (press c (ready s) (line s)).given (press c (ready s) (line s)).edited =
      ap (λ t. presses cs t.given t.edited) same in
    (
      Terminal-ext (ap (λ t. t.given) (same' ∙ whole)) (ap (λ t. t.edited) (same' ∙ whole))
          (ap₂ (λ xs ys. xs ++ ys) (ap (λ t. t.shown) same) (ap (λ t. t.shown) (same' ∙ whole)))
          (ap₂ (λ x y. x || y) (ap (λ t. t.wakes) same) (ap (λ t. t.wakes) (same' ∙ whole))),
      v'',
    )

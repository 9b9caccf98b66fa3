-- ===== src/Console/Screen.antt =====
-- `cgaputc` of kernel/console.c stays on the screen.
use lainos_fail.Base.{ℕ, ◌*◌, ◌/◌, ◌≤◌, ◌<◌, ◌≡◌, inl, inr, arith, leb, Bool-cases, ◌∙◌}
use lainos_fail.Console.{Cga, put_cell, scrolled, cgaputc}

-- The cursor is in the 25 rows of the screen.
abbrev pub IsOnScreen : Cga → Type 0
IsOnScreen g = g.pos < 25 * 80

put_cell_lem :
    (c : ℕ) (g : Cga)
    → IsOnScreen g
    → ((put_cell c g).pos ≤ 25 * 80) × ((x : ℕ) → 25 * 80 ≤ x → (put_cell c g).crt x ≡ g.crt x)
put_cell_lem c g on = (ground (arith, on), λ x le. ground (arith, on, le))

scrolled_lem :
    (g : Cga)
    → g.pos ≤ 25 * 80
    → ((scrolled g).pos ≤ 24 * 80) × ((x : ℕ) → 25 * 80 ≤ x → (scrolled g).crt x ≡ g.crt x)
scrolled_lem g le = (omega (arith, le), λ x far. ground (arith, far))

-- Any character, newline and backspace included, printed with the cursor on the screen leaves it within the first 24 rows
-- or right after them, and writes no memory beyond the 25 rows.
pub cgaputc_lem :
    (c : ℕ) (g : Cga)
    → IsOnScreen g
    → ((cgaputc c g).pos ≤ 24 * 80) × ((x : ℕ) → 25 * 80 ≤ x → (cgaputc c g).crt x ≡ g.crt x)
unfolding cgaputc
cgaputc_lem c g on =
    let (room, same) = put_cell_lem c g on in
    elim (Bool-cases (leb 24 ((put_cell c g).pos / 80))) [
      | inl low ↦
          let (room', same') = scrolled_lem (put_cell c g) room in
          rw low (room', λ x far. ground (arith, room', far) ∙ (same' x far ∙ same x far))
      | inr above ↦
          let room' : (put_cell c g).pos ≤ 24 * 80 = ground (arith, above) in
          rw above (room', λ x far. ground (arith, room', far) ∙ same x far)
    ]

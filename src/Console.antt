-- ===== src/Console.antt =====
-- kernel/console.c: the input line with its editing and the screen of `cgaputc`. A handler is atomic under the
-- input lock; what it passes to `consputc` is returned, with 256 for BACKSPACE.
pub mod Print
mod Window
mod Keys
mod Edit
mod Read
mod Digits
mod Screen
mod Tests
use lainos_fail.Base.{
  ℕ, zero, suc, ◌+◌, ◌-◌, ◌*◌, ◌/◌, ◌%◌, ◌^◌, Bool, true, false, not, ◌&&◌, ◌||◌, List, [], ◌∷◌,
  ◌++◌, ltb, leb, ◌==◌, if◌then◌else◌, update, add32, sub32,
}

-- `INPUT_BUF`
abbrev pub input_buf : ℕ
input_buf = 128

abbrev pub newline : ℕ
newline = 10

-- `C('D')`, and BACKSPACE as `consputc` takes it
abbrev pub end_of_file : ℕ
end_of_file = 4

abbrev pub backspace : ℕ
backspace = 256

-- `input` without its lock; the indices are `uint`s.
pub record Input : Type 0 where
  pub buf : ℕ → ℕ
  pub r : ℕ
  pub w : ℕ
  pub e : ℕ

-- A handler's new state, its echo, and whether it woke the readers.
pub record Keyed : Type 0 where
  pub input : Input
  pub echo : List ℕ
  pub woken : Bool

-- `input.e--`
abbrev pub back : Input → Input
back s = record s { e = sub32 s.e 1 }

-- The loop of Control-U, on fuel.
unfoldable pub kill_line : (fuel : ℕ) → Input → Keyed
kill_line zero s = record { input = s; echo = []; woken = false }
kill_line (suc fuel) s =
    let rest = kill_line fuel (back s) in
    if s.e == s.w || s.buf (sub32 s.e 1 % input_buf) == newline
    then record { input = s; echo = []; woken = false }
    else record rest { echo = backspace ∷ rest.echo }

abbrev pub erase : Input → Keyed
erase s =
    if s.e == s.w
    then record { input = s; echo = []; woken = false }
    else record { input = back s; echo = backspace ∷ []; woken = false }

-- The byte `c` is stored, and the line is handed over where it ends or the buffer is full.
abbrev pub store : (c : ℕ) → Input → Keyed
store c s =
    let e' = add32 s.e 1 in
    let hand_over = c == newline || c == end_of_file || e' == add32 s.r input_buf in
    record {
      input = record s {
        buf = update s.buf (s.e % input_buf) c;
        e = e';
        w = if hand_over then e' else s.w;
      };
      echo = c ∷ [];
      woken = hand_over;
    }

-- One round of `consoleintr`, for the key `c`; `procdump` on Control-P prints only.
unfoldable pub on_key : (c : ℕ) → Input → Keyed
on_key c s =
    if c == 16
    then record { input = s; echo = []; woken = false }
    else if c == 21
    then kill_line (sub32 s.e s.w) s
    else if c == 8 || c == 127
    then erase s
    else if not (c == 0) && ltb (sub32 s.e s.r) input_buf
    then store (if c == 13 then newline else c) s
    else record { input = s; echo = []; woken = false }

-- `consoleintr` on the keys that `getc` gives before a negative one.
unfoldable pub consoleintr : List ℕ → Input → Keyed
consoleintr [] s = record { input = s; echo = []; woken = false }
consoleintr (c ∷ cs) s =
    let k = on_key c s in
    let rest = consoleintr cs k.input in
    record { input = rest.input; echo = k.echo ++ rest.echo; woken = k.woken || rest.woken }

-- How a read stops: it returns its count, -1, or it sleeps.
pub data Stop : Type 0 where
  returned failed asleep : Stop

-- The bytes copied until then, and the state.
pub record Fetched : Type 0 where
  pub out : List ℕ
  pub stop : Stop
  pub input : Input

-- `input.r++`
abbrev pub advance : Input → Input
advance s = record s { r = add32 s.r 1 }

-- The loop of `consoleread` with `n` bytes to go; `got` says whether bytes were copied before. A
-- reader that slept goes on with the same loop.
unfoldable pub read_loop : (n : ℕ) → (got killed : Bool) → Input → Fetched
read_loop zero got killed s = record { out = []; stop = returned; input = s }
read_loop (suc n) got killed s =
    let c = s.buf (s.r % input_buf) in
    let rest = read_loop n true killed (advance s) in
    if s.r == s.w
    then record { out = []; stop = if killed then failed else asleep; input = s }
    else if c == end_of_file
    then record { out = []; stop = returned; input = if got then s else advance s }
    else if c == newline
    then record { out = c ∷ []; stop = returned; input = advance s }
    else record rest { out = c ∷ rest.out }

unfoldable pub consoleread : (n : ℕ) → (killed : Bool) → Input → Fetched
consoleread n killed s = read_loop n false killed s

-- The screen: its cells, and the cursor that the ports hold.
pub record Cga : Type 0 where
  pub crt : ℕ → ℕ
  pub pos : ℕ

-- A cell with `c`, black on white.
abbrev pub cell : (c : ℕ) → ℕ
cell c = c % 256 + 0x0700

abbrev pub put_cell : (c : ℕ) → Cga → Cga
put_cell c g =
    if c == newline
    then record g { pos = g.pos + (80 - g.pos % 80) }
    else if c == backspace
    then record g { pos = g.pos - 1 }
    else record g { crt = update g.crt g.pos (cell c); pos = g.pos + 1 }

-- The rows 1 to 23 move up by one, and the cells from the new cursor to the row 24 are cleared.
abbrev pub scrolled : Cga → Cga
scrolled g =
    let pos' = g.pos - 80 in
    let moved : ℕ → ℕ = λ x. if ltb x (23 * 80) then g.crt (x + 80) else g.crt x in
    record { crt = λ x. if leb pos' x && ltb x (24 * 80) then 0 else moved x; pos = pos' }

unfoldable pub cgaputc : (c : ℕ) → Cga → Cga
cgaputc c g =
    let g₁ = put_cell c g in
    let g₂ = if leb 24 (g₁.pos / 80) then scrolled g₁ else g₁ in
    record g₂ { crt = update g₂.crt g₂.pos (cell 32) }

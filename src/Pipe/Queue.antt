-- ===== src/Pipe/Queue.antt =====
-- The bytes that a pipe of kernel/pipe.c holds, oldest first. The counters wrap at 2^32, a
-- multiple of the buffer's size, so a byte keeps its place when they do.
use lainos_fail.Base.{
  ℕ, zero, suc, ◌+◌, ◌%◌, ◌^◌, ◌≤◌, ◌<◌, ◌≡◌, ◌≢◌, refl, ap, ap₂, List, [], ◌∷◌, ◌++◌, arith, ◌==◌,
  update, length, add32, sub32,
}
use lainos_fail.Pipe.{Pipe, pipe_size, put, get, front, is_full, is_empty}

-- the `k` bytes from counter `r` on
abbrev pub window : (ℕ → ℕ) → (r k : ℕ) → List ℕ
window buf r zero = []
window buf r (suc k) = buf (r % pipe_size) ∷ window buf (add32 r 1) k

-- the bytes written and not yet read
abbrev pub fill : Pipe → ℕ
fill p = sub32 p.nwrite p.nread

abbrev pub contents : Pipe → List ℕ
contents p = window p.buf p.nread (fill p)

pub record IsValid (p : Pipe) : Type 0 where
  pub read_word : p.nread < 2 ^ 32
  pub write_word : p.nwrite < 2 ^ 32
  pub bounded : fill p ≤ pipe_size

pub length-window : (buf : ℕ → ℕ) (r k : ℕ) → length (window buf r k) ≡ k
length-window buf r zero = refl
length-window buf r (suc k) = ap suc (length-window buf (add32 r 1) k)

window-update :
    (buf : ℕ → ℕ) (c r k w : ℕ)
    → r < 2 ^ 32
    → k < pipe_size
    → w ≡ (r + k) % 2 ^ 32
    → window (update buf (w % pipe_size) c) r (suc k) ≡ window buf r k ++ (c ∷ [])
window-update buf c r zero w hr hk e =
    let same : r % pipe_size ≡ w % pipe_size = omega arith in ground arith
window-update buf c r (suc k) w hr hk e =
    let ne : r % pipe_size ≢ w % pipe_size = omega arith in
    ap₂ ◌∷◌ (ground arith)
      (window-update buf c (add32 r 1) k w (omega arith) (omega arith) (omega arith))

module _ (p : Pipe) (v : IsValid p) where
  pub is_full-eq : is_full p ≡ (fill p == pipe_size)
  is_full-eq = ground (arith, v.read_word, v.write_word, v.bounded)

  pub is_empty-eq : is_empty p ≡ (fill p == 0)
  is_empty-eq = ground (arith, v.read_word, v.write_word, v.bounded)

  pub fill-put : (c : ℕ) → fill p < pipe_size → fill (put c p) ≡ suc (fill p)
  unfolding put
  fill-put c room = omega (arith, v.read_word, v.write_word)

  pub put-IsValid : (c : ℕ) → fill p < pipe_size → IsValid (put c p)
  unfolding put
  put-IsValid c room = record {
    read_word = v.read_word;
    write_word = omega arith;
    bounded = omega (arith, v.read_word, v.write_word);
  }

  -- Writing a byte appends it.
  pub contents-put : (c : ℕ) → fill p < pipe_size → contents (put c p) ≡ contents p ++ (c ∷ [])
  unfolding put
  contents-put c room = rw (fill-put c room) (
      window-update p.buf c p.nread (fill p) p.nwrite v.read_word room
        (omega (arith, v.read_word, v.write_word)))

  pub fill-get : fill p ≢ 0 → fill p ≡ suc (fill (get p))
  unfolding get
  fill-get some_left = omega (arith, v.read_word, v.write_word)

  pub get-IsValid : fill p ≢ 0 → IsValid (get p)
  unfolding get
  get-IsValid some_left = record {
    read_word = omega arith;
    write_word = v.write_word;
    bounded = omega (arith, v.read_word, v.write_word, v.bounded);
  }

  -- Reading a byte takes the oldest.
  pub contents-get : fill p ≢ 0 → contents p ≡ front p ∷ contents (get p)
  unfolding get
  contents-get some_left = rw (fill-get some_left)

  pub fill-length : length (contents p) ≡ fill p
  fill-length = length-window p.buf p.nread (fill p)

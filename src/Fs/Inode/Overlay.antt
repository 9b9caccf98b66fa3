-- ===== src/Fs/Inode/Overlay.antt =====
-- Bytes written over the content of a file of kernel/fs.c, block by block.
use lainos_fail.Base.{
  ℕ, zero, suc, ◌+◌, ◌-◌, ◌/◌, ◌%◌, ◌<◌, ◌≡◌, ◌≢◌, inl, inr, refl, false, ◌&&◌, List, [], ◌∷◌, ltb,
  leb, ◌==◌, arith, if◌then◌else◌, Bool-cases, sym, ap, ◌∙◌, subst, update, update_ne, update_self,
  length, All, ◌≤◌, take, drop, length-take, length-drop,
}
use lainos_fail.Mem.{Memory}
use lainos_fail.Fs.{Disk}
use lainos_fail.Fs.Bitmap.{IsDisk}
use lainos_fail.Fs.Inode.{ndirect, block_size, Dinode, put_bytes}
use lainos_fail.Fs.Inode.Blocks.{block_of, IsData, IsMapped, Keeps, update-Keeps}
use lainos_fail.Fs.Inode.Mapping.{block_of-frame, IsMapped-frame}
use lainos_fail.Fs.Inode.Content.{content, IsForeign-frame, Becomes}

abbrev pub nth : List ℕ → ℕ → ℕ
nth [] i = 0
nth (x ∷ xs) zero = x
nth (x ∷ xs) (suc i) = nth xs i

-- `f` with `xs` written at `off`.
abbrev pub overlay : (xs : List ℕ) → (off : ℕ) → (ℕ → ℕ) → ℕ → ℕ
overlay xs off f x = if leb off x && ltb x (off + length xs) then nth xs (x - off) else f x

nth-take : (k i : ℕ) (xs : List ℕ) → i < k → nth (take k xs) i ≡ nth xs i
nth-take zero i xs lt = absurd (omega arith)
nth-take (suc k) i [] lt = refl
nth-take (suc k) zero (x ∷ xs) lt = refl
nth-take (suc k) (suc i) (x ∷ xs) lt = nth-take k i xs (omega arith)

nth-drop : (k i : ℕ) (xs : List ℕ) → nth (drop k xs) i ≡ nth xs (k + i)
nth-drop zero i xs = (let e : zero + i ≡ i = omega arith in rw e refl)
nth-drop (suc k) i [] = refl
nth-drop (suc k) i (x ∷ xs) =
    (let e : suc k + i ≡ suc (k + i) = omega arith in rw e (nth-drop k i xs))

pub overlay-overlay :
    (k off : ℕ) (xs : List ℕ) (f : ℕ → ℕ) (x : ℕ)
    → k ≤ length xs
    → overlay (drop k xs) (off + k) (overlay (take k xs) off f) x ≡ overlay xs off f x
overlay-overlay k off xs f x le =
    let front : length (take k xs) ≡ k = omega (arith, length-take k xs) in
    let back : length (drop k xs) ≡ length xs - k = length-drop k xs in
    elim (Bool-cases (leb (off + k) x)) [
      | inl late ↦
          let index : k + (x - (off + k)) ≡ x - off = ground (arith, late) in
          let value : nth (drop k xs) (x - (off + k)) ≡ nth xs (x - off) =
            nth-drop k (x - (off + k)) xs ∙ ap (λ i. nth xs i) index in
          rw (value, front, back) (ground (arith, late, le))
      | inr early ↦ elim (Bool-cases (leb off x)) [
        | inl inside ↦
            let value : nth (take k xs) (x - off) ≡ nth xs (x - off) =
              nth-take k (x - off) xs (ground (arith, early, inside)) in
            rw (value, front, back) (ground (arith, early, inside, le))
        | inr before ↦ ground (arith, early, before)
      ]
    ]

overlay-later :
    (y : ℕ) (ys : List ℕ) (o : ℕ) (m : Memory) (x : ℕ)
    → x ≢ o
    → overlay ys (o + 1) (update m o y) x ≡ overlay (y ∷ ys) o m x
overlay-later y ys o m x ne = elim (Bool-cases (ltb o x)) [
  | inl after ↦
      let next : x - o ≡ suc (x - (o + 1)) = ground (arith, after) in
      rw next (ground (arith, after, ne))
  | inr before ↦ ground (arith, before, ne)
]

pub put_bytes-overlay :
    (xs : List ℕ) (o : ℕ) (m : Memory) (x : ℕ) → put_bytes xs o m x ≡ overlay xs o m x
unfolding put_bytes
put_bytes-overlay [] o m x = ground arith
put_bytes-overlay (y ∷ ys) o m x = elim (Bool-cases (x == o)) [
  | inl here ↦
      let same : x ≡ o = ground (arith, here) in
      let first : x - o ≡ zero = omega arith in
      put_bytes-overlay ys (o + 1) (update m o y) x ∙ rw first (ground (arith, same))
  | inr other ↦
      put_bytes-overlay ys (o + 1) (update m o y) x
      ∙ overlay-later y ys o m x (ground (arith, other))
]

pub put_bytes_bytes :
    (xs : List ℕ) (o : ℕ) (m : Memory)
    → All (λ x. x < 256) xs
    → ((x : ℕ) → m x < 256)
    → (x : ℕ) → put_bytes xs o m x < 256
unfolding put_bytes
put_bytes_bytes [] o m small bytes x = bytes x
put_bytes_bytes (y ∷ ys) o m small bytes x =
    put_bytes_bytes ys (o + 1) (update m o y) small.1 (λ z. ground (arith, small.0, bytes z)) x

-- A block of the file is written.
pub poke-Becomes :
    (ip : Dinode) (d : Disk) (bn a : ℕ) (block : Memory)
    → IsMapped ip d
    → IsDisk d
    → block_of ip d bn ≡ a
    → a ≢ 0
    → ((o : ℕ) → block o < 256)
    → Becomes ip d
        (λ x. if x / block_size == bn then block (x % block_size) else content ip d x)
        ip
        (update d a block)
unfolding content
poke-Becomes ip d bn a block m v at nz bytes =
    let nz' : block_of ip d bn ≢ 0 = λ z. nz (sym at ∙ z) in
    let data_block : IsData d a = subst (λ k. IsData d k) at (m.mapped bn nz') in
    let d' : Disk = update d a block in
    let keeps : Keeps d d' = update-Keeps d a block v data_block.low bytes in
    let frame : (i : ℕ) → block_of ip d' i ≡ block_of ip d i = λ i.
      block_of-frame ip d d' i
        (λ _. update_ne d a block (ip.addrs ndirect) (λ e. m.apart bn nz' (at ∙ sym e))) in
    record {
      bytes = λ x. elim (Bool-cases (x / block_size == bn)) [
        | inl here ↦
            let same : x / block_size ≡ bn = ground (arith, here) in
            let some_block : (a == 0) ≡ false = ground (arith, nz) in
            rw (here, frame (x / block_size), same, at, some_block)
              (ap (λ f. f (x % block_size)) (update_self d a block))
        | inr other ↦ rw other (elim (Bool-cases (block_of ip d (x / block_size) == 0)) [
          | inl hole ↦ rw (frame (x / block_size), hole) refl
          | inr there ↦
              let nzx : block_of ip d (x / block_size) ≢ 0 = ground (arith, there) in
              let apart : block_of ip d (x / block_size) ≢ a = λ e.
                (let i : x / block_size ≡ bn = m.distinct (x / block_size) bn nzx (e ∙ sym at) in
                  ground (arith, other, i)) in
              rw (frame (x / block_size), there)
                (ap (λ f. f (x % block_size))
                  (update_ne d a block (block_of ip d (x / block_size)) apart))
        ])
      ];
      size = refl;
      type = refl;
      keeps = keeps;
      mapped = IsMapped-frame ip d d' m keeps frame;
      foreign = λ c h. (
        IsForeign-frame ip d d' c keeps frame h,
        update_ne d a block c (λ e. h.not_block bn (e ∙ sym at)),
      );
      blocks = λ i h z. h (sym (frame i) ∙ z);
    }

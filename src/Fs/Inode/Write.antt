-- ===== src/Fs/Inode/Write.antt =====
-- The loop of `writei` of kernel/fs.c writes its bytes over the content.
use lainos_fail.Base.{
  ℕ, zero, suc, ◌+◌, ◌-◌, ◌*◌, ◌/◌, ◌%◌, ◌<◌, ◌≤◌, ◌≡◌, ◌≢◌, ◌⊎◌, inl, inr, refl, true, false, ◌&&◌,
  List, [], ◌∷◌, ltb, leb, ◌==◌, arith, if◌then◌else◌, Bool-cases, sym, ap, ◌∙◌, subst, fun_ext,
  update, length, take, drop, length-take, length-drop, All, done, panics,
}
use lainos_fail.Mem.{Memory}
use lainos_fail.Fs.{Disk}
use lainos_fail.Fs.Bitmap.{IsDisk}
use lainos_fail.Fs.Inode.{max_file, block_size, Dinode, Run, put_bytes, chunk, write_loop}
use lainos_fail.Fs.Inode.Blocks.{block_of, IsMapped, Keeps-Keeps, Keeps-self}
use lainos_fail.Fs.Inode.Bmap.{Gives}
use lainos_fail.Fs.Inode.Alloc.{bmap-Maps}
use lainos_fail.Fs.Inode.Content.{content, Becomes, Gives-Becomes, Becomes-Becomes}
use lainos_fail.Fs.Inode.Overlay.{
  overlay, overlay-overlay, put_bytes-overlay, put_bytes_bytes, poke-Becomes,
}
use lainos_fail.Fs.Inode.Read.{RunsFull, Becomes-self}

-- The same bytes seen at another origin.
overlay-shift :
    (ys : List ℕ) (o off y x : ℕ) (f g : ℕ → ℕ)
    → leb o y ≡ leb off x
    → ltb y (o + length ys) ≡ ltb x (off + length ys)
    → y - o ≡ x - off
    → f y ≡ g x
    → overlay ys o f y ≡ overlay ys off g x
overlay-shift ys o off y x f g low high index value = rw (low, high, index, value) refl

-- Bytes put into the block `a` of the number `bn` are bytes over the content.
poke-overlay :
    (ys : List ℕ) (off a : ℕ) (ip : Dinode) (d : Disk) (x : ℕ)
    → off % block_size + length ys ≤ block_size
    → block_of ip d (off / block_size) ≡ a
    → a ≢ 0
    → (if x / block_size == off / block_size
        then put_bytes ys (off % block_size) (d a) (x % block_size)
        else content ip d x)
      ≡ overlay ys off (content ip d) x
unfolding content
poke-overlay ys off a ip d x within at nz = elim (Bool-cases (x / block_size == off / block_size)) [
  | inl here ↦
      let same : x / block_size ≡ off / block_size = ground (arith, here) in
      let some_block : (a == 0) ≡ false = ground (arith, nz) in
      let value : content ip d x ≡ d a (x % block_size) = rw (same, at, some_block) refl in
      let low : leb (off % block_size) (x % block_size) ≡ leb off x = ground (arith, same) in
      let high : ltb (x % block_size) (off % block_size + length ys) ≡ ltb x (off + length ys) =
        ground (arith, same) in
      rw here (
        put_bytes-overlay ys (off % block_size) (d a) (x % block_size)
        ∙ overlay-shift ys (off % block_size) off (x % block_size) x (d a) (content ip d) low high
            (omega arith) (sym value))
  | inr other ↦
      let out : (leb off x && ltb x (off + length ys)) ≡ false = ground (arith, other, within) in
      rw (other, out) refl
]

All-take : (k : ℕ) (xs : List ℕ) → All (λ x. x < 256) xs → All (λ x. x < 256) (take k xs)
All-take zero xs h = tt
All-take (suc k) [] h = tt
All-take (suc k) (x ∷ xs) h = (h.0, All-take k xs h.1)

All-drop : (k : ℕ) (xs : List ℕ) → All (λ x. x < 256) xs → All (λ x. x < 256) (drop k xs)
All-drop zero xs h = h
All-drop (suc k) [] h = tt
All-drop (suc k) (x ∷ xs) h = All-drop k xs h.1

overlay-nil : (off : ℕ) (f : ℕ → ℕ) (x : ℕ) → f x ≡ overlay [] off f x
overlay-nil off f x = ground arith

-- The loop writes the bytes over the content and leaves no hole there; it may run the disk full.
abbrev pub Writes : (xs : List ℕ) → (off : ℕ) → Dinode → Disk → Run ℕ → Type 0
Writes xs off ip d o =
    ((o ≡ panics) × RunsFull d)
    ⊎ ((ip' : Dinode) × (d' : Disk) × (o ≡ done (off + length xs, ip', d'))
        × Becomes ip d (overlay xs off (content ip d)) ip' d'
        × ((x : ℕ) → off ≤ x → x < off + length xs → block_of ip' d' (x / block_size) ≢ 0))

-- One round: the block is there, with the next bytes in it.
round-Becomes :
    (ys : List ℕ) (off a : ℕ) (ip ip₁ : Dinode) (d d₁ : Disk)
    → IsMapped ip d
    → All (λ x. x < 256) ys
    → off % block_size + length ys ≤ block_size
    → Gives (off / block_size) ip d a ip₁ d₁
    → Becomes ip d
        (overlay ys off (content ip d))
        ip₁
        (update d₁ a (put_bytes ys (off % block_size) (d₁ a)))
      × (block_of ip₁ (update d₁ a (put_bytes ys (off % block_size) (d₁ a))) (off / block_size) ≢ 0)
round-Becomes ys off a ip ip₁ d d₁ m small within g =
    let bn : ℕ = off / block_size in
    let b₁ = Gives-Becomes bn ip d a ip₁ d₁ m g in
    let block : Memory = put_bytes ys (off % block_size) (d₁ a) in
    let v₁ : IsDisk d₁ = b₁.keeps.valid in
    let bytes : (o : ℕ) → block o < 256 =
      put_bytes_bytes ys (off % block_size) (d₁ a) small (v₁.bytes a) in
    let b₂ = poke-Becomes ip₁ d₁ bn a block b₁.mapped v₁ g.here g.nonzero bytes in
    let value : (x : ℕ)
        → (if x / block_size == bn then block (x % block_size) else content ip₁ d₁ x)
          ≡ overlay ys off (content ip d) x =
      λ x.
        (poke-overlay ys off a ip₁ d₁ x within g.here g.nonzero
          ∙ ap (λ f. overlay ys off f x) (fun_ext b₁.bytes)) in
    (
      subst (λ f. Becomes ip d f ip₁ (update d₁ a block)) (fun_ext value)
          (Becomes-Becomes ip ip₁ ip₁ d d₁ (update d₁ a block) (content ip d) _ b₁ b₂),
      b₂.blocks bn (λ z. g.nonzero (sym g.here ∙ z)),
    )

nothing-Writes :
    (off : ℕ) (ip : Dinode) (d : Disk)
    → IsMapped ip d
    → IsDisk d
    → Writes [] off ip d (done (off, ip, d))
nothing-Writes off ip d m v = inr (
  ip,
  d,
  (let e : off ≡ off + 0 = omega arith in ap (λ n. done (n, ip, d)) e),
  subst (λ f. Becomes ip d f ip d) (fun_ext λ x. overlay-nil off (content ip d) x)
      (Becomes-self ip d m v),
  λ x lo hi. absurd (omega arith),
)

pub write_loop-Writes :
    (fuel : ℕ) (xs : List ℕ) (off : ℕ) (ip : Dinode) (d : Disk)
    → IsMapped ip d
    → IsDisk d
    → All (λ x. x < 256) xs
    → length xs ≤ fuel
    → off + length xs ≤ max_file * block_size
    → Writes xs off ip d (write_loop fuel xs off ip d)
unfolding write_loop
write_loop-Writes zero [] off ip d m v small enough fits = nothing-Writes off ip d m v
write_loop-Writes zero (x ∷ xs) off ip d m v small enough fits = absurd (omega arith)
write_loop-Writes (suc fuel) [] off ip d m v small enough fits = nothing-Writes off ip d m v
write_loop-Writes (suc fuel) (y ∷ ys) off ip d m v small enough fits =
    let xs : List ℕ = y ∷ ys in
    let k : ℕ = chunk (length xs) off in
    let bn : ℕ = off / block_size in
    let go : ltb 0 (length xs) ≡ true = ground arith in
    let some_bytes : 0 < k = ground arith in
    let within : off % block_size + k ≤ block_size = omega arith in
    let part : k ≤ length xs = omega arith in
    let front : length (take k xs) ≡ k = omega (arith, length-take k xs) in
    let back : length (drop k xs) ≡ length xs - k = length-drop k xs in
    elim (bmap-Maps bn ip d m v (omega arith)) [
      | inl (stuck, hole, full) ↦ inl (rw (go, stuck) refl, (d, Keeps-self d v, full))
      | inr (a, ip₁, d₁, ran, g) ↦
          let d₂ : Disk = update d₁ a (put_bytes (take k xs) (off % block_size) (d₁ a)) in
          let (b, there) =
            round-Becomes (take k xs) off a ip ip₁ d d₁ m (All-take k xs small) (omega arith) g in
          elim (write_loop-Writes fuel (drop k xs) (off + k) ip₁ d₂ b.mapped b.keeps.valid
            (All-drop k xs small) (omega arith) (omega arith)) [
              | inl (stuck, (e, ke, full)) ↦
                  inl (rw (go, ran, stuck) refl, (e, Keeps-Keeps d d₂ e b.keeps ke, full))
              | inr (ip', d', ran', b', filled) ↦
                  let end : off + k + length (drop k xs) ≡ off + length xs = omega arith in
                  let value : overlay (drop k xs) (off + k) (content ip₁ d₂)
                      ≡ overlay xs off (content ip d) =
                    ap (overlay (drop k xs) (off + k)) (fun_ext b.bytes)
                    ∙ fun_ext (λ x. overlay-overlay k off xs (content ip d) x part) in
                  inr (
                    ip',
                    d',
                    rw (go, ran, ran') (ap (λ n. done (n, ip', d')) end),
                    subst (λ f. Becomes ip d f ip' d') value
                        (Becomes-Becomes ip ip₁ ip' d d₂ d' _ _ b b'),
                    λ x lo hi. elim (Bool-cases (ltb x (off + k))) [
                      | inl near ↦
                          let same : x / block_size ≡ bn = ground (arith, near) in
                          rw same (b'.blocks bn there)
                      | inr far ↦ filled x (ground (arith, far)) (omega arith)
                    ],
                  )
            ]
    ]

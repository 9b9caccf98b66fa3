-- ===== src/Fs/Inode/Files.antt =====
-- `writei` of kernel/fs.c on a file, and what `readi` returns after it.
use lainos_fail.Base.{
  ℕ, suc, ◌+◌, ◌-◌, ◌*◌, ◌/◌, ◌^◌, ◌<◌, ◌≤◌, ◌≡◌, ◌≢◌, ◌⊎◌, inl, inr, refl, true, false, ◌&&◌, ◌||◌,
  min, add32, Option, none, some, List, [], ◌∷◌, ltb, arith, if◌then◌else◌, Bool-cases, sym, ap,
  ap₂, ◌∙◌, subst, length, All, done, panics,
}
use lainos_fail.Fs.{Disk, sb_ninodes}
use lainos_fail.Fs.Bitmap.{IsDisk}
use lainos_fail.Fs.Inode.{max_file, block_size, Dinode, Run, iupdate, grow, write_file, read_file}
use lainos_fail.Fs.Inode.Blocks.{block_of, IsMapped, Keeps}
use lainos_fail.Fs.Inode.Content.{content, file_bytes, IsForeign, Becomes, Becomes-Becomes}
use lainos_fail.Fs.Inode.Overlay.{nth, overlay}
use lainos_fail.Fs.Inode.Read.{RunsFull, read_file_lem}
use lainos_fail.Fs.Inode.Write.{write_loop-Writes}
use lainos_fail.Fs.Inode.Store.{iupdate-Becomes}

-- The bytes `xs` were written at `off`: the content and the size show them, the range has no hole, and
-- the blocks of others are as before.
pub record Wrote (xs : List ℕ) (off : ℕ) (ip : Dinode) (d : Disk) (ip' : Dinode) (d' : Disk)
    : Type 0 where
  pub bytes : (x : ℕ) → content ip' d' x ≡ overlay xs off (content ip d) x
  pub size : ip'.size ≡ (if ltb ip.size (off + length xs) then off + length xs else ip.size)
  pub type : ip'.type ≡ ip.type
  pub filled : (x : ℕ) → off ≤ x → x < off + length xs → block_of ip' d' (x / block_size) ≢ 0
  pub keeps : Keeps d d'
  pub mapped : IsMapped ip' d'
  pub foreign : (c : ℕ) → IsForeign ip d c → IsForeign ip' d' c × (d' c ≡ d c)

-- What `writei` of a file does: -1 and no change for an offset past the end, a count at which the
-- offset wraps, or an end past the largest file; and else the bytes are written.
abbrev pub WritesFile : (xs : List ℕ) → (off : ℕ) → Dinode → Disk → Run (Option ℕ) → Type 0
WritesFile xs off ip d o =
    ((o ≡ done (none, ip, d)) × ((ip.size < off) ⊎ (max_file * block_size < off + length xs)))
    ⊎ ((off ≤ ip.size)
        × (off + length xs ≤ max_file * block_size)
        × (((o ≡ panics) × RunsFull d)
            ⊎ ((ip' : Dinode) × (d' : Disk) × (o ≡ done (some (length xs), ip', d'))
                × Wrote xs off ip d ip' d')))

-- The size is in no block, so the content does not see it.
Wrote-grow :
    (xs : List ℕ) (off inum : ℕ) (ip ip₁ : Dinode) (d d₁ : Disk)
    → inum < sb_ninodes d
    → off ≤ ip.size
    → Becomes ip d (overlay xs off (content ip d)) ip₁ d₁
    → ((x : ℕ) → off ≤ x → x < off + length xs → block_of ip₁ d₁ (x / block_size) ≢ 0)
    → (ip' : Dinode) × (d' : Disk) × (grow inum (length xs) (off + length xs, ip₁, d₁)
        ≡ done (some (length xs), ip', d'))
      × Wrote xs off ip d ip' d'
unfolding content
Wrote-grow xs off inum ip ip₁ d d₁ lt start b filled =
    let n : ℕ = length xs in
    elim (Bool-cases (ltb 0 n && ltb ip₁.size (off + n))) [
      | inl grows ↦
          let ip₂ : Dinode = record ip₁ { size = off + n } in
          let d₂ : Disk = iupdate inum ip₂ d₁ in
          let lt₁ : inum < sb_ninodes d₁ = subst (λ k. inum < k) (sym (b.keeps.super.1)) lt in
          let b₂ = iupdate-Becomes ip₁ ip₂ d₁ inum b.mapped b.keeps.valid lt₁ in
          let c : Becomes ip d (content ip₁ d₁) ip₁ d₂ =
            Becomes-Becomes ip ip₁ ip₁ d d₁ d₂ _ _ b b₂ in
          (
            ip₂,
            d₂,
            rw grows refl,
            record {
              bytes = λ x. c.bytes x ∙ b.bytes x;
              size = (let before : ip₁.size ≡ ip.size = b.size in ground (arith, grows, before));
              type = b.type;
              filled = λ x lo hi. b₂.blocks (x / block_size) (filled x lo hi);
              keeps = c.keeps;
              mapped = record {
                mapped = c.mapped.mapped;
                root = c.mapped.root;
                distinct = c.mapped.distinct;
                apart = c.mapped.apart;
              };
              foreign = λ k h. (
                record {
                  inside = (c.foreign k h).0.inside;
                  not_root = (c.foreign k h).0.not_root;
                  not_block = (c.foreign k h).0.not_block;
                },
                (c.foreign k h).1,
              );
            },
          )
      | inr stays ↦ (
        ip₁,
        d₁,
        rw stays refl,
        record {
          bytes = b.bytes;
          size = (let before : ip₁.size ≡ ip.size = b.size in ground (arith, stays, before, start));
          type = b.type;
          filled = filled;
          keeps = b.keeps;
          mapped = b.mapped;
          foreign = b.foreign;
        },
      )
    ]

refuses :
    (off n size : ℕ)
    → off < 2 ^ 32
    → n < 2 ^ 32
    → (ltb size off || ltb (add32 off n) off || ltb (max_file * block_size) (add32 off n)) ≡ true
    → (size < off) ⊎ (max_file * block_size < off + n)
refuses off n size low low' h = elim (Bool-cases (ltb size off)) [
  | inl past ↦ inl (ground (arith, past))
  | inr within ↦ elim (Bool-cases (ltb (add32 off n) off)) [
    | inl wrapped ↦ inr (ground (arith, wrapped))
    | inr straight ↦ inr (ground (arith, h, within, straight))
  ]
]

accepts :
    (off n size : ℕ)
    → off < 2 ^ 32
    → n < 2 ^ 32
    → (ltb size off || ltb (add32 off n) off || ltb (max_file * block_size) (add32 off n)) ≡ false
    → off + n ≤ max_file * block_size
accepts off n size low low' h =
    let straight : ltb (add32 off n) off ≡ false = ground (arith, h) in
    let sum : add32 off n ≡ off + n = ground (arith, straight) in ground (arith, h, sum)

write_file-Writes :
    (inum off : ℕ) (xs : List ℕ) (ip : Dinode) (d : Disk)
    → IsMapped ip d
    → IsDisk d
    → inum < sb_ninodes d
    → All (λ x. x < 256) xs
    → off < 2 ^ 32
    → length xs < 2 ^ 32
    → WritesFile xs off ip d (write_file inum off xs ip d)
unfolding write_file
write_file-Writes inum off xs ip d m v lt small low low' =
    let n : ℕ = length xs in
    elim (Bool-cases
      (ltb ip.size off || ltb (add32 off n) off || ltb (max_file * block_size) (add32 off n))) [
        | inl bad ↦ inl (rw bad refl, refuses off n ip.size low low' bad)
        | inr good ↦
            let start : off ≤ ip.size = ground (arith, good) in
            let fits : off + n ≤ max_file * block_size = accepts off n ip.size low low' good in
            inr (
              start,
              fits,
              elim (write_loop-Writes n xs off ip d m v small (omega arith) fits) [
                | inl (stuck, full) ↦ inl (rw (good, stuck) refl, full)
                | inr (ip₁, d₁, ran, b, filled) ↦
                    let (ip', d', ran', w) = Wrote-grow xs off inum ip ip₁ d d₁ lt start b filled in
                    inr (ip', d', rw (good, ran) ran', w)
              ],
            )
      ]

file_bytes-overlay :
    (xs : List ℕ) (off : ℕ) (ip : Dinode) (d : Disk)
    → ((i : ℕ) → i < length xs → content ip d (off + i) ≡ nth xs i)
    → file_bytes (length xs) off ip d ≡ xs
file_bytes-overlay [] off ip d same = refl
file_bytes-overlay (x ∷ xs) off ip d same =
    ap₂ (λ y ys. y ∷ ys)
      ((let e : off ≡ off + 0 = omega arith in ap (λ k. content ip d k) e) ∙ same 0 (omega arith))
      (file_bytes-overlay xs (off + 1) ip d (λ i lt.
        (let e : off + 1 + i ≡ off + suc i = omega arith in
          ap (λ k. content ip d k) e ∙ same (suc i) (omega arith))))

done_parts :
    {A : Type 0} {a a' : A} {i i' : Dinode} {d d' : Disk}
    → ◌≡◌ {A = Run A} (done (a, i, d)) (done (a', i', d'))
    → (i ≡ i') × (d ≡ d')
done_parts e = (cc, cc)

read_back :
    (off : ℕ) (xs : List ℕ) (ip ip' : Dinode) (d d' : Disk)
    → ip.size ≤ max_file * block_size
    → off ≤ ip.size
    → off + length xs ≤ max_file * block_size
    → off < 2 ^ 32
    → length xs < 2 ^ 32
    → Wrote xs off ip d ip' d'
    → read_file off (length xs) ip' d' ≡ done (some xs, ip', d')
read_back off xs ip ip' d d' size start fits low low' w =
    let n : ℕ = length xs in
    let size' : ip'.size ≡ (if ltb ip.size (off + n) then off + n else ip.size) = w.size in
    let reach : off + n ≤ ip'.size = ground (arith, size') in
    let small : ip'.size ≤ max_file * block_size = ground (arith, size', size, fits) in
    let count : min n (ip'.size - off) ≡ n = omega arith in
    let value : file_bytes n off ip' d' ≡ xs = file_bytes-overlay xs off ip' d' (λ i lt.
      (let index : off + i - off ≡ i = omega arith in
        w.bytes (off + i) ∙ ground (arith, index, lt))) in
    elim (read_file_lem off n ip' d' (λ x lo hi. w.filled x lo (omega (arith, hi, count))) small low
      low') [
        | inl (failed, inl past) ↦ absurd (omega arith)
        | inl (failed, inr wrapped) ↦ absurd (omega arith)
        | inr (start', straight, ran) ↦
            ran
            ∙ ap (λ k. done (some (file_bytes k off ip' d'), ip', d')) count
            ∙ ap (λ ys. done (some ys, ip', d')) value
      ]

-- Where `writei` has written bytes, `readi` at the same offset returns them, and changes neither the inode nor
-- a block: it allocates nothing.
pub read_file-write_file :
    (inum off : ℕ) (xs : List ℕ) (ip ip' : Dinode) (d d' : Disk)
    → IsMapped ip d
    → IsDisk d
    → inum < sb_ninodes d
    → ip.size ≤ max_file * block_size
    → All (λ x. x < 256) xs
    → off < 2 ^ 32
    → length xs < 2 ^ 32
    → write_file inum off xs ip d ≡ done (some (length xs), ip', d')
    → read_file off (length xs) ip' d' ≡ done (some xs, ip', d')
read_file-write_file inum off xs ip ip' d d' m v lt size small low low' wrote =
    elim (write_file-Writes inum off xs ip d m v lt small low low') [
      | inl (failed, why) ↦ absurd (ground (arith, sym wrote ∙ failed))
      | inr (start, fits, inl (stuck, full)) ↦ absurd (ground (arith, sym wrote ∙ stuck))
      | inr (start, fits, inr (ip₁, d₁, ran, w)) ↦
          let (eip, ed) = done_parts (sym ran ∙ wrote) in
          read_back off xs ip ip' d d' size start fits low low'
            (subst (λ e. Wrote xs off ip d ip' e) ed (subst (λ i. Wrote xs off ip d i d₁) eip w))
    ]

-- ===== src/Fs/Bitmap.antt =====
-- `balloc` and `bfree` of kernel/fs.c against the set of the blocks in use.
use lainos_fail.Base.{
  ℕ, zero, suc, ◌+◌, ◌-◌, ◌*◌, ◌/◌, ◌%◌, ◌<◌, ◌≤◌, ◌≡◌, ◌⊎◌, inl, inr, refl, Bool, true, false, not,
  none, some, ltb, ◌==◌, arith, update, Outcome, done, panics, Bool-cases, ap, ◌∙◌, subst,
}
use lainos_fail.Mem.{Memory}
use lainos_fail.Fs.{
  Disk, bits_per_block, sb_size, sb_ninodes, bblock, bzero, is_bit_free, set_bit, find_bit,
  balloc_from,
}

abbrev pub is_used : (ninodes : ℕ) → Disk → ℕ → Bool
is_used ni d b = not (is_bit_free (d (bblock b ni)) (b % bits_per_block))

-- The first block after the bitmap.
abbrev pub data_start : Disk → ℕ
data_start d = sb_size d / bits_per_block + sb_ninodes d / 8 + 4

-- The disk holds bytes, and the blocks up to the bitmap's end are marked as used.
pub record IsDisk (d : Disk) : Type 0 where
  pub bytes : (b o : ℕ) → d b o < 256
  pub meta : (b : ℕ) → b < data_start d → is_used (sb_ninodes d) d b ≡ true
  pub room : data_start d ≤ sb_size d

find_bit_lem :
    (k bi b size : ℕ) (m : Memory)
    → ((find_bit k bi b size m ≡ none)
        × ((y : ℕ) → bi ≤ y → y < bi + k → b + y < size → is_bit_free m y ≡ false))
      ⊎ ((x : ℕ) × (find_bit k bi b size m ≡ some x)
          × (bi ≤ x)
          × (x < bi + k)
          × (b + x < size)
          × (is_bit_free m x ≡ true)
          × ((y : ℕ) → bi ≤ y → y < x → is_bit_free m y ≡ false))
unfolding find_bit
find_bit_lem zero bi b size m = inl (refl, λ y lo hi lt. absurd (omega arith))
find_bit_lem (suc k) bi b size m = elim (Bool-cases (ltb (b + bi) size)) [
  | inr out ↦ inl (rw out refl, λ y lo hi lt. absurd (ground (arith, out)))
  | inl within ↦ elim (Bool-cases (is_bit_free m bi)) [
    | inl free ↦ inr (
      bi,
      rw (within, free) refl,
      omega arith,
      omega arith,
      ground (arith, within),
      free,
      λ y lo hi. absurd (omega arith),
    )
    | inr taken ↦
        let at : (y : ℕ) → y ≡ bi → is_bit_free m y ≡ false = λ y e. rw e taken in
        elim (find_bit_lem k (bi + 1) b size m) [
          | inl (gone, all) ↦ inl (
            rw (within, taken) gone,
            λ y lo hi lt. elim (Bool-cases (y == bi)) [
              | inl e ↦ at y (ground (arith, e))
              | inr ne ↦ all y (ground (arith, ne)) (omega arith) lt
            ],
          )
          | inr (x, found, lo, hi, lt, free, least) ↦ inr (
            x,
            rw (within, taken) found,
            omega arith,
            omega arith,
            lt,
            free,
            λ y lo' hi'. elim (Bool-cases (y == bi)) [
              | inl e ↦ at y (ground (arith, e))
              | inr ne ↦ least y (ground (arith, ne)) hi'
            ],
          )
        ]
  ]
]

-- The disk after the block `b` is taken.
abbrev pub after_take : (ninodes b : ℕ) → Disk → Disk
after_take ni b d =
    let bb = bblock b ni in bzero b (update d bb (set_bit (d bb) (b % bits_per_block)))

-- Of the blocks from `lo` the first free one is taken, or all are in use.
abbrev pub Takes : (ninodes size lo : ℕ) → Disk → Outcome (ℕ × Disk) → Type 0
Takes ni size lo d o =
    ((o ≡ panics) × ((c : ℕ) → lo ≤ c → c < size → is_used ni d c ≡ true))
    ⊎ ((b : ℕ) × (o ≡ done (b, after_take ni b d))
        × (lo ≤ b)
        × (b < size)
        × (is_used ni d b ≡ false)
        × ((c : ℕ) → lo ≤ c → c < b → is_used ni d c ≡ true))

pub balloc_from-Takes :
    (fuel b size ni : ℕ) (d : Disk)
    → b % bits_per_block ≡ 0
    → size < b + fuel * bits_per_block
    → Takes ni size b d (balloc_from fuel b size ni d)
unfolding balloc_from
balloc_from-Takes zero b size ni d al enough = inl (refl, λ c lo hi. absurd (omega arith))
balloc_from-Takes (suc fuel) b size ni d al enough =
    let here : (x : ℕ)
        → x < bits_per_block
        → (is_used ni d (b + x) ≡ not (is_bit_free (d (bblock b ni)) x)) =
      λ x lt.
        (let e : bblock (b + x) ni ≡ bblock b ni = omega arith in
          let f : (b + x) % bits_per_block ≡ x = omega arith in rw (e, f) refl) in
    elim (Bool-cases (ltb b size)) [
      | inr out ↦ inl (rw out refl, λ c lo hi. absurd (ground (arith, out)))
      | inl within ↦ elim (find_bit_lem bits_per_block 0 b size (d (bblock b ni))) [
        | inr (x, found, lo, hi, lt, free, least) ↦
            let e : bblock (b + x) ni ≡ bblock b ni = omega arith in
            let f : (b + x) % bits_per_block ≡ x = omega arith in
            inr (
              b + x,
              rw (within, found, e, f) refl,
              omega arith,
              lt,
              here x hi ∙ ap (λ t. not t) free,
              λ c low high.
                  (let back : b + (c - b) ≡ c = omega arith in
                    subst (λ k. is_used ni d k ≡ true) back
                      (here (c - b) (omega arith)
                        ∙ ap (λ t. not t) (least (c - b) (omega arith) (omega arith)))),
            )
        | inl (gone, all) ↦
            let inner : (c : ℕ)
                → b ≤ c
                → c < b + bits_per_block
                → c < size
                → is_used ni d c ≡ true =
              λ c low high lt.
                (let back : b + (c - b) ≡ c = omega arith in
                  subst (λ k. is_used ni d k ≡ true) back
                    (here (c - b) (omega arith)
                      ∙ ap (λ t. not t) (all (c - b) (omega arith) (omega arith) (omega arith)))) in
            rw (within, gone)
              (elim (balloc_from-Takes fuel (b + bits_per_block) size ni d (omega arith)
                (omega arith)) [
                  | inl (full, rest) ↦ inl (
                    full,
                    λ c low high. elim (Bool-cases (ltb c (b + bits_per_block))) [
                      | inl near ↦ inner c low (ground (arith, near)) high
                      | inr far ↦ rest c (ground (arith, far)) high
                    ],
                  )
                  | inr (c, ran, low, high, free, rest) ↦ inr (
                    c,
                    ran,
                    omega arith,
                    high,
                    free,
                    λ e low' high'. elim (Bool-cases (ltb e (b + bits_per_block))) [
                      | inl near ↦ inner e low' (ground (arith, near)) (omega arith)
                      | inr far ↦ rest e (ground (arith, far)) high'
                    ],
                  )
                ])
      ]
    ]

-- ===== src/Fs/Balloc.antt =====
-- What `balloc` and `bfree` of kernel/fs.c change.
use lainos_fail.Base.{
  ℕ, ◌+◌, ◌/◌, ◌%◌, ◌<◌, ◌≤◌, ◌≡◌, ◌≢◌, ◌⊎◌, inl, inr, refl, Bool, true, false, not, ltb, ◌==◌,
  arith, if◌then◌else◌, update, Outcome, done, panics, Bool-cases, sym, ap, ◌∙◌, subst, update_ne,
  update_self,
}
use lainos_fail.Fs.{
  Disk, bits_per_block, sb_size, sb_ninodes, bblock, zeros, is_bit_free, set_bit, clear_bit, balloc,
  bfree,
}
use lainos_fail.Fs.Bits.{is_bit_free-set_bit, is_bit_free-clear_bit, changed_bits_bytes}
use lainos_fail.Fs.Bitmap.{is_used, data_start, IsDisk, after_take, balloc_from-Takes}

-- What the sizes in block 1 determine stays when block 1 stays.
abbrev pub SameSuper : Disk → Disk → Type 0
SameSuper d d' = (sb_size d' ≡ sb_size d) × (sb_ninodes d' ≡ sb_ninodes d)

-- A change of the bitmap at the block `b`, to `used`, and of no other block than `b`.
pub record Marked (b : ℕ) (used : Bool) (d d' : Disk) : Type 0 where
  pub marks :
      (c : ℕ)
      → c < sb_size d
      → is_used (sb_ninodes d) d' c ≡ (if c == b then used else is_used (sb_ninodes d) d c)
  pub others : (c : ℕ) → data_start d ≤ c → c ≢ b → d' c ≡ d c
  pub inodes : (c : ℕ) → c < sb_ninodes d / 8 + 3 → d' c ≡ d c
  pub super : SameSuper d d'
  pub valid : IsDisk d'

SameSuper-low : (d d' : Disk) → d' 1 ≡ d 1 → SameSuper d d'
SameSuper-low d d' e = (rw e refl, rw e refl)

-- Marks that change at a data block only, and bytes, make a disk again.
Marked-IsDisk :
    (b : ℕ) (used : Bool) (d d' : Disk)
    → IsDisk d
    → data_start d ≤ b
    → SameSuper d d'
    → ((c o : ℕ) → d' c o < 256)
    → ((c : ℕ)
        → c < sb_size d
        → is_used (sb_ninodes d) d' c ≡ (if c == b then used else is_used (sb_ninodes d) d c))
    → IsDisk d'
Marked-IsDisk b used d d' v lo same bytes marks =
    let start : data_start d' ≡ data_start d = rw (same.0, same.1) refl in
    record {
      bytes = bytes;
      meta = λ c lt.
          (let low : c < data_start d = subst (λ k. c < k) start lt in
            let other : (c == b) ≡ false = ground (arith, low, lo) in
            subst (λ k. is_used k d' c ≡ true) (sym (same.1))
              (marks c (omega (arith, v.room)) ∙ (rw other (v.meta c low))));
      room =
          subst (λ k. k ≤ sb_size d') (sym start)
            (subst (λ k. data_start d ≤ k) (sym (same.0)) v.room);
    }

not-if_false : (t b : Bool) → not (if t then false else b) ≡ (if t then true else not b)
not-if_false t b = ground arith

not-if_true : (t b : Bool) → not (if t then true else b) ≡ (if t then false else not b)
not-if_true t b = ground arith

module _ (d : Disk) (v : IsDisk d) (b : ℕ) (lo : data_start d ≤ b) (hi : b < sb_size d) where
  abbrev ni : ℕ
  ni = sb_ninodes d

  abbrev bb : ℕ
  bb = bblock b ni

  -- A block other than the bitmap block of `b` and `b` itself is not changed.
  after_take_other : (c : ℕ) → c ≢ bb → c ≢ b → after_take ni b d c ≡ d c
  after_take_other c ne ne' =
      update_ne (update d bb (set_bit (d bb) (b % bits_per_block))) b zeros c ne'
      ∙ update_ne d bb _ c ne

  after_take_bits : after_take ni b d bb ≡ set_bit (d bb) (b % bits_per_block)
  after_take_bits =
      update_ne (update d bb (set_bit (d bb) (b % bits_per_block))) b zeros bb (omega arith)
      ∙ update_self d bb _

  after_take_marks :
      (c : ℕ)
      → c < sb_size d
      → is_used ni (after_take ni b d) c ≡ (if c == b then true else is_used ni d c)
  after_take_marks c lt = elim (Bool-cases (bblock c ni == bb)) [
    | inl same ↦
        let e : bblock c ni ≡ bb = ground (arith, same) in
        let test : (b % bits_per_block == c % bits_per_block) ≡ (c == b) = ground (arith, e) in
        rw (e, after_take_bits)
          (ap (λ t. not t)
              (is_bit_free-set_bit (d bb) (b % bits_per_block) (c % bits_per_block) (v.bytes bb _))
            ∙ rw test (not-if_false (c == b) _))
    | inr other ↦
        let e : after_take ni b d (bblock c ni) ≡ d (bblock c ni) =
          after_take_other (bblock c ni) (ground (arith, other)) (omega arith) in
        let test : (c == b) ≡ false = ground (arith, other) in rw (e, test) refl
  ]

  after_take-Marked : Marked b true d (after_take ni b d)
  after_take-Marked =
      let same =
        SameSuper-low d (after_take ni b d) (after_take_other 1 (omega arith) (omega arith)) in
      let bytes : (c o : ℕ) → after_take ni b d c o < 256 = λ c o. elim (Bool-cases (c == b)) [
        | inl e ↦ ground (arith, e)
        | inr ne ↦ elim (Bool-cases (c == bb)) [
          | inl e ↦
              let at : c ≡ bb = ground (arith, e) in
              rw (at, after_take_bits)
                ((changed_bits_bytes (d bb) (b % bits_per_block) (v.bytes bb)).0 o)
          | inr ne' ↦
              rw (after_take_other c (ground (arith, ne')) (ground (arith, ne))) (v.bytes c o)
        ]
      ] in
      record {
        marks = after_take_marks;
        others = λ c low ne. after_take_other c (omega arith) ne;
        inodes = λ c low. after_take_other c (omega arith) (omega arith);
        super = same;
        valid = Marked-IsDisk b true d (after_take ni b d) v lo same bytes after_take_marks;
      }

  abbrev after_free : Disk
  after_free = update d bb (clear_bit (d bb) (b % bits_per_block))

  after_free_marks :
      (c : ℕ) → c < sb_size d → is_used ni after_free c ≡ (if c == b then false else is_used ni d c)
  after_free_marks c lt = elim (Bool-cases (bblock c ni == bb)) [
    | inl same ↦
        let e : bblock c ni ≡ bb = ground (arith, same) in
        let test : (b % bits_per_block == c % bits_per_block) ≡ (c == b) = ground (arith, e) in
        rw (e, update_self d bb (clear_bit (d bb) (b % bits_per_block)))
          (ap (λ t. not t)
              (is_bit_free-clear_bit (d bb) (b % bits_per_block) (c % bits_per_block)
                (v.bytes bb _))
            ∙ rw test (not-if_true (c == b) _))
    | inr other ↦
        let e : after_free (bblock c ni) ≡ d (bblock c ni) =
          update_ne d bb (clear_bit (d bb) (b % bits_per_block)) (bblock c ni)
            (ground (arith, other)) in
        let test : (c == b) ≡ false = ground (arith, other) in rw (e, test) refl
  ]

  after_free-Marked : Marked b false d after_free
  after_free-Marked =
      let other : (c : ℕ) → c ≢ bb → after_free c ≡ d c =
        update_ne d bb (clear_bit (d bb) (b % bits_per_block)) in
      let same = SameSuper-low d after_free (other 1 (omega arith)) in
      let bytes : (c o : ℕ) → after_free c o < 256 = λ c o. elim (Bool-cases (c == bb)) [
        | inl e ↦
            let at : c ≡ bb = ground (arith, e) in
            rw (at, update_self d bb (clear_bit (d bb) (b % bits_per_block)))
              ((changed_bits_bytes (d bb) (b % bits_per_block) (v.bytes bb)).1 o)
        | inr ne ↦ rw (other c (ground (arith, ne))) (v.bytes c o)
      ] in
      record {
        marks = after_free_marks;
        others = λ c low ne. other c (omega arith);
        inodes = λ c low. other c (omega arith);
        super = same;
        valid = Marked-IsDisk b false d after_free v lo same bytes after_free_marks;
      }

-- The first free block taken and zeroed, or a panic.
abbrev pub Allocates : Disk → Outcome (ℕ × Disk) → Type 0
Allocates d o =
    ((o ≡ panics) × ((c : ℕ) → c < sb_size d → is_used (sb_ninodes d) d c ≡ true))
    ⊎ ((b : ℕ) × (d' : Disk) × (o ≡ done (b, d'))
        × (data_start d ≤ b)
        × (b < sb_size d)
        × (is_used (sb_ninodes d) d b ≡ false)
        × (d' b ≡ zeros)
        × Marked b true d d'
        × ((c : ℕ) → c < b → is_used (sb_ninodes d) d c ≡ true))

-- On a sound disk `balloc` marks and zeroes the first free block of the disk, which lies after the bitmap, and
-- changes no other mark and no other block after the bitmap; it panics only with all blocks in use.
pub balloc-Allocates : (d : Disk) → IsDisk d → Allocates d (balloc d)
unfolding balloc
balloc-Allocates d v =
    let ni = sb_ninodes d in
    elim (balloc_from-Takes (sb_size d / bits_per_block + 1) 0 (sb_size d) ni d (omega arith)
      (omega arith)) [
        | inl (full, all) ↦ inl (full, λ c lt. all c (omega arith) lt)
        | inr (b, ran, _, hi, free, least) ↦
            let lo : data_start d ≤ b = elim (Bool-cases (ltb b (data_start d))) [
              | inl low ↦
                  absurd (let used = v.meta b (ground (arith, low)) in ground (arith, used, free))
              | inr high ↦ ground (arith, high)
            ] in
            inr (
              b,
              after_take ni b d,
              ran,
              lo,
              hi,
              free,
              update_self (update d (bblock b ni) (set_bit (d (bblock b ni)) (b % bits_per_block)))
                  b zeros,
              after_take-Marked d v b lo hi,
              λ c lt. least c (omega arith) lt,
            )
      ]

-- The mark of the block cleared, or a panic.
abbrev pub Frees : (b : ℕ) → Disk → Outcome Disk → Type 0
Frees b d o =
    ((is_used (sb_ninodes d) d b ≡ true) × ((d' : Disk) × (o ≡ done d') × Marked b false d d'))
    ⊎ ((is_used (sb_ninodes d) d b ≡ false) × (o ≡ panics))

-- `bfree` of a data block in use clears its mark, and changes no other mark and no other data block;
-- of a free block it panics.
pub bfree-Frees :
    (d : Disk) (b : ℕ) → IsDisk d → data_start d ≤ b → b < sb_size d → Frees b d (bfree b d)
unfolding bfree
bfree-Frees d b v lo hi =
    elim (Bool-cases (is_bit_free (d (bblock b (sb_ninodes d))) (b % bits_per_block))) [
      | inl free ↦ inr (rw free refl, rw free refl)
      | inr taken ↦
          inl
            (rw taken refl, (after_free d v b lo hi, rw taken refl, after_free-Marked d v b lo hi))
    ]

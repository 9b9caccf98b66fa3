-- ===== src/Fs/Ialloc/Free.antt =====
-- `ialloc` of kernel/fs.c finds the first free inode.
use lainos_fail.Base.{
  ℕ, zero, suc, ◌+◌, ◌-◌, ◌*◌, ◌^◌, ◌<◌, ◌≤◌, ◌≡◌, ◌≢◌, ◌⊎◌, inl, inr, refl, true, false, ltb, ◌==◌,
  arith, Bool-cases, sym, ap, ◌∙◌, subst, update_self, Outcome, done, panics,
}
use lainos_fail.Mem.{Memory, memset}
use lainos_fail.Mem.Fill.{memset_lem}
use lainos_fail.Fs.{Disk, sb_ninodes, iblock, zeros}
use lainos_fail.Fs.Inode.{ndirect, Dinode, store_short}
use lainos_fail.Fs.Ialloc.{
  dinode_size, load_dinode, dinode_start, inode_at, take_inode, ialloc_from, ialloc,
}
use lainos_fail.Icache.{ninode, Icache, is_cached}
use lainos_fail.Icache.Unique.{IsUnique, iget_lem}
use lainos_fail.Fs.Ialloc.Words.{
  SameInode, Out, load_short-SameIn, word_at-SameIn, load_short-store_short, store_short-Out,
}
use lainos_fail.Fs.Ialloc.Records.{inode_at-Out}

-- An inode with a type and no content.
abbrev pub new_inode : (type : ℕ) → Dinode
new_inode type = record { type = type; major = 0; minor = 0; nlink = 0; size = 0; addrs = λ i. 0 }

-- The inode is new, and the others are as before.
abbrev pub Takes : (inum type : ℕ) → Disk → Disk → Type 0
Takes inum type d d' =
    SameInode (new_inode type) (inode_at inum d')
    × ((j : ℕ) → j ≢ inum → SameInode (inode_at j d) (inode_at j d'))

-- The first free inode from `lo` on is taken, or there is none.
abbrev pub Iallocs : (lo type : ℕ) → Disk → Outcome (ℕ × Disk) → Type 0
Iallocs lo type d o =
    ((inum : ℕ) × (d' : Disk) × (o ≡ done (inum, d'))
      × (lo ≤ inum)
      × (inum < sb_ninodes d)
      × ((inode_at inum d).type ≡ 0)
      × ((j : ℕ) → lo ≤ j → j < inum → (inode_at j d).type ≢ 0)
      × Takes inum type d d')
    ⊎ ((o ≡ panics) × ((j : ℕ) → lo ≤ j → j < sb_ninodes d → (inode_at j d).type ≢ 0))

memset-Out : (o : ℕ) (m : Memory) (x : ℕ) → Out o dinode_size x → memset o 0 dinode_size m x ≡ m x
memset-Out o m x (inl lt) = memset_lem o 0 dinode_size m x ∙ ground arith
memset-Out o m x (inr le) = memset_lem o 0 dinode_size m x ∙ ground arith

memset-In : (o k : ℕ) (m : Memory) → k < dinode_size → memset o 0 dinode_size m (o + k) ≡ 0
memset-In o k m lt = memset_lem o 0 dinode_size m (o + k) ∙ ground arith

narrow : (o x : ℕ) → Out o dinode_size x → Out o 2 x
narrow o x (inl lt) = inl lt
narrow o x (inr le) = inr (omega (arith, le))

take_inode-Takes :
    (inum type : ℕ) (d : Disk) → type < 2 ^ 16 → Takes inum type d (take_inode inum type d)
take_inode-Takes inum type d small =
    let o : ℕ = dinode_start inum in
    let cleared : Memory = memset o 0 dinode_size (d (iblock inum)) in
    let block : Memory = store_short o type cleared in
    let zero_at : (x : ℕ) → o + 2 ≤ x → x < o + dinode_size → block x ≡ 0 = λ x lo hi.
      store_short-Out o type cleared x (inr lo)
      ∙ (let e : x ≡ o + (x - o) = omega (arith, lo) in
          ap cleared e ∙ memset-In o (x - o) (d (iblock inum)) (omega (arith, lo, hi))) in
    let new : SameInode (new_inode type) (load_dinode o block) = record {
      type = load_short-store_short o type cleared small;
      major =
          load_short-SameIn (o + 2) zeros block (λ x lo hi. zero_at x (omega arith) (omega arith));
      minor =
          load_short-SameIn (o + 4) zeros block (λ x lo hi. zero_at x (omega arith) (omega arith));
      nlink =
          load_short-SameIn (o + 6) zeros block (λ x lo hi. zero_at x (omega arith) (omega arith));
      size = word_at-SameIn (o + 8) zeros block (λ x lo hi. zero_at x (omega arith) (omega arith));
      addrs = λ i le.
          let inside : ltb i (ndirect + 1) ≡ true = ground (arith, le) in
          rw inside (
            word_at-SameIn (o + 12 + 4 * i) zeros block
              (λ x lo hi. zero_at x (omega arith) (omega arith)));
    } in
    (
      subst (λ b. SameInode (new_inode type) (load_dinode o b))
          (sym (update_self d (iblock inum) block)) new,
      λ j ne. inode_at-Out inum j d block ne (λ x out.
          store_short-Out o type cleared x (narrow o x out) ∙ memset-Out o (d (iblock inum)) x out),
    )

ialloc_from-Iallocs :
    (fuel lo type : ℕ) (d : Disk)
    → type < 2 ^ 16
    → sb_ninodes d ≤ fuel + lo
    → Iallocs lo type d (ialloc_from fuel lo type d)
unfolding ialloc_from
ialloc_from-Iallocs zero lo type d small enough =
    inr (refl, λ j le lt. absurd (omega (arith, le, lt, enough)))
ialloc_from-Iallocs (suc fuel) lo type d small enough = elim (Bool-cases (ltb lo (sb_ninodes d))) [
  | inr past ↦ inr (rw past refl, λ j le lt. absurd (ground (arith, past, le, lt)))
  | inl within ↦ elim (Bool-cases ((inode_at lo d).type == 0)) [
    | inl free ↦ inl (
      lo,
      take_inode lo type d,
      rw (within, free) refl,
      omega arith,
      ground (arith, within),
      ground (arith, free),
      λ j le lt. absurd (omega (arith, le, lt)),
      take_inode-Takes lo type d small,
    )
    | inr taken ↦
        let used : (inode_at lo d).type ≢ 0 = ground (arith, taken) in
        let here_or : (j : ℕ)
            → lo ≤ j
            → ((lo + 1 ≤ j) → (inode_at j d).type ≢ 0)
            → (inode_at j d).type ≢ 0 =
          λ j le later. elim (Bool-cases (j == lo)) [
            | inl e ↦
                let same : lo ≡ j = ground (arith, e) in
                subst (λ k. (inode_at k d).type ≢ 0) same used
            | inr ne ↦ later (ground (arith, ne, le))
          ] in
        elim (ialloc_from-Iallocs fuel (lo + 1) type d small (omega (arith, enough))) [
          | inl (inum, d', ran, le, lt, free, before, takes) ↦ inl (
            inum,
            d',
            rw (within, taken) ran,
            omega (arith, le),
            lt,
            free,
            λ j le' lt'. here_or j le' (λ le''. before j le'' lt'),
            takes,
          )
          | inr (full, all) ↦
              inr (rw (within, taken) full, λ j le lt. here_or j le (λ le'. all j le' lt))
        ]
  ]
]

-- The cache lacks the inode, and has no entry for it.
abbrev pub IsCrowded : (dev inum : ℕ) → Icache → Type 0
IsCrowded dev inum c = (j : ℕ) → j < ninode → (is_cached dev inum (c j) ≡ false) × ((c j).ref ≢ 0)

-- The free inode `inum` is the first one.
abbrev pub IsFirstFree : (inum : ℕ) → Disk → Type 0
IsFirstFree inum d =
    (1 ≤ inum)
    × (inum < sb_ninodes d)
    × ((inode_at inum d).type ≡ 0)
    × ((j : ℕ) → 1 ≤ j → j < inum → (inode_at j d).type ≢ 0)

-- What `ialloc` does: it takes the first free inode on the disk and a reference to it in the cache, in the entry that
-- it returns; or it panics with no inode free, or with no entry for the first free one.
abbrev pub Allocates : (dev type : ℕ) → Disk → Icache → Outcome (ℕ × Disk × Icache) → Type 0
Allocates dev type d c o =
    ((inum : ℕ) × (d' : Disk) × (ip : ℕ) × (c' : Icache) × (o ≡ done (ip, d', c'))
      × IsFirstFree inum d
      × Takes inum type d d'
      × (ip < ninode)
      × (is_cached dev inum (c' ip) ≡ true)
      × ((c' ip).ref ≡ (c ip).ref + 1)
      × ((j : ℕ) → j ≢ ip → c' j ≡ c j)
      × IsUnique c')
    ⊎ ((o ≡ panics) × ((j : ℕ) → 1 ≤ j → j < sb_ninodes d → (inode_at j d).type ≢ 0))
    ⊎ ((o ≡ panics) × ((inum : ℕ) × IsFirstFree inum d × IsCrowded dev inum c))

-- `ialloc` takes the first free inode from number 1 on, which on the disk then has the type and is zero
-- otherwise, changes no other inode, and returns the one entry of the cache for it with one more reference; it
-- panics exactly where no inode is free, or a full cache lacks the inode.
pub ialloc_lem :
    (dev type : ℕ) (d : Disk) (c : Icache)
    → type < 2 ^ 16
    → IsUnique c
    → Allocates dev type d c (ialloc dev type d c)
unfolding ialloc
ialloc_lem dev type d c small one =
    elim (ialloc_from-Iallocs (sb_ninodes d) 1 type d small (omega arith)) [
      | inr (full, all) ↦ inr (inl (rw full refl, all))
      | inl (inum, d', ran, le, lt, free, before, takes) ↦
          let (gets, unique) = iget_lem dev inum c one in
          elim gets [
            | inl (ip, c', got, low, here, count, rest, alone) ↦ inl (
              inum,
              d',
              ip,
              c',
              rw (ran, got) refl,
              (le, lt, free, before),
              takes,
              low,
              here,
              count,
              rest,
              unique ip c' got,
            )
            | inr (stuck, crowded) ↦
                inr (inr (rw (ran, stuck) refl, (inum, (le, lt, free, before), crowded)))
          ]
    ]

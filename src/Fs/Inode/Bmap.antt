-- ===== src/Fs/Inode/Bmap.antt =====
-- `bmap` of kernel/fs.c: the block of an inode, allocated where there is none.
use lainos_fail.Base.{
  ℕ, ◌+◌, ◌-◌, ◌*◌, ◌^◌, ◌<◌, ◌≡◌, ◌≢◌, ◌⊎◌, inl, inr, refl, true, false, ltb, ◌==◌, arith,
  if◌then◌else◌, update, done, panics, Bool-cases, sym, ap, ◌∙◌, subst, update_ne, update_self,
}
use lainos_fail.Mem.{Memory, store_word}
use lainos_fail.Fs.{Disk, sb_size, sb_ninodes, zeros, balloc}
use lainos_fail.Fs.Bitmap.{is_used, IsDisk}
use lainos_fail.Fs.Balloc.{balloc-Allocates}
use lainos_fail.Fs.Inode.{ndirect, nindirect, Dinode, Run, set_addr, entry, bmap_direct, bmap_entry}
use lainos_fail.Fs.Inode.Blocks.{
  block_of, IsData, IsMapped, Keeps, Keeps-self, Keeps-Keeps, IsData-Keeps, update-Keeps, Fresh,
  Fresh-Keeps, Fresh-ne, Fresh-other, Fresh-IsData,
}
use lainos_fail.Fs.Inode.Mapping.{block_of-frame, IsMapped-add}

-- All blocks are in use.
abbrev pub IsFull : Disk → Type 0
IsFull d = (c : ℕ) → c < sb_size d → is_used (sb_ninodes d) d c ≡ true

-- All blocks but one are in use.
abbrev pub IsAlmostFull : Disk → Type 0
IsAlmostFull d = (b : ℕ) × ((c : ℕ) → c < sb_size d → c ≢ b → is_used (sb_ninodes d) d c ≡ true)

-- The block `a` is the one for `bn`, zeroed if it is new; the rest of the map, every block in use but
-- the indirect one, and the other fields of the inode are as before.
pub record Gives (bn : ℕ) (ip : Dinode) (d : Disk) (a : ℕ) (ip' : Dinode) (d' : Disk) : Type 0 where
  pub here : block_of ip' d' bn ≡ a
  pub nonzero : a ≢ 0
  pub others : (i : ℕ) → i ≢ bn → block_of ip' d' i ≡ block_of ip d i
  pub old : block_of ip d bn ≢ 0 → a ≡ block_of ip d bn
  pub new : block_of ip d bn ≡ 0 → d' a ≡ zeros
  pub fresh : block_of ip d bn ≡ 0 → (c : ℕ) → IsData d c → c ≢ a
  pub root : (c : ℕ) → IsData d c → c ≢ ip.addrs ndirect → c ≢ ip'.addrs ndirect
  pub kept : (c : ℕ) → IsData d c → c ≢ ip.addrs ndirect → d' c ≡ d c
  pub keeps : Keeps d d'
  pub mapped : IsMapped ip' d'
  pub size : ip'.size ≡ ip.size
  pub type : ip'.type ≡ ip.type

-- `o` gives the block `bn`, or panics on a disk that is `Stuck`, where there is no such block yet.
abbrev pub Maps : (Stuck : Type 0) → (bn : ℕ) → Dinode → Disk → Run ℕ → Type 0
Maps Stuck bn ip d o =
    ((o ≡ panics) × (block_of ip d bn ≡ 0) × Stuck)
    ⊎ ((a : ℕ) × (ip' : Dinode) × (d' : Disk) × (o ≡ done (a, ip', d')) × Gives bn ip d a ip' d')

-- `balloc` with what it gives as one fact.
pub balloc-Fresh :
    (d : Disk)
    → IsDisk d
    → ((balloc d ≡ panics) × IsFull d)
      ⊎ ((b : ℕ) × (d' : Disk) × (balloc d ≡ done (b, d')) × Fresh d b d')
balloc-Fresh d v = elim (balloc-Allocates d v) [
  | inl (full, all) ↦ inl (full, all)
  | inr (b, d', ran, lo, hi, free, z, marked, least) ↦
      inr (b, d', ran, record { low = lo; high = hi; free = free; zeroed = z; marked = marked })
]

block_of-set_direct :
    (ip : Dinode) (d : Disk) (i bn b : ℕ)
    → bn < ndirect
    → block_of (set_addr ip bn b) d i ≡ (if i == bn then b else block_of ip d i)
block_of-set_direct ip d i bn b lt = ground (arith, lt)

entry-store_word :
    (m : Memory) (i j a : ℕ)
    → a < 2 ^ 32
    → entry (store_word (4 * i) a m) j ≡ (if j == i then a else entry m j)
entry-store_word m i j a small = elim (Bool-cases (j == i)) [
  | inl e ↦ (let same : j ≡ i = ground (arith, e) in ground (arith, same))
  | inr ne ↦ ground arith
]

block_of-entry :
    (ip : Dinode) (d : Disk) (i : ℕ)
    → i < nindirect
    → ip.addrs ndirect ≢ 0
    → block_of ip d (ndirect + i) ≡ entry (d (ip.addrs ndirect)) i
block_of-entry ip d i lt nz =
    let far : ltb (ndirect + i) ndirect ≡ false = ground arith in
    let index : ndirect + i - ndirect ≡ i = omega arith in
    let near : ltb i nindirect ≡ true = ground (arith, lt) in
    let there : (ip.addrs ndirect == 0) ≡ false = ground (arith, nz) in
    rw (far, index, near, there) refl

-- An entry of the indirect block is set.
block_of-store_word :
    (ip : Dinode) (d d' : Disk) (i j a : ℕ)
    → i < nindirect
    → ip.addrs ndirect ≢ 0
    → a < 2 ^ 32
    → d' (ip.addrs ndirect) ≡ store_word (4 * i) a (d (ip.addrs ndirect))
    → block_of ip d' j ≡ (if j == ndirect + i then a else block_of ip d j)
block_of-store_word ip d d' i j a lt nz small e =
    let there : (ip.addrs ndirect == 0) ≡ false = ground (arith, nz) in
    let value = entry-store_word (d (ip.addrs ndirect)) i (j - ndirect) a small in
    elim (Bool-cases (ltb j ndirect)) [
      | inl low ↦
          (let other : (j == ndirect + i) ≡ false = ground (arith, low) in rw (low, other) refl)
      | inr high ↦ elim (Bool-cases (ltb (j - ndirect) nindirect)) [
        | inl inside ↦
            let test : (j - ndirect == i) ≡ (j == ndirect + i) = ground (arith, high) in
            rw (high, inside, there, e) (value ∙ rw test refl)
        | inr beyond ↦
            let other : (j == ndirect + i) ≡ false = ground (arith, high, beyond) in
            rw (high, beyond, other) refl
      ]
    ]

pub store_word_bytes :
    (m : Memory) (o a : ℕ) → ((x : ℕ) → m x < 256) → (x : ℕ) → store_word o a m x < 256
store_word_bytes m o a bytes x = ground (arith, bytes x)

size_bound : (d : Disk) → IsDisk d → sb_size d < 2 ^ 32
size_bound d v = omega (arith, v.bytes 1 0, v.bytes 1 1, v.bytes 1 2, v.bytes 1 3)

module _ (ip : Dinode) (d : Disk) (m : IsMapped ip d) (v : IsDisk d) where
  -- A block that is there.
  pub Gives-old : (bn : ℕ) → block_of ip d bn ≢ 0 → Gives bn ip d (block_of ip d bn) ip d
  Gives-old bn nz = record {
    here = refl;
    nonzero = nz;
    others = λ i ne. refl;
    old = λ _. refl;
    new = λ z. absurd (nz z);
    fresh = λ z. absurd (nz z);
    root = λ c h ne. ne;
    kept = λ c h ne. refl;
    keeps = Keeps-self d v;
    mapped = m;
    size = refl;
    type = refl;
  }

  pub bmap_direct-Maps : (bn : ℕ) → bn < ndirect → Maps (IsFull d) bn ip d (bmap_direct bn ip d)
  unfolding bmap_direct
  bmap_direct-Maps bn lt =
      let direct : block_of ip d bn ≡ ip.addrs bn = ground (arith, lt) in
      elim (Bool-cases (ip.addrs bn == 0)) [
        | inr there ↦
            let nz : block_of ip d bn ≢ 0 = ground (arith, there, direct) in
            inr (
              ip.addrs bn,
              ip,
              d,
              rw there refl,
              subst (λ a. Gives bn ip d a ip d) direct (Gives-old bn nz),
            )
        | inl empty ↦ elim (balloc-Fresh d v) [
          | inl (full, all) ↦ inl (rw (empty, full) refl, direct ∙ ground (arith, empty), all)
          | inr (b, d', ran, f) ↦
              let keeps = Fresh-Keeps d d' b f in
              let frame : (i : ℕ) → block_of ip d' i ≡ block_of ip d i = λ i.
                block_of-frame ip d d' i
                  (λ nz. Fresh-other d d' b (ip.addrs ndirect) f (m.root nz)) in
              let ip' : Dinode = set_addr ip bn b in
              let eqn : (i : ℕ) → block_of ip' d' i ≡ (if i == bn then b else block_of ip d i) =
                λ i.
                  block_of-set_direct ip d' i bn b lt
                  ∙ ap (λ x. if i == bn then b else x) (frame i) in
              inr (
                b,
                ip',
                d',
                rw (empty, ran) refl,
                record {
                  here = eqn bn ∙ ground arith;
                  nonzero = λ e. ground (arith, f.low, e);
                  others = λ i ne. eqn i ∙ ground (arith, ne);
                  old = λ nz. absurd (nz (direct ∙ ground (arith, empty)));
                  new = λ z. f.zeroed;
                  fresh = λ z c h. Fresh-ne d d' b c f h;
                  root = λ c h ne. ground (arith, ne, lt);
                  kept = λ c h ne. Fresh-other d d' b c f h;
                  keeps = keeps;
                  mapped =
                      IsMapped-add ip ip' d d' b m keeps (Fresh-IsData d d' b f)
                        (λ c h. Fresh-ne d d' b c f h) bn (ground (arith, lt)) eqn;
                  size = refl;
                  type = refl;
                },
              )
        ]
      ]

  pub bmap_entry-Maps :
      (i : ℕ)
      → i < nindirect
      → ip.addrs ndirect ≢ 0
      → Maps (IsFull d) (ndirect + i) ip d (bmap_entry (ip.addrs ndirect) i ip d)
  unfolding bmap_entry
  bmap_entry-Maps i lt nz =
      let addr : ℕ = ip.addrs ndirect in
      let direct : block_of ip d (ndirect + i) ≡ entry (d addr) i = block_of-entry ip d i lt nz in
      elim (Bool-cases (entry (d addr) i == 0)) [
        | inr there ↦
            let nz' : block_of ip d (ndirect + i) ≢ 0 = ground (arith, there, direct) in
            inr (
              entry (d addr) i,
              ip,
              d,
              rw there refl,
              subst (λ a. Gives (ndirect + i) ip d a ip d) direct (Gives-old (ndirect + i) nz'),
            )
        | inl empty ↦ elim (balloc-Fresh d v) [
          | inl (full, all) ↦ inl (rw (empty, full) refl, direct ∙ ground (arith, empty), all)
          | inr (b, d₁, ran, f) ↦
              let root : IsData d addr = m.root nz in
              let keeps₁ = Fresh-Keeps d d₁ b f in
              let block : Memory = store_word (4 * i) b (d₁ addr) in
              let d₂ : Disk = update d₁ addr block in
              let root₁ : IsData d₁ addr = IsData-Keeps d d₁ addr keeps₁ root in
              let keeps₂ =
                update-Keeps d₁ addr block f.marked.valid root₁.low
                  (store_word_bytes (d₁ addr) (4 * i) b (f.marked.valid.bytes addr)) in
              let keeps : Keeps d d₂ = Keeps-Keeps d d₁ d₂ keeps₁ keeps₂ in
              let same_root : d₁ addr ≡ d addr = Fresh-other d d₁ b addr f root in
              let not_root : b ≢ addr = λ e. Fresh-ne d d₁ b addr f root (sym e) in
              let there : d₂ addr ≡ store_word (4 * i) b (d addr) =
                update_self d₁ addr block ∙ ap (store_word (4 * i) b) same_root in
              let eqn : (j : ℕ)
                  → block_of ip d₂ j ≡ (if j == ndirect + i then b else block_of ip d j) =
                λ j.
                  block_of-store_word ip d d₂ i j b lt nz (omega (arith, size_bound d v, f.high))
                    there in
              inr (
                b,
                ip,
                d₂,
                rw (empty, ran) refl,
                record {
                  here = eqn (ndirect + i) ∙ ground arith;
                  nonzero = λ e. ground (arith, f.low, e);
                  others = λ j ne. eqn j ∙ ground (arith, ne);
                  old = λ nz'. absurd (nz' (direct ∙ ground (arith, empty)));
                  new = λ z. update_ne d₁ addr block b not_root ∙ f.zeroed;
                  fresh = λ z c h. Fresh-ne d d₁ b c f h;
                  root = λ c h ne. ne;
                  kept = λ c h ne. update_ne d₁ addr block c ne ∙ Fresh-other d d₁ b c f h;
                  keeps = keeps;
                  mapped =
                      IsMapped-add ip ip d d₂ b m keeps
                        (IsData-Keeps d₁ d₂ b keeps₂ (Fresh-IsData d d₁ b f))
                        (λ c h. Fresh-ne d d₁ b c f h) (ndirect + i) refl eqn;
                  size = refl;
                  type = refl;
                },
              )
        ]
      ]

-- ===== src/Fs/Ialloc/Records.antt =====
-- `iupdate` of kernel/fs.c, and what `ilock` reads after it.
use lainos_fail.Base.{
  ℕ, ◌+◌, ◌^◌, ◌<◌, ◌≤◌, ◌≡◌, ◌≢◌, ◌⊎◌, inl, inr, refl, true, ltb, ◌==◌, arith, Bool-cases, sym, ap,
  ◌∙◌, subst, update, update_self, update_ne, Outcome, done, panics,
}
use lainos_fail.Mem.{Memory, store_word}
use lainos_fail.Fs.{Disk, iblock}
use lainos_fail.Fs.Inode.{ndirect, Dinode, store_short, store_addrs, store_dinode, iupdate}
use lainos_fail.Fs.Ialloc.{dinode_size, load_short, load_dinode, dinode_start, inode_at, read_inode}
use lainos_fail.Fs.Ialloc.Words.{
  SameInode, Out, load_dinode-SameIn, load_short-SameIn, word_at-SameIn, store_word-Out,
  store_addrs-Out, word_at-store_word, load_short-store_short, word_at-store_addrs,
}

-- The fields fit in their widths.
pub record IsStorable (ip : Dinode) : Type 0 where
  pub type : ip.type < 2 ^ 16
  pub major : ip.major < 2 ^ 16
  pub minor : ip.minor < 2 ^ 16
  pub nlink : ip.nlink < 2 ^ 16
  pub size : ip.size < 2 ^ 32
  pub addrs : (i : ℕ) → i ≤ ndirect → ip.addrs i < 2 ^ 32

-- The memory before `addrs` is stored, and the four shorts.
abbrev shorts : (o : ℕ) → Dinode → Memory → Memory
shorts o ip m =
    store_short (o + 6) ip.nlink
      (store_short (o + 4) ip.minor (store_short (o + 2) ip.major (store_short o ip.type m)))

shorts-Out : (o : ℕ) (ip : Dinode) (m : Memory) (x : ℕ) → Out o 8 x → shorts o ip m x ≡ m x
shorts-Out o ip m x (inl lt) = ground arith
shorts-Out o ip m x (inr le) = ground arith

load_short-shorts :
    (o : ℕ) (ip : Dinode) (m : Memory)
    → IsStorable ip
    → (load_short o (shorts o ip m) ≡ ip.type)
      × (load_short (o + 2) (shorts o ip m) ≡ ip.major)
      × (load_short (o + 4) (shorts o ip m) ≡ ip.minor)
      × (load_short (o + 6) (shorts o ip m) ≡ ip.nlink)
load_short-shorts o ip m s =
    let m₁ = store_short o ip.type m in
    let m₂ = store_short (o + 2) ip.major m₁ in
    let m₃ = store_short (o + 4) ip.minor m₂ in
    (
      load_short-SameIn o m₁ (shorts o ip m) (λ x lo hi. ground (arith, lo, hi))
          ∙ load_short-store_short o ip.type m (s.type),
      load_short-SameIn (o + 2) m₂ (shorts o ip m) (λ x lo hi. ground (arith, lo, hi))
          ∙ load_short-store_short (o + 2) ip.major m₁ (s.major),
      load_short-SameIn (o + 4) m₃ (shorts o ip m) (λ x lo hi. ground (arith, lo, hi))
          ∙ load_short-store_short (o + 4) ip.minor m₂ (s.minor),
      load_short-store_short (o + 6) ip.nlink m₃ (s.nlink),
    )

store_dinode-Out :
    (o : ℕ) (ip : Dinode) (m : Memory) (x : ℕ) → Out o dinode_size x → store_dinode o ip m x ≡ m x
unfolding store_dinode
store_dinode-Out o ip m x (inl lt) =
    store_addrs-Out 13 0 (o + 12) ip.addrs _ x (inl (omega arith))
    ∙ store_word-Out (o + 8) ip.size (shorts o ip m) x (inl (omega arith))
    ∙ shorts-Out o ip m x (inl lt)
store_dinode-Out o ip m x (inr le) =
    store_addrs-Out 13 0 (o + 12) ip.addrs _ x (inr (omega arith))
    ∙ store_word-Out (o + 8) ip.size (shorts o ip m) x (inr (omega arith))
    ∙ shorts-Out o ip m x (inr (omega arith))

load_dinode-store_dinode :
    (o : ℕ) (ip : Dinode) (m : Memory)
    → IsStorable ip
    → SameInode ip (load_dinode o (store_dinode o ip m))
unfolding store_dinode
load_dinode-store_dinode o ip m s =
    let before : Memory = store_word (o + 8) ip.size (shorts o ip m) in
    let after : Memory = store_addrs 13 0 (o + 12) ip.addrs before in
    let low : (x : ℕ) → x < o + 12 → after x ≡ before x =
      λ x lt. store_addrs-Out 13 0 (o + 12) ip.addrs before x (inl lt) in
    let lower : (x : ℕ) → x < o + 8 → after x ≡ shorts o ip m x =
      λ x lt. low x (omega arith) ∙ store_word-Out (o + 8) ip.size (shorts o ip m) x (inl lt) in
    let (t, j, i, l) = load_short-shorts o ip m s in
    record {
      type = load_short-SameIn o (shorts o ip m) after (λ x lo hi. lower x (omega arith)) ∙ t;
      major =
          load_short-SameIn (o + 2) (shorts o ip m) after (λ x lo hi. lower x (omega arith)) ∙ j;
      minor =
          load_short-SameIn (o + 4) (shorts o ip m) after (λ x lo hi. lower x (omega arith)) ∙ i;
      nlink =
          load_short-SameIn (o + 6) (shorts o ip m) after (λ x lo hi. lower x (omega arith)) ∙ l;
      size =
          word_at-SameIn (o + 8) before after (λ x lo hi. low x (omega arith))
          ∙ word_at-store_word (o + 8) ip.size (shorts o ip m) (s.size);
      addrs = λ k le.
          let inside : ltb k (ndirect + 1) ≡ true = ground (arith, le) in
          let which : 0 + k ≡ k = omega arith in
          rw inside (
            word_at-store_addrs 13 0 k (o + 12) ip.addrs before (omega (arith, le))
              (subst (λ v. ip.addrs v < 2 ^ 32) (sym which) (s.addrs k le))
            ∙ ap ip.addrs which);
    }

-- A block of inodes in which only one inode's bytes change keeps the other inodes.
pub inode_at-Out :
    (inum j : ℕ) (d : Disk) (m : Memory)
    → j ≢ inum
    → ((x : ℕ) → Out (dinode_start inum) dinode_size x → m x ≡ d (iblock inum) x)
    → SameInode (inode_at j d) (inode_at j (update d (iblock inum) m))
inode_at-Out inum j d m ne same =
    load_dinode-SameIn (dinode_start j) (d (iblock j)) (update d (iblock inum) m (iblock j))
      (λ x lo hi. elim (Bool-cases (iblock j == iblock inum)) [
        | inl e ↦
            let at : iblock j ≡ iblock inum = ground (arith, e) in
            rw (at, update_self d (iblock inum) m)
              (same x (elim (Bool-cases (ltb x (dinode_start inum))) [
                | inl below ↦ inl (ground (arith, below))
                | inr above ↦ inr (ground (arith, above, at, ne, lo, hi))
              ]))
        | inr other ↦ ap (λ f. f x) (update_ne d (iblock inum) m (iblock j) (ground (arith, other)))
      ])

-- What `ilock` reads of an inode: its fields on the disk, or a panic without a type.
abbrev pub ReadsInode : Dinode → Outcome Dinode → Type 0
ReadsInode ip o =
    ((ip.type ≡ 0) × (o ≡ panics))
    ⊎ ((ip.type ≢ 0) × ((ip' : Dinode) × (o ≡ done ip') × SameInode ip ip'))

-- `ilock` reads back the fields that `iupdate` stored, where they fit in their widths and the type is not 0, and
-- panics where it is; the fields of every other inode on the disk are as before.
pub read_inode-iupdate :
    (inum : ℕ) (ip : Dinode) (d : Disk)
    → IsStorable ip
    → ReadsInode ip (read_inode inum (iupdate inum ip d))
      × ((j : ℕ) → j ≢ inum → SameInode (inode_at j d) (inode_at j (iupdate inum ip d)))
unfolding read_inode iupdate
read_inode-iupdate inum ip d s =
    let o : ℕ = dinode_start inum in
    let block : Memory = store_dinode o ip (d (iblock inum)) in
    let d' : Disk = update d (iblock inum) block in
    let same : SameInode ip (inode_at inum d') =
      subst (λ b. SameInode ip (load_dinode o b)) (sym (update_self d (iblock inum) block))
        (load_dinode-store_dinode o ip (d (iblock inum)) s) in
    let type' : (inode_at inum d').type ≡ ip.type = same.type in
    (
      elim (Bool-cases ((inode_at inum d').type == 0)) [
        | inl e ↦ inl (ground (arith, e, type'), rw e refl)
        | inr ne ↦ inr (ground (arith, ne, type'), (inode_at inum d', rw ne refl, same))
      ],
      λ j ne.
          inode_at-Out inum j d block ne (λ x out. store_dinode-Out o ip (d (iblock inum)) x out),
    )

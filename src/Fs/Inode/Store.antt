-- ===== src/Fs/Inode/Store.antt =====
-- `iupdate` of kernel/fs.c writes to a block of inodes, which no file's content is in.
use lainos_fail.Base.{
  ℕ, zero, suc, ◌+◌, ◌*◌, ◌/◌, ◌%◌, ◌<◌, ◌≡◌, inl, inr, refl, ◌==◌, arith, Bool-cases, sym, ap, ◌∙◌,
  subst, update, update_ne,
}
use lainos_fail.Mem.{Memory, store_word}
use lainos_fail.Fs.{Disk, sb_ninodes, bblock, iblock}
use lainos_fail.Fs.Bitmap.{data_start, IsDisk}
use lainos_fail.Fs.Balloc.{SameSuper}
use lainos_fail.Fs.Inode.{
  ndirect, block_size, Dinode, store_short, store_addrs, store_dinode, iupdate,
}
use lainos_fail.Fs.Inode.Blocks.{block_of, IsData, IsMapped, Keeps}
use lainos_fail.Fs.Inode.Mapping.{block_of-frame, IsMapped-frame}
use lainos_fail.Fs.Inode.Bmap.{store_word_bytes}
use lainos_fail.Fs.Inode.Content.{content, IsForeign-frame, Becomes}

abbrev AreBytes : Memory → Type 0
AreBytes m = (x : ℕ) → m x < 256

store_short_bytes : (o v : ℕ) (m : Memory) → AreBytes m → AreBytes (store_short o v m)
store_short_bytes o v m bytes x = ground (arith, bytes x)

store_addrs_bytes :
    (k i o : ℕ) (addrs : ℕ → ℕ) (m : Memory) → AreBytes m → AreBytes (store_addrs k i o addrs m)
unfolding store_addrs
store_addrs_bytes zero i o addrs m bytes = bytes
store_addrs_bytes (suc k) i o addrs m bytes =
    store_addrs_bytes k (i + 1) (o + 4) addrs (store_word o (addrs i) m)
      (store_word_bytes m o (addrs i) bytes)

store_dinode_bytes :
    (o : ℕ) (ip : Dinode) (m : Memory) → AreBytes m → AreBytes (store_dinode o ip m)
unfolding store_dinode
store_dinode_bytes o ip m bytes = store_addrs_bytes (ndirect + 1) 0 (o + 12) ip.addrs _ (
    store_word_bytes _ (o + 8) ip.size (
      store_short_bytes (o + 6) ip.nlink _ (
        store_short_bytes (o + 4) ip.minor _
          (store_short_bytes (o + 2) ip.major _ (store_short_bytes o ip.type m bytes)))))

-- A write to a block of inodes.
inodes-Keeps :
    (d : Disk) (c : ℕ) (m : Memory)
    → IsDisk d
    → 1 < c
    → c < sb_ninodes d / 8 + 3
    → AreBytes m
    → Keeps d (update d c m)
inodes-Keeps d c m v low high bytes =
    let same : update d c m 1 ≡ d 1 = update_ne d c m 1 (omega arith) in
    let sizes : SameSuper d (update d c m) = (rw same refl, rw same refl) in
    let bits : (b : ℕ) → update d c m (bblock b (sb_ninodes d)) ≡ d (bblock b (sb_ninodes d)) =
      λ b. update_ne d c m (bblock b (sb_ninodes d)) (omega arith) in
    let start : data_start (update d c m) ≡ data_start d = rw (sizes.0, sizes.1) refl in
    record {
      super = sizes;
      still = λ b lt used. rw (bits b) used;
      valid = record {
        bytes = λ b o. ground (arith, v.bytes b o, bytes o);
        meta = λ b lt.
            (let lt' : b < data_start d = subst (λ n. b < n) start lt in
              rw (sizes.1, bits b) (v.meta b lt'));
        room = rw (sizes.0, sizes.1) (v.room);
      };
    }

-- `iupdate` of an inode, with whatever fields, leaves the content of every file.
pub iupdate-Becomes :
    (ip ip' : Dinode) (d : Disk) (inum : ℕ)
    → IsMapped ip d
    → IsDisk d
    → inum < sb_ninodes d
    → Becomes ip d (content ip d) ip (iupdate inum ip' d)
unfolding iupdate content
iupdate-Becomes ip ip' d inum m v lt =
    let ib : ℕ = iblock inum in
    let block : Memory = store_dinode (inum % 8 * 64) ip' (d ib) in
    let d' : Disk = update d ib block in
    let keeps : Keeps d d' =
      inodes-Keeps d ib block v (omega arith) (omega arith)
        (store_dinode_bytes (inum % 8 * 64) ip' (d ib) (v.bytes ib)) in
    let data_block : (c : ℕ) → IsData d c → d' c ≡ d c =
      λ c h. update_ne d ib block c (omega (arith, h.low)) in
    let frame : (i : ℕ) → block_of ip d' i ≡ block_of ip d i =
      λ i. block_of-frame ip d d' i (λ nz. data_block (ip.addrs ndirect) (m.root nz)) in
    record {
      bytes = λ x. elim (Bool-cases (block_of ip d (x / block_size) == 0)) [
        | inl hole ↦ rw (frame (x / block_size), hole) refl
        | inr there ↦
            rw (frame (x / block_size), there)
              (ap (λ f. f (x % block_size))
                (data_block (block_of ip d (x / block_size))
                  (m.mapped (x / block_size) (ground (arith, there)))))
      ];
      size = refl;
      type = refl;
      keeps = keeps;
      mapped = IsMapped-frame ip d d' m keeps frame;
      foreign = λ c h. (IsForeign-frame ip d d' c keeps frame h, data_block c h.inside);
      blocks = λ i h z. h (sym (frame i) ∙ z);
    }

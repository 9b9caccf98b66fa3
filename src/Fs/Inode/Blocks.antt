-- ===== src/Fs/Inode/Blocks.antt =====
-- The blocks of an inode of kernel/fs.c as a map from block numbers, and what keeps it sound.
use lainos_fail.Base.{
  ℕ, ◌-◌, ◌<◌, ◌≤◌, ◌≡◌, ◌≢◌, refl, true, false, ltb, ◌==◌, arith, if◌then◌else◌, update, sym, ◌∙◌,
  subst, update_ne,
}
use lainos_fail.Mem.{Memory}
use lainos_fail.Fs.{Disk, sb_size, sb_ninodes, bblock, zeros}
use lainos_fail.Fs.Bitmap.{is_used, data_start, IsDisk}
use lainos_fail.Fs.Balloc.{SameSuper, Marked}
use lainos_fail.Fs.Inode.{ndirect, nindirect, Dinode, entry}

-- The block that holds the block `bn` of the inode, or 0.
abbrev pub block_of : Dinode → Disk → (bn : ℕ) → ℕ
block_of ip d bn =
    if ltb bn ndirect
    then ip.addrs bn
    else if ltb (bn - ndirect) nindirect
    then (if ip.addrs ndirect == 0 then 0 else entry (d (ip.addrs ndirect)) (bn - ndirect))
    else 0

-- A block after the bitmap that is marked as used.
pub record IsData (d : Disk) (b : ℕ) : Type 0 where
  pub low : data_start d ≤ b
  pub high : b < sb_size d
  pub used : is_used (sb_ninodes d) d b ≡ true

-- The blocks of an inode are data blocks in use, each for one block number; none of them is the
-- indirect block.
pub record IsMapped (ip : Dinode) (d : Disk) : Type 0 where
  pub mapped : (bn : ℕ) → block_of ip d bn ≢ 0 → IsData d (block_of ip d bn)
  pub root : ip.addrs ndirect ≢ 0 → IsData d (ip.addrs ndirect)
  pub distinct :
      (bn bn' : ℕ) → block_of ip d bn ≢ 0 → block_of ip d bn ≡ block_of ip d bn' → bn ≡ bn'
  pub apart : (bn : ℕ) → block_of ip d bn ≢ 0 → block_of ip d bn ≢ ip.addrs ndirect

-- What every operation on data keeps: the sizes, the blocks in use, a sound disk.
pub record Keeps (d d' : Disk) : Type 0 where
  pub super : SameSuper d d'
  pub still :
      (c : ℕ)
      → c < sb_size d
      → is_used (sb_ninodes d) d c ≡ true
      → is_used (sb_ninodes d) d' c ≡ true
  pub valid : IsDisk d'

pub Keeps-self : (d : Disk) → IsDisk d → Keeps d d
Keeps-self d v = record { super = (refl, refl); still = λ c lt used. used; valid = v }

pub Keeps-Keeps : (d e f : Disk) → Keeps d e → Keeps e f → Keeps d f
Keeps-Keeps d e f k l = record {
  super = (l.super.0 ∙ k.super.0, l.super.1 ∙ k.super.1);
  still = λ c lt used.
      subst (λ n. is_used n f c ≡ true) (k.super.1)
        (l.still c (subst (λ n. c < n) (sym (k.super.0)) lt)
          (subst (λ n. is_used n e c ≡ true) (sym (k.super.1)) (k.still c lt used)));
  valid = l.valid;
}

pub data_start-Keeps : (d d' : Disk) → Keeps d d' → data_start d' ≡ data_start d
data_start-Keeps d d' k = rw (k.super.0, k.super.1) refl

pub IsData-Keeps : (d d' : Disk) (c : ℕ) → Keeps d d' → IsData d c → IsData d' c
IsData-Keeps d d' c k h = record {
  low = subst (λ n. n ≤ c) (sym (data_start-Keeps d d' k)) h.low;
  high = subst (λ n. c < n) (sym (k.super.0)) h.high;
  used = subst (λ n. is_used n d' c ≡ true) (sym (k.super.1)) (k.still c h.high h.used);
}

-- A write to a data block.
pub update-Keeps :
    (d : Disk) (c : ℕ) (m : Memory)
    → IsDisk d
    → data_start d ≤ c
    → ((o : ℕ) → m o < 256)
    → Keeps d (update d c m)
update-Keeps d c m v low bytes =
    let same : update d c m 1 ≡ d 1 = update_ne d c m 1 (omega arith) in
    let sizes : SameSuper d (update d c m) = (rw same refl, rw same refl) in
    let bits : (b : ℕ)
        → b < sb_size d
        → update d c m (bblock b (sb_ninodes d)) ≡ d (bblock b (sb_ninodes d)) =
      λ b lt. update_ne d c m (bblock b (sb_ninodes d)) (omega arith) in
    let start : data_start (update d c m) ≡ data_start d = rw (sizes.0, sizes.1) refl in
    record {
      super = sizes;
      still = λ b lt used. rw (bits b lt) used;
      valid = record {
        bytes = λ b o. ground (arith, v.bytes b o, bytes o);
        meta = λ b lt.
            (let lt' : b < data_start d = subst (λ n. b < n) start lt in
              rw (sizes.1, bits b (omega (arith, v.room))) (v.meta b lt'));
        room = rw (sizes.0, sizes.1) (v.room);
      };
    }

-- `d'` is `d` after the allocation of the free block `b`.
pub record Fresh (d : Disk) (b : ℕ) (d' : Disk) : Type 0 where
  pub low : data_start d ≤ b
  pub high : b < sb_size d
  pub free : is_used (sb_ninodes d) d b ≡ false
  pub zeroed : d' b ≡ zeros
  pub marked : Marked b true d d'

pub Fresh-Keeps : (d d' : Disk) (b : ℕ) → Fresh d b d' → Keeps d d'
Fresh-Keeps d d' b f = record {
  super = f.marked.super;
  still = λ c lt used. f.marked.marks c lt ∙ ground (arith, used);
  valid = f.marked.valid;
}

pub Fresh-ne : (d d' : Disk) (b c : ℕ) → Fresh d b d' → IsData d c → c ≢ b
Fresh-ne d d' b c f h e =
    let used : is_used (sb_ninodes d) d b ≡ true =
      subst (λ k. is_used (sb_ninodes d) d k ≡ true) e h.used in
    ground (arith, used, f.free)

pub Fresh-other : (d d' : Disk) (b c : ℕ) → Fresh d b d' → IsData d c → d' c ≡ d c
Fresh-other d d' b c f h = f.marked.others c h.low (Fresh-ne d d' b c f h)

pub Fresh-IsData : (d d' : Disk) (b : ℕ) → Fresh d b d' → IsData d' b
Fresh-IsData d d' b f =
    let start : data_start d' ≡ data_start d = data_start-Keeps d d' (Fresh-Keeps d d' b f) in
    record {
      low = subst (λ n. n ≤ b) (sym start) f.low;
      high = subst (λ n. b < n) (sym (f.marked.super.0)) f.high;
      used =
          subst (λ n. is_used n d' b ≡ true) (sym (f.marked.super.1))
            (f.marked.marks b f.high ∙ ground arith);
    }

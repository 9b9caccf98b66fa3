-- ===== src/Fs/Ialloc.antt =====
-- The inodes on the disk in kernel/fs.c: `ialloc`, and the part of `ilock` that reads an inode.
mod Words
mod Records
mod Free
mod Tests
use lainos_fail.Base.{
  ℕ, zero, suc, ◌+◌, ◌*◌, ◌/◌, ◌%◌, Bool, true, false, ltb, ◌==◌, if◌then◌else◌, update, Outcome,
  done, panics, ◌>>=◌,
}
use lainos_fail.Icache.{Icache, iget}
use lainos_fail.Mem.{Memory, memset}
use lainos_fail.Args.{word_at}
use lainos_fail.Fs.{Disk, sb_ninodes, iblock}
use lainos_fail.Fs.Inode.{ndirect, Dinode, store_short}

-- `sizeof(struct dinode)`
abbrev pub dinode_size : ℕ
dinode_size = 64

abbrev pub load_short : (o : ℕ) → Memory → ℕ
load_short o m = m o + m (o + 1) * 256

-- The inode at byte `o` of a block; `addrs` has `ndirect + 1` entries.
abbrev pub load_dinode : (o : ℕ) → Memory → Dinode
load_dinode o m = record {
  type = load_short o m;
  major = load_short (o + 2) m;
  minor = load_short (o + 4) m;
  nlink = load_short (o + 6) m;
  size = word_at (o + 8) m;
  addrs = λ i. if ltb i (ndirect + 1) then word_at (o + 12 + 4 * i) m else 0;
}

-- Where the inode is in its block, and the inode there.
abbrev pub dinode_start : (inum : ℕ) → ℕ
dinode_start inum = inum % 8 * dinode_size

abbrev pub inode_at : (inum : ℕ) → Disk → Dinode
inode_at inum d = load_dinode (dinode_start inum) (d (iblock inum))

-- `ilock` of an inode that is not valid: it is read, and must have a type.
unfoldable pub read_inode : (inum : ℕ) → Disk → Outcome Dinode
read_inode inum d = let ip = inode_at inum d in if ip.type == 0 then panics else done ip

-- The inode is zeroed and gets the type.
abbrev pub take_inode : (inum type : ℕ) → Disk → Disk
take_inode inum type d =
    let o = dinode_start inum in
    update d (iblock inum) (store_short o type (memset o 0 dinode_size (d (iblock inum))))

-- The loop of `ialloc` from `inum`, on fuel.
unfoldable pub ialloc_from : (fuel inum type : ℕ) → Disk → Outcome (ℕ × Disk)
ialloc_from zero inum type d = panics
ialloc_from (suc fuel) inum type d =
    let rest = ialloc_from fuel (inum + 1) type d in
    if ltb inum (sb_ninodes d)
    then (if (inode_at inum d).type == 0 then done (inum, take_inode inum type d) else rest)
    else panics

-- The inode found on the disk is looked up in the cache, by `iget`.
unfoldable pub ialloc : (dev type : ℕ) → Disk → Icache → Outcome (ℕ × Disk × Icache)
ialloc dev type d c =
    ialloc_from (sb_ninodes d) 1 type d >>= λ r. iget dev r.0 c >>= λ s. done (s.0, r.1, s.1)

-- ===== src/Fs/Ialloc/Tests.antt =====
-- The inodes of an empty disk.
use lainos_fail.Base.{ℕ, false, ◌≢◌, arith, if◌then◌else◌, ◌==◌}
use lainos_fail.Fs.{Disk}
use lainos_fail.Fs.Inode.{Dinode, iupdate}
use lainos_fail.Fs.Ialloc.{inode_at, read_inode, ialloc}
use lainos_fail.Fs.Ialloc.Words.{SameInode}
use lainos_fail.Fs.Ialloc.Records.{IsStorable, ReadsInode, read_inode-iupdate}
use lainos_fail.Fs.Ialloc.Free.{Allocates, ialloc_lem}
use lainos_fail.Icache.{Icache}
use lainos_fail.Icache.Unique.{IsUnique}

-- 64 blocks, 8 inodes, all free.
abbrev empty : Disk
empty b o = if b == 1 then (if o == 0 then 64 else if o == 8 then 8 else 0) else 0

abbrev file : Dinode
file = record {
  type = 2;
  major = 65535;
  minor = 1;
  nlink = 1;
  size = 1000;
  addrs = λ i. if i == 0 then 70000 else 0;
}

file-IsStorable : IsStorable file
file-IsStorable = record {
  type = omega arith;
  major = omega arith;
  minor = omega arith;
  nlink = omega arith;
  size = omega arith;
  addrs = λ i le. ground arith;
}

read_inode-iupdate_example :
    ReadsInode file (read_inode 3 (iupdate 3 file empty))
    × ((j : ℕ) → j ≢ 3 → SameInode (inode_at j empty) (inode_at j (iupdate 3 file empty)))
read_inode-iupdate_example = read_inode-iupdate 3 file empty file-IsStorable

-- A cache with no inode.
abbrev no_inodes : Icache
no_inodes j = record { dev = 0; inum = 0; ref = 0; busy = false; valid = false }

no_inodes-IsUnique : IsUnique no_inodes
no_inodes-IsUnique dev inum i j lt lt' h h' = absurd (ground (arith, h))

ialloc_lem_example : Allocates 1 2 empty no_inodes (ialloc 1 2 empty no_inodes)
ialloc_lem_example = ialloc_lem 1 2 empty no_inodes (omega arith) no_inodes-IsUnique

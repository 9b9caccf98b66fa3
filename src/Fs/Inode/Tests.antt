-- ===== src/Fs/Inode/Tests.antt =====
-- A small disk and a file on it: the theorems on kernel/fs.c at concrete inputs.
use lainos_fail.Base.{
  ℕ, ◌/◌, ◌≤◌, ◌<◌, ◌≡◌, ◌≢◌, inl, inr, refl, true, ◌&&◌, some, List, [], ◌∷◌, ◌==◌, arith,
  if◌then◌else◌, Bool-cases, sym, ◌∙◌, subst, All, update, done, passes, passes_at,
}
use lainos_fail.Fs.{Disk, balloc}
use lainos_fail.Fs.Bitmap.{is_used, IsDisk}
use lainos_fail.Fs.Balloc.{Allocates, balloc-Allocates}
use lainos_fail.Fs.Inode.{Dinode, write_loop, write_file, read_file, bmap, bmap_direct, put_bytes}
use lainos_fail.Fs.Inode.Blocks.{block_of, IsData, IsMapped}
use lainos_fail.Fs.Inode.Bmap.{Maps, IsAlmostFull}
use lainos_fail.Fs.Inode.Alloc.{bmap-Maps}
use lainos_fail.Fs.Inode.Read.{ReadsFile, read_file_lem}
use lainos_fail.Fs.Inode.Files.{read_file-write_file}

-- 64 blocks, 8 inodes; the blocks 0 to 5 are in use.
abbrev tiny : Disk
tiny b o =
    if b == 1
    then (if o == 0 then 64 else if o == 8 then 8 else 0)
    else (if b == 4 && o == 0 then 63 else 0)

-- A file of ten bytes in block 5.
abbrev tiny_file : Dinode
tiny_file = record {
  type = 2;
  major = 0;
  minor = 0;
  nlink = 1;
  size = 10;
  addrs = λ i. if i == 0 then 5 else 0;
}

tiny_bytes : (b o : ℕ) → tiny b o < 256
tiny_bytes b o = ground arith

tiny_meta : (b : ℕ) → b < 5 → is_used 8 tiny b ≡ true
unfolding passes
tiny_meta b lt = passes_at 5 (λ k. is_used 8 tiny k) b refl lt

tiny-IsDisk : IsDisk tiny
tiny-IsDisk = record { bytes = tiny_bytes; meta = tiny_meta; room = omega arith }

five-IsData : IsData tiny 5
five-IsData = record { low = omega arith; high = omega arith; used = refl }

-- The indirect block is missing, and only the block number 0 has a block.
tiny_block : (bn : ℕ) → block_of tiny_file tiny bn ≡ (if bn == 0 then 5 else 0)
tiny_block bn = ground arith

tiny_only : (bn : ℕ) → block_of tiny_file tiny bn ≢ 0 → bn ≡ 0
tiny_only bn ne = elim (Bool-cases (bn == 0)) [
  | inl e ↦ ground (arith, e)
  | inr e ↦ absurd (ne (tiny_block bn ∙ rw e refl))
]

tiny-IsMapped : IsMapped tiny_file tiny
tiny-IsMapped = record {
  mapped = λ bn ne.
      subst (λ k. IsData tiny (block_of tiny_file tiny k)) (sym (tiny_only bn ne)) five-IsData;
  root = λ ne. absurd (ne refl);
  distinct = λ bn bn' ne e. tiny_only bn ne ∙ sym (tiny_only bn' (λ z. ne (e ∙ z)));
  apart = λ bn ne e. ne e;
}

abbrev two_bytes : List ℕ
two_bytes = 7 ∷ 8 ∷ []

two_bytes_small : All (λ x. x < 256) two_bytes
two_bytes_small = (omega arith, (omega arith, tt))

balloc-Allocates_example : Allocates tiny (balloc tiny)
balloc-Allocates_example = balloc-Allocates tiny tiny-IsDisk

bmap-Maps_example : Maps (IsAlmostFull tiny) 12 tiny_file tiny (bmap 12 tiny_file tiny)
bmap-Maps_example = bmap-Maps 12 tiny_file tiny tiny-IsMapped tiny-IsDisk (omega arith)

tiny_full : (x : ℕ) → 4 ≤ x → x < 10 → block_of tiny_file tiny (x / 512) ≢ 0
tiny_full x lo hi = let first : x / 512 ≡ 0 = omega (arith, hi) in rw first (omega arith)

read_file_lem_example : ReadsFile 4 20 tiny_file tiny (read_file 4 20 tiny_file tiny)
read_file_lem_example =
    read_file_lem 4 20 tiny_file tiny (λ x lo hi. tiny_full x lo (omega (arith, hi))) (omega arith)
      (omega arith) (omega arith)

-- Two bytes written within the file.
abbrev written : Disk
written = update tiny 5 (update (update (tiny 5) 3 7) 4 8)

has_run : write_file 1 3 two_bytes tiny_file tiny ≡ done (some 2, tiny_file, written)
unfolding write_file write_loop bmap bmap_direct put_bytes
has_run = refl

read_file-write_file_example :
    read_file 3 2 tiny_file written ≡ done (some two_bytes, tiny_file, written)
read_file-write_file_example =
    read_file-write_file 1 3 two_bytes tiny_file tiny_file tiny written tiny-IsMapped tiny-IsDisk
      (omega arith) (omega arith) two_bytes_small (omega arith) (omega arith) has_run

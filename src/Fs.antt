-- ===== src/Fs.antt =====
-- kernel/fs.c: the blocks, the free bitmap, and the content of inodes. The disk is seen as a
-- transaction sees it: `bread` gives the bytes last passed to `log_write`, as the buffer cache and the
-- log promise; a block is a memory of 512 bytes. A function that writes returns the new disk. The functions
-- that write run in a transaction whose log has room, so that the panics of `log_write`, which Log models,
-- do not arise; `readi` of a file without holes writes nothing, and needs no transaction.
mod Bits
mod Bitmap
mod Balloc
pub mod Inode
mod Ialloc
mod Path
use Prim.Native.Nat.{bit_and, bit_or}
use lainos_fail.Base.{
  ℕ, zero, suc, ◌+◌, ◌-◌, ◌*◌, ◌/◌, ◌%◌, ◌^◌, Bool, true, false, not, ◌&&◌, ◌||◌, Option, none,
  some, List, [], ◌∷◌, ltb, leb, ◌==◌, if◌then◌else◌, update, min, add32, Outcome, done, panics,
  ◌>>=◌,
}
use lainos_fail.Mem.{Memory, store_word}
use lainos_fail.Args.{word_at}

-- Byte `o` of block `b` is `d b o`.
abbrev pub Disk : Type 0
Disk = ℕ → Memory

-- `BPB`, the bits in a block, and `IPB`, the inodes in a block
abbrev pub bits_per_block : ℕ
bits_per_block = 4096

abbrev pub inodes_per_block : ℕ
inodes_per_block = 8

-- `sb.size` and `sb.ninodes`, read from block 1
abbrev pub sb_size : Disk → ℕ
sb_size d = word_at 0 (d 1)

abbrev pub sb_ninodes : Disk → ℕ
sb_ninodes d = word_at 8 (d 1)

-- `BBLOCK` and `IBLOCK`
abbrev pub bblock : (b ninodes : ℕ) → ℕ
bblock b ninodes = b / bits_per_block + ninodes / inodes_per_block + 3

abbrev pub iblock : (inum : ℕ) → ℕ
iblock inum = inum / inodes_per_block + 2

abbrev pub zeros : Memory
zeros o = 0

abbrev pub bzero : (bno : ℕ) → Disk → Disk
bzero bno d = update d bno zeros

-- `m = 1 << (bi % 8)`, the test and the two changes of `bp->data[bi / 8]`
abbrev pub is_bit_free : (bits : Memory) → (bi : ℕ) → Bool
is_bit_free bits bi = bit_and (bits (bi / 8)) (2 ^ (bi % 8)) == 0

abbrev pub set_bit : Memory → (bi : ℕ) → Memory
set_bit bits bi = update bits (bi / 8) (bit_or (bits (bi / 8)) (2 ^ (bi % 8)))

abbrev pub clear_bit : Memory → (bi : ℕ) → Memory
clear_bit bits bi = update bits (bi / 8) (bit_and (bits (bi / 8)) (255 - 2 ^ (bi % 8)))

-- The inner loop of `balloc` over the `k` bits from `bi`: the first free one below the size.
unfoldable pub find_bit : (k bi b size : ℕ) → Memory → Option ℕ
find_bit zero bi b size bits = none
find_bit (suc k) bi b size bits =
    let rest = find_bit k (bi + 1) b size bits in
    if ltb (b + bi) size then (if is_bit_free bits bi then some bi else rest) else none

-- The free block is taken and zeroed.
abbrev pub take_block : (ninodes b bi : ℕ) → Disk → ℕ × Disk
take_block ninodes b bi d =
    let bb = bblock b ninodes in (b + bi, bzero (b + bi) (update d bb (set_bit (d bb) bi)))

abbrev pub taken_or : (ninodes b : ℕ) → Disk → Option ℕ → Outcome (ℕ × Disk) → Outcome (ℕ × Disk)
taken_or ninodes b d none rest = rest
taken_or ninodes b d (some bi) rest = done (take_block ninodes b bi d)

-- The outer loop, with one unit of fuel for a bitmap block; it panics after the last one.
unfoldable pub balloc_from : (fuel b size ninodes : ℕ) → Disk → Outcome (ℕ × Disk)
balloc_from zero b size ninodes d = panics
balloc_from (suc fuel) b size ninodes d =
    let rest = balloc_from fuel (b + bits_per_block) size ninodes d in
    let found = find_bit bits_per_block 0 b size (d (bblock b ninodes)) in
    if ltb b size then taken_or ninodes b d found rest else panics

unfoldable pub balloc : Disk → Outcome (ℕ × Disk)
balloc d = balloc_from (sb_size d / bits_per_block + 1) 0 (sb_size d) (sb_ninodes d) d

unfoldable pub bfree : (b : ℕ) → Disk → Outcome Disk
bfree b d =
    let bb = bblock b (sb_ninodes d) in
    if is_bit_free (d bb) (b % bits_per_block)
    then panics
    else done (update d bb (clear_bit (d bb) (b % bits_per_block)))

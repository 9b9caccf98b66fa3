-- ===== src/Fs/Inode.antt =====
-- The content of inodes in kernel/fs.c: `bmap`, `readi` and `writei`, with `iupdate`.
mod Blocks
mod Mapping
mod Bmap
mod Alloc
mod Content
pub mod Overlay
mod Read
mod Write
mod Store
mod Files
mod Tests
use lainos_fail.Base.{
  ℕ, zero, suc, ◌+◌, ◌-◌, ◌*◌, ◌/◌, ◌%◌, Bool, true, false, not, ◌&&◌, ◌||◌, Option, none, some,
  List, [], ◌∷◌, ◌++◌, ltb, leb, ◌==◌, if◌then◌else◌, update, min, add32, length, take, drop,
  Outcome, done, panics, ◌>>=◌,
}
use lainos_fail.Mem.{Memory, store_word}
use lainos_fail.Args.{word_at}
use lainos_fail.Fs.{Disk, iblock, balloc, bfree}

-- `NDIRECT`, `NINDIRECT` and `MAXFILE`
abbrev pub ndirect : ℕ
ndirect = 12

abbrev pub nindirect : ℕ
nindirect = 128

abbrev pub max_file : ℕ
max_file = 140

abbrev pub block_size : ℕ
block_size = 512

-- `T_DEV` and `NDEV`
abbrev pub t_dev : ℕ
t_dev = 3

abbrev pub ndev : ℕ
ndev = 10

-- The fields of an inode that the disk holds. `major` is the 16-bit pattern of the `short`.
pub record Dinode : Type 0 where
  pub type : ℕ
  pub major : ℕ
  pub minor : ℕ
  pub nlink : ℕ
  pub size : ℕ
  pub addrs : ℕ → ℕ

abbrev pub store_short : (o v : ℕ) → Memory → Memory
store_short o v m = update (update m o (v % 256)) (o + 1) (v / 256 % 256)

-- The `k` words of `addrs` from index `i`, stored from byte `o`.
unfoldable pub store_addrs : (k i o : ℕ) → (ℕ → ℕ) → Memory → Memory
store_addrs zero i o addrs m = m
store_addrs (suc k) i o addrs m = store_addrs k (i + 1) (o + 4) addrs (store_word o (addrs i) m)

unfoldable pub store_dinode : (o : ℕ) → Dinode → Memory → Memory
store_dinode o ip m =
    let m₁ = store_short (o + 2) ip.major (store_short o ip.type m) in
    let m₂ = store_short (o + 6) ip.nlink (store_short (o + 4) ip.minor m₁) in
    store_addrs (ndirect + 1) 0 (o + 12) ip.addrs (store_word (o + 8) ip.size m₂)

unfoldable pub iupdate : (inum : ℕ) → Dinode → Disk → Disk
iupdate inum ip d = update d (iblock inum) (store_dinode (inum % 8 * 64) ip (d (iblock inum)))

-- What a function on an inode returns: a value, the inode in memory and the disk.
abbrev pub Run : Type 0 → Type 0
Run A = Outcome (A × Dinode × Disk)

abbrev pub set_addr : Dinode → (i a : ℕ) → Dinode
set_addr ip i a = record ip { addrs = update ip.addrs i a }

-- `a[i]` of an indirect block
abbrev pub entry : Memory → (i : ℕ) → ℕ
entry m i = word_at (4 * i) m

unfoldable pub bmap_direct : (bn : ℕ) → Dinode → Disk → Run ℕ
bmap_direct bn ip d =
    if ip.addrs bn == 0
    then (balloc d >>= λ r. done (r.0, set_addr ip bn r.0, r.1))
    else done (ip.addrs bn, ip, d)

-- The entry `i` of the indirect block `addr`.
unfoldable pub bmap_entry : (addr i : ℕ) → Dinode → Disk → Run ℕ
bmap_entry addr i ip d =
    if entry (d addr) i == 0
    then (balloc d >>= λ r. done (r.0, ip, update r.1 addr (store_word (4 * i) r.0 (r.1 addr))))
    else done (entry (d addr) i, ip, d)

unfoldable pub bmap_indirect : (i : ℕ) → Dinode → Disk → Run ℕ
bmap_indirect i ip d =
    if ip.addrs ndirect == 0
    then (balloc d >>= λ r. bmap_entry r.0 i (set_addr ip ndirect r.0) r.1)
    else bmap_entry (ip.addrs ndirect) i ip d

unfoldable pub bmap : (bn : ℕ) → Dinode → Disk → Run ℕ
bmap bn ip d =
    if ltb bn ndirect
    then bmap_direct bn ip d
    else if ltb (bn - ndirect) nindirect
    then bmap_indirect (bn - ndirect) ip d
    else panics

-- `m` bytes of a block from byte `o`.
abbrev pub bytes_at : (m o : ℕ) → Memory → List ℕ
bytes_at zero o block = []
bytes_at (suc m) o block = block o ∷ bytes_at m (o + 1) block

-- `min(n - tot, BSIZE - off % BSIZE)`
abbrev pub chunk : (left off : ℕ) → ℕ
chunk left off = min left (block_size - off % block_size)

-- The loop of `readi` with `left` bytes to go, on fuel; it returns the bytes put at `dst`.
unfoldable pub read_loop : (fuel left off : ℕ) → Dinode → Disk → Run (List ℕ)
read_loop zero left off ip d = done ([], ip, d)
read_loop (suc fuel) left off ip d =
    let m = chunk left off in
    let round = bmap (off / block_size) ip d >>= λ r.
    (read_loop fuel (left - m) (off + m) r.1 r.2 >>= λ s.
    done (bytes_at m (off % block_size) (r.2 r.0) ++ s.0, s.1, s.2)) in
    if ltb 0 left then round else done ([], ip, d)

-- `devsw` by major number: a device reads up to `n` bytes, or fails; `none` is a null pointer.
abbrev pub DevRead : Type 0
DevRead = ℕ → Option (ℕ → Option (List ℕ))

abbrev pub read_dev : Option (ℕ → Option (List ℕ)) → (n : ℕ) → Option (List ℕ)
read_dev none n = none
read_dev (some read) n = read n

-- The part of `readi` after the device case.
unfoldable pub read_file : (off n : ℕ) → Dinode → Disk → Run (Option (List ℕ))
read_file off n ip d =
    let n' = if ltb ip.size (add32 off n) then ip.size - off else n in
    if ltb ip.size off || ltb (add32 off n) off
    then done (none, ip, d)
    else (read_loop n' n' off ip d >>= λ r. done (some r.0, r.1, r.2))

unfoldable pub readi : DevRead → (off n : ℕ) → Dinode → Disk → Run (Option (List ℕ))
readi devsw off n ip d =
    if ip.type == t_dev
    then done (if leb ndev ip.major then none else read_dev (devsw ip.major) n, ip, d)
    else read_file off n ip d

-- Bytes stored in a block from byte `o`.
unfoldable pub put_bytes : List ℕ → (o : ℕ) → Memory → Memory
put_bytes [] o block = block
put_bytes (x ∷ xs) o block = put_bytes xs (o + 1) (update block o x)

-- The loop of `writei` with the bytes `xs` to go, on fuel; it returns the offset after them.
unfoldable pub write_loop : (fuel : ℕ) → (xs : List ℕ) → (off : ℕ) → Dinode → Disk → Run ℕ
write_loop zero xs off ip d = done (off, ip, d)
write_loop (suc fuel) xs off ip d =
    let m = chunk (length xs) off in
    let round = bmap (off / block_size) ip d >>= λ r.
    write_loop fuel (drop m xs) (off + m) r.1
      (update r.2 r.0 (put_bytes (take m xs) (off % block_size) (r.2 r.0))) in
    if ltb 0 (length xs) then round else done (off, ip, d)

-- The new size, stored on the disk.
abbrev pub grow : (inum n : ℕ) → ℕ × Dinode × Disk → Run (Option ℕ)
grow inum n (off, ip, d) =
    if ltb 0 n && ltb ip.size off
    then done (some n, record ip { size = off }, iupdate inum (record ip { size = off }) d)
    else done (some n, ip, d)

-- The most bytes that `filewrite` passes to `writei`, `((LOGSIZE - 1 - 1 - 2) / 2) * 512`
abbrev pub max_write : ℕ
max_write = 1536

-- The part of `writei` after the device case; the result is `n`, or `none` for -1.
unfoldable pub write_file : (inum off : ℕ) → (xs : List ℕ) → Dinode → Disk → Run (Option ℕ)
write_file inum off xs ip d =
    let n = length xs in
    if ltb ip.size off || ltb (add32 off n) off || ltb (max_file * block_size) (add32 off n)
    then done (none, ip, d)
    else (write_loop n xs off ip d >>= grow inum n)

-- `devsw` for writes; `none` is a null pointer.
abbrev pub DevWrite : Type 0
DevWrite = ℕ → Option (List ℕ → Option ℕ)

abbrev pub write_dev : Option (List ℕ → Option ℕ) → List ℕ → Option ℕ
write_dev none xs = none
write_dev (some write) xs = write xs

unfoldable pub writei : DevWrite → (inum off : ℕ) → List ℕ → Dinode → Disk → Run (Option ℕ)
writei devsw inum off xs ip d =
    if ip.type == t_dev
    then done (if leb ndev ip.major then none else write_dev (devsw ip.major) xs, ip, d)
    else write_file inum off xs ip d

-- ===== src/Log.antt =====
-- kernel/log.c: the redo log that makes the disk writes of one system call atomic, with
-- `readsb` of kernel/fs.c. A disk block is its 32-bit words; block numbers are plain numbers.
-- What log.c asks of kernel/bio.c is `bread` and `bwrite` on one device: a buffer shows its cached
-- content (`view`), a dirty buffer is not evicted, `bwrite` puts the content on the disk, and `bread` in
-- `log_write` panics where all `nbuf` buffers are dirty or the caller's. The other `bread`s come with fewer of
-- them in use. The caller holds no buffer but the one it logs.
-- `past` records the disks that stood before each write: a power failure leaves one of them.
pub mod Header
pub mod Search
pub mod Install
pub mod Crash
pub mod Write
pub mod Atomic
mod Tests
use lainos_fail.Base.{
  ℕ, zero, suc, ◌+◌, ◌-◌, ◌%◌, ◌^◌, Bool, true, false, not, ◌&&◌, ◌||◌, List, [], ◌∷◌, ltb, leb,
  ◌==◌, if◌then◌else◌, update, Outcome, done, sleeps, panics, ◌>>=◌,
}
use lainos_fail.Bcache.{nbuf}

-- `uchar data[512]` read as 32-bit words
abbrev pub Block : Type 0
Block = ℕ → ℕ

abbrev pub Disk : Type 0
Disk = ℕ → Block

-- `LOGSIZE` of sys/param.h
abbrev pub log_size : ℕ
log_size = 10

-- `struct log` with its `struct logheader`, beside the disk and the buffers; `wakeups` counts the
-- calls of `wakeup(&log)`
pub record Log : Type 0 where
  pub disk : Disk
  pub past : List Disk
  pub view : Disk
  pub dirty : ℕ → Bool
  pub start : ℕ
  pub size : ℕ
  pub busy : Bool
  pub wakeups : ℕ
  pub n : ℕ
  pub sector : ℕ → ℕ

-- `bwrite`: the buffer's content goes to the disk, and the buffer is clean.
abbrev pub bwrite : ℕ → Block → Log → Log
bwrite b x s = record s {
  disk = update s.disk b x;
  past = s.disk ∷ s.past;
  view = update s.view b x;
  dirty = update s.dirty b false;
}

-- A caller's change to `b->data`, before its `log_write(b)`.
unfoldable pub edit : ℕ → Block → Log → Log
edit b x s = record s { view = update s.view b x }

-- An `int` counter that stands for a negative number gives no rounds.
abbrev pub rounds : ℕ → ℕ
rounds n = if ltb n (2 ^ 31) then n else 0

-- The loop of `write_head`: `hb->sector[i] = log.lh.sector[i]`, where `hb->sector` is word 1 on.
unfoldable pub put_sectors : ℕ → ℕ → (ℕ → ℕ) → Block → Block
put_sectors zero i sector x = x
put_sectors (suc k) i sector x = put_sectors k (i + 1) sector (update x (i + 1) (sector i))

unfoldable pub write_head : Log → Log
write_head s =
    bwrite s.start (put_sectors (rounds s.n) 0 s.sector (update (s.view s.start) 0 s.n)) s

-- The loop of `read_head`.
unfoldable pub get_sectors : ℕ → ℕ → Block → (ℕ → ℕ) → ℕ → ℕ
get_sectors zero i x sector = sector
get_sectors (suc k) i x sector = get_sectors k (i + 1) x (update sector i (x (i + 1)))

unfoldable pub read_head : Log → Log
read_head s =
    let x = s.view s.start in record s { n = x 0; sector = get_sectors (rounds (x 0)) 0 x s.sector }

-- The loop of `install_trans`, from `tail` on.
unfoldable pub install_from : ℕ → ℕ → Log → Log
install_from zero tail s = s
install_from (suc k) tail s =
    install_from k (tail + 1) (bwrite (s.sector tail) (s.view (s.start + tail + 1)) s)

unfoldable pub install_trans : Log → Log
install_trans s = install_from (rounds s.n) 0 s

unfoldable pub recover_from_log : Log → Log
recover_from_log s = let s₁ = install_trans (read_head s) in write_head (record s₁ { n = 0 })

-- `begin_trans` sleeps while another transaction is active.
unfoldable pub begin_trans : Log → Outcome Log
begin_trans s = if s.busy then sleeps else done (record s { busy = true })

-- The writes of `commit_trans`, under its test of `log.lh.n`.
unfoldable pub commit_writes : Log → Log
commit_writes s = let s₁ = install_trans (write_head s) in write_head (record s₁ { n = 0 })

unfoldable pub commit_trans : Log → Log
commit_trans s =
    let s₁ = if ltb 0 (rounds s.n) then commit_writes s else s in
    record s₁ { busy = false; wakeups = s₁.wakeups + 1 }

-- The search of `log_write`: the first slot of sector `b`, or `i + k`.
unfoldable pub find_slot : ℕ → ℕ → (ℕ → ℕ) → ℕ → ℕ
find_slot zero i sector b = i
find_slot (suc k) i sector b = if sector i == b then i else find_slot k (i + 1) sector b

-- The dirty buffers of the logged sectors other than `b`, in `k` slots from `i` on.
unfoldable pub count_dirty : (k i : ℕ) → (sector : ℕ → ℕ) → (dirty : ℕ → Bool) → (b : ℕ) → ℕ
count_dirty zero i sector dirty b = 0
count_dirty (suc k) i sector dirty b =
    let rest = count_dirty k (i + 1) sector dirty b in
    if dirty (sector i) && not (sector i == b) then suc rest else rest

-- `log_write` past its panics, with the slot found
unfoldable pub append_slot : ℕ → ℕ → Log → Log
append_slot b i s =
    let s₁ = bwrite (s.start + i + 1) (s.view b) (record s { sector = update s.sector i b }) in
    record s₁ { n = if i == s.n then s.n + 1 else s.n; dirty = update s₁.dirty b true }

-- The last test is that of `bread` for a log block: `b` is busy, and every other buffer is dirty.
unfoldable pub log_write : ℕ → Log → Outcome Log
log_write b s =
    if leb log_size s.n || leb (s.size - 1) s.n
    then panics
    else if not s.busy
    then panics
    else if leb nbuf (count_dirty (rounds s.n) 0 s.sector s.dirty b + 1)
    then panics
    else done (append_slot b (find_slot (rounds s.n) 0 s.sector b) s)

-- `struct superblock`, the first words of block 1
pub record Superblock : Type 0 where
  pub size : ℕ
  pub nblocks : ℕ
  pub ninodes : ℕ
  pub nlog : ℕ

unfoldable pub readsb : Disk → Superblock
readsb view = record { size = view 1 0; nblocks = view 1 1; ninodes = view 1 2; nlog = view 1 3 }

-- The state after a power cycle: buffers show the disk, and static data is zero.
unfoldable pub boot : Disk → Log
boot d = record {
  disk = d;
  past = [];
  view = d;
  dirty = λ _. false;
  start = 0;
  size = 0;
  busy = false;
  wakeups = 0;
  n = 0;
  sector = λ _. 0;
}

-- `initlog`, past its constant test of `sizeof(struct logheader)`
unfoldable pub initlog : Log → Log
initlog s =
    let sb = readsb s.view in
    recover_from_log (record s { start = (sb.size + 2 ^ 32 - sb.nlog) % 2 ^ 32; size = sb.nlog })

-- One change of a system call: the caller modifies a buffer and logs it.
unfoldable pub log_block : ℕ × Block → Log → Outcome Log
log_block (b, x) s = log_write b (edit b x s)

unfoldable pub log_blocks : List (ℕ × Block) → Log → Outcome Log
log_blocks [] s = done s
log_blocks (w ∷ ws) s = log_block w s >>= log_blocks ws

-- A whole transaction: `begin_trans`, the logged changes, `commit_trans`.
unfoldable pub transaction : List (ℕ × Block) → Log → Outcome Log
transaction ws s = begin_trans s >>= λ s₁. log_blocks ws s₁ >>= λ s₂. done (commit_trans s₂)

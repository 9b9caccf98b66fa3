-- ===== src/Bcache.antt =====
-- The buffer cache, kernel/bio.c, with the disk driver of kernel/memide.c. A buffer is its index; the
-- head of the list of buffers is one more index. A call that sleeps on a busy buffer stops there: it
-- starts its search again when it is woken.
mod Links
mod Ring
mod Search
mod View
mod Read
mod Start
mod Write
mod Tests
use lainos_fail.Base.{
  ℕ, zero, suc, ◌+◌, ◌-◌, Bool, true, false, not, ◌&&◌, ◌||◌, Option, none, some, ltb, leb, ◌==◌,
  if◌then◌else◌, update, Outcome, done, sleeps, panics, ◌>>=◌,
}
use lainos_fail.Mem.{Memory}

-- `NBUF`
abbrev pub nbuf : ℕ
nbuf = 10

-- `&bcache.head`
abbrev pub head : ℕ
head = 10

-- `struct buf` without its links; `busy`, `valid` and `dirty` are its flags.
pub record Buf : Type 0 where
  pub busy : Bool
  pub valid : Bool
  pub dirty : Bool
  pub dev : ℕ
  pub sector : ℕ
  pub bytes : Memory

-- The buffers, and the links of each buffer and of the head.
pub record Bcache : Type 0 where
  pub buf : ℕ → Buf
  pub next : ℕ → ℕ
  pub prev : ℕ → ℕ

-- `b` goes between the head and the first buffer.
abbrev pub push_front : (b : ℕ) → Bcache → Bcache
push_front b s = record s {
  next = update (update s.next b (s.next head)) head b;
  prev = update (update s.prev b head) (s.next head) b;
}

abbrev pub unlink : (b : ℕ) → Bcache → Bcache
unlink b s = record s {
  prev = update s.prev (s.next b) (s.prev b);
  next = update s.next (s.prev b) (s.next b);
}

-- The loop of `binit` over the `k` buffers from `b`; `dev` becomes -1.
unfoldable pub init_from : (k b : ℕ) → Bcache → Bcache
init_from zero b s = s
init_from (suc k) b s =
    init_from k (b + 1)
      (record (push_front b s) { buf = update s.buf b (record (s.buf b) { dev = 4294967295 }) })

unfoldable pub binit : Bcache → Bcache
binit s =
    init_from nbuf 0 (record s { next = update s.next head head; prev = update s.prev head head })

-- A walk along links from `b` to the head, on fuel: the first buffer with the property.
unfoldable pub find_from :
    (fuel : ℕ) → (test : Buf → Bool) → (link : ℕ → ℕ) → (b : ℕ) → (ℕ → Buf) → Option ℕ
find_from zero test link b bufs = none
find_from (suc fuel) test link b bufs =
    let rest = find_from fuel test link (link b) bufs in
    if b == head then none else if test (bufs b) then some b else rest

abbrev pub is_for : (dev sector : ℕ) → Buf → Bool
is_for dev sector b = b.dev == dev && b.sector == sector

abbrev pub is_clean : Buf → Bool
is_clean b = not b.busy && not b.dirty

-- A buffer for the sector is taken, or waited for.
abbrev pub take_or : Bcache → Option ℕ → Outcome (ℕ × Bcache) → Outcome (ℕ × Bcache)
take_or s none rest = rest
take_or s (some b) rest =
    if (s.buf b).busy
    then sleeps
    else done (b, record s { buf = update s.buf b (record (s.buf b) { busy = true }) })

-- A clean buffer is made the sector's.
abbrev pub recycle : (dev sector : ℕ) → Bcache → Option ℕ → Outcome (ℕ × Bcache)
recycle dev sector s none = panics
recycle dev sector s (some b) = done (
  b,
  record s {
    buf = update s.buf b (record {
      busy = true;
      valid = false;
      dirty = false;
      dev = dev;
      sector = sector;
      bytes = (s.buf b).bytes;
    });
  },
)

unfoldable pub bget : (dev sector : ℕ) → Bcache → Outcome (ℕ × Bcache)
bget dev sector s =
    take_or s (find_from (nbuf + 1) (is_for dev sector) s.next (s.next head) s.buf)
      (recycle dev sector s (find_from (nbuf + 1) is_clean s.prev (s.prev head) s.buf))

-- The disk 1: the bytes of its sectors.
abbrev pub Sectors : Type 0
Sectors = ℕ → Memory

-- `iderw` of kernel/memide.c, for a disk of `disksize` sectors.
unfoldable pub iderw : (disksize b : ℕ) → Bcache × Sectors → Outcome (Bcache × Sectors)
iderw disksize b (s, disk) =
    let u = s.buf b in
    let synced = record u {
      valid = true;
      dirty = false;
      bytes = (if u.dirty then u.bytes else disk u.sector);
    } in
    let disk' = if u.dirty then update disk u.sector u.bytes else disk in
    if not u.busy || (u.valid && not u.dirty) || not (u.dev == 1) || leb disksize u.sector
    then panics
    else done (record s { buf = update s.buf b synced }, disk')

unfoldable pub bread : (disksize dev sector : ℕ) → Bcache × Sectors → Outcome (ℕ × Bcache × Sectors)
bread disksize dev sector (s, disk) = bget dev sector s >>= λ r.
    if (r.1.buf r.0).valid
    then done (r.0, r.1, disk)
    else (iderw disksize r.0 (r.1, disk) >>= λ t. done (r.0, t.0, t.1))

unfoldable pub bwrite : (disksize b : ℕ) → Bcache × Sectors → Outcome (Bcache × Sectors)
bwrite disksize b (s, disk) =
    if not (s.buf b).busy
    then panics
    else iderw disksize b
        (record s { buf = update s.buf b (record (s.buf b) { dirty = true }) }, disk)

-- The sleepers on `b` are woken.
unfoldable pub brelse : (b : ℕ) → Bcache → Outcome Bcache
brelse b s =
    if not (s.buf b).busy
    then panics
    else done (record (push_front b (unlink b s)) {
      buf = update s.buf b (record (s.buf b) { busy = false });
    })

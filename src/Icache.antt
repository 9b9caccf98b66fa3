-- ===== src/Icache.antt =====
-- The inode cache of kernel/fs.c: `iget`, `idup` and `iunlock` over the table of cached inodes.
pub mod Unique
mod Tests
use lainos_fail.Base.{
  ℕ, zero, suc, ◌+◌, Bool, true, false, not, ◌&&◌, ◌||◌, Option, none, some, ltb, ◌==◌,
  if◌then◌else◌, update, Outcome, done, panics,
}

-- `NINODE`
abbrev pub ninode : ℕ
ninode = 50

-- The fields of `struct inode` that name and guard an entry; `busy` and `valid` are its flags.
pub record Inode : Type 0 where
  pub dev : ℕ
  pub inum : ℕ
  pub ref : ℕ
  pub busy : Bool
  pub valid : Bool

abbrev pub Icache : Type 0
Icache = ℕ → Inode

-- `ip->ref > 0 && ip->dev == dev && ip->inum == inum`
abbrev pub is_cached : (dev inum : ℕ) → Inode → Bool
is_cached dev inum ip = ltb 0 ip.ref && (ip.dev == dev && ip.inum == inum)

-- Remember the first empty entry.
abbrev pub or_empty : Option ℕ → (i ref : ℕ) → Option ℕ
or_empty none i ref = if ref == 0 then some i else none
or_empty (some e) i ref = some e

-- After the loop: recycle an entry.
abbrev pub recycle : (dev inum : ℕ) → Option ℕ → Icache → Outcome (ℕ × Icache)
recycle dev inum none c = panics
recycle dev inum (some e) c =
    done (e, update c e (record { dev = dev; inum = inum; ref = 1; busy = false; valid = false }))

-- The loop of `iget` over the `k` entries from `i`.
unfoldable pub scan : (k i dev inum : ℕ) → (empty : Option ℕ) → Icache → Outcome (ℕ × Icache)
scan zero i dev inum empty c = recycle dev inum empty c
scan (suc k) i dev inum empty c =
    let rest = scan k (i + 1) dev inum (or_empty empty i (c i).ref) c in
    if is_cached dev inum (c i)
    then done (i, update c i (record (c i) { ref = (c i).ref + 1 }))
    else rest

unfoldable pub iget : (dev inum : ℕ) → Icache → Outcome (ℕ × Icache)
iget dev inum c = scan ninode 0 dev inum none c

unfoldable pub idup : (ip : ℕ) → Icache → Icache
idup ip c = update c ip (record (c ip) { ref = (c ip).ref + 1 })

-- The null pointer aside; the sleepers on `ip` are woken.
unfoldable pub iunlock : (ip : ℕ) → Icache → Outcome Icache
iunlock ip c =
    if not (c ip).busy || ltb (c ip).ref 1
    then panics
    else done (update c ip (record (c ip) { busy = false }))

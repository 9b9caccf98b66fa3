-- ===== src/Bcache/Read.antt =====
-- `bread` of kernel/bio.c returns the content of a sector.
use lainos_fail.Base.{ℕ, ◌<◌, ◌≤◌, ◌≡◌, ◌⊎◌, true, false, Outcome, done, sleeps, panics}
use lainos_fail.Mem.{Memory}
use lainos_fail.Bcache.{nbuf, Bcache, is_for, is_clean, Sectors}
use lainos_fail.Bcache.View.{Alone, Holds, IsCoherent, Shows}

-- What `bread` may do: panic, sleep, or return the sector's buffer with the sector's content, where the
-- content of every sector is as before.
abbrev pub ReadsBuf :
    (disksize sector : ℕ)
    → (s : Bcache) → (disk : Sectors) → Outcome (ℕ × Bcache × Sectors)
    → Type 0
ReadsBuf disksize sector s disk o =
    ((o ≡ sleeps)
      × ((b : ℕ) × (b < nbuf) × (is_for 1 sector (s.buf b) ≡ true) × ((s.buf b).busy ≡ true)))
    ⊎ ((o ≡ panics) × ((disksize ≤ sector) ⊎ ((c : ℕ) → c < nbuf → is_clean (s.buf c) ≡ false)))
    ⊎ ((b : ℕ) × (s' : Bcache) × (o ≡ done (b, s', disk))
        × (b < nbuf)
        × Holds sector b s'
        × Alone b s s'
        × IsCoherent s' disk
        × ((k : ℕ) (m : Memory) → Shows s disk k m → Shows s' disk k m))

-- ===== src/Log/Header.antt =====
-- The copying loops of `write_head` and `read_head` in kernel/log.c.
use lainos_fail.Base.{
  ℕ, zero, suc, ◌+◌, ◌-◌, ◌≤◌, ◌<◌, ◌≡◌, ◌&&◌, arith, ltb, leb, if◌then◌else◌, update,
}
use lainos_fail.Log.{Block, Log, log_size, rounds, put_sectors, get_sectors, write_head, read_head}

pub put_sectors_lem :
    (k i : ℕ) (sector : ℕ → ℕ) (x : Block) (w : ℕ)
    → put_sectors k i sector x w ≡ (if ltb i w && leb w (i + k) then sector (w - 1) else x w)
unfolding put_sectors
put_sectors_lem zero i sector x w = ground arith
put_sectors_lem (suc k) i sector x w =
    ground (arith, put_sectors_lem k (i + 1) sector (update x (i + 1) (sector i)) w)

pub get_sectors_lem :
    (k i : ℕ) (x : Block) (sector : ℕ → ℕ) (j : ℕ)
    → get_sectors k i x sector j ≡ (if leb i j && ltb j (i + k) then x (j + 1) else sector j)
unfolding get_sectors
get_sectors_lem zero i x sector j = ground arith
get_sectors_lem (suc k) i x sector j =
    ground (arith, get_sectors_lem k (i + 1) x (update sector i (x (i + 1))) j)

-- The header that `write_head` leaves: the count, and a sector in each word after it.
pub write_head-count : (s : Log) → (write_head s).disk s.start 0 ≡ s.n
unfolding write_head
write_head-count s =
    ground (arith, put_sectors_lem (rounds s.n) 0 s.sector (update (s.view s.start) 0 s.n) 0)

pub write_head-slot :
    (s : Log) (i : ℕ) → i < s.n → s.n ≤ log_size → (write_head s).disk s.start (i + 1) ≡ s.sector i
unfolding write_head
write_head-slot s i h few =
    ground (arith, put_sectors_lem (rounds s.n) 0 s.sector (update (s.view s.start) 0 s.n) (i + 1))

pub read_head-slot :
    (s : Log) (i : ℕ)
    → i < s.view s.start 0
    → s.view s.start 0 ≤ log_size
    → (read_head s).sector i ≡ s.view s.start (i + 1)
unfolding read_head
read_head-slot s i h few =
    ground (arith, get_sectors_lem (rounds (s.view s.start 0)) 0 (s.view s.start) s.sector i)

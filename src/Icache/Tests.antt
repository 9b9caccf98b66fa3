-- ===== src/Icache/Tests.antt =====
-- A cache with one inode in use, and an instance of the theorem of `iget` of kernel/fs.c.
use lainos_fail.Base.{ℕ, ◌≡◌, ◌==◌, ◌∙◌, sym, arith, true, false, if◌then◌else◌, done}
use lainos_fail.Icache.{Inode, Icache, is_cached, iget}
use lainos_fail.Icache.Unique.{IsUnique, Gets, iget_lem}

abbrev entry : (ref : ℕ) → Inode
entry ref = record { dev = 1; inum = 7; ref = ref; busy = false; valid = true }

abbrev cache : Icache
cache i = if i == 3 then entry 2 else entry 0

only_third : (dev inum i : ℕ) → is_cached dev inum (cache i) ≡ true → i ≡ 3
only_third dev inum i cached = ground (arith, cached)

cache-IsUnique : IsUnique cache
cache-IsUnique dev inum i j lt lt' hi hj = only_third dev inum i hi ∙ sym (only_third dev inum j hj)

iget_lem_example :
    Gets 1 8 cache (iget 1 8 cache)
    × ((ip : ℕ) (c' : Icache) → iget 1 8 cache ≡ done (ip, c') → IsUnique c')
iget_lem_example = iget_lem 1 8 cache cache-IsUnique

-- ===== src/Libc/Measure.antt =====
-- `strlen` and `strnlen` of libc/string.c.
use lainos_fail.Base.{ℕ, zero, suc, ◌+◌, ◌≡◌, ◌<◌, some, List, [], ◌∷◌, length, arith, min, subst}
use lainos_fail.Mem.{Ptr, Memory}
use lainos_fail.Libc.{strlen, strnlen}
use lainos_fail.Libc.Strings.{HasString}

next-HasString :
    (s : List ℕ) (p len : ℕ) (m : Memory)
    → HasString m (p + len + 1) s
    → HasString m (p + (len + 1)) s
next-HasString s p len m has = subst (λ a. HasString m a s) (omega arith) has

strlen_at :
    (s : List ℕ) (fuel len : ℕ) (p : Ptr) (m : Memory)
    → length s < fuel
    → HasString m (p + len) s
    → strlen fuel len p m ≡ some (len + length s)
unfolding strlen
strlen_at [] (suc fuel) len p m lt has = ground (arith, has)
strlen_at (x ∷ xs) (suc fuel) len p m lt has =
    let later : strlen fuel (len + 1) p m ≡ some (len + 1 + length xs) =
      strlen_at xs fuel (len + 1) p m (omega arith) (next-HasString xs p len m has.2) in
    ground (arith, has.0, has.1, later)
strlen_at s zero len p m lt has = absurd (omega (arith, lt))

strnlen_at :
    (s : List ℕ) (left len : ℕ) (p : Ptr) (m : Memory)
    → HasString m (p + len) s
    → strnlen left len p m ≡ len + min left (length s)
unfolding strnlen
strnlen_at s zero len p m has = omega arith
strnlen_at [] (suc left) len p m has = ground (arith, has)
strnlen_at (x ∷ xs) (suc left) len p m has =
    let later : strnlen left (len + 1) p m ≡ len + 1 + min left (length xs) =
      strnlen_at xs left (len + 1) p m (next-HasString xs p len m has.2) in
    ground (arith, has.0, has.1, later)

-- `strlen` is the length of the string, and `strnlen` the smaller of that and its bound.
pub strnlen-strlen :
    (s : List ℕ) (fuel bound : ℕ) (p : Ptr) (m : Memory)
    → length s < fuel
    → HasString m p s
    → (strlen fuel 0 p m ≡ some (length s)) × (strnlen bound 0 p m ≡ min bound (length s))
strnlen-strlen s fuel bound p m lt has =
    let here : HasString m (p + 0) s = subst (λ a. HasString m a s) (omega arith) has in
    (ground (arith, strlen_at s fuel 0 p m lt here), omega (arith, strnlen_at s bound 0 p m here))

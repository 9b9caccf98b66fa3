-- ===== src/Log/Search.antt =====
-- The search of `log_write` in kernel/log.c for a slot that already holds the block.
use lainos_fail.Base.{ℕ, zero, suc, ◌+◌, ◌≤◌, ◌<◌, ◌≡◌, ◌≢◌, inl, inr, arith, ◌==◌, Bool-cases}
use lainos_fail.Log.{find_slot}

-- What the search found: a slot of the block, or no slot at all and the end.
pub data Found (sector : ℕ → ℕ) (b from end : ℕ) (i : ℕ) : Type 0 where
  hit : i < end → sector i ≡ b → Found sector b from end i
  miss : i ≡ end → ((j : ℕ) → from ≤ j → j < end → sector j ≢ b) → Found sector b from end i

Found-next :
    (sector : ℕ → ℕ) (b i end j : ℕ)
    → sector i ≢ b
    → Found sector b (i + 1) end j
    → Found sector b i end j
Found-next sector b i end j ne (hit h e) = hit h e
Found-next sector b i end j ne (miss e none_there) = miss e λ l lo hi same.
    elim (Bool-cases (l == i)) [
      | inl here ↦ ne (ground arith)
      | inr other ↦ none_there l (ground arith) hi same
    ]

pub find_slot-Found :
    (k i : ℕ) (sector : ℕ → ℕ) (b end : ℕ)
    → i + k ≡ end
    → Found sector b i end (find_slot k i sector b)
unfolding find_slot
find_slot-Found zero i sector b end e = miss (omega arith) λ j lo hi. absurd (omega arith)
find_slot-Found (suc k) i sector b end e = elim (Bool-cases (sector i == b)) [
  | inl same ↦ rw same (hit (omega arith) (ground arith))
  | inr differ ↦ rw differ (
      Found-next sector b i end _ (ground arith)
        (find_slot-Found k (i + 1) sector b end (omega arith)))
]

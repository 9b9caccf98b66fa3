-- ===== src/Mem/Fill.antt =====
-- `memset` of kernel/string.c: words where it can, bytes otherwise.
use lainos_fail.Base.{
  ℕ, zero, suc, ◌+◌, ◌*◌, ◌/◌, ◌%◌, ◌<◌, ◌≡◌, refl, ◌∙◌, ◌&&◌, true, arith, leb, ltb, ◌==◌,
  Bool-cases, inl, inr, if◌then◌else◌, update, passes, passes_at,
}
use lainos_fail.Mem.{Ptr, Memory, stosb, stosl, store_word, four_bytes, memset}

-- `n` bytes at `d` hold `v`, the others are as in `old`.
abbrev pub filled : (d : Ptr) → (v n : ℕ) → Memory → Memory
filled d v n old a = if leb d a && ltb a (d + n) then v else old a

stosb-filled : (d c n : ℕ) (m : Memory) (a : Ptr) → stosb d c n m a ≡ filled d (c % 256) n m a
unfolding stosb
stosb-filled d c zero m a = ground arith
stosb-filled d c (suc n) m a = rw (stosb-filled (d + 1) c n (update m d (c % 256)) a) (ground arith)

-- Every byte of the word is `v`.
abbrev Repeats : (w v : ℕ) → Type 0
Repeats w v = (w % 256 ≡ v) × (w / 256 % 256 ≡ v) × (w / 65536 % 256 ≡ v) × (w / 16777216 % 256 ≡ v)

stosl-filled :
    (d w v n : ℕ) (m : Memory) (a : Ptr) → Repeats w v → stosl d w n m a ≡ filled d v (4 * n) m a
unfolding stosl
stosl-filled d w v zero m a h = ground arith
stosl-filled d w v (suc n) m a h =
    rw (stosl-filled (d + 4) w v n (store_word d w m) a h, h.0, h.1, h.2, h.3) (ground arith)

four_bytes_table : passes 256 (λ c. four_bytes c == c * 16843009) ≡ true
unfolding passes four_bytes
four_bytes_table = refl

four_bytes-Repeats : (c : ℕ) → c < 256 → Repeats (four_bytes c) c
four_bytes-Repeats c h =
    let e : four_bytes c ≡ c * 16843009 =
      ground (arith, passes_at 256 (λ c. four_bytes c == c * 16843009) c four_bytes_table h) in
    rw e (omega arith)

-- On either branch `memset` stores the low byte of `c` in the `n` bytes at `dst`, and in no
-- other byte.
pub memset_lem :
    (dst : Ptr) (c n : ℕ) (m : Memory) (a : Ptr) → memset dst c n m a ≡ filled dst (c % 256) n m a
unfolding memset
memset_lem dst c n m a = elim (Bool-cases ((dst % 4 == 0) && (n % 4 == 0))) [
  | inl words ↦
      let e : 4 * (n / 4) ≡ n = ground arith in
      rw words (
        stosl-filled dst (four_bytes (c % 256)) (c % 256) (n / 4) m a
          (four_bytes-Repeats (c % 256) (omega arith))
        ∙ rw e)
  | inr bytes ↦ rw bytes (stosb-filled dst c n m a)
]

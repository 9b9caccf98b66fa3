-- ===== src/Fs/Bits.antt =====
-- The bit operations of the bitmap of kernel/fs.c: one bit changes and the others stay.
use Prim.Native.Nat.{bit_and, bit_or}
use lainos_fail.Base.{
  ℕ, ◌+◌, ◌-◌, ◌*◌, ◌/◌, ◌%◌, ◌^◌, ◌<◌, ◌≡◌, refl, Bool, true, false, ◌&&◌, ltb, ◌==◌, arith,
  if◌then◌else◌, passes, passes_at, update_self, update_ne, ap, sym, ◌∙◌, Bool-cases, inl, inr,
}
use lainos_fail.Mem.{Memory}
use lainos_fail.Fs.{is_bit_free, set_bit, clear_bit}

-- The bits of a byte, for the code `n` of a byte, a bit changed and a bit read.
abbrev agrees : Bool → Bool → Bool
agrees true b = b
agrees false true = false
agrees false false = true

abbrev set_works : ℕ → Bool
set_works n =
    let x = n / 64 in
    let i = n / 8 % 8 in
    let j = n % 8 in
    agrees (bit_and (bit_or x (2 ^ i)) (2 ^ j) == 0)
      (if i == j then false else bit_and x (2 ^ j) == 0)
    && ltb (bit_or x (2 ^ i)) 256

abbrev clear_works : ℕ → Bool
clear_works n =
    let x = n / 64 in
    let i = n / 8 % 8 in
    let j = n % 8 in
    agrees (bit_and (bit_and x (255 - 2 ^ i)) (2 ^ j) == 0)
      (if i == j then true else bit_and x (2 ^ j) == 0)
    && ltb (bit_and x (255 - 2 ^ i)) 256

set_table : passes 16384 set_works ≡ true
unfolding passes
set_table = refl

clear_table : passes 16384 clear_works ≡ true
unfolding passes
clear_table = refl

agrees-eq : (a b : Bool) → agrees a b ≡ true → a ≡ b
agrees-eq a b h = ground (arith, h)

and_both : (a b : Bool) → (a && b) ≡ true → (a ≡ true) × (b ≡ true)
and_both a b h = (ground (arith, h), ground (arith, h))

set_byte :
    (x i j : ℕ)
    → x < 256
    → i < 8
    → j < 8
    → ((bit_and (bit_or x (2 ^ i)) (2 ^ j) == 0)
        ≡ (if i == j then false else bit_and x (2 ^ j) == 0))
      × (bit_or x (2 ^ i) < 256)
set_byte x i j hx hi hj =
    let n : ℕ = x * 64 + i * 8 + j in
    let ex : n / 64 ≡ x = omega arith in
    let ei : n / 8 % 8 ≡ i = omega arith in
    let ej : n % 8 ≡ j = omega arith in
    let works : set_works n ≡ true = passes_at 16384 set_works n set_table (omega arith) in
    let works' = rw (ex, ei, ej) at works in
    let (bits, small) = and_both _ _ works' in (agrees-eq _ _ bits, ground (arith, small))

-- Setting a bit takes it and leaves the others.
pub is_bit_free-set_bit :
    (m : Memory) (i j : ℕ)
    → m (j / 8) < 256
    → is_bit_free (set_bit m i) j ≡ (if i == j then false else is_bit_free m j)
is_bit_free-set_bit m i j byte = elim (Bool-cases (j / 8 == i / 8)) [
  | inl same ↦
      let cell : i / 8 ≡ j / 8 = ground (arith, same) in
      let value : set_bit m i (j / 8) ≡ bit_or (m (j / 8)) (2 ^ (i % 8)) =
        rw cell (update_self m (j / 8) (bit_or (m (j / 8)) (2 ^ (i % 8)))) in
      let test : (i % 8 == j % 8) ≡ (i == j) = ground (arith, cell) in
      ap (λ b. bit_and b (2 ^ (j % 8)) == 0) value
      ∙ (set_byte (m (j / 8)) (i % 8) (j % 8) byte (omega arith) (omega arith)).0
      ∙ ap (λ t. if t then false else is_bit_free m j) test
  | inr other ↦
      let value : set_bit m i (j / 8) ≡ m (j / 8) =
        update_ne m (i / 8) _ (j / 8) (ground (arith, other)) in
      let test : (i == j) ≡ false = ground (arith, other) in
      ap (λ b. bit_and b (2 ^ (j % 8)) == 0) value
      ∙ sym (ap (λ t. if t then false else is_bit_free m j) test)
]

clear_byte :
    (x i j : ℕ)
    → x < 256
    → i < 8
    → j < 8
    → ((bit_and (bit_and x (255 - 2 ^ i)) (2 ^ j) == 0)
        ≡ (if i == j then true else bit_and x (2 ^ j) == 0))
      × (bit_and x (255 - 2 ^ i) < 256)
clear_byte x i j hx hi hj =
    let n : ℕ = x * 64 + i * 8 + j in
    let ex : n / 64 ≡ x = omega arith in
    let ei : n / 8 % 8 ≡ i = omega arith in
    let ej : n % 8 ≡ j = omega arith in
    let works : clear_works n ≡ true = passes_at 16384 clear_works n clear_table (omega arith) in
    let works' = rw (ex, ei, ej) at works in
    let (bits, small) = and_both _ _ works' in (agrees-eq _ _ bits, ground (arith, small))

-- Clearing a bit frees it and leaves the others.
pub is_bit_free-clear_bit :
    (m : Memory) (i j : ℕ)
    → m (j / 8) < 256
    → is_bit_free (clear_bit m i) j ≡ (if i == j then true else is_bit_free m j)
is_bit_free-clear_bit m i j byte = elim (Bool-cases (j / 8 == i / 8)) [
  | inl same ↦
      let cell : i / 8 ≡ j / 8 = ground (arith, same) in
      let value : clear_bit m i (j / 8) ≡ bit_and (m (j / 8)) (255 - 2 ^ (i % 8)) =
        rw cell (update_self m (j / 8) (bit_and (m (j / 8)) (255 - 2 ^ (i % 8)))) in
      let test : (i % 8 == j % 8) ≡ (i == j) = ground (arith, cell) in
      ap (λ b. bit_and b (2 ^ (j % 8)) == 0) value
      ∙ (clear_byte (m (j / 8)) (i % 8) (j % 8) byte (omega arith) (omega arith)).0
      ∙ ap (λ t. if t then true else is_bit_free m j) test
  | inr other ↦
      let value : clear_bit m i (j / 8) ≡ m (j / 8) =
        update_ne m (i / 8) _ (j / 8) (ground (arith, other)) in
      let test : (i == j) ≡ false = ground (arith, other) in
      ap (λ b. bit_and b (2 ^ (j % 8)) == 0) value
      ∙ sym (ap (λ t. if t then true else is_bit_free m j) test)
]

-- Both changes keep bytes bytes.
pub changed_bits_bytes :
    (m : Memory) (i : ℕ)
    → ((o : ℕ) → m o < 256)
    → ((o : ℕ) → set_bit m i o < 256) × ((o : ℕ) → clear_bit m i o < 256)
changed_bits_bytes m i bytes =
    let set = (set_byte (m (i / 8)) (i % 8) 0 (bytes (i / 8)) (omega arith) (omega arith)).1 in
    let clear = (clear_byte (m (i / 8)) (i % 8) 0 (bytes (i / 8)) (omega arith) (omega arith)).1 in
    (λ o. ground (arith, set, bytes o), λ o. ground (arith, clear, bytes o))

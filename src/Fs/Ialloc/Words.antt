-- ===== src/Fs/Ialloc/Words.antt =====
-- The bytes of an inode on the disk, stored and loaded.
use lainos_fail.Base.{
  ℕ, zero, suc, ◌+◌, ◌*◌, ◌^◌, ◌<◌, ◌≤◌, ◌≡◌, ◌⊎◌, inl, inr, refl, true, ltb, arith, sym, ap, ◌∙◌,
  subst,
}
use lainos_fail.Mem.{Memory, store_word}
use lainos_fail.Args.{word_at}
use lainos_fail.Fs.Inode.{ndirect, Dinode, store_short, store_addrs}
use lainos_fail.Fs.Ialloc.{dinode_size, load_short, load_dinode}

-- The fields of two inodes that the disk holds are equal.
pub record SameInode (ip ip' : Dinode) : Type 0 where
  pub type : ip'.type ≡ ip.type
  pub major : ip'.major ≡ ip.major
  pub minor : ip'.minor ≡ ip.minor
  pub nlink : ip'.nlink ≡ ip.nlink
  pub size : ip'.size ≡ ip.size
  pub addrs : (i : ℕ) → i ≤ ndirect → ip'.addrs i ≡ ip.addrs i

-- The memories are equal in the `n` bytes from `o`.
abbrev pub SameIn : (o n : ℕ) → (m m' : Memory) → Type 0
SameIn o n m m' = (x : ℕ) → o ≤ x → x < o + n → m' x ≡ m x

pub word_at-SameIn : (a : ℕ) (m m' : Memory) → SameIn a 4 m m' → word_at a m' ≡ word_at a m
word_at-SameIn a m m' h =
    let e₀ = h a (omega arith) (omega arith) in
    let e₁ = h (a + 1) (omega arith) (omega arith) in
    let e₂ = h (a + 2) (omega arith) (omega arith) in
    let e₃ = h (a + 3) (omega arith) (omega arith) in rw (e₀, e₁, e₂, e₃) refl

pub load_short-SameIn : (o : ℕ) (m m' : Memory) → SameIn o 2 m m' → load_short o m' ≡ load_short o m
load_short-SameIn o m m' h =
    let e₀ = h o (omega arith) (omega arith) in
    let e₁ = h (o + 1) (omega arith) (omega arith) in rw (e₀, e₁) refl

pub load_dinode-SameIn :
    (o : ℕ) (m m' : Memory)
    → SameIn o dinode_size m m'
    → SameInode (load_dinode o m) (load_dinode o m')
load_dinode-SameIn o m m' h = record {
  type = load_short-SameIn o m m' (λ x lo hi. h x (omega arith) (omega arith));
  major = load_short-SameIn (o + 2) m m' (λ x lo hi. h x (omega arith) (omega arith));
  minor = load_short-SameIn (o + 4) m m' (λ x lo hi. h x (omega arith) (omega arith));
  nlink = load_short-SameIn (o + 6) m m' (λ x lo hi. h x (omega arith) (omega arith));
  size = word_at-SameIn (o + 8) m m' (λ x lo hi. h x (omega arith) (omega arith));
  addrs = λ i le.
      let inside : ltb i (ndirect + 1) ≡ true = ground (arith, le) in
      rw inside (word_at-SameIn (o + 12 + 4 * i) m m' (λ x lo hi. h x (omega arith) (omega arith)));
}

pub word_at-store_word : (a w : ℕ) (m : Memory) → w < 2 ^ 32 → word_at a (store_word a w m) ≡ w
word_at-store_word a w m small = ground arith

pub load_short-store_short :
    (o v : ℕ) (m : Memory) → v < 2 ^ 16 → load_short o (store_short o v m) ≡ v
load_short-store_short o v m small = ground arith

-- `x` is not in the `n` bytes from `o`.
abbrev pub Out : (o n x : ℕ) → Type 0
Out o n x = (x < o) ⊎ (o + n ≤ x)

pub store_word-Out : (o w : ℕ) (m : Memory) (x : ℕ) → Out o 4 x → store_word o w m x ≡ m x
store_word-Out o w m x (inl lt) = ground arith
store_word-Out o w m x (inr le) = ground arith

pub store_short-Out : (o v : ℕ) (m : Memory) (x : ℕ) → Out o 2 x → store_short o v m x ≡ m x
store_short-Out o v m x (inl lt) = ground arith
store_short-Out o v m x (inr le) = ground arith

pub store_addrs-Out :
    (k i o : ℕ) (addrs : ℕ → ℕ) (m : Memory) (x : ℕ)
    → Out o (4 * k) x
    → store_addrs k i o addrs m x ≡ m x
unfolding store_addrs
store_addrs-Out zero i o addrs m x out = refl
store_addrs-Out (suc k) i o addrs m x (inl lt) =
    store_addrs-Out k (i + 1) (o + 4) addrs (store_word o (addrs i) m) x (inl (omega arith))
    ∙ store_word-Out o (addrs i) m x (inl lt)
store_addrs-Out (suc k) i o addrs m x (inr le) =
    store_addrs-Out k (i + 1) (o + 4) addrs (store_word o (addrs i) m) x (inr (omega arith))
    ∙ store_word-Out o (addrs i) m x (inr (omega arith))

pub word_at-store_addrs :
    (k i j o : ℕ) (addrs : ℕ → ℕ) (m : Memory)
    → j < k
    → addrs (i + j) < 2 ^ 32
    → word_at (o + 4 * j) (store_addrs k i o addrs m) ≡ addrs (i + j)
unfolding store_addrs
word_at-store_addrs zero i j o addrs m lt small = absurd (omega (arith, lt))
word_at-store_addrs (suc k) i zero o addrs m lt small =
    let here : addrs (i + 0) ≡ addrs i = (let e : i + 0 ≡ i = omega arith in ap addrs e) in
    let at : o + 4 * 0 ≡ o = omega arith in
    rw at (
      word_at-SameIn o (store_word o (addrs i) m) _ (λ x lo hi.
        store_addrs-Out k (i + 1) (o + 4) addrs (store_word o (addrs i) m) x (inl (omega arith)))
      ∙ word_at-store_word o (addrs i) m (subst (λ v. v < 2 ^ 32) here small)
      ∙ sym here)
word_at-store_addrs (suc k) i (suc j) o addrs m lt small =
    let at : o + 4 * suc j ≡ o + 4 + 4 * j = omega arith in
    let which : i + suc j ≡ i + 1 + j = omega arith in
    rw (at, which)
      (word_at-store_addrs k (i + 1) j (o + 4) addrs (store_word o (addrs i) m) (omega (arith, lt))
        (subst (λ v. addrs v < 2 ^ 32) which small))

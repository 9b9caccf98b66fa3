-- ===== src/Fs/Inode/Read.antt =====
-- `readi` of kernel/fs.c returns the content of a file.
use lainos_fail.Base.{
  ℕ, zero, suc, ◌+◌, ◌-◌, ◌*◌, ◌/◌, ◌%◌, ◌^◌, ◌<◌, ◌≤◌, ◌≡◌, ◌≢◌, ◌⊎◌, inl, inr, refl, true, false,
  ◌||◌, min, add32, Option, none, some, done, List, ◌∷◌, ◌++◌, ltb, ◌==◌, arith, if◌then◌else◌,
  Bool-cases, sym, ap, ap₂, ◌∙◌, subst,
}
use lainos_fail.Fs.{Disk}
use lainos_fail.Fs.Bitmap.{IsDisk}
use lainos_fail.Fs.Inode.{
  ndirect, nindirect, entry, bmap, bmap_direct, bmap_indirect, bmap_entry, max_file, block_size,
  Dinode, Run, bytes_at, chunk, read_loop, read_file,
}
use lainos_fail.Fs.Inode.Blocks.{block_of, IsMapped, Keeps, Keeps-self}
use lainos_fail.Fs.Inode.Bmap.{IsAlmostFull}
use lainos_fail.Fs.Inode.Content.{content, file_bytes, Becomes}

-- A disk that `d` has become by allocation only, with at most one free block.
abbrev pub RunsFull : Disk → Type 0
RunsFull d = (e : Disk) × Keeps d e × IsAlmostFull e

-- Within one block the content is the block's.
bytes_at-file_bytes :
    (k off o bn a : ℕ) (ip : Dinode) (d : Disk)
    → off ≡ bn * block_size + o
    → o + k ≤ block_size
    → block_of ip d bn ≡ a
    → a ≢ 0
    → bytes_at k o (d a) ≡ file_bytes k off ip d
unfolding content
bytes_at-file_bytes zero off o bn a ip d split within at nz = refl
bytes_at-file_bytes (suc k) off o bn a ip d split within at nz =
    let test : (a == 0) ≡ false = ground (arith, nz) in
    let block : off / block_size ≡ bn = omega arith in
    let rest : off % block_size ≡ o = omega arith in
    let head : content ip d off ≡ d a o = rw (block, rest, at, test) refl in
    ap₂ (λ x xs. x ∷ xs) (sym head)
      (bytes_at-file_bytes k (off + 1) (o + 1) bn a ip d (omega arith) (omega arith) at nz)

file_bytes-append :
    (m n off : ℕ) (ip : Dinode) (d : Disk)
    → file_bytes m off ip d ++ file_bytes n (off + m) ip d ≡ file_bytes (m + n) off ip d
file_bytes-append zero n off ip d =
    subst (λ x. file_bytes n x ip d ≡ file_bytes (zero + n) off ip d) (omega arith)
      (subst (λ x. file_bytes n off ip d ≡ file_bytes x off ip d) (omega arith) refl)
file_bytes-append (suc m) n off ip d =
    let size : suc m + n ≡ suc (m + n) = omega arith in
    let next : off + suc m ≡ off + 1 + m = omega arith in
    rw (size, next) (ap (λ xs. content ip d off ∷ xs) (file_bytes-append m n (off + 1) ip d))

pub Becomes-self :
    (ip : Dinode) (d : Disk) → IsMapped ip d → IsDisk d → Becomes ip d (content ip d) ip d
Becomes-self ip d m v = record {
  bytes = λ off. refl;
  size = refl;
  type = refl;
  keeps = Keeps-self d v;
  mapped = m;
  foreign = λ c h. (h, refl);
  blocks = λ bn nz. nz;
}

-- Every byte of a range of the file is in a block.
abbrev pub HasBlocks : (n off : ℕ) → Dinode → Disk → Type 0
HasBlocks n off ip d = (x : ℕ) → off ≤ x → x < off + n → block_of ip d (x / block_size) ≢ 0

-- `bmap` of a block that is there gives it, and changes nothing.
bmap_there :
    (bn : ℕ) (ip : Dinode) (d : Disk)
    → bn < max_file
    → block_of ip d bn ≢ 0
    → bmap bn ip d ≡ done (block_of ip d bn, ip, d)
unfolding bmap bmap_direct bmap_indirect bmap_entry
bmap_there bn ip d lt there = elim (Bool-cases (ltb bn ndirect)) [
  | inl low ↦ let nz : (ip.addrs bn == 0) ≡ false = ground (arith, there, low) in rw (low, nz) refl
  | inr high ↦ elim (Bool-cases (ip.addrs ndirect == 0)) [
    | inl none_yet ↦
        let inside : ltb (bn - ndirect) nindirect ≡ true = ground (arith, lt, high) in
        let hole : block_of ip d bn ≡ 0 = rw (high, inside, none_yet) refl in absurd (there hole)
    | inr root ↦
        let inside : ltb (bn - ndirect) nindirect ≡ true = ground (arith, lt, high) in
        let nz : (entry (d (ip.addrs ndirect)) (bn - ndirect) == 0) ≡ false =
          ground (arith, there, high, root) in
        rw (high, inside, root, nz) refl
  ]
]

-- The loop reads the next bytes of the file.
read_loop_full :
    (fuel left off : ℕ) (ip : Dinode) (d : Disk)
    → HasBlocks left off ip d
    → left ≤ fuel
    → off + left ≤ max_file * block_size
    → read_loop fuel left off ip d ≡ done (file_bytes left off ip d, ip, d)
unfolding read_loop
read_loop_full zero left off ip d has enough fits =
    let none_left : left ≡ zero = omega arith in rw none_left refl
read_loop_full (suc fuel) zero off ip d has enough fits = refl
read_loop_full (suc fuel) (suc more) off ip d has enough fits =
    let left : ℕ = suc more in
    let k : ℕ = chunk left off in
    let bn : ℕ = off / block_size in
    let go : ltb 0 left ≡ true = ground arith in
    let some_bytes : 0 < k = ground arith in
    let within : off % block_size + k ≤ block_size = omega arith in
    let part : k ≤ left = omega arith in
    let there = has off (omega arith) (omega arith) in
    let ran = bmap_there bn ip d (omega arith) there in
    let later =
      read_loop_full fuel (left - k) (off + k) ip d
        (λ x lo hi. has x (omega (arith, lo)) (omega (arith, hi, part))) (omega arith)
        (omega arith) in
    let size : k + (left - k) ≡ left = omega arith in
    let whole : bytes_at k (off % block_size) (d (block_of ip d bn))
          ++ file_bytes (left - k) (off + k) ip d
        ≡ file_bytes left off ip d =
      ap (λ xs. xs ++ file_bytes (left - k) (off + k) ip d)
        (bytes_at-file_bytes k off (off % block_size) bn (block_of ip d bn) ip d (omega arith)
          within refl there)
      ∙ file_bytes-append k (left - k) off ip d
      ∙ ap (λ n. file_bytes n off ip d) size in
    rw (go, ran, later) (ap (λ xs. done (xs, ip, d)) whole)

not_wraps :
    (off n : ℕ) → off < 2 ^ 32 → n < 2 ^ 32 → ltb (add32 off n) off ≡ false → off + n < 2 ^ 32
not_wraps off n low low' h = ground (arith, h)

wraps :
    (off n : ℕ) (ip : Dinode)
    → off < 2 ^ 32
    → n < 2 ^ 32
    → (ltb ip.size off || ltb (add32 off n) off) ≡ true
    → (ip.size < off) ⊎ (2 ^ 32 ≤ off + n)
wraps off n ip low low' h = elim (Bool-cases (ltb ip.size off)) [
  | inl past ↦ inl (ground (arith, past))
  | inr within ↦ inr (ground (arith, within, h))
]

-- What `readi` of a file returns, which it leaves as it is: -1 for an offset past the end or a count at which
-- the offset wraps, and else the content from the offset, cut off at the size.
abbrev pub ReadsFile : (off n : ℕ) → Dinode → Disk → Run (Option (List ℕ)) → Type 0
ReadsFile off n ip d o =
    ((o ≡ done (none, ip, d)) × ((ip.size < off) ⊎ (2 ^ 32 ≤ off + n)))
    ⊎ ((off ≤ ip.size)
        × (off + n < 2 ^ 32)
        × (o ≡ done (some (file_bytes (min n (ip.size - off)) off ip d), ip, d)))

-- `readi` of a file without a hole in the range returns the content from the offset, cut off at the size, or -1
-- for an offset past the end or a count at which the offset wraps; it changes neither the inode nor a block.
pub read_file_lem :
    (off n : ℕ) (ip : Dinode) (d : Disk)
    → HasBlocks (min n (ip.size - off)) off ip d
    → ip.size ≤ max_file * block_size
    → off < 2 ^ 32
    → n < 2 ^ 32
    → ReadsFile off n ip d (read_file off n ip d)
unfolding read_file
read_file_lem off n ip d has fits low low' =
    elim (Bool-cases (ltb ip.size off || ltb (add32 off n) off)) [
      | inl bad ↦ inl (rw bad refl, wraps off n ip low low' bad)
      | inr good ↦
          let inside : off ≤ ip.size = ground (arith, good) in
          let no_wrap : off + n < 2 ^ 32 = not_wraps off n low low' (ground (arith, good)) in
          let sum : add32 off n ≡ off + n = omega arith in
          let count : (if ltb ip.size (add32 off n) then ip.size - off else n)
              ≡ min n (ip.size - off) =
            rw sum (ground arith) in
          let ran =
            read_loop_full (min n (ip.size - off)) (min n (ip.size - off)) off ip d has
              (omega arith) (omega arith) in
          inr (inside, no_wrap, rw (good, count, ran) refl)
    ]

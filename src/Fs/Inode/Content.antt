-- ===== src/Fs/Inode/Content.antt =====
-- The content of a file of kernel/fs.c: a byte at every offset, 0 where there is no block.
use lainos_fail.Base.{
  ℕ, zero, suc, ◌+◌, ◌/◌, ◌%◌, ◌≡◌, ◌≢◌, inl, inr, refl, false, List, [], ◌∷◌, ◌==◌, arith,
  if◌then◌else◌, Bool-cases, sym, ap, ◌∙◌, subst,
}
use lainos_fail.Fs.{Disk}
use lainos_fail.Fs.Inode.{ndirect, block_size, Dinode}
use lainos_fail.Fs.Inode.Blocks.{block_of, IsData, IsMapped, Keeps, Keeps-Keeps, IsData-Keeps}
use lainos_fail.Fs.Inode.Bmap.{Gives}

abbrev pub byte_in : (b o : ℕ) → Disk → ℕ
byte_in b o d = if b == 0 then 0 else d b o

unfoldable pub content : Dinode → Disk → (off : ℕ) → ℕ
content ip d off = byte_in (block_of ip d (off / block_size)) (off % block_size) d

-- `n` bytes of the content from `off`.
abbrev pub file_bytes : (n off : ℕ) → Dinode → Disk → List ℕ
file_bytes zero off ip d = []
file_bytes (suc n) off ip d = content ip d off ∷ file_bytes n (off + 1) ip d

-- A data block in use that is not the inode's.
pub record IsForeign (ip : Dinode) (d : Disk) (c : ℕ) : Type 0 where
  pub inside : IsData d c
  pub not_root : c ≢ ip.addrs ndirect
  pub not_block : (bn : ℕ) → c ≢ block_of ip d bn

pub IsForeign-frame :
    (ip : Dinode) (d d' : Disk) (c : ℕ)
    → Keeps d d'
    → ((i : ℕ) → block_of ip d' i ≡ block_of ip d i)
    → IsForeign ip d c
    → IsForeign ip d' c
IsForeign-frame ip d d' c keeps frame h = record {
  inside = IsData-Keeps d d' c keeps h.inside;
  not_root = h.not_root;
  not_block = λ i e. h.not_block i (e ∙ frame i);
}

-- The file has the content `f`; all else that it is, and the blocks of others, are as before.
pub record Becomes (ip : Dinode) (d : Disk) (f : ℕ → ℕ) (ip' : Dinode) (d' : Disk) : Type 0 where
  pub bytes : (off : ℕ) → content ip' d' off ≡ f off
  pub size : ip'.size ≡ ip.size
  pub type : ip'.type ≡ ip.type
  pub keeps : Keeps d d'
  pub mapped : IsMapped ip' d'
  pub foreign : (c : ℕ) → IsForeign ip d c → IsForeign ip' d' c × (d' c ≡ d c)
  pub blocks : (bn : ℕ) → block_of ip d bn ≢ 0 → block_of ip' d' bn ≢ 0

module _ (bn : ℕ) (ip : Dinode) (d : Disk) (a : ℕ) (ip' : Dinode) (d' : Disk) (m : IsMapped ip d)
    (g : Gives bn ip d a ip' d') where
  Gives-byte_in : (i o : ℕ) → byte_in (block_of ip' d' i) o d' ≡ byte_in (block_of ip d i) o d
  Gives-byte_in i o = elim (Bool-cases (block_of ip d i == 0)) [
    | inl hole ↦ elim (Bool-cases (i == bn)) [
      | inl here ↦
          let same : i ≡ bn = ground (arith, here) in
          let empty : block_of ip d bn ≡ 0 =
            subst (λ k. block_of ip d k ≡ 0) same (ground (arith, hole)) in
          let new : d' a o ≡ 0 = ap (λ f. f o) (g.new empty) in
          let some_block : (a == 0) ≡ false = ground (arith, g.nonzero) in
          rw (hole, same, g.here, some_block) new
      | inr other ↦ let same = g.others i (ground (arith, other)) in rw (same, hole) refl
    ]
    | inr there ↦
        let nz : block_of ip d i ≢ 0 = ground (arith, there) in
        let same : block_of ip' d' i ≡ block_of ip d i = elim (Bool-cases (i == bn)) [
          | inl here ↦
              let e : i ≡ bn = ground (arith, here) in
              subst (λ k. block_of ip' d' k ≡ block_of ip d k) (sym e)
                (g.here ∙ g.old (subst (λ k. block_of ip d k ≢ 0) e nz))
          | inr other ↦ g.others i (ground (arith, other))
        ] in
        rw (same, there) (ap (λ f. f o) (g.kept (block_of ip d i) (m.mapped i nz) (m.apart i nz)))
  ]

  pub Gives-Becomes : Becomes ip d (content ip d) ip' d'
  unfolding content
  Gives-Becomes = record {
    bytes = λ off. Gives-byte_in (off / block_size) (off % block_size);
    size = g.size;
    type = g.type;
    keeps = g.keeps;
    mapped = g.mapped;
    foreign = λ c h. (
      record {
        inside = IsData-Keeps d d' c g.keeps h.inside;
        not_root = g.root c h.inside h.not_root;
        not_block = λ i e. elim (Bool-cases (i == bn)) [
          | inl here ↦
              let same : i ≡ bn = ground (arith, here) in
              let at : c ≡ a = subst (λ k. c ≡ block_of ip' d' k) same e ∙ g.here in
              elim (Bool-cases (block_of ip d bn == 0)) [
                | inl hole ↦ g.fresh (ground (arith, hole)) c h.inside at
                | inr there ↦ h.not_block bn (at ∙ g.old (ground (arith, there)))
              ]
          | inr other ↦ h.not_block i (e ∙ g.others i (ground (arith, other)))
        ];
      },
      g.kept c h.inside h.not_root,
    );
    blocks = λ i nz z. elim (Bool-cases (i == bn)) [
      | inl here ↦
          let same : i ≡ bn = ground (arith, here) in
          g.nonzero (sym g.here ∙ subst (λ k. block_of ip' d' k ≡ 0) same z)
      | inr other ↦ nz (sym (g.others i (ground (arith, other))) ∙ z)
    ];
  }

pub Becomes-Becomes :
    (ip ip₁ ip₂ : Dinode) (d d₁ d₂ : Disk) (f g : ℕ → ℕ)
    → Becomes ip d f ip₁ d₁
    → Becomes ip₁ d₁ g ip₂ d₂
    → Becomes ip d g ip₂ d₂
Becomes-Becomes ip ip₁ ip₂ d d₁ d₂ f g h k = record {
  bytes = k.bytes;
  size = k.size ∙ h.size;
  type = k.type ∙ h.type;
  keeps = Keeps-Keeps d d₁ d₂ h.keeps k.keeps;
  mapped = k.mapped;
  foreign = λ c x.
      ((k.foreign c (h.foreign c x).0).0, (k.foreign c (h.foreign c x).0).1 ∙ (h.foreign c x).1);
  blocks = λ bn nz. k.blocks bn (h.blocks bn nz);
}

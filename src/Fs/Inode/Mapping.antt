-- ===== src/Fs/Inode/Mapping.antt =====
-- A block added to an inode of kernel/fs.c keeps its map sound.
use lainos_fail.Base.{
  ℕ, ◌≡◌, ◌≢◌, inl, inr, refl, ◌==◌, arith, if◌then◌else◌, Bool-cases, sym, ◌∙◌, subst,
}
use lainos_fail.Fs.{Disk}
use lainos_fail.Fs.Inode.{ndirect, Dinode}
use lainos_fail.Fs.Inode.Blocks.{block_of, IsData, IsMapped, Keeps, IsData-Keeps}

-- The map depends on the inode and its indirect block only.
pub block_of-frame :
    (ip : Dinode) (d d' : Disk) (bn : ℕ)
    → (ip.addrs ndirect ≢ 0 → d' (ip.addrs ndirect) ≡ d (ip.addrs ndirect))
    → block_of ip d' bn ≡ block_of ip d bn
block_of-frame ip d d' bn same = elim (Bool-cases (ip.addrs ndirect == 0)) [
  | inl none_yet ↦ rw none_yet refl
  | inr there ↦ rw (same (ground (arith, there))) refl
]

-- So it stays sound when that block stays.
pub IsMapped-frame :
    (ip : Dinode) (d d' : Disk)
    → IsMapped ip d
    → Keeps d d'
    → ((i : ℕ) → block_of ip d' i ≡ block_of ip d i)
    → IsMapped ip d'
IsMapped-frame ip d d' m keeps frame = record {
  mapped = λ i h.
      subst (λ k. IsData d' k) (sym (frame i))
        (IsData-Keeps d d' (block_of ip d i) keeps (m.mapped i (λ z. h (frame i ∙ z))));
  root = λ h. IsData-Keeps d d' (ip.addrs ndirect) keeps (m.root h);
  distinct = λ i j h e. m.distinct i j (λ z. h (frame i ∙ z)) (sym (frame i) ∙ e ∙ frame j);
  apart = λ i h e. m.apart i (λ z. h (frame i ∙ z)) (sym (frame i) ∙ e);
}

module _ (ip ip' : Dinode) (d d' : Disk) (b : ℕ) (m : IsMapped ip d) (k : Keeps d d')
    (new : IsData d' b) (fresh : (c : ℕ) → IsData d c → c ≢ b) where
  -- The block `b` is the one for `bn`, and the others are as before.
  pub IsMapped-add :
      (bn : ℕ)
      → ip'.addrs ndirect ≡ ip.addrs ndirect
      → ((bn' : ℕ) → block_of ip' d' bn' ≡ (if bn' == bn then b else block_of ip d bn'))
      → IsMapped ip' d'
  IsMapped-add bn same_root eqn =
      let nonzero : b ≢ 0 = λ e. ground (arith, new.low, e) in
      let at : (i : ℕ) → i ≡ bn → block_of ip' d' i ≡ b = λ i e. eqn i ∙ ground (arith, e) in
      let away : (i : ℕ) → i ≢ bn → block_of ip' d' i ≡ block_of ip d i =
        λ i ne. eqn i ∙ ground (arith, ne) in
      let not_root : b ≢ ip.addrs ndirect = λ e. elim (Bool-cases (ip.addrs ndirect == 0)) [
        | inl z ↦ nonzero (e ∙ ground (arith, z))
        | inr nz ↦ fresh (ip.addrs ndirect) (m.root (ground (arith, nz))) (sym e)
      ] in
      record {
        mapped = λ i nz. elim (Bool-cases (i == bn)) [
          | inl e ↦ subst (λ x. IsData d' x) (sym (at i (ground (arith, e)))) new
          | inr ne ↦
              let same = away i (ground (arith, ne)) in
              subst (λ x. IsData d' x) (sym same)
                (IsData-Keeps d d' (block_of ip d i) k (m.mapped i (λ z. nz (same ∙ z))))
        ];
        root = λ nz.
            subst (λ x. IsData d' x) (sym same_root)
              (IsData-Keeps d d' (ip.addrs ndirect) k (m.root (λ z. nz (same_root ∙ z))));
        distinct = λ i j nz e. elim (Bool-cases (i == bn)) [
          | inl ei ↦ elim (Bool-cases (j == bn)) [
            | inl ej ↦ ground (arith, ei, ej)
            | inr nj ↦
                let same : block_of ip d j ≡ b =
                  sym (away j (ground (arith, nj))) ∙ sym e ∙ at i (ground (arith, ei)) in
                absurd (fresh (block_of ip d j) (m.mapped j (λ z. nonzero (sym same ∙ z))) same)
          ]
          | inr ni ↦
              let si : block_of ip' d' i ≡ block_of ip d i = away i (ground (arith, ni)) in
              let nzi : block_of ip d i ≢ 0 = λ z. nz (si ∙ z) in
              elim (Bool-cases (j == bn)) [
                | inl ej ↦ absurd (
                    fresh (block_of ip d i) (m.mapped i nzi)
                      (sym si ∙ e ∙ at j (ground (arith, ej))))
                | inr nj ↦ m.distinct i j nzi (sym si ∙ e ∙ away j (ground (arith, nj)))
              ]
        ];
        apart = λ i nz e. elim (Bool-cases (i == bn)) [
          | inl ei ↦ not_root (sym (at i (ground (arith, ei))) ∙ e ∙ same_root)
          | inr ni ↦
              let si : block_of ip' d' i ≡ block_of ip d i = away i (ground (arith, ni)) in
              m.apart i (λ z. nz (si ∙ z)) (sym si ∙ e ∙ same_root)
        ];
      }

  -- The block `b` is the indirect block, where there was none.
  pub IsMapped-root :
      ip'.addrs ndirect ≡ b
      → ((bn' : ℕ) → block_of ip' d' bn' ≡ block_of ip d bn')
      → IsMapped ip' d'
  IsMapped-root root_is eqn = record {
    mapped = λ i nz.
        subst (λ x. IsData d' x) (sym (eqn i))
          (IsData-Keeps d d' (block_of ip d i) k (m.mapped i (λ z. nz (eqn i ∙ z))));
    root = λ nz. subst (λ x. IsData d' x) (sym root_is) new;
    distinct = λ i j nz e. m.distinct i j (λ z. nz (eqn i ∙ z)) (sym (eqn i) ∙ e ∙ eqn j);
    apart = λ i nz e.
        fresh (block_of ip d i) (m.mapped i (λ z. nz (eqn i ∙ z))) (sym (eqn i) ∙ e ∙ root_is);
  }

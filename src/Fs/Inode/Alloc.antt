-- ===== src/Fs/Inode/Alloc.antt =====
-- `bmap` of kernel/fs.c on every block number, the indirect block's allocation included.
use lainos_fail.Base.{
  ℕ, ◌+◌, ◌-◌, ◌<◌, ◌≡◌, ◌≢◌, inl, inr, refl, true, ltb, ◌==◌, arith, Bool-cases, sym, ◌∙◌, subst,
}
use lainos_fail.Fs.{Disk, sb_ninodes, zeros}
use lainos_fail.Fs.Bitmap.{is_used, IsDisk}
use lainos_fail.Fs.Inode.{
  ndirect, nindirect, max_file, Dinode, set_addr, entry, bmap_entry, bmap_indirect, bmap,
}
use lainos_fail.Fs.Inode.Blocks.{
  block_of, IsMapped, Keeps-Keeps, IsData-Keeps, Fresh-Keeps, Fresh-ne, Fresh-other, Fresh-IsData,
}
use lainos_fail.Fs.Inode.Mapping.{IsMapped-root}
use lainos_fail.Fs.Inode.Bmap.{
  IsFull, IsAlmostFull, Maps, balloc-Fresh, bmap_direct-Maps, bmap_entry-Maps,
}

block_of-new_root :
    (ip : Dinode) (d d' : Disk) (b j : ℕ)
    → ip.addrs ndirect ≡ 0
    → d' b ≡ zeros
    → block_of (set_addr ip ndirect b) d' j ≡ block_of ip d j
block_of-new_root ip d d' b j none_yet z = elim (Bool-cases (ltb j ndirect)) [
  | inl low ↦ ground (arith, low)
  | inr high ↦
      let empty : entry (d' b) (j - ndirect) ≡ 0 = rw z (omega arith) in
      ground (arith, high, empty, none_yet)
]

block_of-no_root :
    (ip : Dinode) (d : Disk) (i : ℕ) → ip.addrs ndirect ≡ 0 → block_of ip d (ndirect + i) ≡ 0
block_of-no_root ip d i e = ground (arith, e)

bmap_indirect-Maps :
    (ip : Dinode) (d : Disk) (i : ℕ)
    → IsMapped ip d
    → IsDisk d
    → i < nindirect
    → Maps (IsAlmostFull d) (ndirect + i) ip d (bmap_indirect i ip d)
unfolding bmap_indirect
bmap_indirect-Maps ip d i m v lt = elim (Bool-cases (ip.addrs ndirect == 0)) [
  | inr there ↦ elim (bmap_entry-Maps ip d m v i lt (ground (arith, there))) [
    | inl (stuck, hole, all) ↦ inl (rw (there, stuck) refl, hole, (0, λ c low ne. all c low))
    | inr (a, ip', d', ran, g) ↦ inr (a, ip', d', rw (there, ran) refl, g)
  ]
  | inl empty ↦ elim (balloc-Fresh d v) [
    | inl (full, all) ↦ inl (
      rw (empty, full) refl,
      block_of-no_root ip d i (ground (arith, empty)),
      (0, λ c low ne. all c low),
    )
    | inr (b, d₁, ran, f) ↦
        let none_yet : ip.addrs ndirect ≡ 0 = ground (arith, empty) in
        let ip₁ : Dinode = set_addr ip ndirect b in
        let keeps₁ = Fresh-Keeps d d₁ b f in
        let nonzero : b ≢ 0 = λ e. ground (arith, f.low, e) in
        let eqn : (j : ℕ) → block_of ip₁ d₁ j ≡ block_of ip d j =
          λ j. block_of-new_root ip d d₁ b j none_yet f.zeroed in
        let root : ip₁.addrs ndirect ≡ b = ground arith in
        let m₁ : IsMapped ip₁ d₁ =
          IsMapped-root ip ip₁ d d₁ b m keeps₁ (Fresh-IsData d d₁ b f)
            (λ c h. Fresh-ne d d₁ b c f h) root eqn in
        let next : Maps (IsFull d₁) (ndirect + i) ip₁ d₁ (bmap_entry b i ip₁ d₁) =
          bmap_entry-Maps ip₁ d₁ m₁ f.marked.valid i lt nonzero in
        elim next [
          | inl (stuck, hole, all) ↦ inl (
            rw (empty, ran) stuck,
            sym (eqn (ndirect + i)) ∙ hole,
            (
              b,
              λ c low ne.
                  (let used₁ : is_used (sb_ninodes d) d₁ c ≡ true =
                      subst (λ n. is_used n d₁ c ≡ true) (f.marked.super.1)
                        (all c (subst (λ n. c < n) (sym (f.marked.super.0)) low)) in
                    let other : is_used (sb_ninodes d) d₁ c ≡ is_used (sb_ninodes d) d c =
                      f.marked.marks c low ∙ ground (arith, ne) in
                    sym other ∙ used₁),
            ),
          )
          | inr (a, ip', d', ran', g) ↦ inr (
            a,
            ip',
            d',
            rw (empty, ran) ran',
            record {
              here = g.here;
              nonzero = g.nonzero;
              others = λ j ne. g.others j ne ∙ eqn j;
              old = λ nz. g.old (λ z. nz (sym (eqn (ndirect + i)) ∙ z)) ∙ eqn (ndirect + i);
              new = λ z. g.new (eqn (ndirect + i) ∙ z);
              fresh = λ z c h. g.fresh (eqn (ndirect + i) ∙ z) c (IsData-Keeps d d₁ c keeps₁ h);
              root = λ c h ne. g.root c (IsData-Keeps d d₁ c keeps₁ h) (Fresh-ne d d₁ b c f h);
              kept = λ c h ne.
                  g.kept c (IsData-Keeps d d₁ c keeps₁ h) (Fresh-ne d d₁ b c f h)
                  ∙ Fresh-other d d₁ b c f h;
              keeps = Keeps-Keeps d d₁ d' keeps₁ g.keeps;
              mapped = g.mapped;
              size = g.size;
              type = g.type;
            },
          )
        ]
  ]
]

-- `bmap` of a block number within the largest file gives the inode's block, and takes a zeroed one
-- where there is none. No other block of the inode and no block in use changes, but the indirect one.
-- It panics only where there is no such block yet
-- and the disk has at most one free block.
pub bmap-Maps :
    (bn : ℕ) (ip : Dinode) (d : Disk)
    → IsMapped ip d
    → IsDisk d
    → bn < max_file
    → Maps (IsAlmostFull d) bn ip d (bmap bn ip d)
unfolding bmap
bmap-Maps bn ip d m v lt = elim (Bool-cases (ltb bn ndirect)) [
  | inl direct ↦ elim (bmap_direct-Maps ip d m v bn (ground (arith, direct))) [
    | inl (stuck, hole, all) ↦ inl (rw (direct, stuck) refl, hole, (0, λ c low ne. all c low))
    | inr (a, ip', d', ran, g) ↦ inr (a, ip', d', rw (direct, ran) refl, g)
  ]
  | inr indirect ↦
      let inside : ltb (bn - ndirect) nindirect ≡ true = ground (arith, indirect, lt) in
      let back : ndirect + (bn - ndirect) ≡ bn = ground (arith, indirect) in
      let found : Maps (IsAlmostFull d) bn ip d (bmap_indirect (bn - ndirect) ip d) =
        subst (λ k. Maps (IsAlmostFull d) k ip d (bmap_indirect (bn - ndirect) ip d)) back
          (bmap_indirect-Maps ip d (bn - ndirect) m v (ground (arith, inside))) in
      elim found [
        | inl (stuck, hole, all) ↦ inl (rw (indirect, inside) stuck, hole, all)
        | inr (a, ip', d', ran, g) ↦ inr (a, ip', d', rw (indirect, inside) ran, g)
      ]
]

-- ===== src/Icache/Unique.antt =====
-- The inode cache of kernel/fs.c holds an inode at most once.
use lainos_fail.Base.{
  ℕ, zero, suc, ◌+◌, ◌≡◌, ◌≢◌, ◌<◌, ◌⊎◌, inl, inr, refl, sym, subst, ◌∙◌, true, false, Option, none,
  some, ◌==◌, arith, Outcome, done, panics, Bool-cases,
}
use lainos_fail.Icache.{ninode, Inode, Icache, is_cached, or_empty, scan, iget}

-- Two entries in use for the same inode are one.
abbrev pub IsUnique : Icache → Type 0
IsUnique c =
    (dev inum i j : ℕ)
    → i < ninode
    → j < ninode
    → is_cached dev inum (c i) ≡ true
    → is_cached dev inum (c j) ≡ true
    → i ≡ j

-- What `iget` may do: it takes one more reference to the entry that it returns, which holds the inode
-- and is the one that held it before, if any did; or it panics on a full cache without the inode.
abbrev pub Gets : (dev inum : ℕ) → Icache → Outcome (ℕ × Icache) → Type 0
Gets dev inum c o =
    ((ip : ℕ) × (c' : Icache) × (o ≡ done (ip, c'))
      × (ip < ninode)
      × (is_cached dev inum (c' ip) ≡ true)
      × ((c' ip).ref ≡ (c ip).ref + 1)
      × ((j : ℕ) → j ≢ ip → c' j ≡ c j)
      × ((j : ℕ) → j < ninode → is_cached dev inum (c j) ≡ true → j ≡ ip))
    ⊎ ((o ≡ panics) × ((j : ℕ) → j < ninode → (is_cached dev inum (c j) ≡ false) × ((c j).ref ≢ 0)))

-- The remembered entry is an empty one that was passed, and is missing only where none was.
abbrev IsEmpty : (i : ℕ) → Icache → Option ℕ → Type 0
IsEmpty i c none = (j : ℕ) → j < i → (c j).ref ≢ 0
IsEmpty i c (some e) = (e < i) × ((c e).ref ≡ 0)

or_empty-IsEmpty :
    (i : ℕ) (c : Icache) (empty : Option ℕ)
    → IsEmpty i c empty
    → IsEmpty (i + 1) c (or_empty empty i (c i).ref)
or_empty-IsEmpty i c none h = elim (Bool-cases ((c i).ref == 0)) [
  | inl e ↦ rw e (omega arith, ground (arith, e))
  | inr e ↦ rw e (λ j lt. elim (Bool-cases (j == i)) [
    | inl here ↦ ground (arith, here, e)
    | inr other ↦ h j (ground (arith, other))
  ])
]
or_empty-IsEmpty i c (some e) h = (omega (arith, h.0), h.1)

scan_lem :
    (k i dev inum : ℕ) (empty : Option ℕ) (c : Icache)
    → i + k ≡ ninode
    → IsUnique c
    → IsEmpty i c empty
    → ((j : ℕ) → j < i → is_cached dev inum (c j) ≡ false)
    → Gets dev inum c (scan k i dev inum empty c)
unfolding scan
scan_lem zero i dev inum none c size one none_left missed =
    inr (refl, λ j lt. (missed j (omega arith), none_left j (omega arith)))
scan_lem zero i dev inum (some e) c size one found missed = inl (
  e,
  _,
  refl,
  omega (arith, found.0),
  ground arith,
  ground (arith, found.1),
  λ j ne. ground arith,
  λ j lt cached. absurd (ground (arith, missed j (omega arith), cached)),
)
scan_lem (suc k) i dev inum empty c size one found missed =
    elim (Bool-cases (is_cached dev inum (c i))) [
      | inl hit ↦ rw hit (
          inl (
            i,
            _,
            refl,
            omega arith,
            ground (arith, hit),
            ground arith,
            λ j ne. ground arith,
            λ j lt cached. one dev inum j i lt (omega arith) cached hit,
          ))
      | inr miss ↦ rw miss (
          scan_lem k (i + 1) dev inum (or_empty empty i (c i).ref) c (omega arith) one
            (or_empty-IsEmpty i c empty found)
            (λ j lt. elim (Bool-cases (j == i)) [
              | inl here ↦ (let same : j ≡ i = ground (arith, here) in rw same miss)
              | inr other ↦ missed j (ground (arith, other))
            ]))
    ]

done-inj :
    {i j : ℕ} {c c' : Icache} → ◌≡◌ {A = Outcome (ℕ × Icache)} (done (i, c)) (done (j, c')) → c ≡ c'
done-inj e = cc

same_inode :
    (ip : Inode) (dev inum dev' inum' : ℕ)
    → is_cached dev inum ip ≡ true
    → is_cached dev' inum' ip ≡ true
    → (dev' ≡ dev) × (inum' ≡ inum)
same_inode ip dev inum dev' inum' h h' = (ground (arith, h, h'), ground (arith, h, h'))

-- An entry that is alone in holding its inode leaves the others unique.
IsUnique-change :
    (dev inum ip : ℕ) (c c' : Icache)
    → IsUnique c
    → is_cached dev inum (c' ip) ≡ true
    → ((j : ℕ) → j ≢ ip → c' j ≡ c j)
    → ((j : ℕ) → j < ninode → is_cached dev inum (c j) ≡ true → j ≡ ip)
    → IsUnique c'
IsUnique-change dev inum ip c c' one here rest alone dev' inum' i j lt lt' hi hj =
    let to_ip : (k : ℕ)
        → k < ninode
        → is_cached dev' inum' (c' ip) ≡ true
        → is_cached dev' inum' (c' k) ≡ true
        → k ≡ ip =
      λ k low at_ip at_k. elim (Bool-cases (k == ip)) [
        | inl e ↦ ground (arith, e)
        | inr ne ↦
            let other : c' k ≡ c k = rest k (ground (arith, ne)) in
            let (d, n) = same_inode (c' ip) dev inum dev' inum' here at_ip in
            alone k low (
              subst (λ x. is_cached dev inum x ≡ true) other
                (subst (λ x. is_cached x inum (c' k) ≡ true) d
                  (subst (λ x. is_cached dev' x (c' k) ≡ true) n at_k)))
      ] in
    elim (Bool-cases (i == ip)) [
      | inl e ↦
          let same : i ≡ ip = ground (arith, e) in
          same ∙ sym (to_ip j lt' (subst (λ x. is_cached dev' inum' (c' x) ≡ true) same hi) hj)
      | inr ne ↦ elim (Bool-cases (j == ip)) [
        | inl e ↦
            let same : j ≡ ip = ground (arith, e) in
            to_ip i lt (subst (λ x. is_cached dev' inum' (c' x) ≡ true) same hj) hi ∙ sym same
        | inr ne' ↦
            one dev' inum' i j lt lt'
              (subst (λ x. is_cached dev' inum' x ≡ true) (rest i (ground (arith, ne))) hi)
              (subst (λ x. is_cached dev' inum' x ≡ true) (rest j (ground (arith, ne'))) hj)
      ]
    ]

-- `iget` takes a reference to the one entry of an inode, which it makes where there is none, and the
-- cache goes on to hold every inode at most once; it panics exactly where a full cache lacks the
-- inode.
pub iget_lem :
    (dev inum : ℕ) (c : Icache)
    → IsUnique c
    → Gets dev inum c (iget dev inum c)
      × ((ip : ℕ) (c' : Icache) → iget dev inum c ≡ done (ip, c') → IsUnique c')
unfolding iget
iget_lem dev inum c one =
    let gets =
      scan_lem ninode 0 dev inum none c (omega arith) one (λ j lt. absurd (omega (arith, lt)))
        (λ j lt. absurd (omega (arith, lt))) in
    (
      gets,
      λ ip c' ran. elim gets [
        | inl (ip', c₁, ran', lt, here, count, rest, alone) ↦
            let same : c₁ ≡ c' = done-inj (sym ran' ∙ ran) in
            subst (λ x. IsUnique x) same (IsUnique-change dev inum ip' c c₁ one here rest alone)
        | inr (full, none_left) ↦ absurd (cc)
      ],
    )

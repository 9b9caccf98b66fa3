-- ===== src/Bcache/View.antt =====
-- What the buffers of kernel/bio.c promise their users: the content of a sector.
use lainos_fail.Base.{
  ℕ, ◌<◌, ◌≡◌, ◌≢◌, ◌⊎◌, inl, inr, refl, true, false, ◌&&◌, ◌==◌, arith, Bool-cases, sym, ap, ◌∙◌,
  subst,
}
use lainos_fail.Mem.{Memory}
use lainos_fail.Bcache.{nbuf, Buf, Bcache, is_for, Sectors}

-- A sector of disk 1 has at most one buffer; a clean buffer of disk 1 is as the disk, and
-- a dirty one is valid.
pub record IsCoherent (s : Bcache) (disk : Sectors) : Type 0 where
  pub unique :
      (sector b c : ℕ)
      → b < nbuf
      → c < nbuf
      → is_for 1 sector (s.buf b) ≡ true
      → is_for 1 sector (s.buf c) ≡ true
      → b ≡ c
  pub clean :
      (sector b : ℕ)
      → b < nbuf
      → is_for 1 sector (s.buf b) ≡ true
      → (s.buf b).valid ≡ true
      → (s.buf b).dirty ≡ false
      → (s.buf b).bytes ≡ disk sector
  pub dirty : (b : ℕ) → b < nbuf → (s.buf b).dirty ≡ true → (s.buf b).valid ≡ true

-- The content of a sector of disk 1: that of its valid buffer, or else that on the disk.
pub record Shows (s : Bcache) (disk : Sectors) (sector : ℕ) (m : Memory) : Type 0 where
  pub cached :
      (b : ℕ)
      → b < nbuf
      → is_for 1 sector (s.buf b) ≡ true
      → (s.buf b).valid ≡ true
      → (s.buf b).bytes ≡ m
  pub stored :
      ((b : ℕ) → b < nbuf → is_for 1 sector (s.buf b) ≡ true → (s.buf b).valid ≡ false)
      → disk sector ≡ m

-- A buffer changes alone.
abbrev pub Alone : (b : ℕ) → Bcache → Bcache → Type 0
Alone b s s' = (c : ℕ) → c ≢ b → s'.buf c ≡ s.buf c

-- The buffer is the sector's, busy and valid.
abbrev pub Holds : (sector b : ℕ) → Bcache → Type 0
Holds sector b s =
    (is_for 1 sector (s.buf b) ≡ true) × ((s.buf b).busy ≡ true) × ((s.buf b).valid ≡ true)

pub same_sector :
    (k sector : ℕ) (u : Buf) → is_for 1 sector u ≡ true → is_for 1 k u ≡ true → k ≡ sector
same_sector k sector u h h' = ground (arith, h, h')

-- What a buffer was before it is the sector's valid one: the same, or without dirty bytes and then
-- filled from the disk.
abbrev pub Fills : (sector : ℕ) → (u u' : Buf) → (disk : Sectors) → Type 0
Fills sector u u' disk =
    ((is_for 1 sector u ≡ true) × (u.valid ≡ true) × (u'.bytes ≡ u.bytes))
    ⊎ ((u.dirty ≡ false) × (u'.bytes ≡ disk sector) × (is_for 1 sector u ≡ true → u.valid ≡ false))

-- A property of one buffer and of the others.
pub at_or : (b : ℕ) (P : ℕ → Type 0) → P b → ((c : ℕ) → c ≢ b → P c) → (c : ℕ) → P c
at_or b P at rest c = elim (Bool-cases (c == b)) [
  | inl e ↦ (let same : b ≡ c = ground (arith, e) in subst P same at)
  | inr ne ↦ rest c (ground (arith, ne))
]

module _ (sector b : ℕ) (s s' : Bcache) (disk : Sectors) (lt : b < nbuf) (co : IsCoherent s disk)
    (alone : Alone b s s') (here : is_for 1 sector (s'.buf b) ≡ true)
    (valid : (s'.buf b).valid ≡ true) (dirty : (s'.buf b).dirty ≡ (s.buf b).dirty)
    (only : (c : ℕ) → c < nbuf → c ≢ b → is_for 1 sector (s.buf c) ≡ false)
    (how : Fills sector (s.buf b) (s'.buf b) disk) where
  -- A property of all buffers, at this one and at the others.
  each_buf :
      (P : ℕ → Buf → Type 0)
      → P b (s'.buf b)
      → ((c : ℕ) → c ≢ b → P c (s.buf c))
      → (c : ℕ) → P c (s'.buf c)
  each_buf P at rest =
      at_or b (λ c. P c (s'.buf c)) at (λ c ne. subst (λ u. P c u) (sym (alone c ne)) (rest c ne))

  b_alone :
      (k c : ℕ) → c < nbuf → is_for 1 k (s'.buf b) ≡ true → is_for 1 k (s'.buf c) ≡ true → c ≡ b
  b_alone k c lt' h =
      let e = same_sector k sector (s'.buf b) here h in
      each_buf (λ x u. x < nbuf → is_for 1 k u ≡ true → x ≡ b) (λ low f. refl)
        (λ x ne low f. absurd (
          let none_there = only x low ne in
          let f' = subst (λ j. is_for 1 j (s.buf x) ≡ true) e f in ground (arith, none_there, f')))
        c lt'

  pub still_IsCoherent : IsCoherent s' disk
  still_IsCoherent = record {
    unique = λ k c c' lt₁ lt₂ f f'. elim (Bool-cases (c == b)) [
      | inl e ↦
          let at : c ≡ b = ground (arith, e) in
          at ∙ sym (b_alone k c' lt₂ (subst (λ x. is_for 1 k (s'.buf x) ≡ true) at f) f')
      | inr ne ↦ elim (Bool-cases (c' == b)) [
        | inl e ↦
            let at : c' ≡ b = ground (arith, e) in
            b_alone k c lt₁ (subst (λ x. is_for 1 k (s'.buf x) ≡ true) at f') f ∙ sym at
        | inr ne' ↦
            co.unique k c c' lt₁ lt₂
              (subst (λ u. is_for 1 k u ≡ true) (alone c (ground (arith, ne))) f)
              (subst (λ u. is_for 1 k u ≡ true) (alone c' (ground (arith, ne'))) f')
      ]
    ];
    clean = λ k.
        each_buf
          (λ x u.
            x < nbuf → is_for 1 k u ≡ true → u.valid ≡ true → u.dirty ≡ false → u.bytes ≡ disk k)
          (λ low f v cl.
            let e = same_sector k sector (s'.buf b) here f in
            rw e (elim how [
              | inl (h, v', same) ↦ same ∙ co.clean sector b lt h v' (sym dirty ∙ cl)
              | inr (cl', same, inv) ↦ same
            ]))
          (λ x ne. co.clean k x);
    dirty =
        each_buf (λ x u. x < nbuf → u.dirty ≡ true → u.valid ≡ true) (λ low d. valid)
          (λ x ne. co.dirty x);
  }

  -- Where this buffer holds nothing valid of the sector, no buffer does.
  only_here :
      (k : ℕ)
      → k ≡ sector
      → (is_for 1 sector (s.buf b) ≡ true → (s.buf b).valid ≡ false)
      → (c : ℕ) → c < nbuf
      → is_for 1 k (s.buf c) ≡ true
      → (s.buf c).valid ≡ false
  only_here k e inv =
      at_or b (λ c. c < nbuf → is_for 1 k (s.buf c) ≡ true → (s.buf c).valid ≡ false)
        (λ low f. inv (subst (λ j. is_for 1 j (s.buf b) ≡ true) e f))
        (λ c ne low f. absurd (
          let f' = subst (λ j. is_for 1 j (s.buf c) ≡ true) e f in
          let none_there = only c low ne in ground (arith, f', none_there)))

  -- Another sector whose content is now on the disk alone.
  elsewhere :
      (k : ℕ) (m : Memory)
      → Shows s disk k m
      → ((c : ℕ) → c < nbuf → is_for 1 k (s'.buf c) ≡ true → (s'.buf c).valid ≡ false)
      → k ≢ sector
      → disk k ≡ m
  elsewhere k m sh gone ne = elim (Bool-cases (is_for 1 k (s.buf b) && (s.buf b).valid)) [
    | inl held ↦
        let f : is_for 1 k (s.buf b) ≡ true = ground (arith, held) in
        let v : (s.buf b).valid ≡ true = ground (arith, held) in
        elim how [
          | inl (h, v', same) ↦ absurd (ne (same_sector k sector (s.buf b) h f))
          | inr (cl, same, inv) ↦ sym (co.clean k b lt f v cl) ∙ sh.cached b lt f v
        ]
    | inr not_held ↦ sh.stored (
        at_or b (λ c. c < nbuf → is_for 1 k (s.buf c) ≡ true → (s.buf c).valid ≡ false)
          (λ low f. ground (arith, not_held, f))
          (λ c other low f.
            subst (λ u. u.valid ≡ false) (alone c other)
              (gone c low (subst (λ u. is_for 1 k u ≡ true) (sym (alone c other)) f))))
  ]

  pub still_Shows : (k : ℕ) (m : Memory) → Shows s disk k m → Shows s' disk k m
  still_Shows k m sh = record {
    cached =
        each_buf (λ x u. x < nbuf → is_for 1 k u ≡ true → u.valid ≡ true → u.bytes ≡ m)
          (λ low f v.
            let e = same_sector k sector (s'.buf b) here f in
            elim how [
              | inl (h, v', same) ↦ same ∙ sh.cached b lt (rw e h) v'
              | inr (cl, same, inv) ↦ same ∙ ap disk (sym e) ∙ sh.stored (only_here k e inv)
            ])
          (λ x ne. sh.cached x);
    stored = λ gone. elim (Bool-cases (k == sector)) [
      | inl e ↦
          let at : sector ≡ k = ground (arith, e) in
          let stale = gone b lt (subst (λ j. is_for 1 j (s'.buf b) ≡ true) at here) in
          absurd (ground (arith, stale, valid))
      | inr ne ↦ elsewhere k m sh gone (ground (arith, ne))
    ];
  }

pub others_only :
    (sector b : ℕ) (s : Bcache) (disk : Sectors)
    → IsCoherent s disk
    → b < nbuf
    → is_for 1 sector (s.buf b) ≡ true
    → (c : ℕ) → c < nbuf
    → c ≢ b
    → is_for 1 sector (s.buf c) ≡ false
others_only sector b s disk co lt here c low ne = elim (Bool-cases (is_for 1 sector (s.buf c))) [
  | inl f ↦ absurd (ne (co.unique sector c b low lt f here))
  | inr none_there ↦ none_there
]

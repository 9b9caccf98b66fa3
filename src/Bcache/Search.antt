-- ===== src/Bcache/Search.antt =====
-- `bget` of kernel/bio.c along the ring of buffers.
use lainos_fail.Base.{
  ℕ, zero, suc, ◌+◌, ◌<◌, ◌≡◌, ◌⊎◌, inl, inr, refl, Bool, true, false, List, [], ◌∷◌, ◌++◌, length,
  Option, none, some, All, ◌==◌, arith, if◌then◌else◌, update, Bool-cases, ap, subst, Outcome, done,
  sleeps, panics,
}
use lainos_fail.Bcache.{
  nbuf, head, Buf, Bcache, find_from, is_for, is_clean, take_or, recycle, bget,
}
use lainos_fail.Bcache.Ring.{IsRing, members-Lacks}
use lainos_fail.Bcache.Links.{Chain, BackChain, Lacks, has-All}

-- The first entry of a list whose buffer has the property.
abbrev pub first : (Buf → Bool) → (ℕ → Buf) → List ℕ → Option ℕ
first test bufs [] = none
first test bufs (x ∷ xs) = if test (bufs x) then some x else first test bufs xs

abbrev pub rev_onto : List ℕ → List ℕ → List ℕ
rev_onto [] acc = acc
rev_onto (x ∷ xs) acc = rev_onto xs (x ∷ acc)

-- The walk along a chain to the head, given fuel for each entry and one more, finds the first.
find_from-first :
    (fuel : ℕ) (test : Buf → Bool) (link : ℕ → ℕ) (a : ℕ) (xs : List ℕ) (bufs : ℕ → Buf)
    → Chain link a xs head
    → Lacks head xs
    → length xs < fuel
    → find_from fuel test link (link a) bufs ≡ first test bufs xs
unfolding find_from
find_from-first zero test link a xs bufs c l lt = absurd (omega (arith, lt))
find_from-first (suc fuel) test link a [] bufs c l lt = rw c refl
find_from-first (suc fuel) test link a (x ∷ xs) bufs c l lt =
    let there : (x == head) ≡ false = ground (arith, l.0) in
    let rest = find_from-first fuel test link x xs bufs (c.1) (l.1) (omega (arith, lt)) in
    rw (c.0, there, rest) refl

-- The links back are a chain over the reversed list.
rev_onto-Chain :
    (prev : ℕ → ℕ) (a : ℕ) (xs acc : List ℕ) (w z : ℕ)
    → Chain prev a acc w
    → BackChain prev a xs z
    → Chain prev z (rev_onto xs (a ∷ acc)) w
rev_onto-Chain prev a [] acc w z c b = (b, c)
rev_onto-Chain prev a (x ∷ xs) acc w z c b = rev_onto-Chain prev x xs (a ∷ acc) w z (b.0, c) (b.1)

back-Chain :
    (prev : ℕ → ℕ) (xs : List ℕ) (z w : ℕ) → BackChain prev w xs z → Chain prev z (rev_onto xs []) w
back-Chain prev [] z w b = b
back-Chain prev (x ∷ xs) z w b = rev_onto-Chain prev x xs [] w z (b.0) (b.1)

rev_onto-All : (P : ℕ → Type 0) (xs acc : List ℕ) → All P xs → All P acc → All P (rev_onto xs acc)
rev_onto-All P [] acc h k = k
rev_onto-All P (x ∷ xs) acc h k = rev_onto-All P xs (x ∷ acc) (h.1) (h.0, k)

All-rev_onto : (P : ℕ → Type 0) (xs acc : List ℕ) → All P (rev_onto xs acc) → All P xs × All P acc
All-rev_onto P [] acc h = (tt, h)
All-rev_onto P (x ∷ xs) acc h = let r = All-rev_onto P xs (x ∷ acc) h in ((r.1.0, r.0), r.1.1)

length-rev_onto : (xs acc : List ℕ) → length (rev_onto xs acc) ≡ length xs + length acc
length-rev_onto [] acc = omega arith
length-rev_onto (x ∷ xs) acc = omega (arith, length-rev_onto xs (x ∷ acc))

-- What the first entry with a property is: it has it, and those before it have not.
abbrev pub IsFirst : (Buf → Bool) → (ℕ → Buf) → List ℕ → Option ℕ → Type 0
IsFirst test bufs xs none = All (λ x. test (bufs x) ≡ false) xs
IsFirst test bufs xs (some b) =
    (us : List ℕ) × (vs : List ℕ) × (xs ≡ us ++ b ∷ vs)
    × (test (bufs b) ≡ true)
    × All (λ x. test (bufs x) ≡ false) us

IsFirst-cons :
    (test : Buf → Bool) (bufs : ℕ → Buf) (x : ℕ) (xs : List ℕ) (o : Option ℕ)
    → test (bufs x) ≡ false
    → IsFirst test bufs xs o
    → IsFirst test bufs (x ∷ xs) o
IsFirst-cons test bufs x xs none miss h = (miss, h)
IsFirst-cons test bufs x xs (some b) miss (us, vs, e, holds, rest) =
    (x ∷ us, vs, ap (λ r. x ∷ r) e, holds, (miss, rest))

first-IsFirst :
    (test : Buf → Bool) (bufs : ℕ → Buf) (xs : List ℕ) → IsFirst test bufs xs (first test bufs xs)
first-IsFirst test bufs [] = tt
first-IsFirst test bufs (x ∷ xs) = elim (Bool-cases (test (bufs x))) [
  | inl holds ↦ rw holds ([], xs, refl, holds, tt)
  | inr miss ↦
      rw miss (IsFirst-cons test bufs x xs (first test bufs xs) miss (first-IsFirst test bufs xs))
]

-- What a buffer in all the ring's order has, each buffer has.
ring-All :
    (P : ℕ → Type 0) (order : List ℕ) (s : Bcache)
    → IsRing order s
    → All P order
    → (b : ℕ) → b < nbuf
    → P b
ring-All P order s r h b lt = has-All P b order (r.complete b lt) h

abbrev pub LacksSector : (dev sector : ℕ) → Bcache → Type 0
LacksSector dev sector s = (c : ℕ) → c < nbuf → is_for dev sector (s.buf c) ≡ false

-- The cache in which the buffer `b` is taken for the sector: busy, and with nothing valid or dirty in it.
abbrev pub retaken : (dev sector b : ℕ) → Bcache → Bcache
retaken dev sector b s = record s {
  buf = update s.buf b (record {
    busy = true;
    valid = false;
    dirty = false;
    dev = dev;
    sector = sector;
    bytes = (s.buf b).bytes;
  });
}

-- What `bget` may do: wait for the sector's busy buffer, take the sector's buffer, make the least
-- recently used clean buffer the sector's, or panic without any.
abbrev pub GetsBuf : (dev sector : ℕ) → (order : List ℕ) → Bcache → Outcome (ℕ × Bcache) → Type 0
GetsBuf dev sector order s o =
    ((b : ℕ) × (b < nbuf)
      × (is_for dev sector (s.buf b) ≡ true)
      × ((((s.buf b).busy ≡ true) × (o ≡ sleeps))
          ⊎ (((s.buf b).busy ≡ false)
              × (o
                  ≡ done
                      (b, record s { buf = update s.buf b (record (s.buf b) { busy = true }) })))))
    ⊎ (LacksSector dev sector s
        × (((b : ℕ) × (us : List ℕ) × (vs : List ℕ) × (b < nbuf)
              × (rev_onto order [] ≡ us ++ b ∷ vs)
              × (is_clean (s.buf b) ≡ true)
              × All (λ x. is_clean (s.buf x) ≡ false) us
              × (o ≡ done (b, retaken dev sector b s)))
            ⊎ (((c : ℕ) → c < nbuf → is_clean (s.buf c) ≡ false) × (o ≡ panics))))

All-middle :
    (P : ℕ → Type 0) (us : List ℕ) (b : ℕ) (vs xs : List ℕ) → xs ≡ us ++ b ∷ vs → All P xs → P b
All-middle P [] b vs xs e h = (subst (λ r. All P r) e h).0
All-middle P (u ∷ us) b vs xs e h =
    All-middle P us b vs (us ++ b ∷ vs) refl (subst (λ r. All P r) e h).1

module _ (dev sector : ℕ) (order : List ℕ) (s : Bcache) (r : IsRing order s) where
  GetsBuf-hit :
      (hit free : Option ℕ)
      → IsFirst (is_for dev sector) s.buf order hit
      → IsFirst is_clean s.buf (rev_onto order []) free
      → GetsBuf dev sector order s (take_or s hit (recycle dev sector s free))
  GetsBuf-hit (some b) free (us, vs, e, holds, before) h = elim (Bool-cases (s.buf b).busy) [
    | inl held ↦ inl (b, All-middle _ us b vs order e (r.members), holds, inl (held, rw held refl))
    | inr idle ↦ inl (b, All-middle _ us b vs order e (r.members), holds, inr (idle, rw idle refl))
  ]
  GetsBuf-hit none none missing h = inr (
    λ c lt. ring-All _ order s r missing c lt,
    inr (λ c lt. ring-All _ order s r (All-rev_onto _ order [] h).0 c lt, refl),
  )
  GetsBuf-hit none (some b) missing (us, vs, e, holds, before) = inr (
    λ c lt. ring-All _ order s r missing c lt,
    inl (
      b,
      us,
      vs,
      All-middle _ us b vs (rev_onto order []) e (rev_onto-All _ order [] (r.members) tt),
      e,
      holds,
      before,
      refl,
    ),
  )

-- `bget` takes the buffer of the sector, waits for it where it is busy, or makes the least recently used
-- clean buffer the sector's where there is none; it panics only where no buffer is clean.
pub bget_lem :
    (dev sector : ℕ) (order : List ℕ) (s : Bcache)
    → IsRing order s
    → GetsBuf dev sector order s (bget dev sector s)
unfolding bget
bget_lem dev sector order s r =
    let hit : Option ℕ = first (is_for dev sector) s.buf order in
    let free : Option ℕ = first is_clean s.buf (rev_onto order []) in
    let forward : find_from 11 (is_for dev sector) s.next (s.next head) s.buf ≡ hit =
      find_from-first 11 (is_for dev sector) s.next head order s.buf (r.forward)
        (members-Lacks order (r.members)) (omega (arith, r.size)) in
    let backward : find_from 11 is_clean s.prev (s.prev head) s.buf ≡ free =
      find_from-first 11 is_clean s.prev head (rev_onto order []) s.buf
        (back-Chain s.prev order head head (r.backward))
        (rev_onto-All _ order [] (members-Lacks order (r.members)) tt)
        (omega (arith, r.size, length-rev_onto order [])) in
    rw (forward, backward)
      (GetsBuf-hit dev sector order s r hit free (first-IsFirst (is_for dev sector) s.buf order)
        (first-IsFirst is_clean s.buf (rev_onto order [])))

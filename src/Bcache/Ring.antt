-- ===== src/Bcache/Ring.antt =====
-- The buffers of kernel/bio.c form one ring, from the most to the least recently used.
use lainos_fail.Base.{
  ℕ, suc, ◌<◌, ◌≡◌, ◌≢◌, ◌⊎◌, inl, inr, refl, true, false, List, [], ◌∷◌, ◌++◌, length, All,
  All-mono, ◌==◌, arith, if◌then◌else◌, Bool-cases, sym, ap, ◌∙◌, Outcome, done, panics,
}
use lainos_fail.Bcache.{nbuf, head, Bcache, push_front, unlink, brelse}
use lainos_fail.Bcache.Links.{
  Chain, BackChain, Lacks, Distinct, has, has-middle, last_of, first_of, All-append, append-All,
  Chain-frame, Chain-split, BackChain-split, Chain-first, BackChain-last, All-last, Chain-join,
  All-apply, BackChain-restart, BackChain-join,
}

-- The order of the buffers from the most recently used on: all of them, each once.
pub record IsRing (order : List ℕ) (s : Bcache) : Type 0 where
  pub forward : Chain s.next head order head
  pub backward : BackChain s.prev head order head
  pub distinct : Distinct order
  pub members : All (λ b. b < nbuf) order
  pub size : length order ≡ nbuf
  pub complete : (b : ℕ) → b < nbuf → has b order ≡ true

pub members-Lacks : (xs : List ℕ) → All (λ b. b < nbuf) xs → Lacks head xs
members-Lacks xs h = All-mono (λ b lt e. omega (arith, lt, e)) xs h

Distinct-split :
    (xs : List ℕ) (b : ℕ) (ys : List ℕ)
    → Distinct (xs ++ b ∷ ys)
    → Distinct (xs ++ ys) × Lacks b (xs ++ ys)
Distinct-split [] b ys d = (d.1, d.0)
Distinct-split (x ∷ xs) b ys d =
    let r = Distinct-split xs b ys (d.1) in
    let h = All-append _ xs (b ∷ ys) (d.0) in
    ((append-All _ xs ys (h.0) (h.1.1), r.0), ((λ e. h.1.0 (sym e)), r.1))

Distinct-snoc : (xs : List ℕ) (z : ℕ) → Distinct xs → Lacks z xs → Distinct (xs ++ z ∷ [])
Distinct-snoc [] z d l = (tt, tt)
Distinct-snoc (x ∷ xs) z d l =
    (append-All _ xs (z ∷ []) (d.0) ((λ e. l.0 (sym e)), tt), Distinct-snoc xs z (d.1) (l.1))

first-Lacks : (b : ℕ) (os : List ℕ) (z : ℕ) → Lacks b os → b ≢ z → b ≢ first_of os z
first-Lacks b [] z l ne = ne
first-Lacks b (o ∷ os) z l ne = λ e. l.0 (sym e)

-- A buffer put in front of the buffers in a ring that lacks it.
push_front-Chain :
    (b : ℕ) (os : List ℕ) (s : Bcache)
    → b ≢ head
    → Lacks b os
    → Lacks head os
    → Chain s.next head os head
    → Chain ((push_front b s).next) head (b ∷ os) head
push_front-Chain b os s ne l l' c =
    let others : All (λ x. (push_front b s).next x ≡ s.next x) os =
      All-apply (λ x. x ≢ head) (λ x. (push_front b s).next x ≡ s.next x) os
        (All-mono (λ x ne ne'. ground (arith, ne, ne')) os l) l' in
    (ground arith, Chain-frame s.next _ head b os head (ground (arith, ne)) others c)

push_front-BackChain :
    (b : ℕ) (os : List ℕ) (s : Bcache)
    → b ≢ head
    → Lacks b os
    → Distinct (os ++ head ∷ [])
    → Chain s.next head os head
    → BackChain s.prev head os head
    → BackChain ((push_front b s).prev) head (b ∷ os) head
push_front-BackChain b os s ne l d c c' =
    let first : s.next head ≡ first_of os head = Chain-first s.next head os head c in
    let apart : b ≢ first_of os head = λ e. first-Lacks b os head l ne e in
    (
      ground (arith, first, apart),
      BackChain-restart s.prev (push_front b s).prev head b os head c' (rw first (ground arith))
          (All-mono (λ x ne ne'. ground (arith, first, ne, ne')) (os ++ head ∷ [])
            (append-All _ os (head ∷ []) l ((λ e. ne (sym e)), tt)))
          d,
    )

-- The parts of a list of distinct entries, and that they share none.
Distinct-parts :
    (xs ys : List ℕ) → Distinct (xs ++ ys) → Distinct xs × Distinct ys × All (λ x. Lacks x ys) xs
Distinct-parts [] ys d = (tt, d, tt)
Distinct-parts (x ∷ xs) ys d =
    let h = All-append _ xs ys (d.0) in
    let r = Distinct-parts xs ys (d.1) in ((h.0, r.0), r.1, (h.1, r.2))

first-apart :
    (xs ys : List ℕ) (z : ℕ) → Lacks z xs → All (λ x. Lacks x ys) xs → Lacks (first_of ys z) xs
first-apart xs [] z l h = l
first-apart xs (y ∷ ys) z l h = All-mono (λ x k e. k.0 (sym e)) xs h

length-middle :
    (xs : List ℕ) (b : ℕ) (ys : List ℕ) → length (xs ++ b ∷ ys) ≡ suc (length (xs ++ ys))
length-middle [] b ys = refl
length-middle (x ∷ xs) b ys = ap (λ k. suc k) (length-middle xs b ys)

module _ (xs : List ℕ) (b : ℕ) (ys : List ℕ) (s : Bcache) (r : IsRing (xs ++ b ∷ ys) s) where
  abbrev parts : All (λ x. x < nbuf) xs × All (λ x. x < nbuf) (b ∷ ys)
  parts = All-append _ xs (b ∷ ys) (r.members)

  others_members : All (λ x. x < nbuf) (xs ++ ys)
  others_members = append-All _ xs ys (parts.0) (parts.1.1)

  not_head : b ≢ head
  not_head e = let lt : b < nbuf = parts.1.0 in omega (arith, lt, e)

  others : Distinct (xs ++ ys) × Lacks b (xs ++ ys)
  others = Distinct-split xs b ys (r.distinct)

  pieces : Distinct xs × Distinct ys × All (λ x. Lacks x ys) xs
  pieces = Distinct-parts xs ys (others.0)

  before_b : s.prev b ≡ last_of head xs
  before_b =
      BackChain-last s.prev head xs b (BackChain-split s.prev head xs b ys head (r.backward)).0

  after_b : s.next b ≡ first_of ys head
  after_b = Chain-first s.next b ys head (Chain-split s.next head xs b ys head (r.forward)).1

  unlink-Chain : Chain ((unlink b s).next) head (xs ++ ys) head
  unlink-Chain =
      let c = Chain-split s.next head xs b ys head (r.forward) in
      Chain-join s.next ((unlink b s).next) head xs ys b head (c.0) (c.1)
        (rw before_b (ground (arith, after_b))) (λ x ne. ground (arith, before_b, ne))
        (members-Lacks xs (parts.0), pieces.0)
        (All-last (λ x. Lacks x ys) head xs (members-Lacks ys (parts.1.1)) (pieces.2))

  unlink-BackChain : BackChain ((unlink b s).prev) head (xs ++ ys) head
  unlink-BackChain =
      let c = BackChain-split s.prev head xs b ys head (r.backward) in
      BackChain-join s.prev ((unlink b s).prev) head xs ys b head (c.0) (c.1)
        (rw after_b (ground (arith, before_b))) (λ x ne. ground (arith, after_b, ne))
        (Distinct-snoc ys head (pieces.1) (members-Lacks ys (parts.1.1)))
        (first-apart xs ys head (members-Lacks xs (parts.0)) (pieces.2))

  moved-IsRing : IsRing (b ∷ xs ++ ys) (push_front b (unlink b s))
  moved-IsRing =
      let d = Distinct-snoc (xs ++ ys) head (others.0) (members-Lacks (xs ++ ys) others_members) in
      record {
        forward =
            push_front-Chain b (xs ++ ys) (unlink b s) not_head (others.1)
              (members-Lacks (xs ++ ys) others_members) unlink-Chain;
        backward =
            push_front-BackChain b (xs ++ ys) (unlink b s) not_head (others.1) d unlink-Chain
              unlink-BackChain;
        distinct = (others.1, others.0);
        members = (parts.1.0, others_members);
        size = sym (length-middle xs b ys) ∙ r.size;
        complete = λ c lt. sym (has-middle c xs b ys) ∙ r.complete c lt;
      }

-- The buffer is free and first in the order, with no other change to the buffers; or a panic.
abbrev pub Releases : (xs : List ℕ) → (b : ℕ) → (ys : List ℕ) → Bcache → Outcome Bcache → Type 0
Releases xs b ys s o =
    (((s.buf b).busy ≡ true)
      × ((s' : Bcache) × (o ≡ done s')
          × IsRing (b ∷ xs ++ ys) s'
          × ((c : ℕ) → s'.buf c ≡ (if c == b then record (s.buf b) { busy = false } else s.buf c))))
    ⊎ (((s.buf b).busy ≡ false) × (o ≡ panics))

-- `brelse` moves the buffer to the front of the ring, the others keeping their order, and frees it; of a
-- buffer that is not busy it panics.
pub brelse_lem :
    (xs : List ℕ) (b : ℕ) (ys : List ℕ) (s : Bcache)
    → IsRing (xs ++ b ∷ ys) s
    → Releases xs b ys s (brelse b s)
unfolding brelse
brelse_lem xs b ys s r = elim (Bool-cases (s.buf b).busy) [
  | inl held ↦
      let m = moved-IsRing xs b ys s r in
      inl (
        held,
        (
          _,
          rw held refl,
          record {
            forward = m.forward;
            backward = m.backward;
            distinct = m.distinct;
            members = m.members;
            size = m.size;
            complete = m.complete;
          },
          λ c. refl,
        ),
      )
  | inr free ↦ inr (free, rw free refl)
]

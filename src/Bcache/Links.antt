-- ===== src/Bcache/Links.antt =====
-- Doubly linked lists over arrays of links, as kernel/bio.c has them.
use lainos_fail.Base.{
  ℕ, ◌≡◌, ◌≢◌, inl, inr, refl, Bool, true, false, ◌||◌, List, [], ◌∷◌, ◌++◌, All, All-mono, ◌==◌,
  arith, Bool-cases, sym, ◌∙◌, subst,
}

-- The links lead from `a` over `xs` to `z`; and back from `z` over `xs` to `a`.
abbrev pub Chain : (ℕ → ℕ) → (a : ℕ) → List ℕ → (z : ℕ) → Type 0
Chain next a [] z = next a ≡ z
Chain next a (x ∷ xs) z = (next a ≡ x) × Chain next x xs z

abbrev pub BackChain : (ℕ → ℕ) → (a : ℕ) → List ℕ → (z : ℕ) → Type 0
BackChain prev a [] z = prev z ≡ a
BackChain prev a (x ∷ xs) z = (prev x ≡ a) × BackChain prev x xs z

abbrev pub Lacks : ℕ → List ℕ → Type 0
Lacks b xs = All (λ x. x ≢ b) xs

abbrev pub Distinct : List ℕ → Type 0
Distinct [] = Unit
Distinct (x ∷ xs) = Lacks x xs × Distinct xs

abbrev pub has : ℕ → List ℕ → Bool
has b [] = false
has b (x ∷ xs) = (b == x) || has b xs

pub has-All : (P : ℕ → Type 0) (b : ℕ) (xs : List ℕ) → has b xs ≡ true → All P xs → P b
has-All P b [] h k = absurd (ground (arith, h))
has-All P b (x ∷ xs) h k = elim (Bool-cases (b == x)) [
  | inl e ↦ (let same : x ≡ b = ground (arith, e) in subst P same (k.0))
  | inr ne ↦ has-All P b xs (ground (arith, h, ne)) (k.1)
]

or-swap : (a b c : Bool) → (a || (b || c)) ≡ (b || (a || c))
or-swap true true c = refl
or-swap true false c = refl
or-swap false b c = refl

pub has-middle :
    (c : ℕ) (xs : List ℕ) (b : ℕ) (ys : List ℕ)
    → has c (xs ++ b ∷ ys) ≡ ((c == b) || has c (xs ++ ys))
has-middle c [] b ys = refl
has-middle c (x ∷ xs) b ys =
    rw (has-middle c xs b ys) (or-swap (c == x) (c == b) (has c (xs ++ ys)))

-- The end of a non-empty list given by its first entry, and its start with a default.
abbrev pub last_of : ℕ → List ℕ → ℕ
last_of a [] = a
last_of a (x ∷ xs) = last_of x xs

abbrev pub first_of : List ℕ → ℕ → ℕ
first_of [] z = z
first_of (x ∷ xs) z = x

pub All-append : (P : ℕ → Type 0) → (xs ys : List ℕ) → All P (xs ++ ys) → All P xs × All P ys
All-append P [] ys h = (tt, h)
All-append P (x ∷ xs) ys h = let r = All-append P xs ys (h.1) in ((h.0, r.0), r.1)

pub append-All : (P : ℕ → Type 0) → (xs ys : List ℕ) → All P xs → All P ys → All P (xs ++ ys)
append-All P [] ys h k = k
append-All P (x ∷ xs) ys h k = (h.0, append-All P xs ys (h.1) k)

pub Chain-frame :
    (next next' : ℕ → ℕ) (a a' : ℕ) (xs : List ℕ) (z : ℕ)
    → next' a' ≡ next a
    → All (λ x. next' x ≡ next x) xs
    → Chain next a xs z
    → Chain next' a' xs z
Chain-frame next next' a a' [] z e h c = e ∙ c
Chain-frame next next' a a' (x ∷ xs) z e h c =
    (e ∙ c.0, Chain-frame next next' x x xs z (h.0) (h.1) (c.1))

BackChain-frame :
    (prev prev' : ℕ → ℕ) (a : ℕ) (xs : List ℕ) (z : ℕ)
    → prev' z ≡ prev z
    → All (λ x. prev' x ≡ prev x) xs
    → BackChain prev a xs z
    → BackChain prev' a xs z
BackChain-frame prev prev' a [] z e h c = e ∙ c
BackChain-frame prev prev' a (x ∷ xs) z e h c =
    (h.0 ∙ c.0, BackChain-frame prev prev' x xs z e (h.1) (c.1))

pub Chain-split :
    (next : ℕ → ℕ) (a : ℕ) (xs : List ℕ) (b : ℕ) (ys : List ℕ) (z : ℕ)
    → Chain next a (xs ++ b ∷ ys) z
    → Chain next a xs b × Chain next b ys z
Chain-split next a [] b ys z c = c
Chain-split next a (x ∷ xs) b ys z c =
    let r = Chain-split next x xs b ys z (c.1) in ((c.0, r.0), r.1)

pub BackChain-split :
    (prev : ℕ → ℕ) (a : ℕ) (xs : List ℕ) (b : ℕ) (ys : List ℕ) (z : ℕ)
    → BackChain prev a (xs ++ b ∷ ys) z
    → BackChain prev a xs b × BackChain prev b ys z
BackChain-split prev a [] b ys z c = c
BackChain-split prev a (x ∷ xs) b ys z c =
    let r = BackChain-split prev x xs b ys z (c.1) in ((c.0, r.0), r.1)

pub Chain-first :
    (next : ℕ → ℕ) (a : ℕ) (ys : List ℕ) (z : ℕ) → Chain next a ys z → next a ≡ first_of ys z
Chain-first next a [] z c = c
Chain-first next a (y ∷ ys) z c = c.0

pub BackChain-last :
    (prev : ℕ → ℕ) (a : ℕ) (xs : List ℕ) (z : ℕ) → BackChain prev a xs z → prev z ≡ last_of a xs
BackChain-last prev a [] z c = c
BackChain-last prev a (x ∷ xs) z c = BackChain-last prev x xs z (c.1)

pub All-last : (P : ℕ → Type 0) → (x : ℕ) (xs : List ℕ) → P x → All P xs → P (last_of x xs)
All-last P x [] p h = p
All-last P x (y ∷ xs) p h = All-last _ y xs (h.0) (h.1)

-- Joined where `b` was between them: the links meet from the last before it to the first after it.
pub Chain-join :
    (next next' : ℕ → ℕ) (a : ℕ) (xs ys : List ℕ) (b z : ℕ)
    → Chain next a xs b
    → Chain next b ys z
    → next' (last_of a xs) ≡ first_of ys z
    → ((x : ℕ) → x ≢ last_of a xs → next' x ≡ next x)
    → Distinct (a ∷ xs)
    → Lacks (last_of a xs) ys
    → Chain next' a (xs ++ ys) z
Chain-join next next' a [] [] b z before after here there d l = here
Chain-join next next' a [] (y ∷ ys) b z before after here there d l =
    (here, Chain-frame next next' y y ys z (there y (l.0)) (All-mono there ys (l.1)) (after.1))
Chain-join next next' a (x ∷ xs) ys b z before after here there d l =
    let differs : a ≢ last_of x xs = λ e. All-last _ x xs (d.0.0) (d.0.1) (sym e) in
    (
      there a differs ∙ before.0,
      Chain-join next next' x xs ys b z (before.1) after here there (d.1) l,
    )

pub All-apply : (P Q : ℕ → Type 0) (xs : List ℕ) → All (λ x. P x → Q x) xs → All P xs → All Q xs
All-apply P Q [] h k = tt
All-apply P Q (x ∷ xs) h k = (h.0 (k.0), All-apply P Q xs (h.1) (k.1))

every-All : (P : ℕ → Type 0) → ((x : ℕ) → P x) → (xs : List ℕ) → All P xs
every-All P h [] = tt
every-All P h (x ∷ xs) = (h x, every-All P h xs)

-- Links back that end at another start.
pub BackChain-restart :
    (prev prev' : ℕ → ℕ) (a a' : ℕ) (ys : List ℕ) (z : ℕ)
    → BackChain prev a ys z
    → prev' (first_of ys z) ≡ a'
    → All (λ x. x ≢ first_of ys z → prev' x ≡ prev x) (ys ++ z ∷ [])
    → Distinct (ys ++ z ∷ [])
    → BackChain prev' a' ys z
BackChain-restart prev prev' a a' [] z c here there d = here
BackChain-restart prev prev' a a' (y ∷ ys) z c here there d =
    let others = All-append _ ys (z ∷ []) (d.0) in
    let same = All-append _ ys (z ∷ []) (there.1) in
    (
      here,
      BackChain-frame prev prev' y ys z (same.1.0 (others.1.0))
          (All-apply (λ x. x ≢ y) (λ x. prev' x ≡ prev x) ys (same.0) (others.0)) (c.1),
    )

pub BackChain-join :
    (prev prev' : ℕ → ℕ) (a : ℕ) (xs ys : List ℕ) (b z : ℕ)
    → BackChain prev a xs b
    → BackChain prev b ys z
    → prev' (first_of ys z) ≡ last_of a xs
    → ((x : ℕ) → x ≢ first_of ys z → prev' x ≡ prev x)
    → Distinct (ys ++ z ∷ [])
    → Lacks (first_of ys z) xs
    → BackChain prev' a (xs ++ ys) z
BackChain-join prev prev' a [] ys b z before after here there d l =
    BackChain-restart prev prev' b a ys z after here (every-All _ there (ys ++ z ∷ [])) d
BackChain-join prev prev' a (x ∷ xs) ys b z before after here there d l = (
  there x (l.0) ∙ before.0,
  BackChain-join prev prev' x xs ys b z (before.1) after here there d (l.1),
)

-- ===== src/Bcache/Start.antt =====
-- `binit` of kernel/bio.c.
use lainos_fail.Base.{
  ℕ, zero, suc, ◌+◌, ◌<◌, ◌≡◌, refl, sym, ap, ◌∙◌, inl, inr, Bool-cases, All, All-mono, false, not,
  List, [], ◌∷◌, ◌==◌, arith, update, passes, passes_at,
}
use lainos_fail.Bcache.{nbuf, head, Bcache, push_front, init_from, binit, is_for, Sectors}
use lainos_fail.Bcache.Ring.{IsRing}
use lainos_fail.Bcache.Links.{has, Distinct}
use lainos_fail.Bcache.View.{IsCoherent}

abbrev pub initial_order : List ℕ
initial_order = 9 ∷ 8 ∷ 7 ∷ 6 ∷ 5 ∷ 4 ∷ 3 ∷ 2 ∷ 1 ∷ 0 ∷ []

-- The numbers below `k` from the highest on.
abbrev down : (k : ℕ) → List ℕ
down zero = []
down (suc k) = k ∷ down k

down-IsBelow : (k : ℕ) → All (λ b. b < k) (down k)
down-IsBelow zero = tt
down-IsBelow (suc k) = (omega arith, All-mono (λ b lt. omega (arith, lt)) (down k) (down-IsBelow k))

down-Distinct : (k : ℕ) → Distinct (down k)
down-Distinct zero = tt
down-Distinct (suc k) =
    (All-mono (λ b lt e. omega (arith, lt, e)) (down k) (down-IsBelow k), down-Distinct k)

binit-IsRing : (s : Bcache) → IsRing initial_order (binit s)
unfolding binit init_from passes
binit-IsRing s = record {
  forward = (refl, (refl, (refl, (refl, (refl, (refl, (refl, (refl, (refl, (refl, refl))))))))));
  backward = (refl, (refl, (refl, (refl, (refl, (refl, (refl, (refl, (refl, (refl, refl))))))))));
  distinct = down-Distinct nbuf;
  members = down-IsBelow nbuf;
  size = refl;
  complete = λ b lt. passes_at nbuf (λ k. has k initial_order) b refl lt;
}

init_from_dirty : (k b c : ℕ) (s : Bcache) → ((init_from k b s).buf c).dirty ≡ (s.buf c).dirty
unfolding init_from
init_from_dirty zero b c s = refl
init_from_dirty (suc k) b c s =
    let next : Bcache = record (push_front b s) {
      buf = update s.buf b (record (s.buf b) { dev = 4294967295 });
    } in
    init_from_dirty k (b + 1) c next ∙ elim (Bool-cases (c == b)) [
      | inl e ↦
          (let same : c ≡ b = ground (arith, e) in rw e (ap (λ x. (s.buf x).dirty) (sym same)))
      | inr ne ↦ rw ne refl
    ]

binit_for : (sector b : ℕ) (s : Bcache) → b < nbuf → is_for 1 sector ((binit s).buf b) ≡ false
unfolding binit init_from passes
binit_for sector b s lt =
    let other = passes_at nbuf (λ k. not (((binit s).buf k).dev == 1)) b refl lt in
    ground (arith, other)

-- `binit` links all buffers into the ring, the last one first, whatever the links were before; and as no
-- buffer is of disk 1 yet, the cache is coherent where no buffer was dirty.
pub binit_lem :
    (s : Bcache) (disk : Sectors)
    → ((b : ℕ) → b < nbuf → (s.buf b).dirty ≡ false)
    → IsRing initial_order (binit s) × IsCoherent (binit s) disk
unfolding binit
binit_lem s disk undirty = (
  binit-IsRing s,
  record {
    unique =
        λ k b c lt lt' f f'. (let free = binit_for k b s lt in absurd (ground (arith, free, f)));
    clean = λ k b lt f v cl. (let free = binit_for k b s lt in absurd (ground (arith, free, f)));
    dirty = λ b lt d. absurd (
        let now =
          init_from_dirty nbuf 0 b
            (record s { next = update s.next head head; prev = update s.prev head head })
          ∙ undirty b lt in
        ground (arith, now, d));
  },
)

-- ===== src/Fs/Path/Elements.antt =====
-- The elements of a path of kernel/fs.c.
use lainos_fail.Base.{
  ℕ, ◌<◌, ◌≡◌, ◌≢◌, ◌⊎◌, Option, none, some, List, [], ◌∷◌, ◌++◌, length, replicate, All,
}
use lainos_fail.Fs.Path.{slash, store_name}

-- The list does not begin with a slash; and it is empty or begins with one.
abbrev pub NoSlash : List ℕ → Type 0
NoSlash [] = Unit
NoSlash (c ∷ cs) = c ≢ slash

abbrev pub AtSlash : List ℕ → Type 0
AtSlash [] = Unit
AtSlash (c ∷ cs) = c ≡ slash

-- The path is slashes alone; or slashes, an element without a slash, slashes and a rest, which does not begin
-- with one and is empty where no slash ends the element.
abbrev pub Skips : (path name : List ℕ) → Option (List ℕ × List ℕ) → Type 0
Skips path name o =
    ((o ≡ none) × ((n : ℕ) × (path ≡ replicate n slash)))
    ⊎ ((n : ℕ) × (e : List ℕ) × (k : ℕ) × (rest : List ℕ) × (path
          ≡ replicate n slash ++ (e ++ (replicate k slash ++ rest)))
        × All (λ c. c ≢ slash) e
        × (0 < length e)
        × NoSlash rest
        × ((0 < k) ⊎ (rest ≡ []))
        × (o ≡ some (rest, store_name e name)))

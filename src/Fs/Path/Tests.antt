-- ===== src/Fs/Path/Tests.antt =====
-- The path `/a//b`.
use lainos_fail.Base.{ℕ, List, [], ◌∷◌, ◌≡◌, refl, some}
use lainos_fail.Fs.Path.{skip_slashes, elem_of, after_elem, skipelem}

abbrev sample : List ℕ
sample = 47 ∷ 97 ∷ 47 ∷ 47 ∷ 98 ∷ []

abbrev old_name : List ℕ
old_name = 1 ∷ 2 ∷ 3 ∷ 4 ∷ 5 ∷ 6 ∷ 7 ∷ 8 ∷ 9 ∷ 10 ∷ 11 ∷ 12 ∷ 13 ∷ 14 ∷ []

skips_first :
    skipelem sample old_name
    ≡ some (98 ∷ [], 97 ∷ 0 ∷ 3 ∷ 4 ∷ 5 ∷ 6 ∷ 7 ∷ 8 ∷ 9 ∷ 10 ∷ 11 ∷ 12 ∷ 13 ∷ 14 ∷ [])
unfolding skipelem skip_slashes elem_of after_elem
skips_first = refl

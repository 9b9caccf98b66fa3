-- ===== src/Fs/Path.antt =====
-- `skipelem` of kernel/fs.c, which takes the first element off a path. A path is the list of its bytes
-- before the NUL; `name` is the buffer of `DIRSIZ` bytes.
mod Elements
mod Tests
use lainos_fail.Base.{
  ℕ, zero, suc, ◌+◌, Bool, Option, none, some, List, [], ◌∷◌, ◌++◌, leb, ◌==◌, if◌then◌else◌,
  length, take, drop,
}

-- `DIRSIZ`
abbrev pub dirsiz : ℕ
dirsiz = 14

-- The byte `/`
abbrev pub slash : ℕ
slash = 47

unfoldable pub skip_slashes : List ℕ → List ℕ
skip_slashes [] = []
skip_slashes (c ∷ cs) = let rest = skip_slashes cs in if c == slash then rest else c ∷ cs

-- The loop up to the next slash or the end: the bytes passed, and those that are left.
unfoldable pub elem_of : List ℕ → List ℕ
elem_of [] = []
elem_of (c ∷ cs) = let rest = elem_of cs in if c == slash then [] else c ∷ rest

unfoldable pub after_elem : List ℕ → List ℕ
after_elem [] = []
after_elem (c ∷ cs) = let rest = after_elem cs in if c == slash then c ∷ cs else rest

-- The element copied into `name`: cut off at `DIRSIZ` bytes, or with a NUL after it.
abbrev pub store_name : (e name : List ℕ) → List ℕ
store_name e name =
    if leb dirsiz (length e) then take dirsiz e else e ++ 0 ∷ drop (length e + 1) name

abbrev pub take_elem : (path name : List ℕ) → Option (List ℕ × List ℕ)
take_elem [] name = none
take_elem (c ∷ cs) name =
    some (skip_slashes (after_elem (c ∷ cs)), store_name (elem_of (c ∷ cs)) name)

unfoldable pub skipelem : (path name : List ℕ) → Option (List ℕ × List ℕ)
skipelem path name = take_elem (skip_slashes path) name

-- ===== src/Fs/Paths.antt =====
-- kernel/fs.c: `skipelem` and the path elements that the loop of `namex` gets from it. A path is the list of its characters before the NUL;
-- a name is the list of those that `namecmp` compares, 14 at most.
use os_prioritypipes.Prelude.{
  ℕ, zero, suc, Bool, true, false, not, Option, none, some, List, [], ◌∷◌, take, ◌==◌,
  if◌then◌else◌,
}
pub mod Elements
pub mod Skipping

abbrev pub slash : ℕ
slash = 47

-- DIRSIZ
abbrev pub dirsiz : ℕ
dirsiz = 14

-- `while(*path == '/') path++;`
unfoldable pub skip_slashes : List ℕ → List ℕ
skip_slashes [] = []
skip_slashes (c ∷ path) = if c == slash then skip_slashes path else c ∷ path

-- `while(*path != '/' && *path != 0) path++;`, with the characters passed
unfoldable pub element : List ℕ → List ℕ × List ℕ
element [] = ([], [])
element (c ∷ path) =
    let (passed, rest) = element path in if c == slash then ([], c ∷ path) else (c ∷ passed, rest)

abbrev pub first_element : List ℕ → Option (List ℕ × List ℕ)
first_element [] = none
first_element (c ∷ path) =
    let (passed, rest) = element (c ∷ path) in some (take dirsiz passed, skip_slashes rest)

-- `skipelem`: the name and the path after it
abbrev pub skipelem : List ℕ → Option (List ℕ × List ℕ)
skipelem path = first_element (skip_slashes path)

-- `*path == '\0'`
abbrev pub is_end {ℓ} : {A : Type ℓ} → List A → Bool
is_end [] = true
is_end (c ∷ path) = false

abbrev pub next_names : (List ℕ → List (List ℕ)) → Option (List ℕ × List ℕ) → List (List ℕ)
next_names more none = []
next_names more (some (name, rest)) = name ∷ more rest

-- The names that `while((path = skipelem(path, name)) != 0)` sees one after the other.
unfoldable pub names : ℕ → List ℕ → List (List ℕ)
names zero path = []
names (suc rounds) path = next_names (names rounds) (skipelem path)

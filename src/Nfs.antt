-- ===== src/Nfs.antt =====
-- crates/protocol-nfs/src/lib.rs, the paths: texts are lists of character codes, 47 the slash, 92 the
-- backslash, 46 the dot.
pub mod Canonical
pub mod Namespace
use space.Prelude.{
  ℕ, ◌≡◌, Bool, true, false, Option, none, some, List, [], ◌∷◌, ◌++◌, map, nat_beq, bytes_beq, ◌||◌,
  not, ◌&&◌, if◌then◌else◌,
}

abbrev pub Text : Type 0
Text = List ℕ

pub record NormalizedPath : Type 0 where
  pub full : Text
  pub components : List Text

unfoldable pub attach : ℕ → List Text → List Text
attach c [] = (c ∷ []) ∷ []
attach c (part ∷ parts) = (c ∷ part) ∷ parts

-- The pieces between the slashes, of which `Path::components` skips the empty ones.
unfoldable pub split : Text → List Text
unfolding attach
split [] = [] ∷ []
split (c ∷ cs) = let rest = split cs in if nat_beq c 47 then [] ∷ rest else attach c rest

-- `components.pop()`.
unfoldable pub pop : List Text → List Text
pop [] = []
pop (part ∷ []) = []
pop (part ∷ next ∷ parts) = part ∷ pop (next ∷ parts)

-- `replace('\\', "/")`.
unfoldable pub slashes : Text → Text
slashes [] = []
slashes (c ∷ cs) = (if nat_beq c 92 then 47 else c) ∷ slashes cs

unfoldable pub push_component : List Text → Text → List Text
unfolding pop slashes
push_component components part =
    if bytes_beq part [] || bytes_beq part (46 ∷ [])
    then components
    else if bytes_beq part (46 ∷ 46 ∷ [])
    then pop components
    else components ++ slashes part ∷ []

unfoldable pub collect : List Text → List Text → List Text
unfolding push_component
collect components [] = components
collect components (part ∷ parts) = collect (push_component components part) parts

unfoldable pub join : List Text → Text
join [] = []
join (part ∷ []) = part
join (part ∷ next ∷ parts) = part ++ 47 ∷ join (next ∷ parts)

unfoldable pub full_path : List Text → Text
unfolding join
full_path [] = 47 ∷ []
full_path (part ∷ parts) = 47 ∷ join (part ∷ parts)

abbrev pub or_root : Text → Text
or_root [] = 47 ∷ []
or_root (c ∷ cs) = c ∷ cs

-- It never fails: a relative path is taken from the root.
unfoldable pub normalize_path : Text → NormalizedPath
unfolding collect split full_path
normalize_path path =
    let components = collect [] (split (or_root path)) in
    record { full = full_path components; components = components }

unfoldable pub parent_path : NormalizedPath → Option Text
unfolding pop full_path
parent_path p = elim p.components [
  | [] ↦ none
  | part ∷ parts ↦ some (full_path (pop (part ∷ parts)))
]

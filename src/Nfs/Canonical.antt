-- ===== src/Nfs/Canonical.antt =====
-- Normalized paths are the keys of the namespace: normalizing one again changes nothing.
use space.Prelude.{
  ℕ, ◌≡◌, refl, sym, ap, ◌∙◌, Bool, true, false, none, some, List, [], ◌∷◌, ◌++◌, nat_beq,
  bytes_beq, ◌||◌, not, ◌&&◌, arith, Bool-cases, inl, inr, ◌⊎◌,
}
use space.Nfs.{
  Text, NormalizedPath, attach, split, pop, slashes, push_component, collect, join, full_path,
  or_root, normalize_path, parent_path,
}

-- No character of a text is `c`.
abbrev pub lacks : ℕ → Text → Bool
lacks c [] = true
lacks c (d ∷ ds) = not (nat_beq d c) && lacks c ds

-- A component that stands for itself.
abbrev pub plain_part : Text → Bool
plain_part part =
    not (bytes_beq part []) && not (bytes_beq part (46 ∷ [])) && not (bytes_beq part (46 ∷ 46 ∷ []))

abbrev pub AllPlain : List Text → Type 0
AllPlain [] = Unit
AllPlain (part ∷ parts) =
    (plain_part part ≡ true) × (lacks 47 part ≡ true) × (lacks 92 part ≡ true) × AllPlain parts

abbrev AllWhole : List Text → Type 0
AllWhole [] = Unit
AllWhole (part ∷ parts) = (lacks 47 part ≡ true) × (lacks 92 part ≡ true) × AllWhole parts

split-append :
    (part rest : Text) → lacks 47 part ≡ true → split (part ++ 47 ∷ rest) ≡ part ∷ split rest
unfolding split attach
split-append [] rest h = refl
split-append (c ∷ cs) rest h = ground (arith, split-append cs rest)

split_whole : (part : Text) → lacks 47 part ≡ true → split part ≡ part ∷ []
unfolding split attach
split_whole [] h = refl
split_whole (c ∷ cs) h = ground (arith, split_whole cs)

split-join :
    (part : Text) (parts : List Text)
    → AllPlain (part ∷ parts)
    → split (join (part ∷ parts)) ≡ part ∷ parts
unfolding join
split-join part [] plain = split_whole part plain.1
split-join part (next ∷ parts) plain =
    split-append part (join (next ∷ parts)) plain.1 ∙ ap (◌∷◌ part) (split-join next parts plain.3)

slashes_whole : (part : Text) → lacks 92 part ≡ true → slashes part ≡ part
unfolding slashes
slashes_whole [] h = refl
slashes_whole (c ∷ cs) h = ground (arith, slashes_whole cs)

append_assoc : (xs ys zs : List Text) → (xs ++ ys) ++ zs ≡ xs ++ (ys ++ zs)
append_assoc [] ys zs = refl
append_assoc (x ∷ xs) ys zs = ap (◌∷◌ x) (append_assoc xs ys zs)

append_nil : (xs : List Text) → xs ++ [] ≡ xs
append_nil [] = refl
append_nil (x ∷ xs) = ap (◌∷◌ x) (append_nil xs)

push_plain :
    (components : List Text) (part : Text)
    → plain_part part ≡ true
    → lacks 92 part ≡ true
    → push_component components part ≡ components ++ part ∷ []
unfolding push_component
push_plain components part plain whole = rw (slashes_whole part whole) (ground arith)

collect_plain :
    (components parts : List Text) → AllPlain parts → collect components parts ≡ components ++ parts
unfolding collect
collect_plain components [] plain = sym (append_nil components)
collect_plain components (part ∷ parts) plain = rw (push_plain components part plain.0 plain.2) (
    collect_plain (components ++ part ∷ []) parts plain.3
    ∙ append_assoc components (part ∷ []) parts)

AllPlain-append :
    (xs : List Text) (part : Text)
    → AllPlain xs
    → plain_part part ≡ true
    → lacks 47 part ≡ true
    → lacks 92 part ≡ true
    → AllPlain (xs ++ part ∷ [])
AllPlain-append [] part all p q r = (p, q, r, tt)
AllPlain-append (x ∷ xs) part all p q r = (all.0, all.1, all.2, AllPlain-append xs part all.3 p q r)

pop-AllPlain : (xs : List Text) → AllPlain xs → AllPlain (pop xs)
unfolding pop
pop-AllPlain [] all = tt
pop-AllPlain (x ∷ []) all = tt
pop-AllPlain (x ∷ y ∷ xs) all = (all.0, all.1, all.2, pop-AllPlain (y ∷ xs) all.3)

push_component-AllPlain :
    (components : List Text) (part : Text)
    → AllPlain components
    → lacks 47 part ≡ true
    → lacks 92 part ≡ true
    → AllPlain (push_component components part)
unfolding push_component
push_component-AllPlain components part all q r =
    elim (Bool-cases (bytes_beq part [] || bytes_beq part (46 ∷ []))) [
      | inl skipped ↦ rw (push_component, skipped) all
      | inr real ↦ elim (Bool-cases (bytes_beq part (46 ∷ 46 ∷ []))) [
        | inl up ↦ rw (push_component, real, up) (pop-AllPlain components all)
        | inr down ↦
            rw (push_plain components part (ground (arith, real, down)) r)
              (AllPlain-append components part all (ground (arith, real, down)) q r)
      ]
    ]

collect-AllPlain :
    (components parts : List Text)
    → AllPlain components
    → AllWhole parts
    → AllPlain (collect components parts)
unfolding collect
collect-AllPlain components [] all whole = all
collect-AllPlain components (part ∷ parts) all whole =
    collect-AllPlain (push_component components part) parts
      (push_component-AllPlain components part all whole.0 whole.1) whole.2

attach-AllWhole :
    (c : ℕ) (parts : List Text)
    → nat_beq c 47 ≡ false
    → nat_beq c 92 ≡ false
    → AllWhole parts
    → AllWhole (attach c parts)
unfolding attach
attach-AllWhole c [] p q whole = (ground arith, ground arith, tt)
attach-AllWhole c (part ∷ parts) p q whole =
    (ground (arith, whole.0), ground (arith, whole.1), whole.2)

split-AllWhole : (path : Text) → lacks 92 path ≡ true → AllWhole (split path)
unfolding split
split-AllWhole [] h = (refl, refl, tt)
split-AllWhole (c ∷ cs) h = elim (Bool-cases (nat_beq c 47)) [
  | inl slash ↦ rw slash (refl, refl, split-AllWhole cs (ground arith))
  | inr other ↦
      rw other
        (attach-AllWhole c (split cs) other (ground arith) (split-AllWhole cs (ground arith)))
]

or_root-lacks : (path : Text) → lacks 92 path ≡ true → lacks 92 (or_root path) ≡ true
or_root-lacks [] h = refl
or_root-lacks (c ∷ cs) h = h

full_path-collect :
    (components : List Text)
    → AllPlain components
    → collect [] (split (or_root (full_path components))) ≡ components
unfolding full_path split collect push_component
full_path-collect [] all = refl
full_path-collect (part ∷ parts) all =
    rw (split-join part parts all) (collect_plain [] (part ∷ parts) all)

-- Normalizing a path without backslashes gives components that are neither empty nor dots and hold
-- no slash, and a text that normalizes to itself.
pub normalize_path_canonical :
    (path : Text)
    → lacks 92 path ≡ true
    → AllPlain (normalize_path path).components
      × (normalize_path (normalize_path path).full ≡ normalize_path path)
unfolding normalize_path
normalize_path_canonical path h =
    let components = collect [] (split (or_root path)) in
    let all : AllPlain components =
      collect-AllPlain [] (split (or_root path)) tt
        (split-AllWhole (or_root path) (or_root-lacks path h)) in
    let again = full_path-collect components all in
    (all, λ i. record { full = full_path (again i); components = again i })

-- What `parent_path` gives on plain components.
abbrev ParentOf : NormalizedPath → Type 0
ParentOf p =
    ((p.components ≡ []) × (parent_path p ≡ none))
    ⊎ ((parent : Text) × (parent_path p ≡ some parent)
        × ((normalize_path parent).components ≡ pop p.components)
        × ((normalize_path parent).full ≡ parent))

parent_path-ParentOf :
    (full : Text) (components : List Text)
    → AllPlain components
    → ParentOf (record { full = full; components = components })
unfolding parent_path normalize_path
parent_path-ParentOf full [] all = inl (refl, refl)
parent_path-ParentOf full (part ∷ parts) all =
    let again = full_path-collect (pop (part ∷ parts)) (pop-AllPlain (part ∷ parts) all) in
    inr (full_path (pop (part ∷ parts)), refl, again, ap full_path again)

-- The parent of a path without backslashes, which only the root lacks, normalizes to the path's
-- components but the last.
pub parent_path_components :
    (path : Text)
    → lacks 92 path ≡ true
    → let p = normalize_path path in
      ((p.components ≡ []) × (parent_path p ≡ none))
      ⊎ ((parent : Text) × (parent_path p ≡ some parent)
          × ((normalize_path parent).components ≡ pop p.components)
          × ((normalize_path parent).full ≡ parent))
parent_path_components path h =
    let p = normalize_path path in
    parent_path-ParentOf p.full p.components (normalize_path_canonical path h).0

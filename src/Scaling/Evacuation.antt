-- ===== src/Scaling/Evacuation.antt =====
-- How urgent an evacuation is (crates/scaling/src/compiler.rs).
use space.Prelude.{
  ◌≡◌, refl, ap, sym, ◌∙◌, ◌↔◌, inl, inr, true, Bool-cases, [], ◌∷◌, ◌++◌, nat_eq, eq_iff, arith,
}
use space.Common.{Bytes}
use space.Scaling.Compile.{starts_with, contains}

-- The pattern stands somewhere in the text.
abbrev pub Occurs : Bytes → Bytes → Type 0
Occurs pattern text = (before : Bytes) × (after : Bytes) × (text ≡ before ++ (pattern ++ after))

starts_with-append : (p after : Bytes) → starts_with p (p ++ after) ≡ true
starts_with-append [] after = refl
starts_with-append (c ∷ cs) after = ground (arith, eq_iff c c, starts_with-append cs after)

starts_with-rest :
    (p text : Bytes) → starts_with p text ≡ true → (after : Bytes) × (text ≡ p ++ after)
starts_with-rest [] text e = (text, refl)
starts_with-rest (c ∷ cs) [] e = absurd (cc)
starts_with-rest (c ∷ cs) (d ∷ ds) e =
    let same : c ≡ d = ground (arith, e, eq_iff c d) in
    let (after, rest) = starts_with-rest cs ds (ground (arith, e)) in
    (after, λ i. sym same i ∷ rest i)

contains-Occurs : (p text : Bytes) → contains p text ≡ true → Occurs p text
contains-Occurs p [] e = let (after, rest) = starts_with-rest p [] e in ([], after, rest)
contains-Occurs p (c ∷ cs) e = elim (Bool-cases (starts_with p (c ∷ cs))) [
  | inl here ↦ let (after, rest) = starts_with-rest p (c ∷ cs) here in ([], after, rest)
  | inr later ↦
      let (before, after, rest) = contains-Occurs p cs (ground (arith, e, later)) in
      (c ∷ before, after, ap (λ l. c ∷ l) rest)
]

Occurs-contains : (p before after : Bytes) → contains p (before ++ (p ++ after)) ≡ true
Occurs-contains p [] after = starts_first p (p ++ after) (starts_with-append p after)
  where
    starts_first : (p text : Bytes) → starts_with p text ≡ true → contains p text ≡ true
    starts_first p [] e = e
    starts_first p (c ∷ cs) e = rw e refl
Occurs-contains p (b ∷ bs) after = let rest = Occurs-contains p bs after in ground (arith, rest)

pub contains_iff : (p text : Bytes) → contains p text ≡ true ↔ Occurs p text
contains_iff p text = (contains-Occurs p text, λ o. ap (contains p) o.2 ∙ Occurs-contains p o.0 o.1)

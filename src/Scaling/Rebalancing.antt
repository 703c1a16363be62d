-- ===== src/Scaling/Rebalancing.antt =====
-- Which nodes a rebalancing names (crates/scaling/src/compiler.rs).
use space.Prelude.{
  ◌+◌, ◌%◌, ◌<◌, ◌≡◌, refl, ap, ◌∙◌, ◌↔◌, inl, inr, Bool, true, false, Bool-cases, List, [], ◌∷◌,
  ◌++◌, nat_beq, nat_eq, eq_iff, if◌then◌else◌, arith,
}
use space.Common.{u64_mod}
use space.Scaling.{NodeId, NodeInfo}
use space.Scaling.Compile.{Floats, find_underutilized}
use space.Scaling.Targets.{among}

module _ {F : Type 0} (floats : Floats F) where
  -- A node that has some space, and less than half of it in use.
  abbrev pub HasRoom : NodeInfo → Type 0
  HasRoom info =
      let total = (info.available_bytes + info.used_bytes) % u64_mod in
      (0 < total) × (floats.below (floats.percent info.used_bytes total) floats.half ≡ true)

  abbrev pub IsUnderused : List (NodeId × NodeInfo) → NodeId → Type 0
  IsUnderused nodes u =
      (info : NodeInfo) × (before : List (NodeId × NodeInfo)) × (after : List (NodeId × NodeInfo))
      × (nodes ≡ before ++ (u, info) ∷ after)
      × HasRoom info

  later :
      (n : NodeId × NodeInfo) (nodes : List (NodeId × NodeInfo)) (u : NodeId)
      → IsUnderused nodes u
      → IsUnderused (n ∷ nodes) u
  later n nodes u (info, before, after, where_is, room) =
      (info, n ∷ before, after, ap (λ l. n ∷ l) where_is, room)

  among-underused :
      (nodes : List (NodeId × NodeInfo)) (u : NodeId)
      → among u (find_underutilized floats nodes) ≡ true
      → IsUnderused nodes u
  unfolding find_underutilized
  among-underused [] u e = absurd (cc)
  among-underused ((id, info) ∷ nodes) u e =
      let total = (info.available_bytes + info.used_bytes) % u64_mod in
      split (nat_beq total 0) (floats.below (floats.percent info.used_bytes total) floats.half) refl
        refl (among-underused nodes u) e
    where
      split :
          (empty low : Bool)
          → nat_beq ((info.available_bytes + info.used_bytes) % u64_mod) 0 ≡ empty
          → floats.below
              (floats.percent info.used_bytes ((info.available_bytes + info.used_bytes) % u64_mod))
              floats.half
            ≡ low
          → (among u (find_underutilized floats nodes) ≡ true → IsUnderused nodes u)
          → among u (
              if empty
              then find_underutilized floats nodes
              else (if low
                  then id ∷ find_underutilized floats nodes
                  else find_underutilized floats nodes))
            ≡ true
          → IsUnderused ((id, info) ∷ nodes) u
      split true low f g ih there = later (id, info) nodes u (ih there)
      split false false f g ih there = later (id, info) nodes u (ih there)
      split false true f g ih there = elim (Bool-cases (nat_beq id u)) [
        | inl same ↦ (
          info,
          [],
          nodes,
          ap (λ n. (n, info) ∷ nodes) ((eq_iff id u).0 same),
          (ground (arith, f), g),
        )
        | inr other ↦ later (id, info) nodes u (ih (ground (arith, there, other)))
      ]

  underused-among :
      (before after : List (NodeId × NodeInfo)) (u : NodeId) (info : NodeInfo)
      → HasRoom info
      → among u (find_underutilized floats (before ++ (u, info) ∷ after)) ≡ true
  unfolding find_underutilized
  underused-among [] after u info (some_space, low) =
      let total = (info.available_bytes + info.used_bytes) % u64_mod in
      let e : nat_beq total 0 ≡ false = ground (arith, some_space) in
      rw (e, low) (ground (arith, eq_iff u u))
  underused-among ((id, other) ∷ before) after u info room =
      let total = (other.available_bytes + other.used_bytes) % u64_mod in
      let rest = underused-among before after u info room in
      elim (Bool-cases (nat_beq total 0)) [
        | inl empty ↦ rw empty rest
        | inr some_space ↦
            elim (Bool-cases (floats.below (floats.percent other.used_bytes total) floats.half)) [
              | inl low ↦ rw (some_space, low) (ground (arith, rest))
              | inr high ↦ rw (some_space, high) rest
            ]
      ]

  -- The nodes that the search finds are those of the mesh that are less than half used.
  pub find_underutilized_iff :
      (nodes : List (NodeId × NodeInfo)) (u : NodeId)
      → among u (find_underutilized floats nodes) ≡ true ↔ IsUnderused nodes u
  find_underutilized_iff nodes u = (
    among-underused nodes u,
    λ (info, before, after, where_is, room).
        ap (λ l. among u (find_underutilized floats l)) where_is
        ∙ underused-among before after u info room,
  )

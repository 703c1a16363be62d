-- ===== src/Scaling/Projection.antt =====
-- The zones over which the policy compiler shards a view projection
-- (crates/scaling/src/compiler.rs).
use space.Prelude.{
  ◌≡◌, refl, sym, ap, ◌∙◌, ◌↔◌, Bool, true, false, ◌||◌, Bool-cases, inl, inr, List, [], ◌∷◌, ◌++◌,
  if◌then◌else◌, arith, bytes_beq_iff,
}
use space.Scaling.{
  NodeId, ZoneId, metro, geo, edge, NodeInfo, MeshState, known, add_zones, zone_ids, zone_beq,
}

zone_beq-eq : (a b : ZoneId) → zone_beq a b ≡ true → a ≡ b
unfolding zone_beq
zone_beq-eq (metro a) (metro b) e = ap metro ((bytes_beq_iff a b).0 e)
zone_beq-eq (metro a) (geo b) e = cc
zone_beq-eq (metro a) (edge b) e = cc
zone_beq-eq (geo a) (metro b) e = cc
zone_beq-eq (geo a) (geo b) e = ap geo ((bytes_beq_iff a b).0 e)
zone_beq-eq (geo a) (edge b) e = cc
zone_beq-eq (edge a) (metro b) e = cc
zone_beq-eq (edge a) (geo b) e = cc
zone_beq-eq (edge a) (edge b) e = ap edge ((bytes_beq_iff a b).0 e)

zone_beq_self : (a : ZoneId) → zone_beq a a ≡ true
unfolding zone_beq
zone_beq_self (metro a) = (bytes_beq_iff a a).1 refl
zone_beq_self (geo a) = (bytes_beq_iff a a).1 refl
zone_beq_self (edge a) = (bytes_beq_iff a a).1 refl

known-append :
    (z : ZoneId) (zones : List ZoneId) (y : ZoneId)
    → known z zones ≡ true
    → known z (zones ++ y ∷ []) ≡ true
known-append z [] y there = absurd (cc)
known-append z (x ∷ xs) y there = elim (Bool-cases (zone_beq x z)) [
  | inl e ↦ rw e refl
  | inr e ↦ let tail = known-append z xs y (ground arith) in ground arith
]

known-last_only :
    (z : ZoneId) (zones : List ZoneId) (y : ZoneId)
    → known z (zones ++ y ∷ []) ≡ known z zones || zone_beq y z
known-last_only z [] y = ground arith
known-last_only z (x ∷ xs) y = let rest = known-last_only z xs y in ground (arith, rest)

known-last : (zones : List ZoneId) (y : ZoneId) → known y (zones ++ y ∷ []) ≡ true
known-last [] y = rw (zone_beq_self y) refl
known-last (x ∷ xs) y = let tail = known-last xs y in ground arith

known-more :
    (y : ZoneId) (zones : List ZoneId)
    → known y (if known y zones then zones else zones ++ y ∷ []) ≡ true
known-more y zones = elim (Bool-cases (known y zones)) [
  | inl e ↦ rw e e
  | inr e ↦ rw e (known-last zones y)
]

-- Extra zones are kept, and each node's zone is among them in the end.
add_zones-keeps :
    (nodes : List (NodeId × NodeInfo)) (zones : List ZoneId) (z : ZoneId)
    → known z zones ≡ true
    → known z (add_zones nodes zones) ≡ true
unfolding add_zones
add_zones-keeps [] zones z there = there
add_zones-keeps ((id, info) ∷ nodes) zones z there =
    add_zones-keeps nodes (if known info.zone_id zones then zones else zones ++ info.zone_id ∷ []) z
      (elim (Bool-cases (known info.zone_id zones)) [
        | inl e ↦ rw e there
        | inr e ↦ rw e (known-append z zones info.zone_id there)
      ])

-- Whether some node of the mesh is in the zone.
abbrev pub populated : ZoneId → List (NodeId × NodeInfo) → Bool
populated z [] = false
populated z ((id, info) ∷ nodes) = zone_beq info.zone_id z || populated z nodes

add_zones-known :
    (nodes : List (NodeId × NodeInfo)) (zones : List ZoneId) (z : ZoneId)
    → populated z nodes ≡ true
    → known z (add_zones nodes zones) ≡ true
unfolding add_zones
add_zones-known [] zones z there = absurd (cc)
add_zones-known ((id, info) ∷ nodes) zones z there =
    let more = if known info.zone_id zones then zones else zones ++ info.zone_id ∷ [] in
    elim (Bool-cases (zone_beq info.zone_id z)) [
      | inl mine ↦ add_zones-keeps nodes more z (
          ap (λ y. known y more) (sym (zone_beq-eq info.zone_id z mine))
          ∙ known-more info.zone_id zones)
      | inr other ↦ add_zones-known nodes more z (ground arith)
    ]

-- No other zone is added.
add_zones-only :
    (nodes : List (NodeId × NodeInfo)) (zones : List ZoneId) (z : ZoneId)
    → known z (add_zones nodes zones) ≡ true
    → known z zones || populated z nodes ≡ true
unfolding add_zones
add_zones-only [] zones z e = ground arith
add_zones-only ((id, info) ∷ nodes) zones z e = elim (Bool-cases (known info.zone_id zones)) [
  | inl there ↦
      let rest = add_zones-only nodes zones z (sym (rw there refl) ∙ e) in ground (arith, rest)
  | inr missing ↦
      let rest = add_zones-only nodes (zones ++ info.zone_id ∷ []) z (sym (rw missing refl) ∙ e) in
      let last = known-last_only z zones info.zone_id in ground (arith, rest, last)
]

-- The zones of a mesh: the local one, and those of its nodes.
pub zone_ids_iff :
    (mesh : MeshState) (z : ZoneId)
    → known z (zone_ids mesh) ≡ true ↔ zone_beq mesh.local_zone z || populated z mesh.nodes ≡ true
unfolding zone_ids
zone_ids_iff mesh z = (
  λ e. let rest = add_zones-only mesh.nodes (mesh.local_zone ∷ []) z e in ground (arith, rest),
  λ e. elim (Bool-cases (populated z mesh.nodes)) [
    | inl there ↦ add_zones-known mesh.nodes (mesh.local_zone ∷ []) z there
    | inr missing ↦ add_zones-keeps mesh.nodes (mesh.local_zone ∷ []) z (ground (arith, e, missing))
  ],
)

-- ===== src/Refcounts/Listed.antt =====
-- A walk over the segments of the log while the log changes.
use space.Prelude.{
  ◌<◌, ◌≡◌, refl, some, none, List, [], ◌∷◌, Map, lookup, Distinct, nat_eq, arith, eq_iff, count,
  values,
}
use space.Common.{SegmentId, Segment}

abbrev pub ids_of : List Segment → List SegmentId
ids_of [] = []
ids_of (seg ∷ rest) = seg.id ∷ ids_of rest

-- The segments still to be walked are those of the map, each once.
abbrev pub Listed : List Segment → Map SegmentId Segment → Type 0
Listed [] m = Unit
Listed (seg ∷ rest) m =
    (lookup seg.id m ≡ some seg) × (count seg.id (ids_of rest) ≡ 0) × Listed rest m

-- A change of the map at other ids leaves the walk.
pub Listed-change :
    (segs : List Segment) (m m' : Map SegmentId Segment)
    → ((j : SegmentId) → 0 < count j (ids_of segs) → lookup j m' ≡ lookup j m)
    → Listed segs m
    → Listed segs m'
Listed-change [] m m' same l = tt
Listed-change (seg ∷ rest) m m' same l = (
  ground (arith, same seg.id, eq_iff seg.id seg.id),
  l.1,
  Listed-change rest m m' (λ j h. same j (omega arith)) l.2,
)

unfoldable pub IsNamed : Map SegmentId Segment → Type 0
IsNamed m = (s : SegmentId) (seg : Segment) → lookup s m ≡ some seg → seg.id ≡ s

tail-IsNamed :
    (k : SegmentId) (v : Segment) (m : Map SegmentId Segment)
    → lookup k m ≡ none
    → IsNamed ((k, v) ∷ m)
    → IsNamed m
unfolding IsNamed lookup
tail-IsNamed k v m fresh named s seg e = named s seg (ground (arith, eq_iff k s))

-- Every id of the map is listed, and no other.
pub count-values :
    (m : Map SegmentId Segment) (j : SegmentId)
    → IsNamed m
    → Distinct m
    → (lookup j m ≡ none → count j (ids_of (values m)) ≡ 0)
      × ((seg : Segment) → lookup j m ≡ some seg → 0 < count j (ids_of (values m)))
unfolding lookup
count-values [] j named d = (λ h. refl, λ seg e. ground arith)
count-values ((k, v) ∷ m) j named d =
    let rest = count-values m j (tail-IsNamed k v m d.0 named) d.1 in
    let mine : v.id ≡ k = unfold IsNamed in named k v (ground (arith, eq_iff k k)) in
    (
      λ h. ground (arith, rest.0, eq_iff k j, eq_iff v.id j, mine),
      λ seg e. ground (arith, rest.1 seg, eq_iff k j, eq_iff v.id j, mine),
    )

pub values-Listed : (m : Map SegmentId Segment) → IsNamed m → Distinct m → Listed (values m) m
unfolding lookup
values-Listed [] named d = tt
values-Listed ((k, v) ∷ m) named d =
    let mine : v.id ≡ k = unfold IsNamed in named k v (ground (arith, eq_iff k k)) in
    let rest = count-values m v.id (tail-IsNamed k v m d.0 named) d.1 in
    let absent : count v.id (ids_of (values m)) ≡ 0 = rest.0 (ground (arith, mine, d.0)) in
    (
      ground (arith, mine, eq_iff k v.id),
      absent,
      Listed-change (values m) m ((k, v) ∷ m) (λ j h. ground (arith, eq_iff k j, mine, absent))
          (values-Listed m (tail-IsNamed k v m d.0 named) d.1),
    )

-- ===== src/Refcounts/Forget.antt =====
-- What forgetting a segment's content does to the registry.
use space.Prelude.{
  ◌≡◌, ◌≢◌, ◌⊎◌, refl, Bool, true, false, Option, none, some, ok, lookup, Distinct, nat_eq,
  bytes_eq, arith, eq_iff, lookup-remove, remove-Distinct, Option-cases, inl, inr, nat_beq,
  Bool-cases,
}
use space.Common.{SegmentId, ContentHash}
use space.Registry.{CapsuleRegistry, deregister_content}
use space.Gc.{World, forget_content}

-- `r` lost at most the entries by which `hash` named the segment `s`.
pub record Forgets (hash : Option ContentHash) (s : SegmentId) (r r' : CapsuleRegistry)
    : Type 0 where
  pub capsules : r'.capsules ≡ r.capsules
  pub counter : r'.next_segment_id ≡ r.next_segment_id
  pub still_distinct : Distinct r'.content_store
  pub kept :
      (h : ContentHash) (t : SegmentId)
      → lookup h r'.content_store ≡ some t
      → lookup h r.content_store ≡ some t
  pub others :
      (h : ContentHash) (t : SegmentId)
      → t ≢ s
      → lookup h r.content_store ≡ some t
      → lookup h r'.content_store ≡ some t
  pub written : (r' ≡ r) ⊎ (r'.saved ≡ r'.state)
  pub gone : (h : ContentHash) → hash ≡ some h → lookup h r'.content_store ≢ some s

deregister-Forgets :
    (h : ContentHash) (s : SegmentId) (r : CapsuleRegistry)
    → Distinct r.content_store
    → Forgets (some h) s r (deregister_content true h s r).1
unfolding deregister_content
deregister-Forgets h s r d = elim (Option-cases (lookup h r.content_store)) [
  | inl e ↦ rw e (record {
    capsules = refl;
    counter = refl;
    still_distinct = d;
    kept = λ k t p. p;
    others = λ k t ne p. p;
    written = inl refl;
    gone = λ k p q. ground (arith);
  })
  | inr (t, e) ↦ elim (Bool-cases (nat_beq t s)) [
    | inl same ↦
        rw (e, deregister_content, same)
          (record {
            capsules = refl;
            counter = refl;
            still_distinct = remove-Distinct h r.content_store d;
            kept = λ k t' p. ground (arith, lookup-remove h k r.content_store d);
            others = λ k t' ne p.
                ground (arith, lookup-remove h k r.content_store d, eq_iff h k, eq_iff t s, e);
            written = inr refl;
            gone = λ k p q. ground (arith, lookup-remove h k r.content_store d, eq_iff h k);
          })
    | inr other ↦
        rw (e, deregister_content, other)
          (record {
            capsules = refl;
            counter = refl;
            still_distinct = d;
            kept = λ k t' p. p;
            others = λ k t' ne p. p;
            written = inl refl;
            gone = λ k p q. ground arith;
          })
  ]
]

deregister-succeeds :
    (h : ContentHash) (s : SegmentId) (r : CapsuleRegistry)
    → (b : Bool) × ((deregister_content true h s r).0 ≡ ok b)
unfolding deregister_content
deregister-succeeds h s r = elim (Option-cases (lookup h r.content_store)) [
  | inl e ↦ (false, rw e refl)
  | inr (t, e) ↦ elim (Bool-cases (nat_beq t s)) [
    | inl same ↦ (true, rw (e, deregister_content, same) refl)
    | inr other ↦ (false, rw (e, deregister_content, other) refl)
  ]
]

-- `forget_content` succeeds, leaves the log alone, and forgets.
pub forget_content_lem :
    (hash : Option ContentHash) (s : SegmentId) (w : World)
    → Distinct w.registry.content_store
    → (b : Bool) × (r' : CapsuleRegistry) × (forget_content hash s w
        ≡ (ok b, record w { registry = r' }))
      × Forgets hash s w.registry r'
unfolding forget_content
forget_content_lem none s w d = (
  true,
  w.registry,
  refl,
  record {
    capsules = refl;
    counter = refl;
    still_distinct = d;
    kept = λ k t p. p;
    others = λ k t ne p. p;
    written = inl refl;
    gone = λ k p q. cc;
  },
)
forget_content_lem (some h) s w d =
    let (b, e) = deregister-succeeds h s w.registry in
    (b, (deregister_content true h s w.registry).1, rw e refl, deregister-Forgets h s w.registry d)

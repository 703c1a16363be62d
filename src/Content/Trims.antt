-- ===== src/Content/Trims.antt =====
-- Deleting and counting anew leave what the other capsules read as alone.
use space.Prelude.{
  ◌≡◌, ◌≢◌, refl, ap, ◌∙◌, some, ok, err, [], lookup, remove, nat_eq, bytes_eq, arith, eq_iff,
  lookup-remove, inl, inr, capsule_not_found,
}
use space.Common.{SegmentId, CapsuleId, Capsule, Segment}
use space.Registry.{lookup_capsule}
use space.Gc.{World}
use space.Pipeline.Services.{Services}
use space.Pipeline.Read.{read_capsule, decrypted, open_sealed, metadata_of}
use space.Pipeline.Release.{delete_capsule}
use space.Refcounts.{IsCounted}
use space.Refcounts.Trims.{Trims}
use space.Refcounts.Recover.{IsLoadable, reconcile_refcounts-IsCounted}
use space.Pipeline.Reconcile.{reconcile_refcounts}
use space.Refcounts.Delete.{delete_capsule-IsCounted}
use space.Content.{HoldsContent, plain}
use space.Content.Capsules.{read_segments-gather, gather_same, capsule_alive}

module _ (s : Services) {w w' : World} (t : Trims w w') where
  -- A segment that is still there reads as before.
  pub plain-Trims :
      (j : SegmentId) (seg' : Segment)
      → lookup j w'.nvram.segment_map ≡ some seg'
      → plain s j w' ≡ plain s j w
  unfolding plain decrypted open_sealed metadata_of
  plain-Trims j seg' e' =
      let (seg, e, same) = t.segments.of j seg' e' in rw (e', e, t.file, same) refl

  pub HoldsContent-Trims : IsCounted [] w' → HoldsContent s w → HoldsContent s w'
  HoldsContent-Trims inv holds = record {
    at = λ h id e.
        let (b, reads, hashed) = holds.at h id (t.content h id e) in
        let (seg', there, named) = inv.content h id e in
        (b, plain-Trims id seg' there ∙ reads, hashed);
  }

  -- A capsule that is still there reads as before.
  pub read_capsule-Trims :
      (id : CapsuleId) (c : Capsule)
      → IsCounted [] w'
      → lookup id w.registry.capsules ≡ some c
      → lookup id w'.registry.capsules ≡ some c
      → (read_capsule s id w').0 ≡ (read_capsule s id w).0
  unfolding read_capsule lookup_capsule
  read_capsule-Trims id c inv e e' =
      rw (e, e')
        (rw
          (
            read_segments-gather s c.policy.compression c.segments w,
            read_segments-gather s c.policy.compression c.segments w',
          )
          (gather_same s c.policy.compression c.segments w w' (λ j h.
            let (seg', there) = capsule_alive s id c w' inv e' j h in plain-Trims j seg' there)))

-- Deleting a capsule that is there, from a world with exact counts whose content store names what
-- it says, succeeds; the capsule is gone, every other one reads as before, the counts stay exact
-- and the content store still names what it says.
pub delete_capsule_keeps_others :
    (s : Services) (id : CapsuleId) (c : Capsule) (w : World)
    → IsCounted [] w
    → HoldsContent s w
    → lookup id w.registry.capsules ≡ some c
    → (w' : World) × (delete_capsule id w ≡ (ok tt, w'))
      × ((read_capsule s id w').0 ≡ err capsule_not_found)
      × ((other : CapsuleId) (d : Capsule)
          → other ≢ id
          → lookup other w.registry.capsules ≡ some d
          → (read_capsule s other w').0 ≡ (read_capsule s other w).0)
      × IsCounted [] w'
      × HoldsContent s w'
      × (w'.registry.capsules ≡ remove id w.registry.capsules)
delete_capsule_keeps_others s id c w inv holds e = elim (delete_capsule-IsCounted id w inv) [
  | inl missing ↦ absurd (ground (arith, e, missing.0))
  | inr (w', done, inv', caps, t) ↦
      let after : (j : CapsuleId)
          → lookup j w'.registry.capsules ≡ lookup j (remove id w.registry.capsules) =
        λ j. ap (lookup j) caps in
      (
        w',
        done,
        unfold read_capsule lookup_capsule in
            rw (after id) (
              ground (
                arith,
                lookup-remove id id w.registry.capsules inv.capsules_distinct,
                eq_iff id id,
              )),
        λ other d ne there. read_capsule-Trims s t other d inv' there (
            ground (
              arith,
              after other,
              lookup-remove id other w.registry.capsules inv.capsules_distinct,
              eq_iff id other,
            )),
        inv',
        HoldsContent-Trims s t inv' holds,
        caps,
      )
]

-- After reconciling a registry and a log that fit each other, every capsule reads as before, and
-- what the content store names, it names rightly if it did so before.
pub reconcile_refcounts_keeps_contents :
    (s : Services) (w : World)
    → IsLoadable w
    → (w' : World) × (reconcile_refcounts w ≡ (ok tt, w'))
      × ((id : CapsuleId) (c : Capsule)
          → lookup id w.registry.capsules ≡ some c
          → (read_capsule s id w').0 ≡ (read_capsule s id w).0)
      × (HoldsContent s w → HoldsContent s w')
reconcile_refcounts_keeps_contents s w q =
    let (w', e, inv, t, rec) = reconcile_refcounts-IsCounted w q in
    let caps = rec.else_same.capsules in
    (
      w',
      e,
      λ id c there. read_capsule-Trims s t id c inv there (ap (lookup id) caps ∙ there),
      λ holds. HoldsContent-Trims s t inv holds,
    )

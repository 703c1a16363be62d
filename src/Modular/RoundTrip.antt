-- ===== src/Modular/RoundTrip.antt =====
-- What is written through the modular pipeline is read back (crates/pipeline/src/lib.rs over any
-- storage with the laws).
use mathlib.Core.Path.{subst}
use space.Prelude.{
  ok_inj, ℕ, ◌+◌, ◌<◌, ◌≡◌, ◌≢◌, refl, sym, ap, ◌∙◌, false, some, ok, List, [], ◌∷◌, ◌++◌,
  append_assoc, append-nil, lookup, insert, lookup-insert, nat_beq, nat_eq, eq_iff, arith, length,
  take, drop, take-drop,
}
use space.Common.{Bytes, CapsuleId, Capsule, Policy, u64_mod, default_segment_size}
use space.Pipeline.Services.{no_stats}
use space.Pipeline.Write.{chunks}
use space.Content.Chunks.{joined, joined-chunks}
use space.Disk.{drop-drop, drop-past}
use space.Layout.{SegmentRef, ZonePlan, synthesize}
use space.Layout.Placing.{refs_of, Covers}
use space.Layout.Cover.{Supported, synthesize_covers}
use space.Storage.{StorageBackend}
use space.Storage.Laws.{StorageLaws}
use space.Modular.Catalog.{create_capsule, catalog_lookup_capsule}
use space.Modular.Write.{Parts, PipelineState, plan_of, write_capsule}
use space.Modular.Read.{read_capsule}
use space.Modular.Reading.{AllHold, AllHold-kept, fetch_segments-AllHold}
use space.Modular.Storing.{IsTransparent, IsCoherent}
use space.Modular.Zones.{pieces, AllWritable, write_zones-Wrote}

-- Segments that cover the bytes from `start` to `stop` give them back, joined.
joined-pieces :
    (h : Bytes → List ℕ) (size : ℕ) (bytes : Bytes) (rs : List SegmentRef) (start stop : ℕ)
    → Covers h size bytes start rs stop
    → joined (pieces bytes rs) ++ drop stop bytes ≡ drop start bytes
unfolding joined
joined-pieces h size bytes [] start stop c = ap (λ n. drop n bytes) (sym c)
joined-pieces h size bytes (r ∷ rs) start stop c =
    let rest = joined-pieces h size bytes rs (start + r.len) stop c.4 in
    append_assoc (take r.len (drop r.offset bytes)) (joined (pieces bytes rs)) (drop stop bytes)
    ∙ ap (λ l. take r.len (drop r.offset bytes) ++ l) (rest ∙ drop-drop start r.len bytes)
    ∙ ap (λ n. take r.len (drop n bytes) ++ drop r.len (drop start bytes)) c.0
    ∙ take-drop r.len (drop start bytes)

module _ {S T : Type 0} (b : StorageBackend S T) (laws : StorageLaws b) (parts : Parts) where
  -- A capsule of the catalog whose segments read as the text.
  pub record Readable (p : PipelineState S) (id : CapsuleId) (text : Bytes) : Type 0 where
    pub capsule : Capsule
    pub cs : List Bytes
    pub there : lookup id p.catalog.capsules ≡ some capsule
    pub holds : AllHold b laws parts p.storage capsule.segments cs
    pub whole : joined cs ≡ text

  -- A readable capsule reads as its text, and the pipeline is as it was.
  pub read_capsule-Readable :
      (id : CapsuleId) (text : Bytes) (p : PipelineState S)
      → Readable p id text
      → read_capsule parts b id p ≡ (ok text, p)
  unfolding read_capsule catalog_lookup_capsule
  read_capsule-Readable id text p r =
      rw
        (
          r.there,
          fetch_segments-AllHold b laws parts r.capsule.policy.encryption r.capsule.segments r.cs p
              r.holds,
          r.whole,
        )
        refl

  -- What `write_capsule` gives.
  pub record WroteCapsule (meaning : Bytes → Bytes) (now : ℕ) (id : CapsuleId) (bytes : Bytes)
      (policy : Policy) (p q : PipelineState S) : Type 0 where
    pub ran : write_capsule b parts now id bytes policy p ≡ (ok id, q)
    pub coherent : IsCoherent b laws parts meaning q
    pub reads : read_capsule parts b id q ≡ (ok bytes, q)
    pub others :
        (other : CapsuleId) (text : Bytes)
        → other ≢ id
        → Readable p other text
        → read_capsule parts b other q ≡ (ok text, q)

  -- The pieces of a plan are the input, whole.
  plan_of-pieces :
      (id : CapsuleId) (policy : Policy) (bytes : Bytes) (plan : ZonePlan)
      → 0 < default_segment_size policy.layout.strategy
      → Supported policy.layout.strategy
      → plan_of b parts id policy bytes ≡ ok plan
      → joined (pieces bytes (refs_of plan.zones)) ≡ bytes
  unfolding plan_of
  plan_of-pieces id policy bytes plan pos supported planned =
      let size = default_segment_size policy.layout.strategy in
      let slices = chunks (length bytes) size bytes in
      let whole : joined slices ≡ bytes =
        joined-chunks (length bytes) size bytes pos (omega arith) in
      let sized : nat_beq size 0 ≡ false = ground arith in
      let (plan', made, covered, numbered) =
        (synthesize_covers parts.hash_bytes policy (id ∷ []) slices pos).0 supported in
      let as_is : plan_of b parts id policy bytes
          ≡ synthesize parts.hash_bytes policy (id ∷ []) slices =
        rw sized refl in
      let same : plan' ≡ plan = ok_inj (sym made ∙ sym as_is ∙ planned) in
      let all : Covers parts.hash_bytes size bytes 0 (refs_of plan.zones) (length bytes) =
        subst (λ (t : Bytes). Covers parts.hash_bytes size t 0 (refs_of plan.zones) (length t))
          whole
          (subst
            (λ (z : ZonePlan).
              Covers parts.hash_bytes size (joined slices) 0 (refs_of z.zones)
                (length (joined slices)))
            same covered) in
      sym (append-nil (joined (pieces bytes (refs_of plan.zones))))
      ∙ ap (λ l. joined (pieces bytes (refs_of plan.zones)) ++ l)
          (sym (drop-past (length bytes) bytes (omega arith)))
      ∙ joined-pieces parts.hash_bytes size bytes (refs_of plan.zones) 0 (length bytes) all

  -- Over any storage that keeps the laws, with an encryptor that opens what it encrypts and a hash
  -- without collisions: if the catalog and the storage agree, the layout strategy is built in with
  -- a segment size above 0, each piece of the plan compresses to a view that stands for it, and
  -- the segment ids suffice, then writing a capsule succeeds, the capsule reads back as the bytes
  -- written, every other capsule that was readable reads as before, and catalog and storage agree
  -- again.
  pub write_capsule_reads_back :
      (trans : IsTransparent b laws parts) (meaning : Bytes → Bytes)
      (injective : (x y : Bytes) → parts.hash_bytes x ≡ parts.hash_bytes y → x ≡ y) (now : ℕ)
      (id : CapsuleId) (bytes : Bytes) (policy : Policy) (plan : ZonePlan) (p : PipelineState S)
      → IsCoherent b laws parts meaning p
      → 0 < default_segment_size policy.layout.strategy
      → Supported policy.layout.strategy
      → plan_of b parts id policy bytes ≡ ok plan
      → AllWritable b laws parts meaning policy bytes (refs_of plan.zones)
      → p.catalog.next_segment + length (refs_of plan.zones) < u64_mod
      → (q : PipelineState S) × WroteCapsule meaning now id bytes policy p q
  unfolding write_capsule create_capsule
  write_capsule_reads_back trans meaning injective now id bytes policy plan p inv pos supported
        planned fine room =
      let (ids, stats, q, ran, w) =
        write_zones-Wrote b laws parts trans meaning injective id policy bytes plan.zones no_stats p
          inv fine room in
      let capsule : Capsule = record {
        id = id;
        size = length bytes;
        segments = ids;
        created_at = now;
        policy = policy;
        deduped_bytes = stats.bytes_saved;
      } in
      let q' : PipelineState S = record q {
        catalog = record q.catalog { capsules = insert id capsule q.catalog.capsules };
      } in
      let mine : Readable q' id bytes = record {
        capsule = capsule;
        cs = pieces bytes (refs_of plan.zones);
        there = ground (arith, lookup-insert id id capsule q.catalog.capsules, eq_iff id id);
        holds = w.holds;
        whole = plan_of-pieces id policy bytes plan pos supported planned;
      } in
      (
        q',
        record {
          ran = rw (planned, ran) refl;
          coherent = record {
            valid = w.coherent.valid;
            content = w.coherent.content;
            fresh = w.coherent.fresh;
          };
          reads = read_capsule-Readable id bytes q' mine;
          others = λ other text differ r. read_capsule-Readable other text q' (record {
            capsule = r.capsule;
            cs = r.cs;
            there = ground (
              arith,
              lookup-insert id other capsule q.catalog.capsules,
              eq_iff id other,
              w.capsules,
              r.there,
            );
            holds =
                AllHold-kept b laws parts p.storage q.storage r.capsule.segments r.cs w.keeps
                  r.holds;
            whole = r.whole;
          });
        },
      )

-- ===== src/Modular/Storing.antt =====
-- One chunk through the modular pipeline (crates/pipeline/src/lib.rs), stored or shared.
use space.Prelude.{
  ◌+◌, ◌%◌, ◌<◌, ◌≤◌, ◌≡◌, refl, sym, ap, ◌∙◌, true, false, none, some, Option-cases, Result, ok,
  err, continue, pure, List, [], ◌∷◌, lookup, insert, lookup-insert, nat_beq, nat_eq, bytes_eq,
  eq_iff, ◌==◌, if◌then◌else◌, arith, Bool-cases, inl, inr,
}
use space.Common.{
  Bytes, SegmentId, CapsuleId, ContentHash, EncryptionPolicy, Policy, Segment, is_enabled, u64_mod,
}
use space.Compression.{decompress}
use space.Storage.{StorageBackend, in_txn, begun, closed}
use space.Storage.Laws.{StorageLaws, calls_then_commit, TxnCall, puts, describes}
use space.Modular.Catalog.{allocate_segment, catalog_register_content, deduper_register}
use space.Modular.Encryptors.{EncryptionSummary, new_summary}
use space.Modular.Write.{
  Parts, PipelineState, CompressionSummary, compress, describe_segment, derive_if, payload_of,
  store_segment, begun_with, with_txn, store_in, place_view, write_chunk, Noted, note,
}
use space.Modular.Read.{decrypt_stored, decompress_stored}
use space.Modular.Reading.{Holds, Keeps, Holds-same, share_segment-Keeps}

module _ {S T : Type 0} (b : StorageBackend S T) (laws : StorageLaws b) (parts : Parts) where
  -- The encryptor opens what it encrypts, without asking for a key version, and keys can be had.
  pub record IsTransparent : Type 0 where
    pub opens :
        (v : Bytes) (policy : EncryptionPolicy) (id : SegmentId)
        → (payload : Bytes) × (sealed : EncryptionSummary) × (parts.encryptor.encrypt_payload v
              policy id
            ≡ ok (payload, sealed))
          × ((other : EncryptionPolicy) → parts.encryptor.decrypt_payload payload other id ≡ ok v)
    pub keyed : (capsule : CapsuleId) (id : SegmentId) → derive_if parts.keyring capsule id ≡ ok tt

  -- The compressed view `v` under `summary` decodes to `c`.
  abbrev pub Decodes : Bytes → CompressionSummary → Bytes → Type 0
  Decodes v summary c =
      (if summary.compressed then decompress parts.codec v summary.algorithm else ok v) ≡ ok c

  -- What the catalog and the storage agree on; `meaning` says what a view stands for.
  pub record IsCoherent (meaning : Bytes → Bytes) (p : PipelineState S) : Type 0 where
    pub valid : laws.IsValid p.storage
    pub content :
        (hash : ContentHash) (id : SegmentId)
        → lookup hash p.catalog.content ≡ some id
        → (v : Bytes) × (parts.hash_bytes v ≡ hash) × Holds b laws parts p.storage id (meaning v)
    pub fresh :
        (id : SegmentId) (m : Segment)
        → laws.meta_at p.storage id ≡ some m
        → id < p.catalog.next_segment

  module _ (trans : IsTransparent) where
    -- What the encryption step makes of a view, and that it can be undone.
    payload_of-opens :
        (capsule : CapsuleId) (policy : EncryptionPolicy) (id : SegmentId) (v : Bytes)
        → (payload : Bytes) × (sealed : EncryptionSummary) × (payload_of b parts capsule policy id v
            ≡ ok (payload, sealed))
          × ((other : EncryptionPolicy)
              → (if is_enabled policy
                  then parts.encryptor.decrypt_payload payload other id
                  else ok payload)
                ≡ ok v)
    unfolding payload_of
    payload_of-opens capsule policy id v = elim (Bool-cases (is_enabled policy)) [
      | inl on ↦
          let (payload, sealed, made, opened) = trans.opens v policy id in
          (payload, sealed, rw (on, trans.keyed capsule id) made, λ other. rw on (opened other))
      | inr off ↦ (v, new_summary, rw off refl, λ other. rw off refl)
    ]

    module _ (capsule : CapsuleId) (policy : EncryptionPolicy) (v payload : Bytes)
        (summary : CompressionSummary) (sealed : EncryptionSummary) (p : PipelineState S) (s' : S)
        (made : payload_of b parts capsule policy p.catalog.next_segment v
          ≡ ok (payload, sealed)) where
      abbrev described : Segment
      described =
          describe_segment p.catalog.next_segment payload summary (parts.hash_bytes v) sealed
            (is_enabled policy)

      abbrev calls : List TxnCall
      calls = puts p.catalog.next_segment payload ∷ describes p.catalog.next_segment described ∷ []

      abbrev after : S → PipelineState S
      after s = record p {
        storage = s;
        catalog = record p.catalog { next_segment = (p.catalog.next_segment + 1) % u64_mod };
      }

      abbrev continued : S → Result (Unit {0}) × (S × T) → Result SegmentId × (PipelineState S × T)
      continued s x =
          continue (x.0, (record (after s) { storage = x.1.0 }, x.1.1))
            (λ y. pure p.catalog.next_segment)

      abbrev ended : Result SegmentId × (PipelineState S × T) → Result SegmentId × PipelineState S
      ended y = (y.0, record y.1.0 { storage = b.drop_txn (y.1.0.storage, y.1.1) })

      -- The end of the transaction, by what its last call gives.
      store-end :
          (s : S) (x : Result (Unit {0}) × (S × T))
          → closed b x ≡ (ok tt, s')
          → ended (continued s x) ≡ (ok p.catalog.next_segment, after s')
      store-end s (err y, a) e =
          let f : ◌≡◌ {A = Result (Unit {0})} (err y) (ok tt) = ap (λ q. q.0) e in cc
      store-end s (ok y, (s2, t2)) e = λ i. (ok p.catalog.next_segment, after ((e i).1))

      begun_with-store :
          (r : Result T × S)
          → begun b (calls_then_commit b calls) r ≡ (ok tt, s')
          → begun_with b (store_in b parts capsule policy v summary) p r
            ≡ (ok p.catalog.next_segment, after s')
      unfolding store_in allocate_segment
      begun_with-store (err x, s) e =
          let f : ◌≡◌ {A = Result (Unit {0})} (err x) (ok tt) = ap (λ q. q.0) e in cc
      begun_with-store (ok t, s) e = rw made (store-end s (calls_then_commit b calls (s, t)) e)

      store_segment_lem :
          in_txn b (calls_then_commit b calls) p.storage ≡ (ok tt, s')
          → store_segment b parts capsule policy v summary p ≡ (ok p.catalog.next_segment, after s')
      unfolding store_segment with_txn in_txn
      store_segment_lem e = begun_with-store (b.begin_txn p.storage) e

  -- `q` comes from `p` by placing a chunk that reads as `c` in segment `id`.
  pub record Placed (meaning : Bytes → Bytes) (p q : PipelineState S) (id : SegmentId) (c : Bytes)
      : Type 0 where
    pub coherent : IsCoherent meaning q
    pub holds : Holds b laws parts q.storage id c
    pub keeps : Keeps b laws parts p.storage q.storage
    pub capsules : q.catalog.capsules ≡ p.catalog.capsules
    pub next : q.catalog.next_segment ≤ p.catalog.next_segment + 1

  module _ (trans : IsTransparent) (meaning : Bytes → Bytes) (capsule : CapsuleId)
      (policy : EncryptionPolicy) (v c : Bytes) (summary : CompressionSummary) (p : PipelineState S)
      (inv : IsCoherent meaning p) (means : meaning v ≡ c) where
    stored-Placed :
        Decodes v summary c
        → p.catalog.next_segment + 1 < u64_mod
        → lookup (parts.hash_bytes v) p.catalog.content ≡ none
        → (q : PipelineState S) × (noted : Noted) × (place_view b parts capsule policy v summary
              none p
            ≡ (ok noted, q))
          × Placed meaning p q noted.id c
    unfolding place_view catalog_register_content decrypt_stored decompress_stored
    stored-Placed decodes room missing =
        let id = p.catalog.next_segment in
        let (payload, sealed, made, opened) = payload_of-opens trans capsule policy id v in
        let m =
          describe_segment id payload summary (parts.hash_bytes v) sealed (is_enabled policy) in
        let (s', valid', done) =
          laws.commits (puts id payload ∷ describes id m ∷ []) p.storage inv.valid in
        let counted : (id + 1) % u64_mod ≡ id + 1 = omega (arith, room) in
        let here : nat_beq id id ≡ true = (eq_iff id id).1 refl in
        let kept : Keeps b laws parts p.storage s' = λ j d h.
          let below = inv.fresh j h.segment h.described in
          let other : nat_beq id j ≡ false = ground arith in
          Holds-same b laws parts p.storage s' j d (done.meta_is j ∙ rw other refl)
            (done.bytes_are j ∙ rw other refl) h in
        let new : Holds b laws parts s' id c = record {
          segment = m;
          raw = payload;
          described = done.meta_is id ∙ rw here refl;
          stored = done.bytes_are id ∙ rw here refl;
          expands = λ other. rw (opened other) decodes;
        } in
        let q : PipelineState S = note summary.output_size false (record p {
          storage = s';
          catalog = record p.catalog {
            next_segment = id + 1;
            content = insert (parts.hash_bytes v) id p.catalog.content;
          };
          deduper = deduper_register (parts.hash_bytes v) id p.deduper;
        }) in
        (
          q,
          record { id = id; len = summary.output_size; was_deduped = false },
          rw
              (
                store_segment_lem trans capsule policy v payload summary sealed p s' made done.runs,
                counted,
              )
              refl,
          record {
            coherent = record {
              valid = valid';
              content = λ hash j e. elim (Bool-cases (parts.hash_bytes v == hash)) [
                | inl same ↦
                    let j_eq : id ≡ j =
                      ground
                        (arith, lookup-insert (parts.hash_bytes v) hash id p.catalog.content) in
                    (v, (eq_iff (parts.hash_bytes v) hash).0 same, rw (← j_eq, means) new)
                | inr other ↦
                    let (w, hashed, h) = inv.content hash j (
                      ground
                        (arith, lookup-insert (parts.hash_bytes v) hash id p.catalog.content)) in
                    (w, hashed, kept j (meaning w) h)
              ];
              fresh = λ j d e. elim (Bool-cases (nat_beq id j)) [
                | inl same ↦ ground arith
                | inr other ↦
                    let old = inv.fresh j d (sym (done.meta_is j ∙ rw other refl) ∙ e) in
                    omega arith
              ];
            };
            holds = new;
            keeps = kept;
            capsules = refl;
            next = omega arith;
          },
        )

    shared-Placed :
        (injective : (x y : Bytes) → parts.hash_bytes x ≡ parts.hash_bytes y → x ≡ y)
        (existing : SegmentId)
        → lookup (parts.hash_bytes v) p.catalog.content ≡ some existing
        → (q : PipelineState S) × (noted : Noted) × (place_view b parts capsule policy v summary
              (some existing)
              p
            ≡ (ok noted, q))
          × Placed meaning p q noted.id c
    unfolding place_view
    shared-Placed injective existing there =
        let (w, hashed, h) = inv.content (parts.hash_bytes v) existing there in
        let mine : meaning w ≡ c = ap meaning (injective w v hashed) ∙ means in
        let held : Holds b laws parts p.storage existing c = rw (← mine) h in
        let (s', valid', shared, kept, listed) =
          share_segment-Keeps b laws parts existing c p inv.valid held in
        let q : PipelineState S = note summary.output_size true (record p { storage = s' }) in
        (
          q,
          record { id = existing; len = summary.output_size; was_deduped = true },
          rw shared refl,
          record {
            coherent = record {
              valid = valid';
              content = λ hash j e.
                  let (x, named, k) = inv.content hash j e in (x, named, kept j (meaning x) k);
              fresh = λ j d e. let (old, there') = listed j d e in inv.fresh j old there';
            };
            holds = kept existing c held;
            keeps = kept;
            capsules = refl;
            next = omega arith;
          },
        )

  -- Compression accepts the chunk, and its view stands for the chunk.
  pub record Writable (meaning : Bytes → Bytes) (policy : Policy) (c : Bytes) : Type 0 where
    pub view : Bytes
    pub summary : CompressionSummary
    pub compressed : compress parts.codec c policy.compression ≡ ok (view, summary)
    pub means : meaning view ≡ c
    pub decodes : Decodes view summary c

  module _ (trans : IsTransparent) (meaning : Bytes → Bytes) (capsule : CapsuleId)
      (injective : (x y : Bytes) → parts.hash_bytes x ≡ parts.hash_bytes y → x ≡ y) where
    pub write_chunk-Placed :
        (policy : Policy) (c : Bytes) (p : PipelineState S)
        → Writable meaning policy c
        → IsCoherent meaning p
        → p.catalog.next_segment + 1 < u64_mod
        → (q : PipelineState S) × (noted : Noted) × (write_chunk b parts capsule policy c p
            ≡ (ok noted, q))
          × Placed meaning p q noted.id c
    unfolding write_chunk
    write_chunk-Placed policy c p fine inv room =
        elim (Option-cases (lookup (parts.hash_bytes fine.view) p.catalog.content)) [
          | inl missing ↦
              let (q, noted, ran, placed) =
                stored-Placed trans meaning capsule policy.encryption fine.view c fine.summary p inv
                  fine.means fine.decodes room missing in
              (q, noted, rw (fine.compressed, missing) ran, placed)
          | inr (existing, there) ↦
              let (q, noted, ran, placed) =
                shared-Placed trans meaning capsule policy.encryption fine.view c fine.summary p inv
                  fine.means injective existing there in
              (q, noted, rw (fine.compressed, there) ran, placed)
        ]

-- ===== src/Modular/Reading.antt =====
-- What a segment of the modular pipeline reads as, and what keeps it (crates/pipeline/src/lib.rs
-- over any storage with the laws).
use space.Prelude.{
  some_inj, ◌≡◌, refl, sym, ap, ◌∙◌, some, Result, ok, err, List, [], ◌∷◌, ◌++◌, nat_beq, nat_eq,
  bytes_eq, eq_iff, Bool-cases, inl, inr,
}
use space.Common.{Bytes, SegmentId, EncryptionPolicy, Segment}
use space.Content.Chunks.{joined}
use space.Storage.{StorageBackend, in_txn, begun}
use space.Storage.Laws.{StorageLaws, calls_then_commit, TxnCall, describes}
use space.Modular.Write.{
  Parts, PipelineState, with_txn, on_txn, add_reference, share_segment, begun_with,
}
use space.Modular.Read.{decrypt_stored, decompress_stored, fetch_segment, fetch_segments}

module _ {S T : Type 0} (b : StorageBackend S T) (laws : StorageLaws b) (parts : Parts) where
  -- Segment `id` reads as `c`, whatever the encryption policy of the capsule that reads it.
  pub record Holds (s : S) (id : SegmentId) (c : Bytes) : Type 0 where
    pub segment : Segment
    pub raw : Bytes
    pub described : laws.meta_at s id ≡ some segment
    pub stored : laws.bytes_at s id ≡ some raw
    pub expands :
        (policy : EncryptionPolicy)
        → decompress_stored parts segment (decrypt_stored parts policy id segment raw) ≡ ok c

  pub fetch_segment-Holds :
      (policy : EncryptionPolicy) (id : SegmentId) (c : Bytes) (p : PipelineState S)
      → Holds p.storage id c
      → fetch_segment parts b policy id p ≡ (ok c, p)
  unfolding fetch_segment
  fetch_segment-Holds policy id c p h =
      rw
        (
          laws.describes_as id p.storage,
          h.described,
          laws.reads id p.storage,
          h.stored,
          h.expands policy,
        )
        refl

  -- The segments read as the texts, one by one.
  abbrev pub AllHold : S → List SegmentId → List Bytes → Type 0
  AllHold s [] [] = Unit
  AllHold s [] (c ∷ cs) = ⊥
  AllHold s (id ∷ ids) [] = ⊥
  AllHold s (id ∷ ids) (c ∷ cs) = Holds s id c × AllHold s ids cs

  pub fetch_segments-AllHold :
      (policy : EncryptionPolicy) (ids : List SegmentId) (cs : List Bytes) (p : PipelineState S)
      → AllHold p.storage ids cs
      → fetch_segments parts b policy ids p ≡ (ok (joined cs), p)
  unfolding fetch_segments joined
  fetch_segments-AllHold policy [] [] p h = refl
  fetch_segments-AllHold policy [] (c ∷ cs) p h = absurd h
  fetch_segments-AllHold policy (id ∷ ids) [] p h = absurd h
  fetch_segments-AllHold policy (id ∷ ids) (c ∷ cs) p h =
      rw (fetch_segment-Holds policy id c p h.0, fetch_segments-AllHold policy ids cs p h.1) refl

  -- Everything that reads as something goes on doing so.
  abbrev pub Keeps : S → S → Type 0
  Keeps s s' = (id : SegmentId) (c : Bytes) → Holds s id c → Holds s' id c

  pub AllHold-kept :
      (s s' : S) (ids : List SegmentId) (cs : List Bytes)
      → Keeps s s'
      → AllHold s ids cs
      → AllHold s' ids cs
  AllHold-kept s s' [] [] k h = tt
  AllHold-kept s s' [] (c ∷ cs) k h = absurd h
  AllHold-kept s s' (id ∷ ids) [] k h = absurd h
  AllHold-kept s s' (id ∷ ids) (c ∷ cs) k h = (k id c h.0, AllHold-kept s s' ids cs k h.1)

  pub AllHold-append :
      (s : S) (ids js : List SegmentId) (cs ds : List Bytes)
      → AllHold s ids cs
      → AllHold s js ds
      → AllHold s (ids ++ js) (cs ++ ds)
  AllHold-append s [] js [] ds h k = k
  AllHold-append s [] js (c ∷ cs) ds h k = absurd h
  AllHold-append s (id ∷ ids) js [] ds h k = absurd h
  AllHold-append s (id ∷ ids) js (c ∷ cs) ds h k = (h.0, AllHold-append s ids js cs ds h.1 k)

  -- The same bytes and metadata read the same.
  pub Holds-same :
      (s s' : S) (id : SegmentId) (c : Bytes)
      → laws.meta_at s' id ≡ laws.meta_at s id
      → laws.bytes_at s' id ≡ laws.bytes_at s id
      → Holds s id c
      → Holds s' id c
  Holds-same s s' id c m e h = record {
    segment = h.segment;
    raw = h.raw;
    described = m ∙ h.described;
    stored = e ∙ h.stored;
    expands = h.expands;
  }

  -- A transaction opened by the pipeline and used for storage calls alone.
  begun_with-storage :
      (calls : List TxnCall) (p : PipelineState S) (s' : S) (r : Result T × S)
      → begun b (calls_then_commit b calls) r ≡ (ok tt, s')
      → begun_with b (on_txn b (calls_then_commit b calls)) p r ≡ (ok tt, record p { storage = s' })
  begun_with-storage calls p s' (err x, s) e =
      let f : ◌≡◌ {A = Result (Unit {0})} (err x) (ok tt) = ap (λ q. q.0) e in cc
  begun_with-storage calls p s' (ok t, s) e = λ i. ((e i).0, record p { storage = (e i).1 })

  pub with_txn-storage :
      (calls : List TxnCall) (p : PipelineState S) (s' : S)
      → in_txn b (calls_then_commit b calls) p.storage ≡ (ok tt, s')
      → with_txn b (on_txn b (calls_then_commit b calls)) p ≡ (ok tt, record p { storage = s' })
  unfolding with_txn in_txn
  with_txn-storage calls p s' e = begun_with-storage calls p s' (b.begin_txn p.storage) e

  -- Sharing a stored segment adds a reference and keeps what every segment reads as.
  pub share_segment-Keeps :
      (id : SegmentId) (c : Bytes) (p : PipelineState S)
      → laws.IsValid p.storage
      → Holds p.storage id c
      → (s' : S) × laws.IsValid s'
        × (share_segment b parts id p ≡ (ok tt, record p { storage = s' }))
        × Keeps p.storage s'
        × ((j : SegmentId) (m : Segment)
            → laws.meta_at s' j ≡ some m
            → (m' : Segment) × (laws.meta_at p.storage j ≡ some m'))
  unfolding share_segment decrypt_stored decompress_stored
  share_segment-Keeps id c p valid h =
      let calls = describes id (add_reference h.segment) ∷ [] in
      let (s', valid', done) = laws.commits calls p.storage valid in
      (
        s',
        valid',
        rw (laws.describes_as id p.storage, h.described, with_txn-storage calls p s' done.runs)
            refl,
        λ j d k. elim (Bool-cases (nat_beq id j)) [
          | inl same ↦
              let here : id ≡ j = (eq_iff id j).0 same in
              let seg : h.segment ≡ k.segment =
                some_inj (sym h.described ∙ ap (laws.meta_at p.storage) here ∙ k.described) in
              record {
                segment = add_reference h.segment;
                raw = k.raw;
                described = done.meta_is j ∙ rw same refl;
                stored = done.bytes_are j ∙ k.stored;
                expands = λ policy.
                    ap (λ q. decompress_stored parts q (decrypt_stored parts policy j q k.raw)) seg
                    ∙ k.expands policy;
              }
          | inr other ↦
              Holds-same p.storage s' j d (done.meta_is j ∙ rw other refl) (done.bytes_are j) k
        ],
        λ j m e. elim (Bool-cases (nat_beq id j)) [
          | inl same ↦
              (h.segment, ap (laws.meta_at p.storage) (sym ((eq_iff id j).0 same)) ∙ h.described)
          | inr other ↦ (m, sym (done.meta_is j ∙ rw other refl) ∙ e)
        ],
      )

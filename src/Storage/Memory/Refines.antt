-- ===== src/Storage/Memory/Refines.antt =====
-- The backend in memory keeps the laws of storage (crates/storage/src/lib.rs, `InMemoryBackend`).
use space.Prelude.{
  Bool, true, false, ◌≡◌, refl, ap, ◌∙◌, Option, none, some, ok, List, [], ◌∷◌, ◌++◌, Map, lookup,
  insert, remove, Distinct, lookup-insert, lookup-remove, insert-Distinct, remove-Distinct, nat_eq,
  nat_beq, ◌||◌, if◌then◌else◌, arith, eq_iff,
}
use space.Common.{Bytes, SegmentId, Segment}
use space.Storage.{in_txn}
use space.Storage.Laws.{
  TxnCall, puts, describes, deletes, deleted, last_put, last_described, calls_then_commit,
  Committed, StorageLaws,
}
use space.Storage.Memory.{
  Inner, InMemoryTransaction, new_transaction, insert_all, remove_all, txn_append,
  txn_set_segment_metadata, txn_delete, txn_commit, mem_read, mem_metadata, mem_delete,
  in_memory_backend,
}

abbrev or_else {ℓ} : {A : Type ℓ} → Option A → Option A → Option A
or_else none b = b
or_else (some a) b = some a

abbrev listed : List SegmentId → SegmentId → Bool
listed [] j = false
listed (k ∷ ks) j = nat_beq k j || listed ks j

module _ {ℓ} {V : Type ℓ} where
  lookup-insert_all :
      (staged m : Map SegmentId V) (j : SegmentId)
      → Distinct staged
      → lookup j (insert_all staged m) ≡ or_else (lookup j staged) (lookup j m)
  unfolding insert_all lookup
  lookup-insert_all [] m j d = refl
  lookup-insert_all ((k, v) ∷ staged) m j d =
      lookup-insert_all staged (insert k v m) j d.1
      ∙ at (lookup j staged) refl (lookup-insert k j v m)
    where
      at :
          (o : Option V)
          → lookup j staged ≡ o
          → lookup j (insert k v m) ≡ (if nat_beq k j then some v else lookup j m)
          → or_else o (lookup j (insert k v m))
            ≡ or_else (if nat_beq k j then some v else o) (lookup j m)
      at none e i = ground (arith, i)
      at (some w) e i = ground (arith, eq_iff k j, d.0, e)

  insert_all-Distinct : (staged m : Map SegmentId V) → Distinct m → Distinct (insert_all staged m)
  unfolding insert_all
  insert_all-Distinct [] m d = d
  insert_all-Distinct ((k, v) ∷ staged) m d =
      insert_all-Distinct staged (insert k v m) (insert-Distinct k v m d)

  remove_all-Distinct :
      (ks : List SegmentId) (m : Map SegmentId V) → Distinct m → Distinct (remove_all ks m)
  unfolding remove_all
  remove_all-Distinct [] m d = d
  remove_all-Distinct (k ∷ ks) m d = remove_all-Distinct ks (remove k m) (remove-Distinct k m d)

  lookup-remove_all :
      (ks : List SegmentId) (m : Map SegmentId V) (j : SegmentId)
      → Distinct m
      → lookup j (remove_all ks m) ≡ (if listed ks j then none else lookup j m)
  unfolding remove_all
  lookup-remove_all [] m j d = refl
  lookup-remove_all (k ∷ ks) m j d =
      let rest = lookup-remove_all ks (remove k m) j (remove-Distinct k m d) in
      ground (arith, rest, lookup-remove k j m d)

listed-append :
    (ks : List SegmentId) (k j : SegmentId) → listed (ks ++ k ∷ []) j ≡ (listed ks j || nat_beq k j)
listed-append [] k j = ground arith
listed-append (i ∷ ks) k j = ground (arith, listed-append ks k j)

or_else-if {ℓ} :
    {A : Type ℓ} (t : Bool) (a : A) (b c : Option A)
    → or_else (if t then some a else b) c ≡ (if t then some a else or_else b c)
or_else-if true a b c = refl
or_else-if false a b c = refl

or_else-last_put :
    (calls : List TxnCall) (j : SegmentId) (staged old : Option Bytes)
    → or_else (last_put calls j staged) old ≡ last_put calls j (or_else staged old)
or_else-last_put [] j staged old = refl
or_else-last_put (puts id b ∷ calls) j staged old =
    or_else-last_put calls j (if nat_beq id j then some b else staged) old
    ∙ ap (last_put calls j) (or_else-if (nat_beq id j) b staged old)
or_else-last_put (describes id b ∷ calls) j staged old = or_else-last_put calls j staged old
or_else-last_put (deletes id ∷ calls) j staged old = or_else-last_put calls j staged old

or_else-last_described :
    (calls : List TxnCall) (j : SegmentId) (staged old : Option Segment)
    → or_else (last_described calls j staged) old ≡ last_described calls j (or_else staged old)
or_else-last_described [] j staged old = refl
or_else-last_described (puts id b ∷ calls) j staged old = or_else-last_described calls j staged old
or_else-last_described (describes id b ∷ calls) j staged old =
    or_else-last_described calls j (if nat_beq id j then some b else staged) old
    ∙ ap (last_described calls j) (or_else-if (nat_beq id j) b staged old)
or_else-last_described (deletes id ∷ calls) j staged old = or_else-last_described calls j staged old

-- Each key stands once in either map.
pub record IsWhole (inner : Inner) : Type 0 where
  pub segments_distinct : Distinct inner.segments
  pub metadata_distinct : Distinct inner.metadata

-- What the calls and the commit make of a transaction that has begun.
record Ran (calls : List TxnCall) (inner : Inner) (txn : InMemoryTransaction) : Type 0 where
  inner' : Inner
  txn' : InMemoryTransaction
  whole : IsWhole inner'
  ran : calls_then_commit in_memory_backend calls (inner, txn) ≡ (ok tt, (inner', txn'))
  bytes_are :
      (j : SegmentId)
      → lookup j inner'.segments ≡ (
          if listed txn.deleted j || deleted calls j
          then none
          else or_else (last_put calls j (lookup j txn.staged_segments)) (lookup j inner.segments))
  meta_is :
      (j : SegmentId)
      → lookup j inner'.metadata ≡ (
          if listed txn.deleted j || deleted calls j
          then none
          else or_else
              (last_described calls j (lookup j txn.staged_metadata))
              (lookup j inner.metadata))

run_calls :
    (calls : List TxnCall) (inner : Inner) (txn : InMemoryTransaction)
    → IsWhole inner
    → Distinct txn.staged_segments
    → Distinct txn.staged_metadata
    → Ran calls inner txn
unfolding in_memory_backend txn_commit txn_append txn_set_segment_metadata txn_delete
run_calls [] inner txn whole d e = record {
  inner' = record {
    segments = remove_all txn.deleted (insert_all txn.staged_segments inner.segments);
    metadata = remove_all txn.deleted (insert_all txn.staged_metadata inner.metadata);
  };
  txn' = txn;
  whole = record {
    segments_distinct =
        remove_all-Distinct txn.deleted _
          (insert_all-Distinct txn.staged_segments _ whole.segments_distinct);
    metadata_distinct =
        remove_all-Distinct txn.deleted _
          (insert_all-Distinct txn.staged_metadata _ whole.metadata_distinct);
  };
  ran = refl;
  bytes_are = λ j. ground (
    arith,
    lookup-insert_all txn.staged_segments inner.segments j d,
    lookup-remove_all txn.deleted (insert_all txn.staged_segments inner.segments) j
        (insert_all-Distinct txn.staged_segments _ whole.segments_distinct),
  );
  meta_is = λ j. ground (
    arith,
    lookup-insert_all txn.staged_metadata inner.metadata j e,
    lookup-remove_all txn.deleted (insert_all txn.staged_metadata inner.metadata) j
        (insert_all-Distinct txn.staged_metadata _ whole.metadata_distinct),
  );
}
run_calls (puts id b ∷ calls) inner txn whole d e =
    let next : InMemoryTransaction = record txn {
      staged_segments = insert id b txn.staged_segments;
    } in
    let r = run_calls calls inner next whole (insert-Distinct id b _ d) e in
    record {
      inner' = r.inner';
      txn' = r.txn';
      whole = r.whole;
      ran = r.ran;
      bytes_are = λ j. rw (← lookup-insert id j b txn.staged_segments) (r.bytes_are j);
      meta_is = r.meta_is;
    }
run_calls (describes id m ∷ calls) inner txn whole d e =
    let next : InMemoryTransaction = record txn {
      staged_metadata = insert id m txn.staged_metadata;
    } in
    let r = run_calls calls inner next whole d (insert-Distinct id m _ e) in
    record {
      inner' = r.inner';
      txn' = r.txn';
      whole = r.whole;
      ran = r.ran;
      bytes_are = r.bytes_are;
      meta_is = λ j. rw (← lookup-insert id j m txn.staged_metadata) (r.meta_is j);
    }
run_calls (deletes id ∷ calls) inner txn whole d e =
    let next : InMemoryTransaction = record txn { deleted = txn.deleted ++ id ∷ [] } in
    let r = run_calls calls inner next whole d e in
    record {
      inner' = r.inner';
      txn' = r.txn';
      whole = r.whole;
      ran = r.ran;
      bytes_are = λ j. ground (arith, r.bytes_are j, listed-append txn.deleted id j);
      meta_is = λ j. ground (arith, r.meta_is j, listed-append txn.deleted id j);
    }

-- On every store in memory whose maps have each key once: a transaction of any calls commits, and
-- changes exactly the segments that it names, each to the bytes and to the metadata that it was
-- last given; a segment that it deletes is gone, whatever else the transaction did to it before or
-- after. The maps have each key once again.
pub commit_refines :
    (calls : List TxnCall) (s : Inner)
    → IsWhole s
    → (s' : Inner) × IsWhole s'
      × Committed in_memory_backend
          (λ m j. lookup j m.segments)
          (λ m j. lookup j m.metadata)
          calls
          s
          s'
unfolding in_memory_backend in_txn lookup
commit_refines calls s whole =
    let r = run_calls calls s new_transaction whole tt tt in
    (
      r.inner',
      r.whole,
      record {
        runs = rw r.ran refl;
        bytes_are = λ j.
            r.bytes_are j
            ∙ ap (λ o. if deleted calls j then none else o)
                (or_else-last_put calls j none (lookup j s.segments));
        meta_is = λ j.
            r.meta_is j
            ∙ ap (λ o. if deleted calls j then none else o)
                (or_else-last_described calls j none (lookup j s.metadata));
      },
    )

-- The backend in memory keeps the laws of storage.
unfoldable pub in_memory-refines : StorageLaws in_memory_backend
unfolding in_memory_backend in_txn mem_read mem_metadata mem_delete lookup
in_memory-refines = record {
  IsValid = IsWhole;
  bytes_at = λ s j. lookup j s.segments;
  meta_at = λ s j. lookup j s.metadata;
  reads = λ id s. refl;
  describes_as = λ id s. refl;
  commits = commit_refines;
  removes = λ id s whole. (
    record { segments = remove id s.segments; metadata = remove id s.metadata },
    record {
      segments_distinct = remove-Distinct id s.segments whole.segments_distinct;
      metadata_distinct = remove-Distinct id s.metadata whole.metadata_distinct;
    },
    refl,
    λ j. lookup-remove id j s.segments whole.segments_distinct,
    λ j. lookup-remove id j s.metadata whole.metadata_distinct,
  );
}

-- ===== src/Storage/Memory.antt =====
-- crates/storage/src/lib.rs, `InMemoryBackend` and `InMemoryTransaction`.
pub mod Refines
use space.Prelude.{
  Option, none, some, ok, Exec, pure, gets, modify, lift, or_err, segment_not_found, List, [], ◌∷◌,
  ◌++◌, Map, lookup, insert, remove, keys, nat_eq, Eq, ◌>>=◌,
}
use space.Common.{Bytes, SegmentId, Segment}
use space.Storage.{StorageBackend}

pub record Inner : Type 0 where
  pub segments : Map SegmentId Bytes
  pub metadata : Map SegmentId Segment

abbrev pub new_backend : Inner
new_backend = record { segments = []; metadata = [] }

pub record InMemoryTransaction : Type 0 where
  pub staged_segments : Map SegmentId Bytes
  pub staged_metadata : Map SegmentId Segment
  pub deleted : List SegmentId

abbrev pub new_transaction : InMemoryTransaction
new_transaction = record { staged_segments = []; staged_metadata = []; deleted = [] }

-- Every entry of the first map goes into the second.
unfoldable pub insert_all {ℓ} : {V : Type ℓ} → Map SegmentId V → Map SegmentId V → Map SegmentId V
insert_all [] m = m
insert_all ((k, v) ∷ staged) m = insert_all staged (insert k v m)

unfoldable pub remove_all {ℓ} : {V : Type ℓ} → List SegmentId → Map SegmentId V → Map SegmentId V
remove_all [] m = m
remove_all (k ∷ ks) m = remove_all ks (remove k m)

abbrev pub on_staged :
    (InMemoryTransaction → InMemoryTransaction) → Exec (Inner × InMemoryTransaction) (Unit {0})
on_staged f (inner, txn) = (ok tt, (inner, f txn))

unfoldable pub txn_append : SegmentId → Bytes → Exec (Inner × InMemoryTransaction) (Unit {0})
txn_append id bytes =
    on_staged (λ txn. record txn { staged_segments = insert id bytes txn.staged_segments })

unfoldable pub txn_set_segment_metadata :
    SegmentId → Segment → Exec (Inner × InMemoryTransaction) (Unit {0})
txn_set_segment_metadata id segment =
    on_staged (λ txn. record txn { staged_metadata = insert id segment txn.staged_metadata })

unfoldable pub txn_delete : SegmentId → Exec (Inner × InMemoryTransaction) (Unit {0})
txn_delete id = on_staged (λ txn. record txn { deleted = txn.deleted ++ id ∷ [] })

unfoldable pub txn_commit : Exec (Inner × InMemoryTransaction) (Unit {0})
txn_commit (inner, txn) = (
  ok tt,
  (
    record {
      segments = remove_all txn.deleted (insert_all txn.staged_segments inner.segments);
      metadata = remove_all txn.deleted (insert_all txn.staged_metadata inner.metadata);
    },
    txn,
  ),
)

unfoldable pub txn_rollback : Exec (Inner × InMemoryTransaction) (Unit {0})
txn_rollback = pure tt

unfoldable pub mem_append : SegmentId → Bytes → Exec Inner (Unit {0})
mem_append id bytes = modify (λ inner. record inner { segments = insert id bytes inner.segments })

unfoldable pub mem_read : SegmentId → Exec Inner Bytes
mem_read id inner = lift (or_err segment_not_found (lookup id inner.segments)) inner

unfoldable pub mem_metadata : SegmentId → Exec Inner Segment
mem_metadata id inner = lift (or_err segment_not_found (lookup id inner.metadata)) inner

unfoldable pub mem_delete : SegmentId → Exec Inner (Unit {0})
mem_delete id =
    modify
      (λ inner. record { segments = remove id inner.segments; metadata = remove id inner.metadata })

unfoldable pub in_memory_backend : StorageBackend Inner InMemoryTransaction
unfolding mem_append mem_read mem_metadata mem_delete txn_append txn_set_segment_metadata txn_delete
    txn_commit txn_rollback
in_memory_backend = record {
  append = mem_append;
  read = mem_read;
  metadata = mem_metadata;
  delete = mem_delete;
  segment_ids = gets (λ inner. keys inner.metadata);
  begin_txn = pure new_transaction;
  append_in = txn_append;
  set_segment_metadata = txn_set_segment_metadata;
  delete_in = txn_delete;
  commit = txn_commit;
  rollback = txn_rollback;
  drop_txn = λ a. a.0;
}

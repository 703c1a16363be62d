-- ===== src/Storage.antt =====
-- crates/common/src/traits.rs, `StorageBackend` and `StorageTransaction`: what a pipeline stores its
-- segments in. The futures are run to their end one after the other.
pub mod Laws
pub mod Memory
pub mod Persistent
use space.Prelude.{ok, err, Result, Exec, List}
use space.Common.{Bytes, SegmentId, Segment}

-- `S` is the state behind the backend, `T` an open transaction.
pub record StorageBackend (S T : Type 0) : Type 0 where
  pub append : SegmentId → Bytes → Exec S (Unit {0})
  pub read : SegmentId → Exec S Bytes
  pub metadata : SegmentId → Exec S Segment
  pub delete : SegmentId → Exec S (Unit {0})
  pub segment_ids : Exec S (List SegmentId)
  pub begin_txn : Exec S T
  pub append_in : SegmentId → Bytes → Exec (S × T) (Unit {0})
  pub set_segment_metadata : SegmentId → Segment → Exec (S × T) (Unit {0})
  pub delete_in : SegmentId → Exec (S × T) (Unit {0})
  pub commit : Exec (S × T) (Unit {0})
  pub rollback : Exec (S × T) (Unit {0})
  pub drop_txn : S × T → S

abbrev pub closed :
    {S T : Type 0} → StorageBackend S T → Result (Unit {0}) × (S × T) → Result (Unit {0}) × S
closed b (r, a) = (r, b.drop_txn a)

abbrev pub begun :
    {S T : Type 0}
    → StorageBackend S T
    → Exec (S × T) (Unit {0})
    → Result T × S
    → Result (Unit {0}) × S
begun b body (err e, s) = (err e, s)
begun b body (ok t, s) = closed b (body (s, t))

-- A transaction from its begin until it goes out of scope.
unfoldable pub in_txn :
    {S T : Type 0} → StorageBackend S T → Exec (S × T) (Unit {0}) → Exec S (Unit {0})
in_txn b body s = begun b body (b.begin_txn s)

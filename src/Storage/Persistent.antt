-- ===== src/Storage/Persistent.antt =====
-- crates/storage/src/lib.rs, `NvramBackend` and `NvramStorageTransaction`, over nvram-sim.
pub mod Offsets
use space.Prelude.{
  Option, none, some, Result, ok, err, Exec, ◌>>=◌, ◌>>◌, continue, pure, gets, List, [], ◌∷◌, ◌++◌,
}
use space.Common.{Bytes, SegmentId, Segment}
use space.Nvram.{NvramLog, Io, append, read, get_segment_metadata, remove_segment, list_segment_ids}
use space.Nvram.Transaction.{
  NvramTransaction, Active, begin_transaction, append_segment, set_segment_metadata, commit,
  rollback, drop_txn,
}
use space.Storage.{StorageBackend}

pub record NvramStorageTransaction : Type 0 where
  pub inner : NvramTransaction
  pub deleted : List SegmentId

-- A call on the inner transaction, which shares the log.
abbrev pub on_inner {ℓ} : {A : Type ℓ} → Exec Active A → Exec (NvramLog × NvramStorageTransaction) A
on_inner m (log, t) =
    let (r, a) = m (record { log = log; txn = t.inner }) in (r, (a.log, record t { inner = a.txn }))

abbrev pub on_log {ℓ} : {A : Type ℓ} → Exec NvramLog A → Exec (NvramLog × NvramStorageTransaction) A
on_log m (log, t) = let (r, log') = m log in (r, (log', t))

abbrev pub ignored {ℓ κ} : {S : Type ℓ} {A : Type κ} → Exec S A → Exec S (Unit {0})
ignored m = m >>= λ _. pure tt

unfoldable pub nvram_txn_append :
    SegmentId → Bytes → Exec (NvramLog × NvramStorageTransaction) (Unit {0})
nvram_txn_append id bytes = ignored (on_inner (append_segment id bytes))

unfoldable pub nvram_txn_set_metadata :
    SegmentId → Segment → Exec (NvramLog × NvramStorageTransaction) (Unit {0})
nvram_txn_set_metadata id segment = on_inner (set_segment_metadata id segment)

unfoldable pub nvram_txn_delete : SegmentId → Exec (NvramLog × NvramStorageTransaction) (Unit {0})
nvram_txn_delete id (log, t) = (ok tt, (log, record t { deleted = t.deleted ++ id ∷ [] }))

unfoldable pub begin_nvram : Exec NvramLog NvramStorageTransaction
begin_nvram log =
    let a = begin_transaction log in (ok (record { inner = a.txn; deleted = [] }), a.log)

module _ (io : Io) where
  unfoldable pub remove_segments : List SegmentId → Exec NvramLog (Unit {0})
  remove_segments [] = pure tt
  remove_segments (id ∷ ids) = do remove_segment io id; remove_segments ids

  unfoldable pub nvram_txn_commit : Exec (NvramLog × NvramStorageTransaction) (Unit {0})
  nvram_txn_commit = do
    on_inner (commit io)
    ids ← gets (λ a. a.1.deleted)
    on_log (remove_segments ids)

  unfoldable pub nvram_backend : StorageBackend NvramLog NvramStorageTransaction
  unfolding nvram_txn_append nvram_txn_set_metadata nvram_txn_delete begin_nvram nvram_txn_commit
  nvram_backend = record {
    append = λ id bytes. ignored (append io id bytes);
    read = read;
    metadata = get_segment_metadata;
    delete = λ id. ignored (remove_segment io id);
    segment_ids = gets list_segment_ids;
    begin_txn = begin_nvram;
    append_in = nvram_txn_append;
    set_segment_metadata = nvram_txn_set_metadata;
    delete_in = nvram_txn_delete;
    commit = nvram_txn_commit;
    rollback = on_inner rollback;
    drop_txn = λ a. drop_txn (record { log = a.0; txn = a.1.inner });
  }

-- ===== src/Nvram/Transaction/Open.antt =====
-- While a transaction is open, nothing of the log but its next offset has moved.
use space.Prelude.{◌≡◌, refl, true, false, Option-cases, inl, inr, ok, []}
use space.Common.{Bytes, SegmentId, Segment}
use space.Nvram.{NvramLog}
use space.Nvram.Transaction.{
  Active, begin_transaction, set_next_offset, append_segment, with_segment_mut, change_pending,
  rollback, drop_txn,
}

-- Opened on `log`, and neither committed nor rolled back.
pub record IsOpen (log : NvramLog) (a : Active) : Type 0 where
  pub active : a.txn.finalized ≡ false
  pub based : a.txn.base_offset ≡ log.next_offset
  pub same : set_next_offset log.next_offset a.log ≡ log

pub begin_transaction-IsOpen : (log : NvramLog) → IsOpen log (begin_transaction log)
unfolding begin_transaction set_next_offset
begin_transaction-IsOpen log = record { active = refl; based = refl; same = refl }

pub append_segment-IsOpen :
    (log : NvramLog) (id : SegmentId) (bytes : Bytes) (a : Active)
    → IsOpen log a
    → IsOpen log (append_segment id bytes a).1
unfolding append_segment set_next_offset
append_segment-IsOpen log id bytes a q =
    rw q.active (record { active = refl; based = q.based; same = q.same })

pub with_segment_mut-IsOpen :
    (log : NvramLog) (id : SegmentId) (f : Segment → Segment) (a : Active)
    → IsOpen log a
    → IsOpen log (with_segment_mut id f a).1
unfolding with_segment_mut
with_segment_mut-IsOpen log id f a q = elim (Option-cases (change_pending id f a.txn.pending)) [
  | inl missing ↦ rw (q.active, missing) (record { active = refl; based = q.based; same = q.same })
  | inr (ps, found) ↦
      rw (q.active, found) (record { active = refl; based = q.based; same = q.same })
]

-- A rollback gives the log back, and what drops the transaction then changes nothing.
pub rollback-IsOpen :
    (log : NvramLog) (a : Active)
    → IsOpen log a
    → (a' : Active) × (rollback a ≡ (ok tt, a')) × (a'.log ≡ log) × (drop_txn a' ≡ log)
unfolding rollback set_next_offset drop_txn
rollback-IsOpen log a q =
    let back : set_next_offset a.txn.base_offset a.log ≡ log = rw q.based q.same in
    let a' : Active = record {
      log = set_next_offset a.txn.base_offset a.log;
      txn = record a.txn { pending = []; current_offset = a.txn.base_offset; finalized = true };
    } in
    (a', rw q.active refl, back, back)

pub drop_txn-IsOpen : (log : NvramLog) (a : Active) → IsOpen log a → drop_txn a ≡ log
unfolding drop_txn rollback set_next_offset
drop_txn-IsOpen log a q =
    let back : set_next_offset a.txn.base_offset a.log ≡ log = rw q.based q.same in rw q.active back

-- ===== src/Nvram/Transaction.antt =====
-- crates/nvram-sim/src/lib.rs, `NvramTransaction`: segments are staged in memory and written at
-- `commit`. The transaction shares the log with everyone else, so the state is both.
pub mod Commit
pub mod Abort
pub mod Open
use space.Prelude.{
  ℕ, ◌+◌, ◌%◌, Bool, true, false, Option, none, some, txn_finalized, pending_not_found, io_failed,
  Result, ok, err, Exec, continue, ◌>>=◌, ◌>>◌, pure, raise, gets, modify, List, [], ◌∷◌, ◌++◌, Map,
  insert, nat_beq, nat_eq, if◌then◌else◌, length,
}
use space.Common.{Bytes, SegmentId, Segment, u32_mod, u64_mod}
use space.Disk.{write_at}
use space.Nvram.{NvramLog, Io, new_segment, save_segment_map}

pub record PendingSegment : Type 0 where
  pub segment : Segment
  pub bytes : Bytes

pub record NvramTransaction : Type 0 where
  pub pending : List PendingSegment
  pub base_offset : ℕ
  pub current_offset : ℕ
  pub finalized : Bool

pub record Active : Type 0 where
  pub log : NvramLog
  pub txn : NvramTransaction

unfoldable pub begin_transaction : NvramLog → Active
begin_transaction log = record {
  log = log;
  txn = record {
    pending = [];
    base_offset = log.next_offset;
    current_offset = log.next_offset;
    finalized = false;
  };
}

unfoldable pub ensure_active : Exec Active (Unit {0})
ensure_active a = if a.txn.finalized then (err txn_finalized, a) else (ok tt, a)

unfoldable pub set_next_offset : ℕ → NvramLog → NvramLog
set_next_offset n log = record log { next_offset = n }

stage_segment : Segment → Bytes → ℕ → Active → Active
stage_segment segment bytes offset a = record {
  log = set_next_offset offset a.log;
  txn = record a.txn {
    pending = a.txn.pending ++ record { segment = segment; bytes = bytes } ∷ [];
    current_offset = offset;
  };
}

unfoldable pub append_segment : SegmentId → Bytes → Exec Active Segment
unfolding ensure_active stage_segment set_next_offset
append_segment id bytes = do
  ensure_active
  offset ← gets (λ a. a.txn.current_offset)
  let segment = new_segment id offset (length bytes % u32_mod)
  modify (stage_segment segment bytes ((offset + length bytes) % u64_mod))
  pure segment

-- `iter_mut().find(..)` and a change of the entry found; `none` where there is none.
unfoldable pub change_pending :
    SegmentId → (Segment → Segment) → List PendingSegment → Option (List PendingSegment)
change_pending id f [] = none
change_pending id f (p ∷ ps) =
    if nat_beq p.segment.id id
    then some (record p { segment = f p.segment } ∷ ps)
    else elim (change_pending id f ps) [ none ↦ none | some qs ↦ some (p ∷ qs) ]

replace_pending : Option (List PendingSegment) → Exec Active (Unit {0})
replace_pending none a = (err pending_not_found, a)
replace_pending (some ps) a = (ok tt, record a { txn = record a.txn { pending = ps } })

unfoldable pub with_segment_mut : SegmentId → (Segment → Segment) → Exec Active (Unit {0})
unfolding ensure_active replace_pending
with_segment_mut id f = do
  ensure_active
  pending ← gets (λ a. a.txn.pending)
  replace_pending (change_pending id f pending)

unfoldable pub set_segment_metadata : SegmentId → Segment → Exec Active (Unit {0})
unfolding with_segment_mut
set_segment_metadata id segment = with_segment_mut id (λ _. segment)

unfoldable pub pending_segment : SegmentId → List PendingSegment → Option Segment
pending_segment id [] = none
pending_segment id (p ∷ ps) =
    if nat_beq p.segment.id id then some p.segment else pending_segment id ps

unfoldable pub write_pending : Bytes → List PendingSegment → Bytes
write_pending file [] = file
write_pending file (p ∷ ps) = write_pending (write_at file p.segment.offset p.bytes) ps

unfoldable pub insert_pending : Map SegmentId Segment → List PendingSegment → Map SegmentId Segment
insert_pending m [] = m
insert_pending m (p ∷ ps) = insert_pending (insert p.segment.id p.segment m) ps

unfoldable pub finish : Active → Active
finish a = record a { txn = record a.txn { finalized = true } }

-- The writes of a commit, and the offsets that it leaves.
write_staged : Io → List PendingSegment → Exec Active (Unit {0})
unfolding set_next_offset finish
write_staged io ps a = elim io.write [
  | none ↦ (
    ok tt,
    record a {
      log = record a.log {
        file = write_pending a.log.file ps;
        next_offset = a.txn.current_offset;
        segment_map = insert_pending a.log.segment_map ps;
      };
    },
  )
  | some f ↦ (
    err io_failed,
    finish (record a { log = record a.log { file = f; next_offset = a.txn.base_offset } }),
  )
]

save_committed : Io → Exec Active (Unit {0})
unfolding save_segment_map
save_committed io a =
    let (result, log) = save_segment_map io a.log in (result, record a { log = log })

unfoldable clear_pending : Active → Active
clear_pending a = record a { txn = record a.txn { pending = [] } }

commit_pending : Io → List PendingSegment → Exec Active (Unit {0})
unfolding finish write_staged save_committed clear_pending
commit_pending io [] = modify finish
commit_pending io (p ∷ ps) = do
  write_staged io (p ∷ ps)
  save_committed io
  modify (λ a. finish (clear_pending a))

unfoldable pub commit : Io → Exec Active (Unit {0})
unfolding commit_pending
commit io a = if a.txn.finalized then (ok tt, a) else commit_pending io a.txn.pending a

unfoldable pub rollback : Exec Active (Unit {0})
unfolding set_next_offset
rollback a = if a.txn.finalized then (ok tt, a) else (
  ok tt,
  record {
    log = set_next_offset a.txn.base_offset a.log;
    txn = record a.txn { pending = []; current_offset = a.txn.base_offset; finalized = true };
  },
)

-- `Drop`: what becomes of the log when the transaction goes out of scope.
unfoldable pub drop_txn : Active → NvramLog
unfolding rollback
drop_txn a = if a.txn.finalized then a.log else (rollback a).1.log

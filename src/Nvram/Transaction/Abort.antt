-- ===== src/Nvram/Transaction/Abort.antt =====
-- Transactions that do not commit cleanly, and writers that run beside one.
use space.Prelude.{
  ℕ, ◌+◌, ◌%◌, ◌<◌, ◌≡◌, ◌≢◌, refl, ap, ◌∙◌, Bool, false, none, some, txn_finalized, io_failed, ok,
  err, ◌>>◌, ◌∷◌, ◌++◌, lookup, insert, nat_eq, length, arith, lookup-insert, eq_iff,
}
use space.Common.{Bytes, SegmentId, Segment, u32_mod, u64_mod}
use space.Disk.{write_at, write_at-end, write_at-over, read_at-append_new}
use space.Nvram.{NvramLog, Io, fine, new_segment, append, read}
use space.Nvram.Layout.{IsLaidOut, append-appended, read-appended_self}
use space.Nvram.Transaction.{
  begin_transaction, append_segment, commit, rollback, drop_txn, write_pending, insert_pending,
}
use space.Nvram.Transaction.Commit.{Items, Fits, stage, placed, stage-staged}

module _ (items : Items) (log : NvramLog) (fits : Fits log.next_offset items) where
  -- After staging segments whose lengths fit, a rollback gives back the log as it was at `begin`,
  -- and so does dropping the transaction.
  pub rollback_restores :
      (((stage items >> rollback) (begin_transaction log)).1.log ≡ log)
      × (drop_txn (stage items (begin_transaction log)).1 ≡ log)
  unfolding begin_transaction rollback drop_txn
  rollback_restores = rw (stage-staged items (begin_transaction log) refl refl fits) (refl, refl)

-- When a write fails in the commit of staged segments whose lengths fit, the commit reports it,
-- the transaction is over, and the segment map and the next offset are those of `begin`; only the
-- file may differ.
pub commit_failed_restores :
    (items : Items) (log : NvramLog) (f : Bytes) (save : Bool) (id : SegmentId) (bytes more : Bytes)
    → Fits log.next_offset ((id, bytes) ∷ items)
    → let io : Io = record { write = some f; save = save } in
      let (result, a) = (stage ((id, bytes) ∷ items) >> commit io) (begin_transaction log) in
      (result ≡ err io_failed)
      × (a.log ≡ record log { file = f })
      × ((append_segment id more a).0 ≡ err txn_finalized)
      × (commit fine a ≡ (ok tt, a))
unfolding begin_transaction append_segment commit
commit_failed_restores items log f save id bytes more fits =
    rw (stage-staged ((id, bytes) ∷ items) (begin_transaction log) refl refl fits)
      (unfold placed in (refl, refl, refl, refl))

-- A log that is laid out, and two contents of one length.
module _ (log : NvramLog) (laid_out : IsLaidOut log) (id j : SegmentId) (bytes more : Bytes)
    (ne : id ≢ j) (same : length bytes ≡ length more) (small : length bytes < u32_mod)
    (fits : length log.file + length bytes < u64_mod) where
  reads :
      (tail : Bytes) (l : NvramLog) (seg : Segment)
      → lookup id l.segment_map ≡ some seg
      → seg.offset ≡ length log.file
      → seg.len ≡ length tail
      → l.file ≡ log.file ++ tail
      → (read id l).0 ≡ ok tail
  unfolding read
  reads tail l seg e o n f = ground (arith, read_at-append_new log.file tail seg.offset o)

  -- On a log that is laid out, a plain append after `begin` is overwritten when a transaction
  -- commits another segment of the same length: the appended segment read back correctly, and
  -- afterwards it reads the transaction's bytes.
  pub interleaved_append_lost :
      let a = begin_transaction log in
      let log' = (append fine id bytes a.log).1 in
      let after = ((append_segment j more >> commit fine) (record a { log = log' })).1.log in
      ((read id log').0 ≡ ok bytes) × ((read id after).0 ≡ ok more)
  unfolding begin_transaction append_segment commit
  interleaved_append_lost =
      let first = new_segment id log.next_offset (length bytes) in
      let second = new_segment j log.next_offset (length more % u32_mod) in
      let before = insert id first log.segment_map in
      rw (append-appended id bytes log laid_out small fits) (
        read-appended_self id bytes log laid_out,
        unfold write_pending insert_pending in
            reads more _ first
              (ground (
                arith,
                lookup-insert j id second before,
                lookup-insert id id first log.segment_map,
                eq_iff j id,
                eq_iff id id,
              ))
              laid_out.at_end same
              (ap (λ (n : ℕ). write_at (log.file ++ bytes) n more) laid_out.at_end
                ∙ write_at-over log.file bytes more same),
      )

  -- On a log that is laid out, a commit whose writes succeed and whose save of the map fails
  -- reports an error, publishes the segment all the same, and the drop that follows winds the next
  -- offset back below it: the next append, of a segment of the same length, overwrites the
  -- published one.
  pub save_failed_then_lost :
      let io : Io = record { write = none; save = false } in
      let (result, a) = (append_segment id bytes >> commit io) (begin_transaction log) in
      let after = drop_txn a in
      (result ≡ err io_failed)
      × ((read id after).0 ≡ ok bytes)
      × ((read id (append fine j more after).1).0 ≡ ok more)
  unfolding begin_transaction append_segment commit drop_txn append
  save_failed_then_lost =
      let m : length bytes % u32_mod ≡ length bytes = omega arith in
      let first = new_segment id log.next_offset (length bytes) in
      let second = new_segment j log.next_offset (length more % u32_mod) in
      let mine = insert id first log.segment_map in
      rw m (
        unfold write_pending insert_pending in
        (
          refl,
          reads bytes _ first
              (ground (arith, lookup-insert id id first log.segment_map, eq_iff id id))
              laid_out.at_end refl (write_at-end log.file bytes log.next_offset laid_out.at_end),
          reads more _ first
              (ground (
                arith,
                lookup-insert j id second mine,
                lookup-insert id id first log.segment_map,
                eq_iff j id,
                eq_iff id id,
              ))
              laid_out.at_end same
              (rw (write_at-end log.file bytes log.next_offset laid_out.at_end) (
                ap (λ (n : ℕ). write_at (log.file ++ bytes) n more) laid_out.at_end
                ∙ write_at-over log.file bytes more same)),
        ))

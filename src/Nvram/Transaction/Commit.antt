-- ===== src/Nvram/Transaction/Commit.antt =====
-- A committed transaction against the plain appends that it stands for.
use mathlib.Core.List.{append-nil, append_assoc}
use space.Prelude.{
  ℕ, ◌+◌, ◌%◌, ◌<◌, ◌≡◌, refl, sym, ap, ◌∙◌, true, false, Result, ok, Exec, ◌>>◌, pure, List, [],
  ◌∷◌, ◌++◌, nat_eq, length, arith,
}
use space.Common.{Bytes, SegmentId, u32_mod, u64_mod}
use space.Disk.{write_at-end}
use space.Nvram.{NvramLog, fine, new_segment, append}
use space.Nvram.Layout.{IsLaidOut, appended, append-appended, appended-IsLaidOut}
use space.Nvram.Transaction.{
  PendingSegment, Active, begin_transaction, append_segment, write_pending, insert_pending, commit,
}

abbrev pub Items : Type 0
Items = List (SegmentId × Bytes)

-- `append_segment` for each item in turn.
unfoldable pub stage : Items → Exec Active (Unit {0})
stage [] = pure tt
stage ((id, bytes) ∷ rest) = do append_segment id bytes; stage rest

-- `append` for each item in turn.
unfoldable pub append_all : Items → Exec NvramLog (Unit {0})
append_all [] = pure tt
append_all ((id, bytes) ∷ rest) = do append fine id bytes; append_all rest

-- From offset `n` on no length and no offset leaves its machine integer.
abbrev pub Fits : ℕ → Items → Type 0
Fits n [] = Unit
Fits n ((id, bytes) ∷ rest) =
    (length bytes < u32_mod) × (n + length bytes < u64_mod) × Fits (n + length bytes) rest

unfoldable pub placed : ℕ → Items → List PendingSegment
placed n [] = []
placed n ((id, bytes) ∷ rest) =
    record { segment = new_segment id n (length bytes); bytes = bytes }
    ∷ placed (n + length bytes) rest

unfoldable pub past : ℕ → Items → ℕ
past n [] = n
past n ((id, bytes) ∷ rest) = past (n + length bytes) rest

-- The transaction with more segments staged.
abbrev pub staged : Active → List PendingSegment → ℕ → Active
staged a ps n = record {
  log = record a.log { next_offset = n };
  txn = record a.txn { pending = a.txn.pending ++ ps; current_offset = n };
}

append_segment-staged :
    (id : SegmentId) (bytes : Bytes) (a : Active)
    → a.txn.finalized ≡ false
    → length bytes < u32_mod
    → a.txn.current_offset + length bytes < u64_mod
    → let segment = new_segment id a.txn.current_offset (length bytes) in
      append_segment id bytes a ≡ (
        ok segment,
        staged a
            (record { segment = segment; bytes = bytes } ∷ [])
            (a.txn.current_offset + length bytes),
      )
unfolding append_segment
append_segment-staged id bytes a active small fits =
    let m : length bytes % u32_mod ≡ length bytes = omega arith in
    let n : (a.txn.current_offset + length bytes) % u64_mod ≡ a.txn.current_offset + length bytes =
      omega arith in
    simp (active, m, n)

pub stage-staged :
    (items : Items) (a : Active)
    → a.txn.finalized ≡ false
    → a.log.next_offset ≡ a.txn.current_offset
    → Fits a.txn.current_offset items
    → stage items a
      ≡ (ok tt, staged a (placed a.txn.current_offset items) (past a.txn.current_offset items))
unfolding stage placed past
stage-staged [] a active same fits = simp append-nil (ground arith)
stage-staged ((id, bytes) ∷ rest) a active same fits =
    let segment = new_segment id a.txn.current_offset (length bytes) in
    let one : List PendingSegment = record { segment = segment; bytes = bytes } ∷ [] in
    let n = a.txn.current_offset + length bytes in
    rw (append_segment-staged id bytes a active fits.0 fits.1) (
      stage-staged rest (staged a one n) active refl fits.2
      ∙ ap with_pending (append_assoc a.txn.pending one (placed n rest)))
  where
    with_pending : List PendingSegment → Result (Unit {0}) × Active
    with_pending ps = (
      ok tt,
      record {
        log = record a.log { next_offset = past (a.txn.current_offset + length bytes) rest };
        txn = record a.txn {
          pending = ps;
          current_offset = past (a.txn.current_offset + length bytes) rest;
        };
      },
    )

-- The log after all appends.
abbrev appended_all : Items → NvramLog → NvramLog
appended_all [] log = log
appended_all ((id, bytes) ∷ rest) log = appended_all rest (appended id bytes log)

append_all-appended :
    (items : Items) (log : NvramLog)
    → IsLaidOut log
    → Fits log.next_offset items
    → append_all items log ≡ (ok tt, appended_all items log)
unfolding append_all
append_all-appended [] log laid_out fits = refl
append_all-appended ((id, bytes) ∷ rest) log laid_out fits =
    rw (append-appended id bytes log laid_out fits.0 (omega (arith, laid_out.at_end))) (
      append_all-appended rest (appended id bytes log) (appended-IsLaidOut id bytes log laid_out)
        fits.2)

written_file :
    (items : Items) (log : NvramLog)
    → IsLaidOut log
    → write_pending log.file (placed log.next_offset items) ≡ (appended_all items log).file
unfolding placed write_pending
written_file [] log laid_out = refl
written_file ((id, bytes) ∷ rest) log laid_out =
    rw (write_at-end log.file bytes log.next_offset laid_out.at_end, write_pending)
      (written_file rest (appended id bytes log) (appended-IsLaidOut id bytes log laid_out))

inserted_map :
    (items : Items) (log : NvramLog)
    → insert_pending log.segment_map (placed log.next_offset items)
      ≡ (appended_all items log).segment_map
unfolding placed insert_pending
inserted_map [] log = refl
inserted_map ((id, bytes) ∷ rest) log = inserted_map rest (appended id bytes log)

past_offset :
    (items : Items) (log : NvramLog)
    → past log.next_offset items ≡ (appended_all items log).next_offset
unfolding past
past_offset [] log = refl
past_offset ((id, bytes) ∷ rest) log = past_offset rest (appended id bytes log)

saved_map :
    (item : SegmentId × Bytes) (items : Items) (log : NvramLog)
    → (appended_all (item ∷ items) log).saved ≡ (appended_all (item ∷ items) log).segment_map
saved_map (id, bytes) [] log = refl
saved_map (id, bytes) ((j, more) ∷ rest) log = saved_map (j, more) rest (appended id bytes log)

-- A transaction over `items`: begin, stage each, commit.
unfoldable pub transact : Items → NvramLog → Result (Unit {0}) × Active
transact items log = (stage items >> commit fine) (begin_transaction log)

-- On a log that is laid out and under lengths that fit, a committed transaction succeeds, leaves
-- the log as the plain appends of its items do, and is finalized.
pub transact-append_all :
    (items : Items) (log : NvramLog)
    → IsLaidOut log
    → Fits log.next_offset items
    → ((transact items log).0 ≡ ok tt)
      × (append_all items log ≡ (ok tt, (transact items log).1.log))
      × ((transact items log).1.txn.finalized ≡ true)
unfolding transact begin_transaction commit
transact-append_all [] log laid_out fits = unfold stage append_all in (refl, refl, refl)
transact-append_all ((id, bytes) ∷ rest) log laid_out fits =
    let items : Items = (id, bytes) ∷ rest in
    rw (stage-staged items (begin_transaction log) refl refl fits) (
      unfold placed past in
      (
        refl,
        append_all-appended items log laid_out fits ∙ λ i. (
          ok tt,
          record {
            file = sym (written_file items log laid_out) i;
            segment_map = sym (inserted_map items log) i;
            next_offset = sym (past_offset items log) i;
            saved = (saved_map (id, bytes) rest log ∙ sym (inserted_map items log)) i;
          },
        ),
        refl,
      ))

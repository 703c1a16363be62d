-- ===== src/Examples/Logs.antt =====
-- Runs of the log and of transactions.
use space.Prelude.{◌≡◌, ◌>>◌, refl, false, true, none, some, ok, [], ◌∷◌, lookup, arith, nat_eq}
use space.Nvram.{NvramLog, Io, fine, append, read, new_segment}
use space.Nvram.Layout.{IsLaidOut, append_stores}
use space.Nvram.Transaction.{begin_transaction, append_segment, commit, rollback, drop_txn}
use space.Nvram.Transaction.Commit.{Items, transact, append_all, stage, transact-append_all}
use space.Nvram.Transaction.Abort.{
  rollback_restores, commit_failed_restores, interleaved_append_lost, save_failed_then_lost,
}

abbrev start : NvramLog
start = record {
  file = 7 ∷ 7 ∷ [];
  segment_map = (4, new_segment 4 0 2) ∷ [];
  next_offset = 2;
  saved = [];
}

start-IsLaidOut : IsLaidOut start
unfolding lookup
start-IsLaidOut = record { at_end = refl; distinct = (refl, tt); inside = λ id seg e. ground arith }

append_stores_example : (read 5 (append fine 5 (1 ∷ 2 ∷ []) start).1).0 ≡ ok (1 ∷ 2 ∷ [])
append_stores_example =
    (append_stores 5 (1 ∷ 2 ∷ []) start start-IsLaidOut (omega arith) (omega arith)).1

abbrev items : Items
items = (5, 1 ∷ 2 ∷ []) ∷ (6, 3 ∷ []) ∷ []

transact-append_all_example : append_all items start ≡ (ok tt, (transact items start).1.log)
transact-append_all_example = (transact-append_all items start start-IsLaidOut (omega arith)).1

rollback_restores_example : ((stage items >> rollback) (begin_transaction start)).1.log ≡ start
rollback_restores_example = (rollback_restores items start (omega arith)).0

commit_failed_restores_example :
    let io : Io = record { write = some (7 ∷ []); save = true } in
    let a = ((stage items >> commit io) (begin_transaction start)).1 in
    a.log ≡ record start { file = 7 ∷ [] }
commit_failed_restores_example =
    (commit_failed_restores ((6, 3 ∷ []) ∷ []) start (7 ∷ []) true 5 (1 ∷ 2 ∷ []) []
      (omega arith)).1

interleaved_append_lost_example :
    let a = begin_transaction start in
    let log' = (append fine 5 (1 ∷ 2 ∷ []) a.log).1 in
    let after = ((append_segment 6 (8 ∷ 9 ∷ []) >> commit fine) (record a { log = log' })).1.log in
    ((read 5 log').0 ≡ ok (1 ∷ 2 ∷ [])) × ((read 5 after).0 ≡ ok (8 ∷ 9 ∷ []))
interleaved_append_lost_example =
    interleaved_append_lost start start-IsLaidOut 5 6 (1 ∷ 2 ∷ []) (8 ∷ 9 ∷ []) (omega arith) refl
      (omega arith) (omega arith)

save_failed_then_lost_example :
    let io : Io = record { write = none; save = false } in
    let after =
      drop_txn ((append_segment 5 (1 ∷ 2 ∷ []) >> commit io) (begin_transaction start)).1 in
    (read 5 (append fine 6 (8 ∷ 9 ∷ []) after).1).0 ≡ ok (8 ∷ 9 ∷ [])
save_failed_then_lost_example =
    (save_failed_then_lost start start-IsLaidOut 5 6 (1 ∷ 2 ∷ []) (8 ∷ 9 ∷ []) (omega arith) refl
      (omega arith) (omega arith)).2

-- ===== src/Pipeline/Async/Write.antt =====
-- The whole of `write_capsule_with_policy_async` (crates/capsule-registry/src/pipeline.rs, feature
-- pipeline_async), over the coordinator of Pipeline/Async. Writes to the log and the metadata files
-- succeed, but the branches for their failures are here.
use space.Prelude.{
  ℕ, Bool, true, false, Option, none, some, Result, ok, err, Error, exited_early, segment_too_large,
  Exec, ◌>>=◌, ◌>>◌, pure, raise, gets, List, [], ◌∷◌, ◌++◌, nat_beq, nat_eq, bytes_eq, ltb,
  if◌then◌else◌, length,
}
use mathlib.Core.List.{reverse}
use space.Common.{Bytes, SegmentId, CapsuleId, ContentHash, Policy, segment_size}
use space.Nvram.{fine, decrement_refcount, remove_segment}
use space.Nvram.Transaction.{begin_transaction, commit, rollback, drop_txn}
use space.Registry.{
  create_capsule_with_segments, register_content, deregister_content, add_deduped_bytes,
}
use space.Gc.{World, on_registry}
use space.Pipeline.Services.{Services, DedupStats, no_stats}
use space.Pipeline.Write.{Prepared, prepare, chunks}
use space.Pipeline.Async.{new_coordinator, receive}
use space.Pipeline.Async.Commit.{AsyncWrite, in_registry, in_transaction, in_log, commit_and_note}

unfoldable pub undo_increments : List SegmentId → Exec AsyncWrite (Unit {0})
undo_increments [] = pure tt
undo_increments (id ∷ ids) = do in_log (decrement_refcount fine id); undo_increments ids

-- In the reverse order of the increments; a failure of its own takes the place of the error.
unfoldable pub give_up {ℓ} : {A : Type ℓ} → Error → Exec AsyncWrite A
unfolding undo_increments
give_up e = do ids ← gets (λ w. w.dedupe_increments); undo_increments (reverse ids); raise e

-- `if let Err(err) = ...`.
abbrev pub recovered {ℓ} :
    {A : Type ℓ} → Result A × AsyncWrite → (Error → Exec AsyncWrite A) → Result A × AsyncWrite
recovered (ok a, w) handle = (ok a, w)
recovered (err e, w) handle = handle e w

abbrev pub or_else {ℓ} :
    {A : Type ℓ} → Exec AsyncWrite A → (Error → Exec AsyncWrite A) → Exec AsyncWrite A
or_else m handle w = recovered (m w) handle

unfoldable pub deregister_all : List (ContentHash × SegmentId) → Exec AsyncWrite (Unit {0})
deregister_all [] = pure tt
deregister_all ((hash, id) ∷ rest) = do
  in_registry (deregister_content true hash id)
  deregister_all rest

unfoldable pub remove_pending_segments : List (ContentHash × SegmentId) → Exec AsyncWrite (Unit {0})
remove_pending_segments [] = pure tt
remove_pending_segments ((hash, id) ∷ rest) = do
  in_log (remove_segment fine id)
  remove_pending_segments rest

unfoldable pub withdraw : List (ContentHash × SegmentId) → Exec AsyncWrite (Unit {0})
withdraw [] = pure tt
withdraw ((hash, id) ∷ rest) = do
  in_registry (deregister_content true hash id)
  in_log (remove_segment fine id)
  withdraw rest

-- `registered` holds what is registered already, `all` everything that is to be.
unfoldable pub register_all :
    List (ContentHash × SegmentId)
    → List (ContentHash × SegmentId)
    → List (ContentHash × SegmentId)
    → Exec AsyncWrite (Unit {0})
unfolding deregister_all remove_pending_segments give_up
register_all all registered [] = pure tt
register_all all registered ((hash, id) ∷ rest) = do
  or_else (in_registry (register_content true hash id))
      (λ e. do deregister_all registered; remove_pending_segments all; give_up e)
  register_all all (registered ++ (hash, id) ∷ []) rest

abbrev pub first_error : List (Result Prepared) → Option Error
first_error [] = none
first_error (ok p ∷ tasks) = first_error tasks
first_error (err e ∷ tasks) = some e

unfoldable pub commit_error : List (Result Prepared) → Result ℕ → Option Error
commit_error tasks (err e) = some e
commit_error tasks (ok next_index) = elim (first_error tasks) [
  | some e ↦ some e
  | none ↦ if nat_beq next_index (length tasks) then none else some exited_early
]

unfoldable pub note_bytes_saved : CapsuleId → DedupStats → Exec AsyncWrite (Unit {0})
note_bytes_saved id stats =
    if ltb 0 stats.bytes_saved
    then in_registry (add_deduped_bytes id stats.bytes_saved)
    else pure tt

unfoldable pub settle : Policy → ℕ → CapsuleId → ℕ → Option Error → Exec AsyncWrite CapsuleId
unfolding give_up register_all withdraw note_bytes_saved
settle policy now id size (some e) = do in_transaction rollback; give_up e
settle policy now id size none = do
  or_else (in_transaction (commit fine)) give_up
  pending ← gets (λ w. w.pending_registrations)
  register_all pending [] pending
  ids ← gets (λ w. w.segment_ids)
  or_else (in_registry (create_capsule_with_segments true now id size ids policy))
      (λ e. do withdraw pending; give_up e)
  stats ← gets (λ w. w.dedup_stats)
  note_bytes_saved id stats
  pure id

abbrev pub start_write : World → AsyncWrite
start_write w = record {
  registry = w.registry;
  active = begin_transaction w.nvram;
  staged_content = [];
  dedupe_increments = [];
  pending_registrations = [];
  segment_ids = [];
  dedup_stats = no_stats;
}

-- The transaction is dropped at the end, whatever happened.
unfoldable pub over_transaction : Exec AsyncWrite CapsuleId → Exec World CapsuleId
over_transaction m w =
    let (result, st) = m (start_write w) in
    (result, record { registry = st.registry; nvram = drop_txn st.active })

abbrev pub all_within : ℕ → List Bytes → Bool
all_within limit [] = true
all_within limit (chunk ∷ rest) = if ltb limit (length chunk) then false else all_within limit rest

abbrev pub prepare_all : Services → Policy → List Bytes → List (Result Prepared)
prepare_all s policy [] = []
prepare_all s policy (chunk ∷ rest) = prepare s policy chunk ∷ prepare_all s policy rest

-- What stands after the loop that receives and commits, the outcome of which comes in.
unfoldable pub conclude :
    Policy
    → ℕ
    → CapsuleId
    → ℕ
    → List (Result Prepared)
    → Exec AsyncWrite ℕ
    → Exec AsyncWrite CapsuleId
unfolding settle commit_error
conclude policy now id size tasks received w =
    let (result, w') = received w in settle policy now id size (commit_error tasks result) w'

-- The write around that loop: `total_segments` is the number of chunks, `memory_limit` what the
-- configuration allows to a task.
unfoldable pub write_with :
    Services → ℕ → ℕ → CapsuleId → Bytes → Policy → Exec AsyncWrite ℕ → Exec World CapsuleId
unfolding over_transaction conclude
write_with s memory_limit now id bytes policy received =
    let cs = chunks (length bytes) segment_size bytes in
    if nat_beq (length cs) 0
    then (do on_registry (create_capsule_with_segments true now id 0 [] policy); pure id)
    else over_transaction (
        if all_within memory_limit cs
        then conclude policy now id (length bytes) (prepare_all s policy cs) received
        else raise segment_too_large)

unfoldable pub write_capsule_with_policy_async :
    Services → ℕ → ℕ → CapsuleId → Bytes → Policy → List (ℕ × Prepared) → Exec World CapsuleId
unfolding write_with commit_and_note
write_capsule_with_policy_async s memory_limit now id bytes policy arrivals =
    write_with s memory_limit now id bytes policy (
      receive (commit_and_note policy) (length (chunks (length bytes) segment_size bytes)) arrivals
        new_coordinator
      >>= λ c. pure c.next_index)

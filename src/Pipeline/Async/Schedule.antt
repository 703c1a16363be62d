-- ===== src/Pipeline/Async/Schedule.antt =====
-- The asynchronous write does not depend on the order in which its tasks finish.
use space.Prelude.{
  ℕ, ◌≡◌, refl, ap, ◌∙◌, Option, none, some, Result, ok, err, Exec, List, [], ◌∷◌, suc, length,
}
use space.Common.{Bytes, CapsuleId, Policy, segment_size}
use space.Gc.{World}
use space.Pipeline.Services.{Services}
use space.Pipeline.Write.{Prepared, chunks}
use space.Pipeline.Async.Arrival.{Arrives, slots_of, commit_in_order, receive_in_order}
use space.Pipeline.Async.Commit.{AsyncWrite, commit_and_note}
use space.Pipeline.Async.Write.{prepare_all, write_with, write_capsule_with_policy_async}

-- What the tasks send, `none` for one that fails.
abbrev pub sent_of : List (Result Prepared) → List (Option Prepared)
sent_of [] = []
sent_of (ok p ∷ tasks) = some p ∷ sent_of tasks
sent_of (err e ∷ tasks) = none ∷ sent_of tasks

length-sent_of : (tasks : List (Result Prepared)) → length (sent_of tasks) ≡ length tasks
length-sent_of [] = refl
length-sent_of (ok p ∷ tasks) = ap suc (length-sent_of tasks)
length-sent_of (err e ∷ tasks) = ap suc (length-sent_of tasks)

length-prepare_all :
    (s : Services) (policy : Policy) (cs : List Bytes)
    → length (prepare_all s policy cs) ≡ length cs
length-prepare_all s policy [] = refl
length-prepare_all s policy (c ∷ cs) = ap suc (length-prepare_all s policy cs)

module _ (s : Services) (memory_limit now : ℕ) (id : CapsuleId) (bytes : Bytes) (policy : Policy)
    (arrivals : List (ℕ × Prepared)) where
  abbrev pub tasks : List (Result Prepared)
  tasks = prepare_all s policy (chunks (length bytes) segment_size bytes)

  -- Whatever the order in which the tasks that succeed send what they have prepared, each once,
  -- the asynchronous write gives the result and leaves the world, errors included, of the write
  -- that commits the prepared chunks one after the other in the order of the data, up to the
  -- first task that failed.
  pub write_async_in_order :
      Arrives
        (length (chunks (length bytes) segment_size bytes))
        (slots_of (sent_of tasks))
        arrivals
      → (w : World)
      → write_capsule_with_policy_async s memory_limit now id bytes policy arrivals w
        ≡ write_with s memory_limit now id bytes policy
            (commit_in_order (commit_and_note policy) (sent_of tasks))
            w
  unfolding write_capsule_with_policy_async
  write_async_in_order arrives w =
      let n = length (chunks (length bytes) segment_size bytes) in
      let all : length (sent_of tasks) ≡ n =
        length-sent_of tasks
        ∙ length-prepare_all s policy (chunks (length bytes) segment_size bytes) in
      ap (λ (m : Exec AsyncWrite ℕ). write_with s memory_limit now id bytes policy m w)
        (λ i st.
          receive_in_order (commit_and_note policy) (sent_of tasks) n arrivals all arrives st i)

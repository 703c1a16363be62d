-- ===== src/Pipeline/Async/Abort.antt =====
-- An asynchronous write that fails before its commit leaves the log and the catalog as they were.
use mathlib.Core.Path.{subst}
use space.Prelude.{
  ℕ, ◌≡◌, refl, sym, Bool-cases, false, Option-cases, none, some, inl, inr, Error,
  segment_too_large, Result, ok, err, Exec, continue, ◌>>=◌, ◌>>◌, ◌++◌, modify, pure, List, [],
  ◌∷◌, suc, zero, length, ltb, nat_beq, arith,
}
use space.Common.{Bytes, CapsuleId, Policy, segment_size}
use space.Registry.{alloc_segment}
use space.Gc.{World}
use space.Nvram.Transaction.{
  Active, begin_transaction, drop_txn, append_segment, set_segment_metadata,
}
use space.Nvram.Transaction.Open.{
  IsOpen, begin_transaction-IsOpen, append_segment-IsOpen, with_segment_mut-IsOpen, rollback-IsOpen,
  drop_txn-IsOpen,
}
use space.Pipeline.Services.{Services}
use space.Pipeline.Write.{Prepared, chunks, describe}
use space.Pipeline.Async.Drain.{continue_assoc}
use space.Pipeline.Async.{Coordinator, advance, arrive, drain, receive, new_coordinator}
use space.Pipeline.Async.Commit.{
  AsyncWrite, in_registry, in_transaction, commit_new, note_disposition, new_segment,
  commit_and_note,
}
use space.Pipeline.Async.Write.{
  settle, all_within, over_transaction, conclude, give_up, undo_increments, commit_error,
  start_write, prepare_all, first_error, write_with, write_capsule_with_policy_async,
}

continue_keeps :
    {S A B : Type 0} (I : S → Type 0) (r : Result A × S) (f : A → Exec S B)
    → I r.1
    → ((a : A) (s : S) → I s → I (f a s).1)
    → I (continue r f).1
continue_keeps I (ok a, s) f i keeps = keeps a s i
continue_keeps I (err e, s) f i keeps = i

-- Two steps, a value that the last one fixes, and what is done with it.
steps_keep :
    {S A B C D : Type 0} (I : S → Type 0) (r : Result A × S) (f : A → Exec S B) (value : C)
    (g : C → Exec S D)
    → I r.1
    → ((a : A) (s : S) → I s → I (f a s).1)
    → ((s : S) → I s → I (g value s).1)
    → I (continue (continue r (λ a s. continue (f a s) (λ b. pure value))) g).1
steps_keep I (ok a, s) f value g i keeps after =
    subst (λ x. I x.1) (sym (continue_assoc (f a s) (λ b. pure value) g))
      (continue_keeps I (f a s) (λ b. g value) (keeps a s i) (λ b t j. after t j))
steps_keep I (err e, s) f value g i keeps after = i

module _ {P S : Type 0} (commit_one : P → Exec S (Unit {0})) (total : ℕ) (I : S → Type 0)
    (keeps : (p : P) (s : S) → I s → I (commit_one p s).1) where
  drain_keeps : (fuel : ℕ) (c : Coordinator P) (s : S) → I s → I (drain commit_one total fuel c s).1
  unfolding drain
  drain_keeps zero c s i = i
  drain_keeps (suc fuel) c s i = elim (Bool-cases (ltb c.next_index total)) [
    | inr past ↦ rw past i
    | inl below ↦ elim (Option-cases (c.ordered c.next_index)) [
      | inl waits ↦ rw (below, waits) i
      | inr (p, there) ↦
          rw (below, there)
            (continue_keeps I (commit_one p s) (λ _. drain commit_one total fuel (advance c))
              (keeps p s i) (λ u t j. drain_keeps fuel (advance c) t j))
    ]
  ]

  -- What every commit keeps, the coordinator keeps, whatever arrives.
  receive_keeps :
      (arrivals : List (ℕ × P)) (c : Coordinator P) (s : S)
      → I s
      → I (receive commit_one total arrivals c s).1
  unfolding receive
  receive_keeps [] c s i = i
  receive_keeps ((index, p) ∷ rest) c s i = elim (Bool-cases (ltb index total)) [
    | inr outside ↦ rw outside i
    | inl inside ↦ rw inside (
        continue_keeps I (drain commit_one total total (arrive index p c) s)
          (receive commit_one total rest) (drain_keeps total (arrive index p c) s i)
          (λ d t j. receive_keeps rest d t j))
  ]

-- A write that has changed nothing but the next offset and the next segment id.
record Untouched (w : World) (st : AsyncWrite) : Type 0 where
  open' : IsOpen w.nvram st.active
  no_increments : st.dedupe_increments ≡ []
  same_capsules : st.registry.capsules ≡ w.registry.capsules
  same_content : st.registry.content_store ≡ w.registry.content_store
  same_saved : st.registry.saved ≡ w.registry.saved

in_transaction-Untouched :
    {A : Type 0} (w : World) (m : Exec Active A) (st : AsyncWrite)
    → IsOpen w.nvram (m st.active).1
    → Untouched w st
    → Untouched w (in_transaction m st).1
in_transaction-Untouched w m st o q = record {
  open' = o;
  no_increments = q.no_increments;
  same_capsules = q.same_capsules;
  same_content = q.same_content;
  same_saved = q.same_saved;
}

module _ (policy : Policy) (plain : policy.dedupe ≡ false) (w : World) where
  commit_and_note-Untouched :
      (p : Prepared) (st : AsyncWrite)
      → Untouched w st
      → Untouched w (commit_and_note policy p st).1
  unfolding commit_and_note commit_new alloc_segment note_disposition set_segment_metadata
  commit_and_note-Untouched p st q =
      let id = st.registry.next_segment_id in
      let st1 = (in_registry alloc_segment st).1 in
      let q1 : Untouched w st1 = record {
        open' = q.open';
        no_increments = q.no_increments;
        same_capsules = q.same_capsules;
        same_content = q.same_content;
        same_saved = q.same_saved;
      } in
      rw plain (
        steps_keep (Untouched w) (in_transaction (append_segment id p.final_data) st1)
          (λ segment.
            in_transaction (set_segment_metadata id (describe p.comp none p.meta segment)))
          (id, new_segment, length p.final_data, none)
          (λ c.
            modify (note_disposition c.0 c.1 c.2 c.3)
            >> modify (λ t. record t { segment_ids = t.segment_ids ++ c.0 ∷ [] }))
          (in_transaction-Untouched w (append_segment id p.final_data) st1
            (append_segment-IsOpen w.nvram id p.final_data st1.active q1.open') q1)
          (λ segment t j.
            in_transaction-Untouched w
              (set_segment_metadata id (describe p.comp none p.meta segment)) t
              (with_segment_mut-IsOpen w.nvram id (λ _. describe p.comp none p.meta segment)
                t.active j.open')
              j)
          (λ t j. record {
            open' = j.open';
            no_increments = j.no_increments;
            same_capsules = j.same_capsules;
            same_content = j.same_content;
            same_saved = j.same_saved;
          }))

abbrev Unharmed : World → World → Type 0
Unharmed w w' =
    (w'.nvram ≡ w.nvram)
    × (w'.registry.capsules ≡ w.registry.capsules)
    × (w'.registry.content_store ≡ w.registry.content_store)
    × (w'.registry.saved ≡ w.registry.saved)

settle_fails :
    (policy : Policy) (now : ℕ) (id : CapsuleId) (size : ℕ) (e : Error) (w : World)
    (st : AsyncWrite)
    → Untouched w st
    → (st' : AsyncWrite) × (settle policy now id size (some e) st ≡ (err e, st'))
      × Unharmed w (record { registry = st'.registry; nvram = drop_txn st'.active })
unfolding settle give_up undo_increments
settle_fails policy now id size e w st q =
    let (a', rolled, same, dropped) = rollback-IsOpen w.nvram st.active q.open' in
    (
      record st { active = a' },
      rw (rolled, q.no_increments) refl,
      (dropped, q.same_capsules, q.same_content, q.same_saved),
    )

some_task :
    (s : Services) (policy : Policy) (cs : List Bytes) (e : Error)
    → first_error (prepare_all s policy cs) ≡ some e
    → nat_beq (length cs) 0 ≡ false
some_task s policy [] e failed = absurd (cc failed)
some_task s policy (c ∷ cs) e failed = ground arith

failure :
    (tasks : List (Result Prepared)) (e : Error) (r : Result ℕ)
    → first_error tasks ≡ some e
    → (e' : Error) × (commit_error tasks r ≡ some e')
unfolding commit_error
failure tasks e (err e') failed = (e', refl)
failure tasks e (ok n) failed = (e, rw (commit_error, failed) refl)

start_write-Untouched : (w : World) → Untouched w (start_write w)
start_write-Untouched w = record {
  open' = begin_transaction-IsOpen w.nvram;
  no_increments = refl;
  same_capsules = refl;
  same_content = refl;
  same_saved = refl;
}

module _ (s : Services) (memory_limit now : ℕ) (id : CapsuleId) (bytes : Bytes) (policy : Policy)
    (arrivals : List (ℕ × Prepared)) (e : Error) (plain : policy.dedupe ≡ false)
    (failed : first_error (prepare_all s policy (chunks (length bytes) segment_size bytes))
      ≡ some e) where
  -- Under a policy that does not deduplicate, an asynchronous write with a task that fails fails,
  -- whatever the other tasks send and in whatever order; the log, next offset included, the
  -- capsules, the content store and the saved catalog are as before.
  pub write_async_aborts :
      (w : World)
      → (e' : Error) × (w' : World) × (write_capsule_with_policy_async s memory_limit now id bytes
            policy arrivals w
          ≡ (err e', w'))
        × (w'.nvram ≡ w.nvram)
        × (w'.registry.capsules ≡ w.registry.capsules)
        × (w'.registry.content_store ≡ w.registry.content_store)
        × (w'.registry.saved ≡ w.registry.saved)
  unfolding write_capsule_with_policy_async write_with over_transaction conclude
  write_async_aborts w =
      let cs = chunks (length bytes) segment_size bytes in
      let received : Exec AsyncWrite ℕ =
        receive (commit_and_note policy) (length cs) arrivals new_coordinator >>= λ c.
        pure c.next_index in
      let kept : Untouched w (received (start_write w)).1 =
        continue_keeps (Untouched w)
          (receive (commit_and_note policy) (length cs) arrivals new_coordinator (start_write w))
          (λ c. pure c.next_index)
          (receive_keeps (commit_and_note policy) (length cs) (Untouched w)
            (commit_and_note-Untouched policy plain w) arrivals new_coordinator (start_write w)
            (start_write-Untouched w))
          (λ c t j. j) in
      let (e', error) = failure (prepare_all s policy cs) e (received (start_write w)).0 failed in
      let some_chunk = some_task s policy cs e failed in
      elim (Bool-cases (all_within memory_limit cs)) [
        | inr large ↦ (
          segment_too_large,
          record { registry = w.registry; nvram = drop_txn (begin_transaction w.nvram) },
          rw (some_chunk, large) refl,
          drop_txn-IsOpen w.nvram (begin_transaction w.nvram) (begin_transaction-IsOpen w.nvram),
          refl,
          refl,
          refl,
        )
        | inl within ↦
            let (st', settled, unharmed) =
              settle_fails policy now id (length bytes) e' w (received (start_write w)).1 kept in
            (
              e',
              record { registry = st'.registry; nvram = drop_txn st'.active },
              rw (some_chunk, within, error, settled) refl,
              unharmed.0,
              unharmed.1,
              unharmed.2,
              unharmed.3,
            )
      ]

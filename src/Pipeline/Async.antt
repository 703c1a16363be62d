-- ===== src/Pipeline/Async.antt =====
-- `write_capsule_with_policy_async` of `WritePipeline` (crates/capsule-registry/src/pipeline.rs,
-- feature pipeline_async): the chunks are prepared by tasks, whose results arrive in any order over
-- a channel, are put back in order and committed within one transaction. The tail that the feature
-- podms adds is left out, and so are times and log messages.
pub mod Drain
pub mod Arrival
pub mod Commit
pub mod Write
pub mod Schedule
pub mod Abort
use space.Prelude.{
  ℕ, zero, suc, ◌+◌, ◌%◌, Bool, true, false, Option, none, some, panicked, Exec, ◌>>=◌, ◌>>◌, pure,
  raise, List, [], ◌∷◌, nat_beq, ltb, if◌then◌else◌,
}

-- The vector `ordered`, of which only the places below the number of segments are used.
abbrev pub Slots : Type 0 → Type 0
Slots P = ℕ → Option P

abbrev pub set_slot : {P : Type 0} → ℕ → Option P → Slots P → Slots P
set_slot i p ordered j = if nat_beq i j then p else ordered j

pub record Coordinator (P : Type 0) : Type 0 where
  pub ordered : Slots P
  pub next_index : ℕ

abbrev pub new_coordinator : {P : Type 0} → Coordinator P
new_coordinator = record { ordered = λ j. none; next_index = 0 }

-- `ordered[next_index].take()`, and the step to the next index after the commit.
abbrev pub advance : {P : Type 0} → Coordinator P → Coordinator P
advance c = record { ordered = set_slot c.next_index none c.ordered; next_index = c.next_index + 1 }

abbrev pub arrive : {P : Type 0} → ℕ → P → Coordinator P → Coordinator P
arrive i p c = record c { ordered = set_slot i (some p) c.ordered }

module _ {P S : Type 0} (commit_one : P → Exec S (Unit {0})) (total_segments : ℕ) where
  -- The inner loop, on fuel: a round moves `next_index` towards `total_segments`.
  unfoldable pub drain : ℕ → Coordinator P → Exec S (Coordinator P)
  drain zero c = pure c
  drain (suc fuel) c =
      if ltb c.next_index total_segments
      then elim (c.ordered c.next_index) [
        | none ↦ pure c
        | some p ↦ commit_one p >>= λ _. drain fuel (advance c)
      ]
      else pure c

  -- The outer loop, over what arrives until the channel is closed; an error ends it.
  unfoldable pub receive : List (ℕ × P) → Coordinator P → Exec S (Coordinator P)
  unfolding drain
  receive [] c = pure c
  receive ((index, prepared) ∷ rest) c =
      if ltb index total_segments
      then (drain total_segments (arrive index prepared c) >>= λ c'. receive rest c')
      else raise panicked

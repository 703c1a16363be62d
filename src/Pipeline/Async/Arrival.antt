-- ===== src/Pipeline/Async/Arrival.antt =====
-- The order of arrival does not matter: segments are committed in the order of the chunks.
use space.Prelude.{
  ℕ, zero, suc, ◌+◌, ◌≡◌, ◌≤◌, ◌<◌, refl, sym, ap, ◌∙◌, true, false, Option, none, some, Bool-cases,
  inl, inr, ok, Exec, ◌>>=◌, continue, pure, List, [], ◌∷◌, nat_beq, nat_eq, ltb, arith, length,
}
use space.Pipeline.Async.{
  Slots, set_slot, Coordinator, new_coordinator, advance, arrive, drain, receive,
}
use space.Pipeline.Async.Drain.{
  first_of, first_of-none, continue-pure, continue_self, continue_assoc, merged, Apart, Settled,
  drain_ended, drain_waits, drain_commits, drain_idle, drain_then,
}

-- What has arrived of `slots` in some order: each segment once, and all of them.
pub data Arrives {P : Type 0} (total : ℕ) : Slots P → List (ℕ × P) → Type 0 where
  closed : (slots : Slots P) → ((j : ℕ) → slots j ≡ none) → Arrives total slots []
  sent :
      (slots : Slots P) (i : ℕ) (p : P) (rest : List (ℕ × P))
      → i < total
      → slots i ≡ some p
      → Arrives total (set_slot i none slots) rest
      → Arrives total slots ((i, p) ∷ rest)

-- The slots of tasks in their order, `none` for one that failed.
abbrev pub slots_of : {P : Type 0} → List (Option P) → Slots P
slots_of [] j = none
slots_of (p ∷ ps) zero = p
slots_of (p ∷ ps) (suc j) = slots_of ps j

-- The segments committed one after the other, up to the first task that failed; the result is their
-- number.
abbrev pub commit_in_order : {P S : Type 0} → (P → Exec S (Unit {0})) → List (Option P) → Exec S ℕ
commit_in_order commit_one [] = pure 0
commit_in_order commit_one (none ∷ ps) = pure 0
commit_in_order commit_one (some p ∷ ps) =
    commit_one p >>= λ _. commit_in_order commit_one ps >>= λ n. pure (suc n)

module _ {P : Type 0} where
  merged-arrive :
      (pending : Slots P) (i : ℕ) (p : P) (c : Coordinator P)
      → pending i ≡ some p
      → merged (set_slot i none pending) (arrive i p c) ≡ merged pending c
  merged-arrive pending i p c waits =
      let slot : (j : ℕ)
          → (merged (set_slot i none pending) (arrive i p c)).ordered j
            ≡ (merged pending c).ordered j =
        λ j. elim (Bool-cases (nat_beq i j)) [
          | inl same ↦
              let k : i ≡ j = ground (arith, same) in
              let gone : set_slot i none pending j ≡ none = rw same refl in
              let put : set_slot i (some p) c.ordered j ≡ some p = rw same refl in
              ap (λ v. first_of v (set_slot i (some p) c.ordered j)) gone
              ∙ put
              ∙ sym (ap (λ v. first_of v (c.ordered j)) (ap pending (sym k) ∙ waits))
          | inr other ↦
              let kept : set_slot i none pending j ≡ pending j = rw other refl in
              let stays : set_slot i (some p) c.ordered j ≡ c.ordered j = rw other refl in
              λ t. first_of (kept t) (stays t)
        ] in
      λ t. record { ordered = λ j. slot j t; next_index = c.next_index }

  arrive-Apart :
      (pending : Slots P) (i : ℕ) (p : P) (c : Coordinator P)
      → Apart pending c
      → Apart (set_slot i none pending) (arrive i p c)
  arrive-Apart pending i p c apart j q waits = elim (Bool-cases (nat_beq i j)) [
    | inl same ↦ absurd (ground (arith, waits, same))
    | inr other ↦
        let there : pending j ≡ some q = ground (arith, waits, other) in
        (rw other (apart j q there).0, (apart j q there).1)
  ]

module _ {P S : Type 0} (commit_one : P → Exec S (Unit {0})) (total : ℕ) where
  receive_lem :
      (pending : Slots P) (arrivals : List (ℕ × P))
      → Arrives total pending arrivals
      → (c : Coordinator P) → Settled commit_one total c
      → Apart pending c
      → (s : S)
      → receive commit_one total arrivals c s ≡ drain commit_one total total (merged pending c) s
  unfolding receive
  receive_lem pending [] (closed _ empty) c settled apart s =
      let slot : (j : ℕ) → (merged pending c).ordered j ≡ c.ordered j = λ j. rw (empty j) refl in
      sym (drain_idle commit_one total c total s settled)
      ∙ ap (λ d. drain commit_one total total d s)
          (λ t. record { ordered = λ j. sym (slot j) t; next_index = c.next_index })
  receive_lem pending ((i, p) ∷ rest) (sent _ _ _ _ below waits more) c settled apart s =
      let inside : ltb i total ≡ true = ground (arith, below) in
      rw inside (
        drain_then commit_one total total (set_slot i none pending) (receive commit_one total rest)
          (λ d st ap' t. receive_lem (set_slot i none pending) rest more d st ap' t) (arrive i p c)
          total (arrive-Apart pending i p c apart) (omega arith) (omega arith) s
        ∙ ap (λ d. drain commit_one total total d s) (merged-arrive pending i p c waits))

  drain_in_order :
      (ps : List (Option P)) (f : ℕ) (c : Coordinator P)
      → ((j : ℕ) → c.ordered (c.next_index + j) ≡ slots_of ps j)
      → c.next_index + length ps ≡ total
      → length ps ≤ f
      → (s : S)
      → continue (drain commit_one total f c s) (λ d. pure d.next_index)
        ≡ continue (commit_in_order commit_one ps s) (λ n. pure (c.next_index + n))
  drain_in_order [] f c same all enough s =
      let past : ltb c.next_index total ≡ false = ground (arith, all) in
      ap (λ r. continue r (λ d. pure d.next_index)) (drain_ended commit_one total f c s past)
      ∙ ap (λ n. (ok n, s)) (omega arith)
  drain_in_order (none ∷ ps) f c same all enough s =
      let first : c.ordered c.next_index ≡ none = ap c.ordered (omega arith) ∙ same 0 in
      ap (λ r. continue r (λ d. pure d.next_index)) (drain_waits commit_one total f c s first)
      ∙ ap (λ n. (ok n, s)) (omega arith)
  drain_in_order (some p ∷ ps) zero c same all enough s = absurd (omega (arith, enough))
  drain_in_order (some p ∷ ps) (suc f) c same all enough s =
      let first : c.ordered c.next_index ≡ some p = ap c.ordered (omega arith) ∙ same 0 in
      let below : ltb c.next_index total ≡ true = ground (arith, all) in
      let later : (j : ℕ) → (advance c).ordered (c.next_index + 1 + j) ≡ slots_of ps j = λ j.
        let other : nat_beq c.next_index (c.next_index + 1 + j) ≡ false = ground arith in
        rw other (ap c.ordered (omega arith) ∙ same (suc j)) in
      ap (λ r. continue r (λ d. pure d.next_index))
        (drain_commits commit_one total f c p s below first)
      ∙ continue_assoc (commit_one p s) (λ _. drain commit_one total f (advance c))
          (λ d. pure d.next_index)
      ∙ ap (continue (commit_one p s)) (λ i u t.
        (drain_in_order ps f (advance c) later (omega (arith, all)) (omega (arith, enough)) t
            ∙ continue-pure (commit_in_order commit_one ps t) (λ n. c.next_index + 1 + n)
                (λ n. c.next_index + suc n) (λ n. omega arith))
          i)
      ∙ sym (
          continue_assoc (commit_one p s)
            (λ _ t. continue (commit_in_order commit_one ps t) (λ n. pure (suc n)))
            (λ n. pure (c.next_index + n))
          ∙ ap (continue (commit_one p s)) (λ i u t.
            continue_assoc (commit_in_order commit_one ps t) (λ n. pure (suc n))
              (λ n. pure (c.next_index + n)) i))

-- Each task sends what it has prepared, and nothing else is sent: whatever the order in which the
-- segments of the tasks that succeeded arrive, the coordinator commits them in the order of the
-- chunks, up to the first task that failed, and stops at the first commit that fails, with its
-- error. State and number of committed segments are those of the plain loop.
pub receive_in_order :
    {P S : Type 0} (commit_one : P → Exec S (Unit {0})) (ps : List (Option P)) (total : ℕ)
    (arrivals : List (ℕ × P))
    → length ps ≡ total
    → Arrives total (slots_of ps) arrivals
    → (s : S)
    → continue (receive commit_one total arrivals new_coordinator s) (λ c. pure c.next_index)
      ≡ commit_in_order commit_one ps s
receive_in_order {P = P} commit_one ps n arrivals all arrives s =
    let arrived : Coordinator P = merged (slots_of ps) new_coordinator in
    ap (λ r. continue r (λ c. pure c.next_index))
      (receive_lem commit_one n (slots_of ps) arrivals arrives new_coordinator (λ below. refl)
        (λ j p waits. (refl, omega arith)) s)
    ∙ drain_in_order commit_one n ps n arrived
        (λ j. ap (λ k. first_of (slots_of ps k) none) (omega arith) ∙ first_of-none (slots_of ps j))
        (omega (arith, all)) (omega (arith, all)) s
    ∙ continue-pure (commit_in_order commit_one ps s) (λ k. 0 + k) (λ k. k) (λ k. omega arith)
    ∙ continue_self (commit_in_order commit_one ps s)

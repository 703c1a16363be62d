-- ===== src/Pipeline/Async/Drain.antt =====
-- The coordinator's inner loop: draining more than once is draining once at the end.
use space.Prelude.{
  ℕ, zero, suc, ◌+◌, ◌≡◌, ◌≤◌, refl, sym, ap, ◌∙◌, true, false, Option, none, some, Option-cases,
  Bool-cases, inl, inr, Result, ok, err, Exec, continue, pure, nat_beq, nat_eq, ltb, arith,
}
use space.Pipeline.Async.{Slots, Coordinator, advance, drain}

abbrev pub first_of : {P : Type 0} → Option P → Option P → Option P
first_of none p = p
first_of (some q) p = some q

pub first_of-none : {P : Type 0} (p : Option P) → first_of p none ≡ p
first_of-none none = refl
first_of-none (some q) = refl

pub continue-pure :
    {S : Type 0} (r : Result ℕ × S) (f g : ℕ → ℕ)
    → ((n : ℕ) → f n ≡ g n)
    → continue r (λ n. pure (f n)) ≡ continue r (λ n. pure (g n))
continue-pure (ok n, s) f g same = ap (λ m. (ok m, s)) (same n)
continue-pure (err e, s) f g same = refl

pub continue_self : {S : Type 0} (r : Result ℕ × S) → continue r (λ n. pure n) ≡ r
continue_self (ok n, s) = refl
continue_self (err e, s) = refl

pub continue_assoc :
    {S A B C : Type 0} (r : Result A × S) (f : A → Exec S B) (g : B → Exec S C)
    → continue (continue r f) g ≡ continue r (λ a s. continue (f a s) g)
continue_assoc (ok a, s) f g = refl
continue_assoc (err e, s) f g = refl

module _ {P : Type 0} where
  -- What has arrived together with what is still to come.
  abbrev pub merged : Slots P → Coordinator P → Coordinator P
  merged pending c = record c { ordered = λ j. first_of (pending j) (c.ordered j) }

  -- Nothing of what is still to come has a place that is taken.
  abbrev pub Apart : Slots P → Coordinator P → Type 0
  Apart pending c = (j : ℕ) (p : P) → pending j ≡ some p → (c.ordered j ≡ none) × (c.next_index ≤ j)

  Apart-next :
      (pending : Slots P) (c : Coordinator P) (p q : P) (j : ℕ)
      → Apart pending c
      → c.ordered c.next_index ≡ some p
      → pending j ≡ some q
      → nat_beq c.next_index j ≡ false
  Apart-next pending c p q j apart there waits = elim (Bool-cases (nat_beq c.next_index j)) [
    | inr other ↦ other
    | inl same ↦
        let k : c.next_index ≡ j = ground (arith, same) in
        let taken : c.ordered j ≡ some p = rw (sym k) there in
        absurd (cc ((apart j q waits).0, taken))
  ]

  merged_taken :
      (pending : Slots P) (c : Coordinator P) (p : P)
      → Apart pending c
      → c.ordered c.next_index ≡ some p
      → ((merged pending c).ordered c.next_index ≡ some p)
        × (advance (merged pending c) ≡ merged pending (advance c))
        × Apart pending (advance c)
  merged_taken pending c p apart there =
      let n = c.next_index in
      let slot : (j : ℕ)
          → (advance (merged pending c)).ordered j ≡ (merged pending (advance c)).ordered j =
        λ j. elim (Option-cases (pending j)) [
          | inl waits ↦ rw waits refl
          | inr (q, waits) ↦ rw (waits, Apart-next pending c p q j apart there waits) refl
        ] in
      (
        elim (Option-cases (pending n)) [
          | inl waits ↦ rw waits there
          | inr (q, waits) ↦ absurd (cc ((apart n q waits).0, there))
        ],
        λ i. record { ordered = λ j. slot j i; next_index = n + 1 },
        λ j q waits.
            let other = Apart-next pending c p q j apart there waits in
            (rw other (apart j q waits).0, ground (arith, other, (apart j q waits).1)),
      )

module _ {P S : Type 0} (commit_one : P → Exec S (Unit {0})) (total : ℕ) where
  pub drain_ended :
      (fuel : ℕ) (c : Coordinator P) (s : S)
      → ltb c.next_index total ≡ false
      → drain commit_one total fuel c s ≡ (ok c, s)
  unfolding drain
  drain_ended zero c s h = refl
  drain_ended (suc fuel) c s h = rw h refl

  pub drain_waits :
      (fuel : ℕ) (c : Coordinator P) (s : S)
      → c.ordered c.next_index ≡ none
      → drain commit_one total fuel c s ≡ (ok c, s)
  unfolding drain
  drain_waits zero c s h = refl
  drain_waits (suc fuel) c s h = elim (Bool-cases (ltb c.next_index total)) [
    | inl below ↦ rw (below, h) refl
    | inr past ↦ rw past refl
  ]

  pub drain_commits :
      (fuel : ℕ) (c : Coordinator P) (p : P) (s : S)
      → ltb c.next_index total ≡ true
      → c.ordered c.next_index ≡ some p
      → drain commit_one total (suc fuel) c s
        ≡ continue (commit_one p s) (λ _. drain commit_one total fuel (advance c))
  unfolding drain
  drain_commits fuel c p s below there = rw (below, there) refl

  -- More fuel than enough changes nothing.
  drain_fuel :
      (f g : ℕ) (c : Coordinator P)
      → total ≤ f + c.next_index
      → total ≤ g + c.next_index
      → (s : S) → drain commit_one total f c s ≡ drain commit_one total g c s
  drain_fuel zero g c hf hg s =
      let past : ltb c.next_index total ≡ false = ground (arith, hf) in
      drain_ended zero c s past ∙ sym (drain_ended g c s past)
  drain_fuel (suc f) zero c hf hg s =
      let past : ltb c.next_index total ≡ false = ground (arith, hg) in
      drain_ended (suc f) c s past ∙ sym (drain_ended zero c s past)
  drain_fuel (suc f) (suc g) c hf hg s = elim (Bool-cases (ltb c.next_index total)) [
    | inr past ↦ drain_ended (suc f) c s past ∙ sym (drain_ended (suc g) c s past)
    | inl below ↦ elim (Option-cases (c.ordered c.next_index)) [
      | inl waits ↦ drain_waits (suc f) c s waits ∙ sym (drain_waits (suc g) c s waits)
      | inr (p, there) ↦
          drain_commits f c p s below there
          ∙ ap (continue (commit_one p s))
              (λ i u t. drain_fuel f g (advance c) (omega (arith, hf)) (omega (arith, hg)) t i)
          ∙ sym (drain_commits g c p s below there)
    ]
  ]

  abbrev pub Settled : Coordinator P → Type 0
  Settled c = ltb c.next_index total ≡ true → c.ordered c.next_index ≡ none

  pub drain_idle :
      (c : Coordinator P) (fuel : ℕ) (s : S)
      → Settled c
      → drain commit_one total fuel c s ≡ (ok c, s)
  drain_idle c fuel s settled = elim (Bool-cases (ltb c.next_index total)) [
    | inl below ↦ drain_waits fuel c s (settled below)
    | inr past ↦ drain_ended fuel c s past
  ]

  -- Draining, and then what amounts to draining once the rest has arrived, is draining once at the
  -- end.
  pub drain_then :
      (f : ℕ) (pending : Slots P) (k : Coordinator P → Exec S (Coordinator P))
      → ((c : Coordinator P)
          → Settled c
          → Apart pending c
          → (s : S) → k c s ≡ drain commit_one total total (merged pending c) s)
      → (c : Coordinator P) (g : ℕ) → Apart pending c
      → total ≤ f + c.next_index
      → total ≤ g + c.next_index
      → (s : S)
      → continue (drain commit_one total f c s) k ≡ drain commit_one total g (merged pending c) s
  drain_then zero pending k agrees c g apart hf hg s =
      let past : ltb c.next_index total ≡ false = ground (arith, hf) in
      ap (λ r. continue r k) (drain_ended zero c s past)
      ∙ agrees c (λ below. absurd (cc (below, past))) apart s
      ∙ drain_fuel total g (merged pending c) (omega arith) hg s
  drain_then (suc f) pending k agrees c g apart hf hg s =
      elim (Bool-cases (ltb c.next_index total)) [
        | inr past ↦
            ap (λ r. continue r k) (drain_ended (suc f) c s past)
            ∙ agrees c (λ below. absurd (cc (below, past))) apart s
            ∙ drain_fuel total g (merged pending c) (omega arith) hg s
        | inl below ↦ elim (Option-cases (c.ordered c.next_index)) [
          | inl waits ↦
              ap (λ r. continue r k) (drain_waits (suc f) c s waits)
              ∙ agrees c (λ h. waits) apart s
              ∙ drain_fuel total g (merged pending c) (omega arith) hg s
          | inr (p, there) ↦
              let (found, same, apart') = merged_taken pending c p apart there in
              ap (λ r. continue r k) (drain_commits f c p s below there)
              ∙ continue_assoc (commit_one p s) (λ _. drain commit_one total f (advance c)) k
              ∙ ap (continue (commit_one p s)) (λ i u t.
                drain_then f pending k agrees (advance c) total apart' (omega (arith, hf))
                  (omega arith) t i)
              ∙ ap (λ d. continue (commit_one p s) (λ _. drain commit_one total total d)) (sym same)
              ∙ sym (drain_commits total (merged pending c) p s below found)
              ∙ drain_fuel (suc total) g (merged pending c) (omega arith) hg s
        ]
      ]

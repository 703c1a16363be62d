-- ===== src/Scaling/Targets.antt =====
-- Selecting nodes (crates/scaling/src/compiler.rs).
use space.Prelude.{
  ℕ, zero, suc, ◌≤◌, ◌≡◌, refl, sym, ap, ◌∙◌, Bool, true, false, ◌||◌, Option, none, some, some_inj,
  Bool-cases, inl, inr, List, [], ◌∷◌, take, leb, nat_beq, eq_iff, nat_eq, if◌then◌else◌, arith,
}
use space.Scaling.{NodeId, retain, min_by_key}

abbrev pub among : NodeId → List NodeId → Bool
among n [] = false
among n (m ∷ ms) = nat_beq m n || among n ms

-- The test holds of each node.
abbrev pub All : (NodeId → Bool) → List NodeId → Type 0
All test [] = Unit
All test (n ∷ ns) = (test n ≡ true) × All test ns

pub All-among :
    (test : NodeId → Bool) (ns : List NodeId) (n : NodeId)
    → All test ns
    → among n ns ≡ true
    → test n ≡ true
All-among test [] n h e = absurd (cc)
All-among test (m ∷ ms) n h e = elim (Bool-cases (nat_beq m n)) [
  | inl same ↦ ap test (sym ((eq_iff m n).0 same)) ∙ h.0
  | inr other ↦ All-among test ms n h.1 (ground arith)
]

pub retain-All : (test : NodeId → Bool) (ns : List NodeId) → All test (retain test ns)
unfolding retain
retain-All test [] = tt
retain-All test (n ∷ ns) = elim (Bool-cases (test n)) [
  | inl e ↦ rw e (e, retain-All test ns)
  | inr e ↦ rw e (retain-All test ns)
]

pub retain-keeps :
    (test other : NodeId → Bool) (ns : List NodeId) → All other ns → All other (retain test ns)
unfolding retain
retain-keeps test other [] h = tt
retain-keeps test other (n ∷ ns) h = elim (Bool-cases (test n)) [
  | inl e ↦ rw e (h.0, retain-keeps test other ns h.1)
  | inr e ↦ rw e (retain-keeps test other ns h.1)
]

pub among-retain :
    (test : NodeId → Bool) (ns : List NodeId) (n : NodeId)
    → among n ns ≡ true
    → test n ≡ true
    → among n (retain test ns) ≡ true
unfolding retain
among-retain test [] n h e = absurd (cc)
among-retain test (m ∷ ms) n h e = elim (Bool-cases (nat_beq m n)) [
  | inl same ↦
      let mine : test m ≡ true = ap test ((eq_iff m n).0 same) ∙ e in rw mine (ground (arith, same))
  | inr other ↦ let rest = among-retain test ms n (ground arith) e in ground (arith, rest, other)
]

unretained :
    (test : NodeId → Bool) (ns : List NodeId) (n : NodeId)
    → among n (retain test ns) ≡ true
    → among n ns ≡ true
unfolding retain
unretained test [] n h = h
unretained test (m ∷ ms) n h = split (test m) h (unretained test ms n)
  where
    split :
        (t : Bool)
        → among n (if t then m ∷ retain test ms else retain test ms) ≡ true
        → (among n (retain test ms) ≡ true → among n ms ≡ true)
        → among n (m ∷ ms) ≡ true
    split true h ih = elim (Bool-cases (nat_beq m n)) [
      | inl same ↦ rw same refl
      | inr other ↦ let tail = ih (ground arith) in ground arith
    ]
    split false h ih = let tail = ih h in ground arith

-- A retained node passed the test and was there.
pub among-unretain :
    (test : NodeId → Bool) (ns : List NodeId) (n : NodeId)
    → among n (retain test ns) ≡ true
    → (among n ns ≡ true) × (test n ≡ true)
among-unretain test ns n h =
    (unretained test ns n h, All-among test (retain test ns) n (retain-All test ns) h)

pub take-All :
    (k : ℕ) (test : NodeId → Bool) (ns : List NodeId) → All test ns → All test (take k ns)
take-All zero test ns h = tt
take-All (suc k) test [] h = tt
take-All (suc k) test (n ∷ ns) h = (h.0, take-All k test ns h.1)

pub min_by_key-none :
    (key : NodeId → ℕ) (ns : List NodeId) (n : NodeId)
    → min_by_key key ns ≡ none
    → among n ns ≡ false
unfolding min_by_key
min_by_key-none key [] n e = refl
min_by_key-none key (m ∷ ms) n e = absurd (never (min_by_key key ms) e)
  where
    never :
        (o : Option NodeId)
        → ◌≡◌ {A = Option NodeId}
            (elim o [ none ↦ some m | some k ↦ some (if leb (key m) (key k) then m else k) ])
            none
        → ⊥
    never none f = cc
    never (some k) f = cc

-- The least one is among the nodes, and none has a smaller key.
pub min_by_key-least :
    (key : NodeId → ℕ) (ns : List NodeId) (least : NodeId)
    → min_by_key key ns ≡ some least
    → (among least ns ≡ true) × ((n : NodeId) → among n ns ≡ true → key least ≤ key n)
unfolding min_by_key
min_by_key-least key [] least e = absurd (cc)
min_by_key-least key (m ∷ ms) least e =
    go (min_by_key key ms) refl (λ k f. min_by_key-least key ms k f) e
  where
    go :
        (o : Option NodeId)
        → min_by_key key ms ≡ o
        → ((k : NodeId)
            → min_by_key key ms ≡ some k
            → (among k ms ≡ true) × ((n : NodeId) → among n ms ≡ true → key k ≤ key n))
        → (elim o [ none ↦ some m | some k ↦ some (if leb (key m) (key k) then m else k) ])
          ≡ some least
        → (among least (m ∷ ms) ≡ true)
          × ((n : NodeId) → among n (m ∷ ms) ≡ true → key least ≤ key n)
    go none f ih e =
        let here : m ≡ least = some_inj e in
        (
          ground (arith, eq_iff m least),
          λ n there.
              let none_else = min_by_key-none key ms n f in
              let same : m ≡ n = ground (arith, eq_iff m n) in
              omega (arith, ap key here, ap key same),
        )
    go (some k) f ih e =
        let (k_there, k_least) = ih k f in
        elim (Bool-cases (leb (key m) (key k))) [
          | inl le ↦
              let here : m ≡ least = some_inj (sym (rw le refl) ∙ e) in
              (
                ground (arith, eq_iff m least),
                λ n there. elim (Bool-cases (nat_beq m n)) [
                  | inl same ↦ omega (arith, ap key here, ap key ((eq_iff m n).0 same))
                  | inr other ↦
                      let small = k_least n (ground arith) in
                      let below : key m ≤ key k = ground arith in omega (arith, ap key here)
                ],
              )
          | inr gt ↦
              let here : k ≡ least = some_inj (sym (rw gt refl) ∙ e) in
              (
                ground (arith, ap (λ q. among q ms) here),
                λ n there. elim (Bool-cases (nat_beq m n)) [
                  | inl same ↦
                      let above : key k ≤ key m = ground arith in
                      omega (arith, ap key here, ap key ((eq_iff m n).0 same))
                  | inr other ↦ let small = k_least n (ground arith) in omega (arith, ap key here)
                ],
              )
        ]

-- What is left of a list when the first two are none.
pub take-none : (ns : List NodeId) (n : NodeId) → take 2 ns ≡ [] → among n ns ≡ false
take-none [] n e = refl
take-none (m ∷ ms) n e = absurd (cc)

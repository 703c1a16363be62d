-- ===== src/Audit/Chain.antt =====
-- The chain of hashes shows what was appended (crates/common/src/security/audit_log.rs).
use space.Prelude.{
  ℕ, ◌^◌, ◌<◌, ◌≡◌, ◌≢◌, ◌⊎◌, refl, sym, ap, ◌∙◌, inl, inr, Bool, true, Bool-cases, none, ok, Exec,
  ◌>>◌, pure, List, [], ◌∷◌, ◌++◌, append_assoc, append-nil, nat_beq, bytes_beq, bytes_beq_iff,
  if◌then◌else◌, length, arith,
}
use space.Common.{Bytes}
use space.Audit.{
  AuditRecord, Line, parsed, unparsed, AuditState, AuditOptions, AuditIo, zero_hash, recover_from,
  recover_last_hash, with_options, write_record, count_flush, rotate_if, is_full, stamp, next_hash,
  append,
}
use space.Encryption.Mac.{to_le_bytes}
use space.Encryption.Mac.Forgery.{
  append_inj_left, append_inj_right, to_le_bytes_inj, length-to_le_bytes,
}

-- No write fails and no rotation is due.
abbrev pub quiet : AuditIo
quiet = record { failed_write = none; file_bytes = none; renames = true; opens = true }

module _ (hash_bytes : Bytes → Bytes) where
  -- Events with their times, appended one after the other.
  unfoldable pub append_all : AuditOptions → List (Bytes × ℕ) → Exec AuditState (Unit {0})
  append_all options [] = pure tt
  append_all options ((event, time) ∷ rest) = do
    append hash_bytes options quiet event time
    append_all options rest

  unfoldable pub chain_end : Bytes → List (Bytes × ℕ) → Bytes
  chain_end start [] = start
  chain_end start ((event, time) ∷ rest) = chain_end (next_hash hash_bytes start event time) rest

  unfoldable pub chain_lines : Bytes → List (Bytes × ℕ) → List Line
  chain_lines start [] = []
  chain_lines start ((event, time) ∷ rest) =
      parsed (record {
        event = event;
        timestamp = time;
        prev_hash = start;
        hash = next_hash hash_bytes start event time;
        tsa_proof = none;
      })
      ∷ chain_lines (next_hash hash_bytes start event time) rest

  -- What the appends leave.
  record Appended (events : List (Bytes × ℕ)) (s s' : AuditState) : Type 0 where
    file : s'.file ≡ s.file ++ chain_lines s.last_hash events
    last : s'.last_hash ≡ chain_end s.last_hash events

  append_all-Appended :
      (options : AuditOptions) (events : List (Bytes × ℕ)) (s : AuditState)
      → options.tsa_client ≡ none
      → (s' : AuditState) × (append_all options events s ≡ (ok tt, s')) × Appended events s s'
  unfolding append_all append chain_end chain_lines stamp write_record rotate_if is_full count_flush
  append_all-Appended options [] s plain =
      (s, refl, record { file = sym (append-nil s.file); last = refl })
  append_all-Appended options ((event, time) ∷ rest) s plain =
      let entry : AuditRecord = record {
        event = event;
        timestamp = time;
        prev_hash = s.last_hash;
        hash = next_hash hash_bytes s.last_hash event time;
        tsa_proof = none;
      } in
      let written : AuditState = record s {
        file = s.file ++ parsed entry ∷ [];
        last_hash = next_hash hash_bytes s.last_hash event time;
      } in
      let (s', ran, a) = append_all-Appended options rest (count_flush options written) plain in
      (
        s',
        rw (plain, ran) refl,
        record { file = a.file ∙ append_assoc s.file (parsed entry ∷ []) _; last = a.last },
      )

  recover_from-append :
      (last : Bytes) (xs ys : List Line)
      → recover_from last (xs ++ ys) ≡ recover_from (recover_from last xs) ys
  unfolding recover_from
  recover_from-append last [] ys = refl
  recover_from-append last (unparsed ∷ xs) ys = recover_from-append last xs ys
  recover_from-append last (parsed r ∷ xs) ys =
      recover_from-append (if nat_beq (length r.hash) 32 then r.hash else last) xs ys

  module _ (wide : (message : Bytes) → length (hash_bytes message) ≡ 32) where
    recover_from-chain :
        (start : Bytes) (events : List (Bytes × ℕ))
        → recover_from start (chain_lines start events) ≡ chain_end start events
    unfolding recover_from chain_lines chain_end next_hash
    recover_from-chain start [] = refl
    recover_from-chain start ((event, time) ∷ rest) =
        let next = next_hash hash_bytes start event time in
        let full : nat_beq (length next) 32 ≡ true =
          ground (arith, wide (start ++ (event ++ to_le_bytes 8 time))) in
        ap (λ (t : Bool). recover_from (if t then next else start) (chain_lines next rest)) full
        ∙ recover_from-chain next rest

    -- Two messages with one hash.
    pub record HashCollision : Type 0 where
      pub one : Bytes
      pub other : Bytes
      pub differ : one ≢ other
      pub same_hash : hash_bytes one ≡ hash_bytes other

    abbrev pub InTime : List (Bytes × ℕ) → Type 0
    InTime [] = Unit
    InTime ((event, time) ∷ rest) = (time < 2 ^ 64) × InTime rest

    -- What a link covers can be told from its bytes.
    link_inj :
        (a b e f : Bytes) (t u : ℕ)
        → length a ≡ length b
        → t < 2 ^ 64
        → u < 2 ^ 64
        → a ++ (e ++ to_le_bytes 8 t) ≡ b ++ (f ++ to_le_bytes 8 u)
        → (a ≡ b) × (e ≡ f) × (t ≡ u)
    link_inj a b e f t u same small small' eq =
        let (heads, tails) =
          append_inj_left a b (e ++ to_le_bytes 8 t) (f ++ to_le_bytes 8 u) same eq in
        let (events, times) =
          append_inj_right e f (to_le_bytes 8 t) (to_le_bytes 8 u)
            (length-to_le_bytes 8 t ∙ sym (length-to_le_bytes 8 u)) tails in
        (heads, events, to_le_bytes_inj 8 t u (omega arith) (omega arith) times)

    chain_end_inj :
        (a b : Bytes) (xs ys : List (Bytes × ℕ))
        → length a ≡ length b
        → length xs ≡ length ys
        → InTime xs
        → InTime ys
        → chain_end a xs ≡ chain_end b ys
        → ((a ≡ b) × (xs ≡ ys)) ⊎ HashCollision
    unfolding chain_end next_hash
    chain_end_inj a b [] [] same count tx ty e = inl (e, refl)
    chain_end_inj a b [] (y ∷ ys) same count tx ty e = absurd (omega arith)
    chain_end_inj a b (x ∷ xs) [] same count tx ty e = absurd (omega arith)
    chain_end_inj a b ((e, t) ∷ xs) ((f, u) ∷ ys) same count tx ty eq =
        let m = a ++ (e ++ to_le_bytes 8 t) in
        let n = b ++ (f ++ to_le_bytes 8 u) in
        elim (chain_end_inj (hash_bytes m) (hash_bytes n) xs ys (wide m ∙ sym (wide n))
          (omega arith) tx.1 ty.1 eq) [
            | inr c ↦ inr c
            | inl tails ↦ elim (Bool-cases (bytes_beq m n)) [
              | inl equal ↦
                  let (heads, events, times) =
                    link_inj a b e f t u same tx.0 ty.0 ((bytes_beq_iff m n).0 equal) in
                  inl (heads, λ i. (events i, times i) ∷ tails.1 i)
              | inr other ↦ inr (record {
                one = m;
                other = n;
                differ = λ p. ground (arith, bytes_beq_iff m n);
                same_hash = tails.0;
              })
            ]
          ]

    -- With a hash of 32 bytes, no time-stamping service, no failed write and no rotation: appending
    -- events to a log as it was opened succeeds, and opening the file again finds the hash that the
    -- log ended with. When as many events, appended to the same file, end with the same hash, they
    -- are the same events at the same times, or else two messages have one hash.
    pub appends_are_evident :
        (options : AuditOptions) (file rotated : List Line) (xs ys : List (Bytes × ℕ))
        → options.tsa_client ≡ none
        → InTime xs
        → InTime ys
        → length xs ≡ length ys
        → (s t : AuditState) × (append_all options xs (with_options file rotated) ≡ (ok tt, s))
          × (append_all options ys (with_options file rotated) ≡ (ok tt, t))
          × ((with_options s.file s.rotated).last_hash ≡ s.last_hash)
          × (s.last_hash ≡ t.last_hash → (xs ≡ ys) ⊎ HashCollision)
    unfolding with_options recover_last_hash
    appends_are_evident options file rotated xs ys plain tx ty count =
        let start = with_options file rotated in
        let (s, ran, a) = append_all-Appended options xs start plain in
        let (t, ran', a') = append_all-Appended options ys start plain in
        (
          s,
          t,
          ran,
          ran',
          ap (recover_from zero_hash) a.file
              ∙ recover_from-append zero_hash file (chain_lines start.last_hash xs)
              ∙ recover_from-chain start.last_hash xs
              ∙ sym a.last,
          λ e.
              elim (chain_end_inj start.last_hash start.last_hash xs ys refl count tx ty
                (sym a.last ∙ e ∙ a'.last)) [ inl same ↦ inl same.1 | inr c ↦ inr c ],
        )

-- ===== src/Audit.antt =====
-- crates/common/src/security/audit_log.rs, the hash chain of events. BLAKE3, the JSON texts and the
-- time-stamping service are parameters: an event is its JSON text, a hash its 32 bytes (the file
-- holds them in hexadecimal), and a line of the file is a record or something that does not parse.
pub mod Chain
use space.Prelude.{
  ℕ, ◌+◌, ◌%◌, ◌&&◌, Bool, true, false, Option, none, some, Result, ok, err, io_failed, Exec, ◌>>=◌,
  ◌>>◌, pure, gets, modify, lift, List, [], ◌∷◌, ◌++◌, leb, ltb, nat_beq, if◌then◌else◌, length,
  replicate,
}
use space.Common.{Bytes, u32_mod}
use space.Encryption.Mac.{to_le_bytes}

pub record TsaProof : Type 0 where
  pub authority : Bytes
  pub stamped_at : ℕ
  pub token : Bytes

pub record AuditRecord : Type 0 where
  pub event : Bytes
  pub timestamp : ℕ
  pub prev_hash : Bytes
  pub hash : Bytes
  pub tsa_proof : Option TsaProof

pub data Line : Type 0 where
  parsed : AuditRecord → Line
  unparsed : Line

pub record AuditState : Type 0 where
  pub file : List Line
  pub rotated : List Line
  pub last_hash : Bytes
  pub events_since_flush : ℕ
  pub events_since_tsa : ℕ
  pub last_tsa : Option TsaProof

pub record AuditOptions : Type 0 where
  pub flush_interval : ℕ
  pub max_file_bytes : ℕ
  pub tsa_batch_size : ℕ
  pub tsa_client : Option (Bytes → Result TsaProof)

-- What the operating system does in one `append`: a failed write leaves some lines, the length of
-- the file in bytes may be had, the rename and the reopening of a rotation may fail.
pub record AuditIo : Type 0 where
  pub failed_write : Option (List Line)
  pub file_bytes : Option ℕ
  pub renames : Bool
  pub opens : Bool

abbrev pub zero_hash : Bytes
zero_hash = replicate 32 0

unfoldable pub recover_from : Bytes → List Line → Bytes
recover_from last [] = last
recover_from last (unparsed ∷ lines) = recover_from last lines
recover_from last (parsed r ∷ lines) =
    recover_from (if nat_beq (length r.hash) 32 then r.hash else last) lines

unfoldable pub recover_last_hash : List Line → Bytes
unfolding recover_from
recover_last_hash lines = recover_from zero_hash lines

unfoldable pub with_options : List Line → List Line → AuditState
unfolding recover_last_hash
with_options file rotated = record {
  file = file;
  rotated = rotated;
  last_hash = recover_last_hash file;
  events_since_flush = 0;
  events_since_tsa = 0;
  last_tsa = none;
}

unfoldable pub write_record : AuditIo → AuditRecord → Exec AuditState (Unit {0})
write_record io r s = elim io.failed_write [
  | none ↦ (ok tt, record s { file = s.file ++ parsed r ∷ [] })
  | some left ↦ (err io_failed, record s { file = s.file ++ left })
]

-- Whether the data are synced changes nothing that the log reads.
unfoldable pub count_flush : AuditOptions → AuditState → AuditState
count_flush options s =
    let since = (s.events_since_flush + 1) % u32_mod in
    record s { events_since_flush = if leb options.flush_interval since then 0 else since }

unfoldable pub rotate_file : AuditIo → Exec AuditState (Unit {0})
rotate_file io s =
    let moved = if io.renames then record s { file = []; rotated = s.file } else s in
    if io.opens then (ok tt, moved) else (err io_failed, moved)

unfoldable pub rotate_if : Bool → AuditIo → Exec AuditState (Unit {0})
unfolding rotate_file
rotate_if true io = rotate_file io
rotate_if false io = pure tt

unfoldable pub is_full : AuditOptions → Option ℕ → Bool
is_full options none = false
is_full options (some len) = ltb 0 options.max_file_bytes && leb options.max_file_bytes len

unfoldable pub stamp :
    ℕ → Bytes → Option (Bytes → Result TsaProof) → Exec AuditState (Option TsaProof)
stamp batch hash none s = (ok none, s)
stamp batch hash (some client) s =
    let since = (s.events_since_tsa + 1) % u32_mod in
    let counted = record s { events_since_tsa = since } in
    if leb batch since
    then (do
      proof ← lift (client hash)
      modify (λ t. record t { last_tsa = some proof; events_since_tsa = 0 })
      pure (some proof))
        counted
    else (ok none, counted)

module _ (hash_bytes : Bytes → Bytes) where
  unfoldable pub next_hash : Bytes → Bytes → ℕ → Bytes
  next_hash last event timestamp = hash_bytes (last ++ (event ++ to_le_bytes 8 timestamp))

  unfoldable pub append : AuditOptions → AuditIo → Bytes → ℕ → Exec AuditState AuditRecord
  unfolding stamp write_record count_flush is_full rotate_if next_hash
  append options io event timestamp = do
    last ← gets (λ s. s.last_hash)
    let hash = next_hash last event timestamp
    proof ← stamp options.tsa_batch_size hash options.tsa_client
    let entry : AuditRecord = record {
      event = event;
      timestamp = timestamp;
      prev_hash = last;
      hash = hash;
      tsa_proof = proof;
    }
    write_record io entry
    modify (λ s. record s { last_hash = hash })
    modify (count_flush options)
    rotate_if (is_full options io.file_bytes) io
    pure entry

-- ===== src/Storage/Laws.antt =====
-- What a storage backend promises: a transaction behaves as its calls on two functions, the bytes
-- and the metadata of each segment.
use space.Prelude.{
  Bool, false, ◌≡◌, Option, none, some, ok, Exec, ◌>>◌, or_err, segment_not_found, List, [], ◌∷◌,
  nat_beq, ◌||◌, if◌then◌else◌,
}
use space.Common.{Bytes, SegmentId, Segment}
use space.Storage.{StorageBackend, in_txn}

-- The calls that a transaction takes before its end.
pub data TxnCall : Type 0 where
  puts : SegmentId → Bytes → TxnCall
  describes : SegmentId → Segment → TxnCall
  deletes : SegmentId → TxnCall

-- Whether a segment is deleted, at whatever place in the transaction.
abbrev pub deleted : List TxnCall → SegmentId → Bool
deleted [] j = false
deleted (puts id bytes ∷ calls) j = deleted calls j
deleted (describes id segment ∷ calls) j = deleted calls j
deleted (deletes id ∷ calls) j = nat_beq id j || deleted calls j

abbrev pub last_put : List TxnCall → SegmentId → Option Bytes → Option Bytes
last_put [] j old = old
last_put (puts id bytes ∷ calls) j old = last_put calls j (if nat_beq id j then some bytes else old)
last_put (describes id segment ∷ calls) j old = last_put calls j old
last_put (deletes id ∷ calls) j old = last_put calls j old

abbrev pub last_described : List TxnCall → SegmentId → Option Segment → Option Segment
last_described [] j old = old
last_described (puts id bytes ∷ calls) j old = last_described calls j old
last_described (describes id segment ∷ calls) j old =
    last_described calls j (if nat_beq id j then some segment else old)
last_described (deletes id ∷ calls) j old = last_described calls j old

module _ {S T : Type 0} (b : StorageBackend S T) where
  abbrev pub call : TxnCall → Exec (S × T) (Unit {0})
  call (puts id bytes) = b.append_in id bytes
  call (describes id segment) = b.set_segment_metadata id segment
  call (deletes id) = b.delete_in id

  abbrev pub calls_then_commit : List TxnCall → Exec (S × T) (Unit {0})
  calls_then_commit [] = b.commit
  calls_then_commit (c ∷ cs) = do call c; calls_then_commit cs

  -- After the calls: a deleted segment is gone, any other has what it was last given.
  pub record Committed (bytes_at : S → SegmentId → Option Bytes)
      (meta_at : S → SegmentId → Option Segment) (calls : List TxnCall) (s s' : S) : Type 0 where
    pub runs : in_txn b (calls_then_commit calls) s ≡ (ok tt, s')
    pub bytes_are :
        (j : SegmentId)
        → bytes_at s' j ≡ (if deleted calls j then none else last_put calls j (bytes_at s j))
    pub meta_is :
        (j : SegmentId)
        → meta_at s' j ≡ (if deleted calls j then none else last_described calls j (meta_at s j))

  pub record StorageLaws : Type 1 where
    pub IsValid : S → Type 0
    pub bytes_at : S → SegmentId → Option Bytes
    pub meta_at : S → SegmentId → Option Segment
    pub reads :
        (id : SegmentId) (s : S) → b.read id s ≡ (or_err segment_not_found (bytes_at s id), s)
    pub describes_as :
        (id : SegmentId) (s : S) → b.metadata id s ≡ (or_err segment_not_found (meta_at s id), s)
    pub commits :
        (calls : List TxnCall) (s : S)
        → IsValid s
        → (s' : S) × IsValid s' × Committed bytes_at meta_at calls s s'
    pub removes :
        (id : SegmentId) (s : S)
        → IsValid s
        → (s' : S) × IsValid s'
          × (b.delete id s ≡ (ok tt, s'))
          × ((j : SegmentId) → bytes_at s' j ≡ (if nat_beq id j then none else bytes_at s j))
          × ((j : SegmentId) → meta_at s' j ≡ (if nat_beq id j then none else meta_at s j))

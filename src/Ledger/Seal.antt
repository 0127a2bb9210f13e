-- ===== src/Ledger/Seal.antt =====
-- internal/modules/ledger/seal.go: the bytes of a posted transaction that are hashed. The text of
-- metadata, as the database answers it, is a parameter.
pub mod Walk
pub mod Bytes
pub mod Preimage
pub mod Chain
pub mod Sealing
use astrum.Prelude.{
  ℕ, ◌+◌, ◌-◌, ◌/◌, ◌%◌, ◌^◌, Bool, true, false, ◌&&◌, Option, none, some, List, [], ◌∷◌, ◌++◌, map,
  length, if◌then◌else◌,
}
use astrum.Prelude.Int.{pos, negsuc}
use astrum.Prelude.Eq.{Text, text_eq}
use astrum.Money.Amount.{Amount}
use astrum.Money.Amount.Printed.{is_int64}
use astrum.Ledger.Types.{Time, Side, debit, credit, other, Posting}
use astrum.Ledger.Json.{Metadata}
use astrum.Ledger.Requests.{Transaction}
use Bytes.{big_endian, write_bytes}

-- `UnixMicro`, as its bit pattern: microseconds from 1970, which is 62135596800 seconds after the
-- year 1, rounded down
unfoldable pub unix_micro : Time → ℕ
unix_micro (pos n) = (n / 1000 + (2 ^ 64 - 62_135_596_800_000_000)) % 2 ^ 64
unix_micro (negsuc n) =
    (2 ^ 64 - (n / 1000 + 1) % 2 ^ 64 + (2 ^ 64 - 62_135_596_800_000_000)) % 2 ^ 64

-- the bytes of a `Side`
unfoldable pub side_text : Side → Text
side_text debit = 100 ∷ 101 ∷ 98 ∷ 105 ∷ 116 ∷ []
side_text credit = 99 ∷ 114 ∷ 101 ∷ 100 ∷ 105 ∷ 116 ∷ []
side_text (other s) = s

-- `AppendBinary`
unfoldable pub append_binary : Amount → Text
unfolding big_endian
append_binary a = big_endian 8 a.hi ++ big_endian 8 a.lo

-- What a seal binds of an entry, and of a transaction: texts, and numbers by their bit patterns.
pub record SealedEntry : Type 0 where
  pub account_id : ℕ
  pub currency : Text
  pub side : Text
  pub amount : Amount
  pub balance_after : Amount

pub record Sealed : Type 0 where
  pub id : ℕ
  pub ledger_id : ℕ
  pub idempotency_key : Text
  pub external_id : Text
  pub description : Text
  pub metadata : Text
  pub reverses_id : Option ℕ
  pub created_at : ℕ
  pub effective_at : ℕ
  pub posted_at : ℕ
  pub entries : List SealedEntry

unfoldable pub sealed_entry : Posting → SealedEntry
unfolding side_text
sealed_entry p = record {
  account_id = p.account_id;
  currency = p.currency;
  side = side_text p.side;
  amount = p.amount;
  balance_after = p.balance_after;
}

abbrev posted_micro : Option Time → ℕ
unfolding unix_micro
posted_micro none = 0
posted_micro (some t) = unix_micro t

unfoldable pub sealed_content : (Metadata → Text) → Transaction → Sealed
unfolding sealed_entry posted_micro unix_micro
sealed_content text_of t = record {
  id = t.id;
  ledger_id = t.ledger_id;
  idempotency_key = t.idempotency_key;
  external_id = t.external_id;
  description = t.description;
  metadata = text_of t.metadata;
  reverses_id = t.reverses_id;
  created_at = unix_micro t.created_at;
  effective_at = unix_micro t.effective_at;
  posted_at = posted_micro t.posted_at;
  entries = map sealed_entry t.postings;
}

-- the tag and the id of the reversed transaction
unfoldable pub write_reverses : Option ℕ → Text
unfolding big_endian
write_reverses none = 0 ∷ []
write_reverses (some id) = 1 ∷ big_endian 16 id

-- one round of the loop over the entries
unfoldable pub write_entry : SealedEntry → Text
unfolding big_endian write_bytes append_binary
write_entry e =
    big_endian 16 e.account_id
    ++ (write_bytes e.currency
        ++ (write_bytes e.side ++ (append_binary e.amount ++ append_binary e.balance_after)))

unfoldable pub write_entries : List SealedEntry → Text
unfolding write_entry
write_entries [] = []
write_entries (e ∷ es) = write_entry e ++ write_entries es

-- what `entryHashV3` writes to the hash
unfoldable pub preimage_v3 : Sealed → Text
unfolding big_endian write_bytes write_reverses write_entries
preimage_v3 s =
    3
    ∷ (big_endian 16 s.id
        ++ (big_endian 16 s.ledger_id
            ++ (write_bytes s.idempotency_key
                ++ (write_bytes s.external_id
                    ++ (write_bytes s.description
                        ++ (write_bytes s.metadata
                            ++ (write_reverses s.reverses_id
                                ++ (big_endian 8 s.created_at
                                    ++ (big_endian 8 s.effective_at
                                        ++ (big_endian 8 s.posted_at
                                            ++ (big_endian 4 (length s.entries)
                                                ++ write_entries s.entries)))))))))))

-- `version == sealEncodingV1`: every amount fits an int64
unfoldable pub all_int64 : List SealedEntry → Bool
all_int64 [] = true
all_int64 (e ∷ es) = is_int64 e.amount && is_int64 e.balance_after && all_int64 es

-- `writeAmount`
abbrev write_amount : Bool → Amount → Text
unfolding big_endian append_binary
write_amount true a = big_endian 8 a.lo
write_amount false a = append_binary a

unfoldable pub write_entries_v1 : Bool → List SealedEntry → Text
unfolding big_endian write_bytes write_amount
write_entries_v1 small [] = []
write_entries_v1 small (e ∷ es) =
    big_endian 16 e.account_id
    ++ (write_bytes e.currency
        ++ (write_bytes e.side
            ++ (write_amount small e.amount
                ++ (write_amount small e.balance_after ++ write_entries_v1 small es))))

-- what `entryHash` writes to the hash
unfoldable pub preimage_v1 : Sealed → Text
unfolding big_endian write_bytes write_reverses all_int64 write_entries_v1
preimage_v1 s =
    (if all_int64 s.entries then 1 else 2)
    ∷ (big_endian 16 s.id
        ++ (write_bytes s.idempotency_key
            ++ (write_bytes s.description
                ++ (write_bytes s.metadata
                    ++ (write_reverses s.reverses_id
                        ++ (big_endian 8 s.created_at
                            ++ (big_endian 4 (length s.entries)
                                ++ write_entries_v1 (all_int64 s.entries) s.entries)))))))

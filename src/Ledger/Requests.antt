-- ===== src/Ledger/Requests.antt =====
-- Requests and transactions: types_transactions.go, and the request types of engine.go.
use astrum.Prelude.{
  ℕ, ◌*◌, ◌+◌, ◌-◌, ◌/◌, ◌%◌, Bool, true, false, ◌&&◌, ◌||◌, ◌==◌, Option, none, some, List, [],
  ◌∷◌, if◌then◌else◌,
}
use astrum.Prelude.Int.{pos, negsuc, eqb_ℤ}
use astrum.Prelude.Eq.{Text, text_eq, ◌=?◌}
use astrum.Prelude.Map.{Map}
use astrum.Money.Amount.{Amount}
use astrum.Ledger.Types.{
  Uuid, Time, side_equal, other, TransactionStatus, unset, pending, posted, archived, Posting,
}
use astrum.Ledger.Json.{Metadata, json_equal}
use astrum.Ledger.State.{is_empty}

pub record PostInput : Type 0 where
  pub idempotency_key : Text
  pub description : Text
  pub metadata : Metadata
  pub postings : List Posting
  pub status_given : TransactionStatus
  pub effective_at : Option Time
  pub external_id : Text
  pub archive_on_lock_failure : Bool

-- `PostInput.status`
unfoldable pub status : PostInput → TransactionStatus
status i = elim i.status_given [
  | unset ↦ posted
  | pending ↦ pending
  | posted ↦ posted
  | archived ↦ archived
  | other s ↦ if is_empty s then posted else other s
]

pub record Transaction : Type 0 where
  pub id : Uuid
  pub ledger_id : Uuid
  pub idempotency_key : Text
  pub external_id : Text
  pub status : TransactionStatus
  -- int, not negative
  pub version : ℕ
  pub description : Text
  pub metadata : Metadata
  pub reverses_id : Option Uuid
  pub postings : List Posting
  pub effective_at : Time
  pub created_at : Time
  pub posted_at : Option Time
  pub archived_at : Option Time
  pub request : Option PostInput
  pub entries_version : ℕ

abbrev pub status_equal : TransactionStatus → TransactionStatus → Bool
status_equal unset unset = true
status_equal pending pending = true
status_equal posted posted = true
status_equal archived archived = true
status_equal (other s) (other t) = s =? t
status_equal _ _ = false

-- `==` on amounts: the two words
abbrev pub amount_equal : Amount → Amount → Bool
amount_equal a b = (a.hi == b.hi) && (a.lo == b.lo)

-- one round of the loop of `sameContent`: the stored entry and the given one
unfoldable pub same_posting : Posting → Posting → Bool
same_posting q p =
    (q.account_id == p.account_id)
    && side_equal q.side p.side
    && amount_equal q.amount p.amount
    && (is_empty p.currency || is_empty q.currency || (p.currency =? q.currency))

-- the test of the lengths, and the loop
unfoldable pub same_postings : List Posting → List Posting → Bool
unfolding same_posting
same_postings [] [] = true
same_postings (q ∷ qs) (p ∷ ps) = same_posting q p && same_postings qs ps
same_postings _ _ = false

-- the fields that `sameContent` reads
pub record Content : Type 0 where
  pub description : Text
  pub external_id : Text
  pub metadata : Metadata
  pub postings : List Posting

abbrev pub content : PostInput → Content
content i = record {
  description = i.description;
  external_id = i.external_id;
  metadata = i.metadata;
  postings = i.postings;
}

unfoldable pub same_content : Content → Content → Bool
same_content stored i =
    (stored.description =? i.description)
    && (stored.external_id =? i.external_id)
    && json_equal stored.metadata i.metadata
    && same_postings stored.postings i.postings

-- `(a == nil && b == nil) || (a != nil && b != nil && a.Equal(*b))`
abbrev pub same_time : Option Time → Option Time → Bool
same_time none none = true
same_time (some a) (some b) = eqb_ℤ a b
same_time _ _ = false

-- `in.EffectiveAt == nil || in.EffectiveAt.Equal(t)`
abbrev pub time_agrees : Option Time → Time → Bool
time_agrees none t = true
time_agrees (some a) t = eqb_ℤ a t

-- `Transaction.matches`
unfoldable pub matches : Transaction → PostInput → Bool
unfolding status
matches t i = elim t.request [
  | some r ↦
      same_time r.effective_at i.effective_at
      && status_equal (status r) (status i)
      && same_content (content r) (content i)
  | none ↦
      status_equal (status i) posted
      && time_agrees i.effective_at t.effective_at
      && same_content
          (record {
            description = t.description;
            external_id = t.external_id;
            metadata = t.metadata;
            postings = t.postings;
          })
          (content i)
]

-- `postingRequest`
pub record PostingRequest : Type 0 where
  pub in_put : PostInput
  pub reverses : Option Uuid
  pub releases : Map Uuid Amount

-- `Truncate(time.Microsecond)`, which rounds down
unfoldable pub truncate : Time → Time
truncate (pos n) = pos (n - n % 1000)
truncate (negsuc n) = negsuc (n / 1000 * 1000 + 999)

-- ===== src/Ledger/Validate.antt =====
-- The checks on requests of internal/modules/ledger/validate.go.
pub mod Strings
pub mod Regular
use astrum.Prelude.{
  ℕ, Bool, true, false, not, ◌&&◌, ◌||◌, ◌==◌, ◌^◌, ltb, Option, none, some, List, [], ◌∷◌, length,
}
use astrum.Prelude.Int.{ℤ, pos, ltb_ℤ, leb_ℤ}
use astrum.Prelude.Eq.{Text}
use astrum.Result.{Result, ok, err, ◌>>◌, fail_if, invalid}
use astrum.Money.Amount.{Amount, sign}
use astrum.Ledger.Types.{
  Uuid, Time, Currency, Side, TransactionStatus, unset, pending, posted, other, valid, nil_id,
  Posting,
}
use astrum.Ledger.State.{is_empty}
use astrum.Ledger.Json.{Metadata}
use astrum.Ledger.Requests.{PostInput}
use astrum.Ledger.Holds.{CreateHoldInput, CaptureInput}
use Strings.{is_blank, valid_utf8, storable_text, contains, escaped_nul, validate_code}

-- `Currency.Validate() != nil`
abbrev pub bad_code : Currency → Bool
bad_code c = elim (validate_code c) [ ok u ↦ false | err e ↦ true ]

pub record CreateCurrencyInput : Type 0 where
  pub code : Currency
  pub exponent : ℤ

unfoldable pub validate_currency : CreateCurrencyInput → Result (Unit {0})
validate_currency i = do
  fail_if (bad_code i.code) invalid
  fail_if (ltb_ℤ i.exponent (pos 0) || ltb_ℤ (pos 30) i.exponent) invalid

-- Midnight of the first of January of the years 1 and 10000, in nanoseconds from the former.
abbrev pub year_one : Time
year_one = pos 0

abbrev pub year_ten_thousand : Time
year_ten_thousand = pos 315_537_897_600_000_000_000

-- the year is at least 1 and at most 9999
unfoldable pub representable_time : Time → Bool
representable_time t = leb_ℤ year_one t && ltb_ℤ t year_ten_thousand

abbrev pub bad_time : Option Time → Bool
bad_time none = false
bad_time (some t) = not (representable_time t)

-- `IsZero`
abbrev pub is_zero_time : Time → Bool
is_zero_time t = leb_ℤ year_one t && leb_ℤ t year_one

-- A lock_version is the pattern of an int64, in 64 bits: those from 2^63 on are negative.
abbrev pub is_negative_version : Option ℕ → Bool
is_negative_version none = false
is_negative_version (some v) = not (ltb v (2 ^ 63))

-- one round of the loop of `validateEntries`
unfoldable pub validate_entry : Posting → Result (Unit {0})
validate_entry p = do
  fail_if (p.account_id == nil_id) invalid
  fail_if (not (valid p.side)) invalid
  fail_if (leb_ℤ (sign p.amount) (pos 0)) invalid
  fail_if (not (is_empty p.currency) && bad_code p.currency) invalid
  fail_if (is_negative_version p.lock_version) invalid

unfoldable pub validate_each : List Posting → Result (Unit {0})
validate_each [] = ok tt
validate_each (p ∷ ps) = validate_entry p >> validate_each ps

unfoldable pub validate_entries : List Posting → Result (Unit {0})
validate_entries ps = do
  fail_if (ltb (length ps) 2 || ltb 1000 (length ps)) invalid
  validate_each ps

unfoldable pub validate_partial_entries : List Posting → Result (Unit {0})
validate_partial_entries [] = ok tt
validate_partial_entries (p ∷ ps) = validate_entries (p ∷ ps)

abbrev pub is_pending_or_posted : TransactionStatus → Bool
is_pending_or_posted pending = true
is_pending_or_posted posted = true
is_pending_or_posted _ = false

abbrev pub is_unset : TransactionStatus → Bool
is_unset unset = true
is_unset (other s) = is_empty s
is_unset _ = false

pub record CreateAccountInput : Type 0 where
  pub ledger_id : Uuid
  pub code : Text
  pub name : Text
  pub description : Text
  pub metadata : Metadata
  pub currency : Currency
  pub normal_side : Side
  pub allow_negative : Bool
  pub overdraft_limit : Amount

pub record ReverseInput : Type 0 where
  pub idempotency_key : Text
  pub description : Text
  pub metadata : Metadata

pub record UpdateTransactionInput : Type 0 where
  pub description : Option Text
  pub metadata : Metadata
  pub postings : Option (List Posting)
  pub effective_at : Option Time

-- `reads_object`: whether encoding/json/v2 reads a JSON object in a text. The metadata of a request
-- is given twice: as its text, `raw`, which the checks read, and decoded, in the request.
module _ (reads_object : Text → Bool) where
  unfoldable pub validate_text : Text → Text → Result (Unit {0})
  validate_text description raw = do
    fail_if (ltb 1024 (length description)) invalid
    fail_if (ltb 16384 (length raw)) invalid
    fail_if (not (storable_text description)) invalid
    fail_if (not (valid_utf8 raw) || contains escaped_nul raw) invalid
    fail_if (not (is_blank raw) && not (reads_object raw)) invalid

  unfoldable pub validate_key_and_text : Text → Text → Text → Result (Unit {0})
  validate_key_and_text key description raw = do
    fail_if (is_blank key || ltb 255 (length key)) invalid
    fail_if (not (storable_text key)) invalid
    validate_text description raw

  unfoldable pub validate_details : Text → Text → Text → Bool → Result (Unit {0})
  validate_details name description raw name_required = do
    fail_if (name_required && is_blank name) invalid
    fail_if (ltb 255 (length name)) invalid
    fail_if (not (storable_text name)) invalid
    validate_text description raw

  unfoldable pub validate_account : Text → CreateAccountInput → Result (Unit {0})
  validate_account raw i = do
    validate_details i.name i.description raw false
    fail_if (i.ledger_id == nil_id) invalid
    fail_if (is_blank i.code || ltb 128 (length i.code)) invalid
    fail_if (not (storable_text i.code)) invalid
    fail_if (bad_code i.currency) invalid
    fail_if (not (valid i.normal_side)) invalid
    fail_if (ltb_ℤ (sign i.overdraft_limit) (pos 0)) invalid

  unfoldable pub validate_post : Text → PostInput → Result (Unit {0})
  validate_post raw i = do
    validate_key_and_text i.idempotency_key i.description raw
    fail_if (not (is_unset i.status_given) && not (is_pending_or_posted i.status_given)) invalid
    fail_if (ltb 255 (length i.external_id)) invalid
    fail_if (not (storable_text i.external_id)) invalid
    fail_if (bad_time i.effective_at) invalid
    validate_entries i.postings

  -- a schedule is a time and a request
  unfoldable pub validate_schedule : Text → Time → PostInput → Result (Unit {0})
  validate_schedule raw execute_at i = do
    fail_if (is_zero_time execute_at) invalid
    validate_post raw i

  unfoldable pub validate_reverse : Text → ReverseInput → Result (Unit {0})
  validate_reverse raw i = validate_key_and_text i.idempotency_key i.description raw

  unfoldable pub validate_hold : CreateHoldInput → Result (Unit {0})
  validate_hold i = do
    validate_key_and_text i.idempotency_key i.description []
    fail_if (i.account_id == nil_id) invalid
    fail_if (leb_ℤ (sign i.amount) (pos 0)) invalid
    fail_if (not (is_empty i.currency) && bad_code i.currency) invalid
    fail_if (is_zero_time i.expires_at) invalid

  unfoldable pub validate_capture : Text → CaptureInput → Result (Unit {0})
  validate_capture raw i = do
    validate_key_and_text i.idempotency_key i.description raw
    fail_if (i.destination == nil_id) invalid
    fail_if (leb_ℤ (sign i.amount) (pos 0)) invalid

  abbrev description_given : Option Text → Result (Unit {0})
  description_given none = ok tt
  description_given (some d) = validate_text d []

  abbrev entries_given : Option (List Posting) → Result (Unit {0})
  entries_given none = ok tt
  entries_given (some ps) = validate_entries ps

  unfoldable pub validate_update_transaction : Text → UpdateTransactionInput → Result (Unit {0})
  validate_update_transaction raw i = do
    description_given i.description
    fail_if (ltb 16384 (length raw)) invalid
    fail_if (bad_time i.effective_at) invalid
    entries_given i.postings

-- ===== src/Ledger/Holds.antt =====
-- internal/modules/ledger/holds.go, inside its database transactions and behind the tests of
-- validate.go: funds of an account that are kept aside until they are captured, voided or expired.
pub mod Kept
pub mod Row
pub mod Moves
pub mod Keeps
pub mod Locks
pub mod Written
pub mod Booked
pub mod Captured
pub mod Released
pub mod Expired
pub mod Reachable
use astrum.Prelude.{
  is_some, ℕ, Bool, true, false, ◌&&◌, ◌||◌, not, ◌==◌, Option, none, some, List, [], ◌∷◌, ◌++◌,
  map, if◌then◌else◌, take, length,
}
use astrum.Prelude.Int.{pos, ltb_ℤ, leb_ℤ, eqb_ℤ}
use astrum.Prelude.Eq.{Text, nat_eq, text_eq, ◌=?◌}
use astrum.Prelude.Map.{lookup}
use astrum.Result.{
  Result, ok, err, ◌>>=◌, ◌>>◌, fail_if, not_found, invalid, hold_not_pending, idempotency_conflict,
  nil_account, internal,
}
use astrum.Money.Amount.{Amount, zero_amount, cmp}
use astrum.Ledger.Types.{Uuid, Time, Currency, Side, opposite, unset, Posting}
use astrum.Ledger.State.{Accounts, reserve, release, or_err, is_empty}
use astrum.Ledger.Json.{Metadata}
use astrum.Ledger.Requests.{PostInput, matches, truncate, amount_equal}
use astrum.Ledger.Store.{
  Hold, HoldStatus, pending, captured, voided, expired, Store, hold_created, hold_captured,
  hold_voided, hold_expired, lock_accounts, write_accounts, emit, hold_by_id, hold_by_key,
  replace_hold, resolve_hold, select_transaction, is_among,
}
use astrum.Ledger.Engine.{PostingResult, unresolved, created, replayed, failed, apply_requests}

pub record CreateHoldInput : Type 0 where
  pub idempotency_key : Text
  pub account_id : Uuid
  pub amount : Amount
  pub currency : Currency
  pub description : Text
  pub expires_at : Time

pub record CaptureInput : Type 0 where
  pub idempotency_key : Text
  pub destination : Uuid
  pub amount : Amount
  pub description : Text
  pub metadata : Metadata

-- `Hold.matches`
unfoldable pub hold_matches : Hold → CreateHoldInput → Bool
hold_matches h i =
    (h.account_id == i.account_id)
    && amount_equal h.amount i.amount
    && (is_empty i.currency || (i.currency =? h.currency))
    && (h.description =? i.description)
    && eqb_ℤ h.expires_at i.expires_at

abbrev pub new_hold : Uuid → Time → Currency → CreateHoldInput → Hold
new_hold id now currency i = record {
  id = id;
  idempotency_key = i.idempotency_key;
  account_id = i.account_id;
  currency = currency;
  amount = i.amount;
  status = pending;
  description = i.description;
  expires_at = i.expires_at;
  created_at = now;
  resolved_at = none;
  captured_amount = none;
  capture_transaction_id = none;
}

-- the rest of `createHold` where the key is new, with the primary key of the INSERT
unfoldable pub place_hold : Result Uuid → Time → CreateHoldInput → Store → Result (Store × Hold)
place_hold new_id now i s = do
  let state = lock_accounts (i.account_id ∷ []) s
  accounts ← reserve i.account_id i.currency i.amount state.accounts
  id ← new_id
  a ← or_err (lookup i.account_id accounts) nil_account
  fail_if (is_some (hold_by_id id s.holds)) internal
  let h = new_hold id now a.currency i
  s' ←
      write_accounts (record state { accounts = accounts }) (record s { holds = s.holds ++ h ∷ [] })
  ok (emit (hold_created h) s', h)

-- with the hold that has the key
unfoldable pub create_keyed :
    Result Uuid → Time → CreateHoldInput → Store → Option Hold → Result (Store × Hold)
create_keyed new_id now i s (some h) =
    if hold_matches h i then ok (s, h) else err idempotency_conflict
create_keyed new_id now i s none = place_hold new_id now i s

-- `createHold`
unfoldable pub create_hold : Result Uuid → Time → CreateHoldInput → Store → Result (Store × Hold)
create_hold new_id now i s =
    let i' = record i { expires_at = truncate i.expires_at } in
    create_keyed new_id now i' s (hold_by_key i.idempotency_key s.holds)

abbrev pub capture_entry : Uuid → Side → Amount → Currency → Posting
capture_entry id side amount currency = record {
  account_id = id;
  side = side;
  amount = amount;
  currency = currency;
  pending_lock = none;
  posted_lock = none;
  available_lock = none;
  lock_version = none;
  resulting = none;
  balance_after = zero_amount;
}

-- the request that a capture posts: out of the hold's account, into the destination
unfoldable pub capture_request : Side → Hold → CaptureInput → PostInput
capture_request normal_side h i =
    let side = opposite normal_side in
    record {
      idempotency_key = i.idempotency_key;
      description = i.description;
      metadata = i.metadata;
      postings =
          capture_entry h.account_id side i.amount h.currency
          ∷ capture_entry i.destination (opposite side) i.amount h.currency
          ∷ [];
      status_given = unset;
      effective_at = none;
      external_id = [];
      archive_on_lock_failure = false;
    }

-- a hold that is captured already: the same capture again, or an error
unfoldable pub capture_again : PostInput → Hold → CaptureInput → Store → Result (Store × Hold)
capture_again post h i s = do
  id ← or_err h.capture_transaction_id internal
  txn ← or_err (select_transaction id s.transactions) not_found
  fail_if (not (txn.idempotency_key =? i.idempotency_key)) hold_not_pending
  amount ← or_err h.captured_amount internal
  fail_if (not (amount_equal amount i.amount) || not (matches txn post)) idempotency_conflict
  ok (s, h)

-- what follows the posting of the capture
unfoldable pub captured_by :
    Time → Hold → CaptureInput → Store → List PostingResult → Result (Store × Hold)
captured_by now h i s (created t ∷ rs) =
    let h' = resolve_hold now captured (some i.amount) (some t.id) h in
    ok (emit (hold_captured h') (record s { holds = replace_hold h' s.holds }), h')
captured_by now h i s (failed e ∷ rs) = err e
captured_by now h i s (replayed t ∷ rs) = err idempotency_conflict
captured_by now h i s (unresolved ∷ rs) = err internal
captured_by now h i s [] = err internal

-- a pending hold; `clock` is what `selectClock` reads, `now` the start of the database transaction
unfoldable pub capture_now :
    (ℕ → Result Uuid)
    → Time
    → Time
    → PostInput
    → Hold
    → CaptureInput
    → Store
    → Result (Store × Hold)
capture_now new_id clock now post h i s = do
  fail_if (ltb_ℤ (pos 0) (cmp i.amount h.amount)) invalid
  fail_if (not (ltb_ℤ clock h.expires_at)) hold_not_pending
  r ←
      apply_requests new_id now true
        (record { in_put = post; reverses = none; releases = (h.account_id, h.amount) ∷ [] } ∷ []) s
  captured_by now h i r.0 r.1

unfoldable pub capture_in :
    (ℕ → Result Uuid)
    → Time
    → Time
    → PostInput
    → Hold
    → CaptureInput
    → Store
    → HoldStatus
    → Result (Store × Hold)
capture_in new_id clock now post h i s captured = capture_again post h i s
capture_in new_id clock now post h i s pending = capture_now new_id clock now post h i s
capture_in new_id clock now post h i s voided = err hold_not_pending
capture_in new_id clock now post h i s expired = err hold_not_pending

-- `captureHold`
unfoldable pub capture_hold :
    (ℕ → Result Uuid) → Time → Time → Uuid → CaptureInput → Store → Result (Store × Hold)
capture_hold new_id clock now id i s = do
  h ← or_err (hold_by_id id s.holds) not_found
  a ← or_err (lookup h.account_id s.accounts) internal
  capture_in new_id clock now (capture_request a.normal_side h i) h i s h.status

-- a pending hold, voided
unfoldable pub void_now : Time → Hold → Store → Result (Store × Hold)
void_now now h s = do
  let state = lock_accounts (h.account_id ∷ []) s
  accounts ← release h.account_id h.amount state.accounts
  s' ← write_accounts (record state { accounts = accounts }) s
  let h' = resolve_hold now voided none none h
  ok (emit (hold_voided h') (record s' { holds = replace_hold h' s'.holds }), h')

unfoldable pub void_in : Time → Hold → Store → HoldStatus → Result (Store × Hold)
void_in now h s voided = ok (s, h)
void_in now h s pending = void_now now h s
void_in now h s captured = err hold_not_pending
void_in now h s expired = err hold_not_pending

-- `voidHold`
unfoldable pub void_hold : Time → Uuid → Store → Result (Store × Hold)
void_hold now id s = do h ← or_err (hold_by_id id s.holds) not_found; void_in now h s h.status

abbrev pub is_pending_hold : HoldStatus → Bool
is_pending_hold pending = true
is_pending_hold _ = false

abbrev pub is_due : Time → Hold → Bool
is_due now h = is_pending_hold h.status && leb_ℤ h.expires_at now

-- `ORDER BY expires_at`
unfoldable pub place_by_expiry : Hold → List Hold → List Hold
place_by_expiry h [] = h ∷ []
place_by_expiry h (g ∷ gs) =
    if leb_ℤ h.expires_at g.expires_at then h ∷ g ∷ gs else g ∷ place_by_expiry h gs

-- the holds that have expired, the first ones first
unfoldable pub due_holds : Time → List Hold → List Hold
unfolding place_by_expiry
due_holds now [] = []
due_holds now (h ∷ hs) =
    let rest = due_holds now hs in if is_due now h then place_by_expiry h rest else rest

unfoldable pub release_holds : List Hold → Accounts → Result Accounts
release_holds [] accounts = ok accounts
release_holds (h ∷ hs) accounts = release h.account_id h.amount accounts >>= λ m. release_holds hs m

abbrev pub expire_one : Time → Hold → Hold
expire_one now h = record h { status = expired; resolved_at = some now }

-- the UPDATE: the rows whose id is given, and all rows after it
unfoldable pub expire_rows : Time → List Uuid → List Hold → List Hold × List Hold
expire_rows now ids [] = ([], [])
expire_rows now ids (h ∷ hs) =
    let rest = expire_rows now ids hs in
    if is_among h.id ids
    then (expire_one now h ∷ rest.0, expire_one now h ∷ rest.1)
    else (rest.0, h ∷ rest.1)

-- `expireHolds` where holds are due
unfoldable pub expire_due : Time → List Hold → Store → Result (Store × ℕ)
expire_due now [] s = ok (s, 0)
expire_due now (h ∷ hs) s = do
  let state = lock_accounts (map (λ x. x.account_id) (h ∷ hs)) s
  accounts ← release_holds (h ∷ hs) state.accounts
  s' ← write_accounts (record state { accounts = accounts }) s
  let (gone, all_rows) = expire_rows now (map (λ x. x.id) (h ∷ hs)) s'.holds
  ok (record s' { holds = all_rows; events = s'.events ++ map hold_expired gone }, length gone)

-- `expireHolds`
unfoldable pub expire_holds : Time → ℕ → Store → Result (Store × ℕ)
expire_holds now limit s = expire_due now (take limit (due_holds now s.holds)) s

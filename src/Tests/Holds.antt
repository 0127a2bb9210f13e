-- ===== src/Tests/Holds.antt =====
-- Holds that are placed, captured, voided and expired: tests and an instance.
use astrum.Prelude.{ℕ, ◌≡◌, refl, none, [], ◌∷◌, arith}
use astrum.Prelude.Int.{pos}
use astrum.Prelude.Eq.{nat_eq, text_beq}
use astrum.Prelude.Map.{lookup, insert, copy}
use astrum.Result.{ok}
use astrum.Money.Amount.{max_amount, sign, abs, neg, cmp, add, sub, checked, is_zero}
use astrum.Money.Amount.Value.{value}
use astrum.Ledger.Types.{Uuid, signed_amount, check_locks, violation, opposite}
use astrum.Ledger.Account.{
  available, available_parts, sum_amounts, check_funds, check_open, dirty, balance, balances,
  posted_net,
}
use astrum.Ledger.State.{
  reserve, release, release_amount, check_all_funds, bump_all, commit, transition, unpend,
  unpend_one, staged_account, add_entries, add_entry, record_posting, check_balanced, release_all,
  check_resulting_locks, start,
}
use astrum.Ledger.Requests.{truncate, status}
use astrum.Ledger.Monitors.{
  new_ledger_state, index_accounts, index_monitors, dirty_accounts, crossed, crossed_from,
}
use astrum.Ledger.Store.{
  Store, Hold, pending, lock_accounts, locked_accounts, select_monitors, is_among, update_rows,
  write_accounts, emit, hold_by_id, hold_by_key, replace_hold, resolve_hold, transaction_by_key,
}
use astrum.Ledger.Engine.{
  apply_requests, conclude, write_batch, request_accounts, external_ids, resolve_all,
  unresolved_all, resolve_request, resolve_existing, resolve_prior, resolve_new, finish, book,
  book_result, truncated, accepted,
}
use astrum.Ledger.Holds.{
  CreateHoldInput, place_hold, create_keyed, create_hold, void_now, void_in, void_hold,
  CaptureInput, capture_hold, capture_in, capture_now, captured_by, capture_request, expire_holds,
  expire_due, due_holds, place_by_expiry, expire_rows, release_holds,
}
use astrum.Ledger.Holds.Kept.{IsKept, held_on, EachKept, EachKept-lookup, HaveUniqueIds}
use astrum.Ledger.Holds.Captured.Kept.{IsKeptSound}
use astrum.Ledger.Holds.Reachable.{here, next, create_step, capture_step, Reach-IsKeptSound}
use astrum.Tests.State.{units, usd, two_accounts, two_accounts-AreSound, ok_or}
use astrum.Tests.Engine.{noon, fresh}

abbrev hold_of : Uuid → Uuid → Hold
hold_of id account = record {
  id = id;
  idempotency_key = id ∷ [];
  account_id = account;
  currency = usd;
  amount = units 20;
  status = pending;
  description = [];
  expires_at = pos 90000;
  created_at = noon;
  resolved_at = none;
  captured_amount = none;
  capture_transaction_id = none;
}

-- 20 held on each account
abbrev holding_store : Store
holding_store = record {
  accounts = two_accounts;
  monitors = [];
  transactions = [];
  holds = hold_of 60 1 ∷ hold_of 61 2 ∷ [];
  events = [];
}

holding_store-EachKept : EachKept holding_store.holds two_accounts
unfolding value held_on
holding_store-EachKept = (omega arith, refl, (omega arith, refl, tt))

holding_store-IsKept : IsKept holding_store
unfolding lookup value
holding_store-IsKept = record {
  keyed = (refl, refl, (refl, refl, tt));
  amounts = (omega arith, (omega arith, tt));
  total =
      λ j a e. (EachKept-lookup holding_store.holds two_accounts holding_store-EachKept j a e).0;
  kept = λ j a e. (EachKept-lookup holding_store.holds two_accounts holding_store-EachKept j a e).1;
}

-- 5 more on account 1
abbrev five_more : CreateHoldInput
five_more = record {
  idempotency_key = 7 ∷ [];
  account_id = 1;
  amount = units 5;
  currency = usd;
  description = [];
  expires_at = pos 90000;
}

placed_outcome : Store × Hold
placed_outcome =
    ok_or (create_hold (ok 62) noon five_more holding_store) (holding_store, hold_of 60 1)

placed_outcome_lem : create_hold (ok 62) noon five_more holding_store ≡ ok placed_outcome
unfolding placed_outcome ok_or create_hold create_keyed place_hold hold_by_key truncate reserve
    check_open lock_accounts locked_accounts select_monitors is_among new_ledger_state
    index_accounts index_monitors write_accounts dirty_accounts dirty crossed crossed_from
    update_rows emit commit check_all_funds check_funds available available_parts sum_amounts
    bump_all lookup insert copy text_beq add sub checked sign abs neg cmp max_amount hold_by_id
placed_outcome_lem = refl

-- hold 60 is captured into account 2
abbrev capture_input : CaptureInput
capture_input = record {
  idempotency_key = 8 ∷ [];
  destination = 2;
  amount = units 15;
  description = [];
  metadata = none;
}

captured_outcome : Store × Hold
captured_outcome =
    ok_or (capture_hold fresh noon noon 60 capture_input placed_outcome.0) placed_outcome

captured_outcome_lem :
    capture_hold fresh noon noon 60 capture_input placed_outcome.0 ≡ ok captured_outcome
unfolding placed_outcome captured_outcome ok_or create_hold create_keyed place_hold hold_by_key
    truncate reserve check_open lock_accounts locked_accounts select_monitors is_among
    new_ledger_state index_accounts index_monitors write_accounts dirty_accounts dirty crossed
    crossed_from update_rows emit commit check_all_funds check_funds available available_parts
    sum_amounts bump_all lookup insert copy text_beq add sub checked sign abs neg cmp max_amount
    capture_hold capture_in capture_now captured_by capture_request hold_by_id replace_hold
    resolve_hold apply_requests conclude write_batch request_accounts external_ids resolve_all
    unresolved_all resolve_request resolve_existing resolve_prior resolve_new finish book
    book_result truncated transaction_by_key status accepted transition unpend unpend_one
    staged_account add_entries add_entry record_posting posted_net check_balanced release_all
    release_amount check_resulting_locks check_locks violation balance balances start signed_amount
    is_zero opposite
captured_outcome_lem = refl

voided_outcome : Store × Hold
voided_outcome = ok_or (void_hold noon 61 holding_store) (holding_store, hold_of 61 2)

voided_outcome_lem : void_hold noon 61 holding_store ≡ ok voided_outcome
unfolding voided_outcome ok_or void_hold void_in void_now hold_by_id replace_hold resolve_hold
    release release_amount lock_accounts locked_accounts select_monitors is_among new_ledger_state
    index_accounts index_monitors write_accounts dirty_accounts dirty crossed crossed_from
    update_rows emit commit check_all_funds check_funds available available_parts sum_amounts
    bump_all lookup insert copy add sub checked sign abs neg cmp max_amount
voided_outcome_lem = refl

-- the two holds expire together
expired_outcome : Store × ℕ
expired_outcome = ok_or (expire_holds (pos 90000) 10 holding_store) (holding_store, 0)

expired_outcome_lem : expire_holds (pos 90000) 10 holding_store ≡ ok expired_outcome
unfolding expired_outcome ok_or expire_holds expire_due due_holds place_by_expiry expire_rows
    release_holds release release_amount lock_accounts locked_accounts select_monitors is_among
    new_ledger_state index_accounts index_monitors write_accounts dirty_accounts dirty crossed
    crossed_from update_rows commit check_all_funds check_funds available available_parts
    sum_amounts bump_all lookup insert copy add sub checked sign abs neg cmp max_amount
expired_outcome_lem = refl

holding_store_unique : HaveUniqueIds holding_store.holds
unfolding hold_by_id
holding_store_unique = (refl, (refl, tt))

Reach-IsKeptSound_example : IsKeptSound captured_outcome.0
unfolding value
Reach-IsKeptSound_example =
    Reach-IsKeptSound
      (next
        (next here
          (create_step (ok 62) noon five_more placed_outcome.1 (omega arith) placed_outcome_lem))
        (capture_step fresh noon noon 60 capture_input captured_outcome.1 (omega arith)
          captured_outcome_lem))
      (holding_store-IsKept, two_accounts-AreSound, holding_store_unique)

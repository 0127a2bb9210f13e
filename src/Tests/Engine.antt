-- ===== src/Tests/Engine.antt =====
-- Requests against a small store: tests and instances.
use astrum.Prelude.{length, ℕ, ◌≡◌, ◌⊎◌, refl, true, false, none, List, [], ◌∷◌, arith}
use astrum.Prelude.Int.{pos}
use astrum.Prelude.Eq.{nat_eq, text_beq}
use astrum.Prelude.Map.{lookup, insert, copy}
use astrum.Result.{Result, ok, idempotency_conflict}
use astrum.Money.Amount.{max_amount, sign, abs, neg, cmp, add, sub, checked, is_zero}
use astrum.Money.Amount.Value.{value}
use astrum.Ledger.Types.{
  Balances, Uuid, Time, debit, credit, posted, unset, pending, valid, violation, check_locks,
  signed_amount, side_equal, TransactionStatus,
}
use astrum.Ledger.Account.{
  available, available_parts, sum_amounts, balance, balances, check_funds, check_open, posted_net,
  dirty,
}
use astrum.Ledger.State.{
  unpend_one, staged_account, record_posting, add_entry, add_entries, check_balanced, release_all,
  release_amount, unpend, check_resulting_locks, check_all_funds, bump_all, commit, start,
  transition,
}
use astrum.Ledger.State.Entries.{All}
use astrum.Ledger.State.Refines.{AreSound}
use astrum.Ledger.Requests.{
  PostingRequest, Transaction, status, matches, same_content, same_postings, same_posting,
}
use astrum.Ledger.Json.{json_equal, json_value_equal, members_equal, count}
use astrum.Ledger.Monitors.{
  AlertField, lt, BalanceMonitor, LedgerState, new_ledger_state, index_accounts, index_monitors,
  dirty_accounts, crossed, crossed_from, fire, condition_holds,
}
use astrum.Ledger.Store.{
  Store, lock_accounts, locked_accounts, select_monitors, is_among, transaction_by_key,
}
use astrum.Ledger.Engine.{
  PostingResult, Batch, created, replayed, failed, answer_stored, truncated, resolve_request,
  resolve_existing, resolve_prior, resolve_new, finish, book, book_result, resolve_all,
  unresolved_all, accepted, request_accounts, external_ids, write_batch, conclude, apply_requests,
  deliver, run_requests,
}
use astrum.Ledger.Engine.Atomic.{all_done, all_failed, run_requests-AllOrNothing}
use astrum.Ledger.Engine.Period.{Admitted, resolve_request-Admitted}
use mathlib.Core.List.{Memᴰ}
use astrum.Ledger.Monitors.Crossings.{crossed-Crosses}
use astrum.Ledger.Monitors.Indexed.{Crosses}
use astrum.Ledger.Engine.Replays.{Repeats, none_left, repeat, answers, run_requests-answers}
use astrum.Ledger.Engine.Sound.{IsRegular, IsProper, resolve_all-IsProper}
use astrum.Tests.State.{units, account_of, two_accounts, two_accounts-AreSound, entry, ok_or}

abbrev pub request_of : ℕ → ℕ → PostingRequest
request_of key n = record {
  in_put = record {
    idempotency_key = key ∷ [];
    description = [];
    metadata = none;
    postings = entry 1 credit n ∷ entry 2 debit n ∷ [];
    status_given = unset;
    effective_at = none;
    external_id = [];
    archive_on_lock_failure = false;
  };
  reverses = none;
  releases = [];
}

abbrev pub fresh : ℕ → Result Uuid
fresh n = ok 77

abbrev pub noon : Time
noon = pos 5000

abbrev pub empty_store : Store
empty_store = record {
  accounts = two_accounts;
  monitors = [];
  transactions = [];
  holds = [];
  events = [];
}

-- 30 and then 60 of the 70 that are available
abbrev two_requests : List PostingRequest
two_requests = request_of 1 30 ∷ request_of 2 60 ∷ []

ran : Store × Result (List PostingResult)
ran = run_requests fresh noon true two_requests empty_store

ran_results : List PostingResult
ran_results = ok_or ran.1 []

abbrev Ran : Type 0
Ran = run_requests fresh noon true two_requests empty_store ≡ (ran.0, ok ran_results)

ran_lem : Ran
unfolding ran ran_results ok_or run_requests deliver apply_requests conclude write_batch
    lock_accounts locked_accounts select_monitors is_among new_ledger_state index_accounts
    index_monitors request_accounts external_ids resolve_all unresolved_all resolve_request
    resolve_existing resolve_prior resolve_new finish book book_result truncated transaction_by_key
    status accepted transition unpend unpend_one staged_account add_entries add_entry record_posting
    posted_net check_open check_balanced release_all release_amount check_resulting_locks
    check_locks violation commit check_all_funds check_funds available available_parts sum_amounts
    balance balances bump_all start signed_amount lookup insert copy text_beq add sub checked sign
    abs neg cmp max_amount is_zero
ran_lem = refl

run_requests-AllOrNothing_example :
    (all_done ran_results ≡ true) ⊎ ((all_failed ran_results ≡ true) × (ran.0 ≡ empty_store))
run_requests-AllOrNothing_example =
    run_requests-AllOrNothing fresh noon two_requests empty_store ran.0 ran_results ran_lem

two_requests-IsRegular : All IsRegular two_requests
unfolding value valid
two_requests-IsRegular = (
  record { entries = omega arith; sides = (refl, (refl, tt)); releases = tt },
  (record { entries = omega arith; sides = (refl, (refl, tt)); releases = tt }, tt),
)

abbrev whole_batch : Batch
whole_batch = record { accounts = two_accounts; taken = []; first_by_key = [] }

resolve_all-IsProper_example :
    All IsProper (resolve_all [] fresh noon false 0 two_requests whole_batch).0
    × AreSound (resolve_all [] fresh noon false 0 two_requests whole_batch).2.accounts
resolve_all-IsProper_example =
    resolve_all-IsProper [] fresh noon false 0 two_requests whole_batch two_requests-IsRegular
      two_accounts-AreSound

abbrev pub transaction_of : Uuid → ℕ → TransactionStatus → ℕ → Transaction
transaction_of id key s n = record {
  id = id;
  ledger_id = 9;
  idempotency_key = key ∷ [];
  external_id = [];
  status = s;
  version = 1;
  description = [];
  metadata = none;
  reverses_id = none;
  postings = entry 1 credit n ∷ entry 2 debit n ∷ [];
  effective_at = noon;
  created_at = noon;
  posted_at = none;
  archived_at = none;
  request = none;
  entries_version = 1;
}

-- a posted transaction of 30, and a pending one of 10
abbrev pub busy_store : Store
busy_store = record {
  accounts =
      (1, account_of 1 debit false)
      ∷ (2, record (account_of 2 credit true) { pending_debits = units 10 })
      ∷ [];
  monitors = [];
  transactions = transaction_of 40 1 posted 30 ∷ transaction_of 50 2 pending 10 ∷ [];
  holds = [];
  events = [];
}

-- the first request again, and its key with another amount
abbrev repeats : List PostingRequest
repeats = request_of 1 30 ∷ request_of 1 31 ∷ []

abbrev repeated : List Transaction
repeated = transaction_of 40 1 posted 30 ∷ transaction_of 40 1 posted 30 ∷ []

repeats-Repeats : Repeats busy_store.transactions repeats repeated
unfolding transaction_by_key text_beq
repeats-Repeats = repeat refl (repeat refl none_left)

run_requests-answers_example :
    run_requests fresh noon false repeats busy_store ≡ (busy_store, ok (answers repeats repeated))
run_requests-answers_example = run_requests-answers fresh noon repeats busy_store repeats-Repeats

answers_lem :
    answers repeats repeated
    ≡ replayed (transaction_of 40 1 posted 30) ∷ failed idempotency_conflict ∷ []
unfolding answers answer_stored truncated matches status same_content same_postings same_posting
    side_equal json_equal json_value_equal count members_equal text_beq
answers_lem = refl

created_by : PostingResult → Transaction
created_by (created t) = t
created_by _ = transaction_of 0 0 unset 0

first_result : PostingResult
first_result = (resolve_request [] (request_of 1 30) (ok 77) noon whole_batch).0

first_created :
    (resolve_request [] (request_of 1 30) (ok 77) noon whole_batch).0
    ≡ created (created_by first_result)
unfolding created_by first_result resolve_request resolve_existing resolve_prior resolve_new finish
    book book_result truncated transaction_by_key status transition unpend unpend_one staged_account
    add_entries add_entry record_posting posted_net check_open check_balanced release_all
    release_amount check_resulting_locks check_locks violation commit check_all_funds check_funds
    available available_parts sum_amounts balance balances bump_all start signed_amount lookup
    insert copy text_beq add sub checked sign abs neg cmp max_amount is_zero
first_created = refl

resolve_request-Admitted_example : Admitted (request_of 1 30) whole_batch (created_by first_result)
resolve_request-Admitted_example =
    resolve_request-Admitted [] (request_of 1 30) (ok 77) noon whole_batch first_created

-- a monitor of what is available on account 1, which falls from 70 to 40
abbrev watched_state : LedgerState
watched_state = record {
  accounts = (1, record (account_of 1 debit false) { posted_credits = units 30; version = 2 }) ∷ [];
  original = (1, account_of 1 debit false) ∷ [];
  monitors =
      (
        1,
        record {
          id = 5;
          account_id = 1;
          condition = record { field = AlertField.available; operator = lt; bound = units 50 };
          triggered = false;
        }
            ∷ [],
      )
      ∷ [];
}

reported : List (BalanceMonitor × Balances)
reported = ok_or (crossed watched_state) []

reported_lem : crossed watched_state ≡ ok reported
unfolding reported ok_or crossed crossed_from dirty_accounts dirty fire condition_holds lookup
    balances balance add sub checked sign abs neg cmp max_amount
reported_lem = refl

reported_one : length reported ≡ 1
unfolding reported ok_or crossed crossed_from dirty_accounts dirty fire condition_holds lookup
    balances balance add sub checked sign abs neg cmp max_amount
reported_one = refl

crossed-Crosses_example :
    All (Crosses watched_state) reported
    × ((r : BalanceMonitor × Balances) → Crosses watched_state r → Memᴰ r reported)
crossed-Crosses_example = crossed-Crosses watched_state ((refl, tt), tt) reported_lem

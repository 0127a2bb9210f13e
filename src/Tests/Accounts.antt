-- ===== src/Tests/Accounts.antt =====
-- Reversals, accounts, ledgers and metadata on small data: tests and instances.
use astrum.Prelude.{ℕ, ◌≡◌, refl, true, false, none, some, List, [], ◌∷◌, ◌++◌, arith, Bool}
use astrum.Prelude.Eq.{nat_eq, text_eq, text_beq}
use astrum.Prelude.Map.{lookup, insert, copy}
use astrum.Result.{ok, err}
use astrum.Money.Amount.{max_amount, sign, abs, neg, cmp, add, sub, checked, is_zero}
use astrum.Money.Amount.Value.{value}
use astrum.Ledger.Types.{debit, credit, posted, valid, violation, check_locks, signed_amount}
use astrum.Ledger.Account.{
  available, available_parts, sum_amounts, balance, balances, check_funds, check_open, posted_net,
  dirty,
}
use astrum.Ledger.State.{
  unpend_one, staged_account, record_posting, add_entry, add_entries, check_balanced, release_all,
  release_amount, unpend, check_resulting_locks, check_all_funds, bump_all, commit, start,
  transition,
}
use astrum.Ledger.Requests.{Transaction, status}
use astrum.Ledger.Monitors.{
  new_ledger_state, index_accounts, index_monitors, dirty_accounts, crossed, crossed_from,
}
use astrum.Ledger.Store.{
  Store, write_accounts, update_rows, lock_accounts, locked_accounts, select_monitors, is_among,
  transaction_by_key,
}
use astrum.Ledger.Engine.{
  truncated, resolve_request, resolve_existing, resolve_prior, resolve_new, finish, book,
  book_result, resolve_all, unresolved_all, accepted, request_accounts, external_ids, write_batch,
  conclude, apply_requests, deliver, run_requests,
}
use astrum.Ledger.Validate.{validate_key_and_text, validate_text}
use astrum.Ledger.Validate.Strings.{
  valid_from, contains_byte, storable_text, blank_from, is_blank, has_prefix, contains, code_bytes,
  validate_code,
}
use astrum.Ledger.Types.{opposite, frozen, closed, Balance}
use astrum.Ledger.Account.{AccountState}
use astrum.Ledger.Store.{select_transaction}
use astrum.Ledger.Requests.{truncate, same_time}
use astrum.Ledger.Validate.{ReverseInput, validate_reverse, representable_time, bad_time}
use astrum.Ledger.Json.{object, no_member, member, string, null, Members, get}
use astrum.Ledger.Service.Patch.{merge_patch, patched, merge_patch-patched}
use astrum.Ledger.Service.Reversals.{
  reversed_posting, reversal_request, reversal_of, reversed_by, reverse_original, reverse,
}
use astrum.Ledger.Service.Reversed.{amount_on, reversal_request-amount_on, reverse-already_reversed}
use astrum.Ledger.Service.Ledgers.{
  Ledger, ledger_by_id, replace_ledger, truncated_time, is_future, close_period,
  close_period-closed, Writes,
}
use astrum.Ledger.Service.Accounts.{
  AccountRow, Account, Directory, scan_account, row_by_id, replace_row, query_account,
}
use astrum.Ledger.Service.Accounts.Changes.{
  is_occupied, write_row, change_status, set_account_status,
}
use astrum.Ledger.Service.Statuses.{AreKept}
use astrum.Ledger.Service.Reachable.{
  set_status_step, Reach, here, next, Reach-AreKept, Reach-HasClosed,
}
use astrum.Ledger.Service.Closed.{HasClosed}
use astrum.Prelude.Int.{pos}
use astrum.Prelude.Eq.{Text}
use astrum.Result.{already_reversed}
use astrum.Tests.State.{units, account_of, ok_or}
use astrum.Tests.Engine.{noon, fresh, busy_store, transaction_of}
use astrum.Tests.Service.{any_object}

abbrev reversal_by : ℕ → ReverseInput
reversal_by key = record { idempotency_key = key ∷ []; description = []; metadata = none }

abbrev original : Transaction
original = transaction_of 40 1 posted 30

reversal_request-amount_on_example :
    (amount_on 1 [] debit (reversal_request original (reversal_by 7)).in_put.postings
      ≡ amount_on 1 [] credit original.postings)
    × (amount_on 1 [] credit (reversal_request original (reversal_by 7)).in_put.postings
        ≡ amount_on 1 [] debit original.postings)
unfolding valid
reversal_request-amount_on_example =
    reversal_request-amount_on original (reversal_by 7) 1 [] (refl, (refl, tt))

reversed_once : Store × Transaction × Bool
reversed_once =
    ok_or (reverse any_object [] fresh noon 40 (reversal_by 7) busy_store)
      (busy_store, original, true)

abbrev ReversedOnce : Type 0
ReversedOnce =
    reverse any_object [] fresh noon 40 (reversal_by 7) busy_store
    ≡ ok (reversed_once.0, reversed_once.1, false)

reversed_once_lem : ReversedOnce
unfolding reversed_once ok_or reverse validate_reverse reverse_original reversed_by reversal_request
    reversed_posting reversal_of select_transaction opposite validate_key_and_text validate_text
    valid_from contains_byte storable_text blank_from is_blank has_prefix contains code_bytes
    validate_code valid sign run_requests deliver apply_requests conclude write_batch lock_accounts
    locked_accounts select_monitors is_among new_ledger_state index_accounts index_monitors
    request_accounts external_ids resolve_all unresolved_all resolve_request resolve_existing
    resolve_prior resolve_new finish book book_result truncated transaction_by_key status accepted
    transition unpend unpend_one staged_account add_entries add_entry record_posting posted_net
    check_open check_balanced release_all release_amount check_resulting_locks check_locks violation
    commit check_all_funds check_funds available available_parts sum_amounts balance balances
    bump_all start signed_amount lookup insert copy text_beq add sub checked abs neg cmp max_amount
    is_zero write_accounts dirty_accounts dirty crossed crossed_from update_rows
reversed_once_lem = refl

-- the text {}
abbrev no_members : Text
no_members = 123 ∷ 125 ∷ []

-- the store, once it has another transaction
abbrev later_store : Store
later_store = record reversed_once.0 {
  transactions = reversed_once.0.transactions ++ transaction_of 50 2 posted 20 ∷ [];
}

other_reversal-checks : validate_reverse any_object no_members (reversal_by 8) ≡ ok tt
unfolding validate_reverse validate_key_and_text validate_text valid_from contains_byte
    storable_text blank_from is_blank has_prefix contains
other_reversal-checks = refl

reverse-already_reversed_example :
    reverse any_object no_members fresh (pos 9000) 40 (reversal_by 8) later_store
    ≡ err already_reversed
unfolding text_beq
reverse-already_reversed_example =
    reverse-already_reversed any_object fresh noon 40 (reversal_by 7) busy_store [] reversed_once.0
      reversed_once.1 later_store (transaction_of 50 2 posted 20 ∷ []) no_members fresh (pos 9000)
      (reversal_by 8) reversed_once_lem refl other_reversal-checks refl

-- {"a": "x", "b": {"c": "x"}}, and {"a": null, "b": {"d": "y"}}
abbrev target : Members
target =
    member (97 ∷ []) (string (120 ∷ []))
      (member (98 ∷ []) (object (member (99 ∷ []) (string (120 ∷ [])) no_member)) no_member)

abbrev patch : Members
patch =
    member (97 ∷ []) null
      (member (98 ∷ []) (object (member (100 ∷ []) (string (121 ∷ [])) no_member)) no_member)

merge_patch-patched_example :
    get (98 ∷ []) (merge_patch target patch) ≡ patched (get (98 ∷ []) target) (get (98 ∷ []) patch)
unfolding get text_beq
merge_patch-patched_example = merge_patch-patched target patch (98 ∷ []) (refl, (refl, tt))

abbrev a_ledger : Ledger
a_ledger = record {
  id = 9;
  details = record { name = 97 ∷ []; description = []; metadata = none };
  closed_before = none;
  version = 0;
  created_at = pos 0;
}

closed_books : List Ledger × Ledger
closed_books = ok_or (close_period noon 9 (some (pos 3500)) (a_ledger ∷ [])) ([], a_ledger)

closed_books_lem : close_period noon 9 (some (pos 3500)) (a_ledger ∷ []) ≡ ok closed_books
unfolding closed_books ok_or close_period truncate representable_time ledger_by_id replace_ledger
closed_books_lem = refl

close_period-closed_example :
    Writes 9 closed_books.1 (a_ledger ∷ []) closed_books.0
    × ((same_time closed_books.1.closed_before (truncated_time (some (pos 3500))) ≡ true)
        × ((bad_time (truncated_time (some (pos 3500))) ≡ false)
            × (is_future noon (truncated_time (some (pos 3500))) ≡ false)))
close_period-closed_example =
    close_period-closed noon 9 (some (pos 3500)) (a_ledger ∷ []) closed_books_lem

-- an account with 100 on the debit side and pending and held amounts, and an empty one
abbrev row_of : AccountState → AccountRow
row_of a = record {
  state = a;
  code = 97 ∷ [];
  details = record { name = []; description = []; metadata = none };
  status_changed_at = none;
  created_at = pos 0;
}

abbrev empty_account : AccountState
empty_account = record (account_of 2 credit false) {
  posted_debits = units 0;
  pending_credits = units 0;
  held = units 0;
  status = closed;
}

abbrev directory : Directory
directory = record {
  currencies = [];
  ledgers = 9 ∷ [];
  rows = row_of (account_of 1 debit false) ∷ row_of empty_account ∷ [];
  emitted = [];
}

froze : Directory × Account
froze = ok_or (set_account_status noon 1 frozen directory) (
  directory,
  record {
    row = row_of empty_account;
    shown = ok_or (balances empty_account) (record {
      pending_balance = nothing;
      posted_balance = nothing;
      available_balance = nothing;
    });
  },
)
  where
    nothing : Balance
    nothing = record { debits = units 0; credits = units 0; amount = units 0 }

froze_lem : set_account_status noon 1 frozen directory ≡ ok (froze.0, froze.1)
unfolding froze ok_or set_account_status query_account row_by_id scan_account change_status
    is_occupied write_row replace_row balances balance add sub checked sign abs neg cmp max_amount
    is_zero
froze_lem = refl

freezes : Reach any_object (λ m. []) directory froze.0
freezes = next here (set_status_step noon 1 frozen froze.1 froze_lem)

directory-AreKept : AreKept directory
unfolding value valid
directory-AreKept = (
  record { sound = omega arith; side = refl; emptied = λ c. absurd (cc) },
  (record { sound = omega arith; side = refl; emptied = λ c. omega arith }, tt),
)

Reach-AreKept_example : AreKept froze.0
Reach-AreKept_example = Reach-AreKept any_object (λ m. []) freezes directory-AreKept

Reach-HasClosed_example : HasClosed 2 froze.0
unfolding row_by_id
Reach-HasClosed_example =
    Reach-HasClosed any_object (λ m. []) 2 freezes
      (record { row = row_of empty_account; stored = refl; is_closed = refl })

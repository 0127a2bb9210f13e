-- ===== src/Tests/Service.antt =====
-- Batches through the checks of the service: tests and instances.
use astrum.Prelude.{◌≡◌, refl, true, false, List, [], ◌∷◌, arith, Bool}
use astrum.Prelude.Eq.{Text, nat_eq, text_eq, text_beq}
use astrum.Prelude.Map.{lookup, insert, copy}
use astrum.Result.{Result, ok}
use astrum.Money.Amount.{max_amount, sign, abs, neg, cmp, add, sub, checked, is_zero}
use astrum.Money.Amount.Value.{value}
use astrum.Ledger.Types.{valid, violation, check_locks, signed_amount}
use astrum.Ledger.Account.{
  available, available_parts, sum_amounts, balance, balances, check_funds, check_open, posted_net,
  dirty,
}
use astrum.Ledger.State.{
  unpend_one, staged_account, record_posting, add_entry, add_entries, check_balanced, release_all,
  release_amount, unpend, check_resulting_locks, check_all_funds, bump_all, commit, start,
  transition,
}
use astrum.Ledger.State.Entries.{All}
use astrum.Ledger.Requests.{PostInput, status}
use astrum.Ledger.Monitors.{
  new_ledger_state, index_accounts, index_monitors, dirty_accounts, crossed, crossed_from,
}
use astrum.Ledger.Store.{
  Store, write_accounts, update_rows, lock_accounts, locked_accounts, select_monitors, is_among,
  transaction_by_key,
}
use astrum.Ledger.Engine.{
  truncated, resolve_request, resolve_existing, resolve_prior, resolve_new, finish, book,
  book_result, resolve_all, unresolved_all, accepted, request_accounts, external_ids, write_batch,
  conclude, apply_requests, deliver, run_requests,
}
use astrum.Ledger.Engine.Outcomes.{AllSound}
use astrum.Ledger.Validate.{
  validate_post, validate_entries, validate_each, validate_entry, validate_key_and_text,
  validate_text,
}
use astrum.Ledger.Validate.Regular.{
  HasValidAmount, AreAdmitted, request_for, validate_post-AreAdmitted,
}
use astrum.Ledger.Validate.Strings.{
  valid_from, contains_byte, storable_text, blank_from, is_blank, has_prefix, contains, code_bytes,
  validate_code,
}
use astrum.Ledger.Service.Batches.{BatchResult, set_at, fill, collect, post_batch}
use astrum.Ledger.Service.Batched.{
  interleave, placed, run_admitted, admitted, post_batch-interleave,
}
use astrum.Ledger.Service.Balanced.{IsSettled, post_batch-IsSettled}
use astrum.Tests.State.{two_accounts, ok_or}
use astrum.Tests.Engine.{fresh, noon, empty_store, request_of}

abbrev pub any_object : Text → Bool
any_object t = true

abbrev one_input : PostInput
one_input = (request_of 1 30).in_put

one_input-checks : validate_post any_object [] one_input ≡ ok tt
unfolding validate_post validate_entries validate_each validate_entry validate_key_and_text
    validate_text valid_from contains_byte storable_text blank_from is_blank has_prefix contains
    code_bytes validate_code valid sign
one_input-checks = refl

one_input-amounts : All HasValidAmount one_input.postings
unfolding value
one_input-amounts = omega arith

validate_post-AreAdmitted_example : AreAdmitted one_input.postings
validate_post-AreAdmitted_example =
    validate_post-AreAdmitted any_object [] one_input one_input-amounts one_input-checks

-- a request, one without entries, and another request
abbrev three_inputs : List (Text × PostInput)
three_inputs =
    ([], one_input) ∷ ([], record one_input { postings = [] }) ∷ ([], (request_of 2 60).in_put) ∷ []

post_batch-interleave_example :
    post_batch any_object fresh noon false three_inputs empty_store
    ≡ placed
        (interleave any_object three_inputs)
        (run_admitted fresh noon (admitted any_object three_inputs) empty_store)
post_batch-interleave_example =
    post_batch-interleave any_object fresh noon three_inputs empty_store refl

abbrev one_batch : List (Text × PostInput)
one_batch = ([], one_input) ∷ []

batch : Store × Result (List BatchResult)
batch = post_batch any_object fresh noon false one_batch empty_store

batch_results : List BatchResult
batch_results = ok_or batch.1 []

abbrev BatchRan : Type 0
BatchRan =
    post_batch any_object fresh noon false one_batch empty_store ≡ (batch.0, ok batch_results)

batch_lem : BatchRan
unfolding batch batch_results ok_or post_batch collect fill set_at request_for validate_post
    validate_entries validate_each validate_entry validate_key_and_text validate_text valid_from
    contains_byte storable_text blank_from is_blank has_prefix contains code_bytes validate_code
    valid sign run_requests deliver apply_requests conclude write_batch lock_accounts
    locked_accounts select_monitors is_among new_ledger_state index_accounts index_monitors
    request_accounts external_ids resolve_all unresolved_all resolve_request resolve_existing
    resolve_prior resolve_new finish book book_result truncated transaction_by_key status accepted
    transition unpend unpend_one staged_account add_entries add_entry record_posting posted_net
    check_open check_balanced release_all release_amount check_resulting_locks check_locks violation
    commit check_all_funds check_funds available available_parts sum_amounts balance balances
    bump_all start signed_amount lookup insert copy text_beq add sub checked abs neg cmp max_amount
    is_zero write_accounts dirty_accounts dirty crossed crossed_from update_rows
batch_lem = refl

accounts-AllSound : AllSound two_accounts
unfolding value
accounts-AllSound = omega arith

post_batch-IsSettled_example : All IsSettled batch_results
post_batch-IsSettled_example =
    post_batch-IsSettled any_object fresh noon false one_batch empty_store accounts-AllSound
      (one_input-amounts, tt) batch_lem

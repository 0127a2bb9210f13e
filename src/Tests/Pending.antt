-- ===== src/Tests/Pending.antt =====
-- Pending transactions that are posted, archived or posted in part: instances.
use astrum.Prelude.{◌≡◌, ◌≤◌, refl, true, List, [], ◌∷◌, arith}
use astrum.Prelude.Int.{pos}
use astrum.Prelude.Eq.{nat_eq, text_beq, pair_beq}
use astrum.Prelude.Map.{lookup, insert, copy}
use astrum.Result.{ok}
use astrum.Money.Amount.{max_amount, sign, abs, neg, cmp, add, sub, checked, is_zero}
use astrum.Money.Amount.Value.{value}
use astrum.Ledger.Types.{
  is_archived, debit, credit, pending, violation, check_locks, signed_amount, side_equal, Posting,
}
use astrum.Ledger.Account.{
  available, available_parts, sum_amounts, balance, balances, check_funds, check_open, posted_net,
  dirty,
}
use astrum.Ledger.State.{
  unpend_one, staged_account, record_posting, add_entry, add_entries, check_balanced, release_all,
  release_amount, unpend, check_resulting_locks, check_all_funds, bump_all, commit, start,
  transition,
}
use astrum.Ledger.Requests.{Transaction}
use astrum.Ledger.Monitors.{
  new_ledger_state, index_accounts, index_monitors, dirty_accounts, crossed, crossed_from,
}
use astrum.Ledger.Store.{
  Store, lock_accounts, locked_accounts, select_monitors, is_among, update_rows, write_accounts,
  select_transaction, replace_transaction, update_transaction_row, emit,
}
use astrum.Ledger.Pending.{
  pending_limits, use_limits, check_partial, post_edit, archive_edit, apply_change, write_change,
  change_pending, post_pending, archive_transaction, add_results, is_posted_so,
}
use astrum.Ledger.Pending.Partial.{total_on, check_partial-total_on}
use astrum.Ledger.Pending.Settled.{post_pending_again, archive_transaction_again}
use astrum.Tests.State.{entry, ok_or}
use astrum.Tests.Engine.{noon, busy_store, transaction_of}

-- 10 pending, in two entries, and 7 of it posted
abbrev held_entries : List Posting
held_entries = entry 1 credit 4 ∷ entry 1 credit 6 ∷ entry 2 debit 10 ∷ []

abbrev given_entries : List Posting
given_entries = entry 1 credit 7 ∷ entry 2 debit 7 ∷ []

check_partial-total_on_example :
    total_on (1, credit) given_entries ≤ total_on (1, credit) held_entries
unfolding check_partial pending_limits use_limits lookup insert pair_beq side_equal add sub checked
    sign abs neg cmp max_amount value
check_partial-total_on_example =
    check_partial-total_on held_entries given_entries (omega arith) (omega arith) refl (1, credit)

posted_outcome : Store × Transaction
posted_outcome =
    ok_or (post_pending noon 50 [] busy_store) (busy_store, transaction_of 50 2 pending 10)

posted_outcome_lem : post_pending noon 50 [] busy_store ≡ ok posted_outcome
unfolding posted_outcome ok_or post_pending change_pending post_edit write_change apply_change
    select_transaction replace_transaction update_transaction_row emit add_results lock_accounts
    locked_accounts select_monitors is_among new_ledger_state index_accounts index_monitors
    write_accounts dirty_accounts dirty crossed crossed_from update_rows transition unpend
    unpend_one staged_account add_entries add_entry record_posting posted_net check_open
    check_balanced release_all release_amount check_resulting_locks check_locks violation commit
    check_all_funds check_funds available available_parts sum_amounts balance balances bump_all
    start signed_amount lookup insert copy text_beq add sub checked sign abs neg cmp max_amount
    is_zero
posted_outcome_lem = refl

post_pending_again_example :
    (t : Transaction) × (post_pending (pos 9000) 50 [] posted_outcome.0 ≡ ok (posted_outcome.0, t))
    × (is_posted_so [] t ≡ true)
post_pending_again_example = post_pending_again noon (pos 9000) 50 busy_store posted_outcome_lem

archived_outcome : Store × Transaction
archived_outcome =
    ok_or (archive_transaction noon 50 busy_store) (busy_store, transaction_of 50 2 pending 10)

archived_outcome_lem : archive_transaction noon 50 busy_store ≡ ok archived_outcome
unfolding archived_outcome ok_or archive_transaction change_pending archive_edit write_change
    apply_change select_transaction replace_transaction update_transaction_row emit add_results
    lock_accounts locked_accounts select_monitors is_among new_ledger_state index_accounts
    index_monitors write_accounts dirty_accounts dirty crossed crossed_from update_rows transition
    unpend unpend_one staged_account add_entries check_balanced release_all check_resulting_locks
    commit check_all_funds check_funds available available_parts sum_amounts bump_all start lookup
    insert copy add sub checked sign abs neg cmp max_amount is_zero
archived_outcome_lem = refl

archive_transaction_again_example :
    (t : Transaction) × (archive_transaction (pos 9000) 50 archived_outcome.0
      ≡ ok (archived_outcome.0, t))
    × (is_archived t.status ≡ true)
archive_transaction_again_example =
    archive_transaction_again noon (pos 9000) 50 busy_store archived_outcome_lem

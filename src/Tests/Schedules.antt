-- ===== src/Tests/Schedules.antt =====
-- Scheduled transactions: tests and instances.
use astrum.Prelude.{ℕ, ◌≡◌, ◌≤◌, ◌+◌, refl, length, none, some, List, [], ◌∷◌, arith}
use astrum.Prelude.Int.{pos}
use astrum.Prelude.Eq.{nat_eq, text_beq}
use astrum.Prelude.Map.{lookup, insert, copy}
use astrum.Result.{ok}
use astrum.Money.Amount.{max_amount, sign, abs, neg, cmp, add, sub, checked, is_zero}
use astrum.Ledger.Types.{Time, violation, check_locks, signed_amount}
use astrum.Ledger.Account.{
  available, available_parts, sum_amounts, balance, balances, check_funds, check_open, posted_net,
  dirty,
}
use astrum.Ledger.State.{
  unpend_one, staged_account, record_posting, add_entry, add_entries, check_balanced, release_all,
  release_amount, unpend, check_resulting_locks, check_all_funds, bump_all, commit, start,
  transition,
}
use astrum.Ledger.Requests.{status}
use astrum.Ledger.Monitors.{
  new_ledger_state, index_accounts, index_monitors, dirty_accounts, crossed, crossed_from,
}
use astrum.Ledger.Store.{
  write_accounts, update_rows, lock_accounts, locked_accounts, select_monitors, is_among,
  transaction_by_key,
}
use astrum.Ledger.Engine.{
  truncated, resolve_request, resolve_existing, resolve_prior, resolve_new, finish, book,
  book_result, resolve_all, unresolved_all, accepted, request_accounts, external_ids, write_batch,
  conclude, apply_requests,
}
use astrum.Ledger.Schedules.{
  ScheduleStatus, schedule_scheduled, schedule_executed, schedule_failed, schedule_canceled,
  ScheduledTransaction, Planner, schedule_by_id,
}
use astrum.Ledger.Schedules.Execution.{
  due_rows, execute_due, select_due, ordered, insert_ordered, outcomes_by_id, resolve_rows,
  count_executed, count_failed,
}
use astrum.Ledger.Schedules.Executed.{execute_due-all_resolved}
use astrum.Ledger.Schedules.Kept.{HaveUnique}
use astrum.Ledger.Schedules.Reachable.{here, next, execute_step, Reach-stays_resolved}
use astrum.Tests.State.{ok_or}
use astrum.Tests.Engine.{fresh, noon, empty_store, request_of}
use astrum.Tests.Service.{any_object}

abbrev schedule_of : ℕ → ℕ → ScheduleStatus → Time → ScheduledTransaction
schedule_of id n status at = record {
  id = id;
  idempotency_key = id ∷ [];
  execute_at = at;
  request = (request_of id n).in_put;
  status = status;
  transaction_id = none;
  failure = none;
  created_at = pos 0;
  resolved_at = none;
}

-- One is canceled; two are due, of which the first in time asks for more than there is; one is later.
abbrev planner : Planner
planner = record {
  store = empty_store;
  schedules =
      schedule_of 1 30 schedule_canceled (pos 10)
      ∷ schedule_of 2 30 schedule_scheduled (pos 4000)
      ∷ schedule_of 3 900 schedule_scheduled (pos 20)
      ∷ schedule_of 4 30 schedule_scheduled (pos 9000)
      ∷ [];
}

unfoldable after : Planner × ℕ × ℕ
unfolding execute_due
after = ok_or (execute_due fresh noon 5 planner) (planner, 0, 0)

statuses : List ScheduledTransaction → List ScheduleStatus
statuses [] = []
statuses (st ∷ sts) = st.status ∷ statuses sts

abbrev Executed : Type 0
Executed =
    (execute_due fresh noon 5 planner ≡ ok after)
    × (statuses after.0.schedules
        ≡ schedule_canceled ∷ schedule_executed ∷ schedule_failed ∷ schedule_scheduled ∷ [])

execute_due_lem : Executed
unfolding statuses after ok_or execute_due select_due due_rows ordered insert_ordered outcomes_by_id
    resolve_rows count_executed count_failed apply_requests conclude write_batch lock_accounts
    locked_accounts select_monitors is_among new_ledger_state index_accounts index_monitors
    request_accounts external_ids resolve_all unresolved_all resolve_request resolve_existing
    resolve_prior resolve_new finish book book_result truncated transaction_by_key status accepted
    transition unpend unpend_one staged_account add_entries add_entry record_posting posted_net
    check_open check_balanced release_all release_amount check_resulting_locks check_locks violation
    commit check_all_funds check_funds available available_parts sum_amounts balance balances
    bump_all start signed_amount lookup insert copy text_beq add sub checked sign abs neg cmp
    max_amount is_zero write_accounts dirty_accounts dirty crossed crossed_from update_rows
execute_due_lem = (refl, refl)

planner-HaveUnique : HaveUnique planner.schedules
unfolding HaveUnique is_among
planner-HaveUnique = (refl, (refl, (refl, (refl, tt))))

few_enough : length (due_rows noon planner.schedules) ≤ 5
unfolding due_rows
few_enough = omega arith

execute_due-all_resolved_example :
    (after.1 + after.2 ≡ length (due_rows noon planner.schedules))
    × (due_rows noon after.0.schedules ≡ [])
execute_due-all_resolved_example =
    execute_due-all_resolved fresh noon planner 5 few_enough execute_due_lem.0

canceled_one :
    schedule_by_id 1 planner.schedules ≡ some (schedule_of 1 30 schedule_canceled (pos 10))
unfolding schedule_by_id
canceled_one = refl

Reach-stays_resolved_example :
    schedule_by_id 1 after.0.schedules ≡ some (schedule_of 1 30 schedule_canceled (pos 10))
Reach-stays_resolved_example =
    Reach-stays_resolved any_object 1 planner-HaveUnique
      (next here (execute_step fresh noon 5 after.1 after.2 execute_due_lem.0)) canceled_one refl

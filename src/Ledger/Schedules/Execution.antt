-- ===== src/Ledger/Schedules/Execution.antt =====
-- `executeDue` of internal/modules/ledger/schedules.go.
use astrum.Prelude.{
  ℕ, suc, Bool, true, false, ◌&&◌, ◌||◌, ltb, Option, none, some, List, [], ◌∷◌, map, take,
  if◌then◌else◌,
}
use astrum.Prelude.Int.{ltb_ℤ, leb_ℤ, eqb_ℤ}
use astrum.Prelude.Eq.{nat_eq, text_eq}
use astrum.Prelude.Map.{Map, lookup}
use astrum.Result.{Result, ok, err, ◌>>=◌, batch_aborted}
use astrum.Ledger.Types.{Uuid, Time, nil_id}
use astrum.Ledger.Requests.{PostingRequest}
use astrum.Ledger.Store.{Store}
use astrum.Ledger.Engine.{
  PostingResult, unresolved, created, replayed, failed, is_failed, apply_requests,
}
use astrum.Ledger.Schedules.{
  schedule_executed, schedule_failed, ScheduledTransaction, Planner, is_scheduled,
}

-- the WHERE of `executeDue`
abbrev pub is_due : Time → ScheduledTransaction → Bool
is_due now st = is_scheduled st.status && leb_ℤ st.execute_at now

unfoldable pub due_rows : Time → List ScheduledTransaction → List ScheduledTransaction
due_rows now [] = []
due_rows now (st ∷ sts) = let rest = due_rows now sts in if is_due now st then st ∷ rest else rest

-- `ORDER BY execute_at, id`
abbrev pub precedes : ScheduledTransaction → ScheduledTransaction → Bool
precedes st r =
    ltb_ℤ st.execute_at r.execute_at || (eqb_ℤ st.execute_at r.execute_at && ltb st.id r.id)

unfoldable pub insert_ordered :
    ScheduledTransaction → List ScheduledTransaction → List ScheduledTransaction
insert_ordered st [] = st ∷ []
insert_ordered st (r ∷ rs) = if precedes st r then st ∷ r ∷ rs else r ∷ insert_ordered st rs

unfoldable pub ordered : List ScheduledTransaction → List ScheduledTransaction
unfolding insert_ordered
ordered [] = []
ordered (st ∷ sts) = insert_ordered st (ordered sts)

unfoldable pub select_due : Time → ℕ → List ScheduledTransaction → List ScheduledTransaction
unfolding due_rows ordered
select_due now limit rows = take limit (ordered (due_rows now rows))

abbrev pub due_request : ScheduledTransaction → PostingRequest
due_request st = record {
  in_put = record st.request { idempotency_key = st.idempotency_key };
  reverses = none;
  releases = [];
}

-- The columns that one outcome sets; an outcome that the engine left out has the nil transaction.
abbrev pub resolved_by : Time → PostingResult → ScheduledTransaction → ScheduledTransaction
resolved_by now (failed e) st = record st {
  status = schedule_failed;
  transaction_id = none;
  failure = some e;
  resolved_at = some now;
}
resolved_by now (created t) st = record st {
  status = schedule_executed;
  transaction_id = some t.id;
  failure = none;
  resolved_at = some now;
}
resolved_by now (replayed t) st = record st {
  status = schedule_executed;
  transaction_id = some t.id;
  failure = none;
  resolved_at = some now;
}
resolved_by now unresolved st = record st {
  status = schedule_executed;
  transaction_id = some nil_id;
  failure = none;
  resolved_at = some now;
}

-- the arrays of the UPDATE, which `unnest` reads beside each other
unfoldable pub outcomes_by_id :
    List ScheduledTransaction → List PostingResult → Map Uuid PostingResult
outcomes_by_id [] os = []
outcomes_by_id (st ∷ sts) [] = []
outcomes_by_id (st ∷ sts) (o ∷ os) = (st.id, o) ∷ outcomes_by_id sts os

abbrev pub update_by : Time → ScheduledTransaction → Option PostingResult → ScheduledTransaction
update_by now st none = st
update_by now st (some o) = resolved_by now o st

-- the UPDATE, `WHERE s.id = u.id`
unfoldable pub resolve_rows :
    Time → Map Uuid PostingResult → List ScheduledTransaction → List ScheduledTransaction
unfolding lookup
resolve_rows now outcomes [] = []
resolve_rows now outcomes (st ∷ sts) =
    update_by now st (lookup st.id outcomes) ∷ resolve_rows now outcomes sts

unfoldable pub count_executed : List PostingResult → ℕ
count_executed [] = 0
count_executed (o ∷ os) = let rest = count_executed os in if is_failed o then rest else suc rest

unfoldable pub count_failed : List PostingResult → ℕ
count_failed [] = 0
count_failed (o ∷ os) = let rest = count_failed os in if is_failed o then suc rest else rest

-- what is made of the outcomes: the counts executed and failed, and the rows
abbrev pub record_outcomes :
    Time
    → List ScheduledTransaction
    → Planner
    → Store × List PostingResult × Bool
    → Result (Planner × ℕ × ℕ)
record_outcomes now due d (s, results, true) = err batch_aborted
record_outcomes now due d (s, results, false) = ok (
  record { store = s; schedules = resolve_rows now (outcomes_by_id due results) d.schedules },
  count_executed results,
  count_failed results,
)

abbrev pub execute_rows :
    (ℕ → Result Uuid) → Time → Planner → List ScheduledTransaction → Result (Planner × ℕ × ℕ)
execute_rows new_id now d [] = ok (d, 0, 0)
execute_rows new_id now d (st ∷ sts) =
    apply_requests new_id now false (map due_request (st ∷ sts)) d.store >>= λ outcome.
    record_outcomes now (st ∷ sts) d outcome

-- `executeDue`: the store, how many were executed, and how many failed
unfoldable pub execute_due : (ℕ → Result Uuid) → Time → ℕ → Planner → Result (Planner × ℕ × ℕ)
unfolding select_due apply_requests resolve_rows outcomes_by_id count_executed count_failed
execute_due new_id now limit d = execute_rows new_id now d (select_due now limit d.schedules)

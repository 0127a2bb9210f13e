-- ===== src/Ledger/Schedules.antt =====
-- internal/modules/ledger/schedules.go: postings that are made at a later time, with types_holds.go and
-- the statements of store_holds.go on their rows. Each operation is one database transaction; these
-- follow each other, so that no row is skipped as locked. The JSON of a request reads back as the
-- request.
pub mod Execution
pub mod Due
pub mod Executed
pub mod Kept
pub mod Reachable
use astrum.Prelude.{
  ◌+◌, Bool, true, false, not, ◌&&◌, ◌==◌, Option, none, some, List, [], ◌∷◌, ◌++◌, map, length,
  if◌then◌else◌,
}
use astrum.Prelude.Int.{pos, eqb_ℤ}
use astrum.Prelude.Eq.{Text, nat_eq, text_eq, ◌=?◌}
use astrum.Result.{
  Error, Result, ok, err, ◌>>=◌, ◌>>◌, fail_if, not_found, idempotency_conflict,
  schedule_not_pending, internal,
}
use astrum.Ledger.Types.{Uuid, Time, Posting, unset, nil_id}
use astrum.Ledger.Json.{normalize_metadata}
use astrum.Ledger.State.{or_err}
use astrum.Ledger.Requests.{PostInput, Transaction, matches, truncate}
use astrum.Ledger.Store.{Store, is_among, locked_accounts}
use astrum.Ledger.Validate.{validate_schedule}

pub data ScheduleStatus : Type 0 where
  schedule_scheduled schedule_executed schedule_failed schedule_canceled : ScheduleStatus

pub record ScheduleInput : Type 0 where
  pub post : PostInput
  pub execute_at : Time

-- `failure` is the error whose text the source keeps.
pub record ScheduledTransaction : Type 0 where
  pub id : Uuid
  pub idempotency_key : Text
  pub execute_at : Time
  pub request : PostInput
  pub status : ScheduleStatus
  pub transaction_id : Option Uuid
  pub failure : Option Error
  pub created_at : Time
  pub resolved_at : Option Time

-- the tables of the ledger, and ledger_scheduled_transactions
pub record Planner : Type 0 where
  pub store : Store
  pub schedules : List ScheduledTransaction

abbrev pub is_scheduled : ScheduleStatus → Bool
is_scheduled schedule_scheduled = true
is_scheduled _ = false

-- `selectSchedule`, with `id = $1` and with `idempotency_key = $1`
unfoldable pub schedule_by_id : Uuid → List ScheduledTransaction → Option ScheduledTransaction
schedule_by_id id [] = none
schedule_by_id id (st ∷ sts) = if st.id == id then some st else schedule_by_id id sts

unfoldable pub schedule_by_key : Text → List ScheduledTransaction → Option ScheduledTransaction
schedule_by_key key [] = none
schedule_by_key key (st ∷ sts) =
    if st.idempotency_key =? key then some st else schedule_by_key key sts

-- `sortedUnique`, whose order the count of rows does not see
unfoldable pub unique_ids : List Uuid → List Uuid
unfolding is_among
unique_ids [] = []
unique_ids (id ∷ ids) = let rest = unique_ids ids in if is_among id ids then rest else id ∷ rest

unfoldable pub check_accounts_exist : List Posting → Store → Result (Unit {0})
unfolding unique_ids locked_accounts
check_accounts_exist postings s =
    let ids = unique_ids (map (λ p. p.account_id) postings) in
    fail_if (not (length (locked_accounts ids s.accounts) == length ids)) not_found

-- `Transaction{request: &request}`
abbrev only_request : PostInput → Transaction
only_request request = record {
  id = nil_id;
  ledger_id = nil_id;
  idempotency_key = [];
  external_id = [];
  status = unset;
  version = 0;
  description = [];
  metadata = none;
  reverses_id = none;
  postings = [];
  effective_at = pos 0;
  created_at = pos 0;
  posted_at = none;
  archived_at = none;
  request = some request;
  entries_version = 0;
}

-- `ScheduledTransaction.matches`
unfoldable pub schedule_matches : ScheduledTransaction → ScheduleInput → Bool
unfolding matches
schedule_matches st i = eqb_ℤ st.execute_at i.execute_at && matches (only_request st.request) i.post

-- the row that the INSERT makes
abbrev pub new_schedule : Uuid → Time → ScheduleInput → ScheduledTransaction
new_schedule id now i = record {
  id = id;
  idempotency_key = i.post.idempotency_key;
  execute_at = i.execute_at;
  request = i.post;
  status = schedule_scheduled;
  transaction_id = none;
  failure = none;
  created_at = now;
  resolved_at = none;
}

-- the INSERT: an id that is there already breaks the primary key, and a key that is there leaves the
-- row for `matches`
abbrev pub insert_schedule :
    Uuid
    → Time
    → ScheduleInput
    → Planner
    → Option ScheduledTransaction
    → Option ScheduledTransaction
    → Result (Planner × ScheduledTransaction)
insert_schedule id now i d (some existing) same_id =
    fail_if (not (schedule_matches existing i)) idempotency_conflict >> ok (d, existing)
insert_schedule id now i d none (some st) = err internal
insert_schedule id now i d none none =
    ok (record d { schedules = d.schedules ++ new_schedule id now i ∷ [] }, new_schedule id now i)

-- what `schedule` makes of the input before it is stored
abbrev pub normal_input : ScheduleInput → ScheduleInput
normal_input i = record i {
  execute_at = truncate i.execute_at;
  post = record i.post { metadata = normalize_metadata i.post.metadata };
}

-- `schedule`; `raw` is the text of the metadata, and `new_id` what `uuid.NewV7` answers
unfoldable pub schedule :
    (Text → Bool)
    → Text
    → Result Uuid
    → Time
    → ScheduleInput
    → Planner
    → Result (Planner × ScheduledTransaction)
unfolding validate_schedule check_accounts_exist schedule_by_id schedule_by_key
schedule reads_object raw new_id now i d = do
  validate_schedule reads_object raw i.execute_at i.post
  id ← new_id
  check_accounts_exist i.post.postings d.store
  insert_schedule id now (normal_input i) d (schedule_by_key i.post.idempotency_key d.schedules)
      (schedule_by_id id d.schedules)

-- the UPDATE of one row
unfoldable pub replace_schedule :
    ScheduledTransaction → List ScheduledTransaction → List ScheduledTransaction
replace_schedule st [] = []
replace_schedule st (r ∷ rs) = if r.id == st.id then st ∷ rs else r ∷ replace_schedule st rs

abbrev pub canceled_at : Time → ScheduledTransaction → ScheduledTransaction
canceled_at now st = record st { status = schedule_canceled; resolved_at = some now }

-- the cases of `cancelSchedule` on the status of the row
abbrev pub cancel_by :
    Time → ScheduledTransaction → Planner → ScheduleStatus → Result (Planner × ScheduledTransaction)
cancel_by now st d schedule_canceled = ok (d, st)
cancel_by now st d schedule_scheduled =
    ok (
      record d { schedules = replace_schedule (canceled_at now st) d.schedules },
      canceled_at now st,
    )
cancel_by now st d schedule_executed = err schedule_not_pending
cancel_by now st d schedule_failed = err schedule_not_pending

-- `cancelSchedule`
unfoldable pub cancel_schedule : Time → Uuid → Planner → Result (Planner × ScheduledTransaction)
unfolding schedule_by_id replace_schedule
cancel_schedule now id d =
    or_err (schedule_by_id id d.schedules) not_found >>= λ st. cancel_by now st d st.status

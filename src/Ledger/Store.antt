-- ===== src/Ledger/Store.antt =====
-- The tables that the ledger keeps, and the statements of store_accounts.go, store_holds.go and
-- store_transactions.go on them. A database transaction is a function on the store: one that fails
-- leaves the store as it was. Row locks make the transactions on one account follow each other.
use astrum.Prelude.{
  Bool, false, ◌||◌, not, ◌==◌, Option, none, some, List, [], ◌∷◌, ◌++◌, map, if◌then◌else◌,
}
use astrum.Prelude.Eq.{Text, nat_eq, text_eq, ◌=?◌}
use astrum.Prelude.Map.{lookup, insert}
use astrum.Result.{Result, ok, ◌>>=◌, ◌>>◌, fail_if, retry}
use astrum.Money.Amount.{Amount, zero_amount}
use astrum.Ledger.Types.{
  Uuid, Time, Currency, TransactionStatus, is_posted, is_archived, Posting, Balances,
}
use astrum.Ledger.Account.{AccountState}
use astrum.Ledger.State.{Accounts, or_err}
use astrum.Ledger.Requests.{Transaction}
use astrum.Ledger.Monitors.{BalanceMonitor, LedgerState, new_ledger_state, dirty_accounts, crossed}

pub data HoldStatus : Type 0 where
  pending captured voided expired : HoldStatus

pub record Hold : Type 0 where
  pub id : Uuid
  pub idempotency_key : Text
  pub account_id : Uuid
  pub currency : Currency
  pub amount : Amount
  pub status : HoldStatus
  pub description : Text
  pub expires_at : Time
  pub created_at : Time
  pub resolved_at : Option Time
  pub captured_amount : Option Amount
  pub capture_transaction_id : Option Uuid

-- What goes to the outbox of internal/kernel/events, less its id. `transactionResourceOnly` leaves
-- the resulting balances of a transaction's entries out of the text.
pub data Event : Type 0 where
  transaction_created transaction_updated transaction_posted transaction_archived :
      Transaction → Event
  hold_created hold_captured hold_voided hold_expired : Hold → Event
  monitor_triggered : BalanceMonitor → Balances → Event

pub record Store : Type 0 where
  -- the tables ledger_accounts and ledger_ledgers, joined
  pub accounts : Accounts
  pub monitors : List BalanceMonitor
  pub transactions : List Transaction
  pub holds : List Hold
  pub events : List Event

unfoldable pub is_among : Uuid → List Uuid → Bool
is_among id [] = false
is_among id (j ∷ js) = (id == j) || is_among id js

-- `queueLockAccounts`: the rows whose id is among those given
unfoldable pub locked_accounts : List Uuid → Accounts → List AccountState
unfolding is_among
locked_accounts ids [] = []
locked_accounts ids ((id, a) ∷ m) =
    let rest = locked_accounts ids m in if is_among id ids then a ∷ rest else rest

-- `queueSelectMonitors`
unfoldable pub select_monitors : List Uuid → List BalanceMonitor → List BalanceMonitor
unfolding is_among
select_monitors ids [] = []
select_monitors ids (w ∷ ws) =
    let rest = select_monitors ids ws in if is_among w.account_id ids then w ∷ rest else rest

unfoldable pub lock_accounts : List Uuid → Store → LedgerState
lock_accounts ids s =
    new_ledger_state (locked_accounts ids s.accounts) (select_monitors ids s.monitors)

-- the columns that the UPDATE sets
abbrev pub set_columns : AccountState → AccountState → AccountState
set_columns a row = record row {
  posted_debits = a.posted_debits;
  posted_credits = a.posted_credits;
  pending_debits = a.pending_debits;
  pending_credits = a.pending_credits;
  held = a.held;
  version = a.version;
}

-- the UPDATE: a row that is gone or has another version makes the count of rows wrong
unfoldable pub update_rows : List AccountState → Accounts → Result Accounts
update_rows [] m = ok m
update_rows (a ∷ as') m = do
  row ← or_err (lookup a.id m) retry
  fail_if (not (row.version == a.original_version)) retry
  update_rows as' (insert a.id (set_columns a row) m)

abbrev pub triggered_event : BalanceMonitor × Balances → Event
triggered_event r = monitor_triggered r.0 r.1

-- `queueWriteAccounts`, and its statements sent
unfoldable pub write_accounts : LedgerState → Store → Result Store
write_accounts state s = elim (dirty_accounts state.accounts) [
  | [] ↦ ok s
  | a ∷ as' ↦ crossed state >>= λ fired. update_rows (a ∷ as') s.accounts >>= λ accounts.
      ok (record s { accounts = accounts; events = s.events ++ map triggered_event fired })
]

unfoldable pub emit : Event → Store → Store
emit e s = record s { events = s.events ++ e ∷ [] }

-- `selectHold` with `id = $1`, and with `idempotency_key = $1`
unfoldable pub hold_by_id : Uuid → List Hold → Option Hold
hold_by_id id [] = none
hold_by_id id (h ∷ hs) = if h.id == id then some h else hold_by_id id hs

unfoldable pub hold_by_key : Text → List Hold → Option Hold
hold_by_key key [] = none
hold_by_key key (h ∷ hs) = if h.idempotency_key =? key then some h else hold_by_key key hs

unfoldable pub replace_hold : Hold → List Hold → List Hold
replace_hold h [] = []
replace_hold h (g ∷ gs) = if g.id == h.id then h ∷ gs else g ∷ replace_hold h gs

-- the UPDATE of `resolveHold`
unfoldable pub resolve_hold : Time → HoldStatus → Option Amount → Option Uuid → Hold → Hold
resolve_hold now status taken txn h = record h {
  status = status;
  resolved_at = some now;
  captured_amount = taken;
  capture_transaction_id = txn;
}

unfoldable pub select_transaction : Uuid → List Transaction → Option Transaction
select_transaction id [] = none
select_transaction id (t ∷ ts) = if t.id == id then some t else select_transaction id ts

-- `queueSelectTransactionsByKey`, for one key
unfoldable pub transaction_by_key : Text → List Transaction → Option Transaction
transaction_by_key key [] = none
transaction_by_key key (t ∷ ts) =
    if t.idempotency_key =? key then some t else transaction_by_key key ts

unfoldable pub replace_transaction : Transaction → List Transaction → List Transaction
replace_transaction t [] = []
replace_transaction t (u ∷ us) = if u.id == t.id then t ∷ us else u ∷ replace_transaction t us

-- An entry as the tables keep it: without its locks and balances; a pending one has no balance.
abbrev pub stored_posting : TransactionStatus → Posting → Posting
stored_posting status p = record p {
  pending_lock = none;
  posted_lock = none;
  available_lock = none;
  lock_version = none;
  resulting = none;
  balance_after = if is_posted status then p.balance_after else zero_amount;
}

unfoldable pub stored : Transaction → Transaction
stored t = record t { postings = map (stored_posting t.status) t.postings }

-- the UPDATE of `queueUpdateTransaction`, with the entries that `changePending` writes
unfoldable pub update_transaction_row : Time → Transaction → Transaction
update_transaction_row now t = record t {
  posted_at = if is_posted t.status then some now else none;
  archived_at = if is_archived t.status then some now else none;
}

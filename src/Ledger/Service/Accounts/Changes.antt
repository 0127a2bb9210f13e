-- ===== src/Ledger/Service/Accounts/Changes.antt =====
-- The changes of accounts in internal/modules/ledger/service.go: statuses and details.
use astrum.Prelude.{suc, Bool, true, false, not, ◌&&◌, ◌||◌, some, if◌then◌else◌}
use astrum.Prelude.Eq.{Text, nat_eq, text_eq}
use astrum.Result.{Result, ok, ◌>>=◌, ◌>>◌, fail_if, account_not_open, account_not_empty}
use astrum.Money.Amount.{is_zero}
use astrum.Ledger.Types.{Uuid, Time, AccountStatus, open_status, frozen, closed, Balance}
use astrum.Ledger.Json.{Metadata}
use astrum.Ledger.Requests.{amount_equal}
use astrum.Ledger.Service.Details.{Details, UpdateInput, apply_update, same_details}
use astrum.Ledger.Service.Accounts.{
  Account, AccountRow, Directory, account_updated, publish, query_account, replace_row,
  scan_account,
}

abbrev pub status_same : AccountStatus → AccountStatus → Bool
status_same open_status open_status = true
status_same frozen frozen = true
status_same closed closed = true
status_same _ _ = false

-- `==` of `Balance`
abbrev pub balance_same : Balance → Balance → Bool
balance_same a b =
    amount_equal a.debits b.debits
    && amount_equal a.credits b.credits
    && amount_equal a.amount b.amount

-- the condition on which an account may not be closed
unfoldable pub is_occupied : Account → Bool
is_occupied a =
    not (is_zero a.shown.posted_balance.amount)
    || not (balance_same a.shown.pending_balance a.shown.posted_balance)
    || not (is_zero a.row.state.held)

-- the row of `updateAccountStatus`
abbrev pub with_status : Time → AccountStatus → AccountRow → AccountRow
with_status now target row = record row {
  state = record row.state { status = target; version = suc row.state.version };
  status_changed_at = some now;
}

-- the UPDATE, the row read back, and the event
unfoldable pub write_row : AccountRow → Directory → Result (Directory × Account)
unfolding replace_row scan_account
write_row row d = scan_account row >>= λ account.
    ok (publish (account_updated account) (record d { rows = replace_row row d.rows }), account)

unfoldable pub change_status :
    Time → AccountStatus → Account → Directory → Result (Directory × Account)
unfolding is_occupied write_row
change_status now target current d =
    if status_same current.row.state.status target
    then ok (d, current)
    else (fail_if (status_same current.row.state.status closed) account_not_open
        >> (fail_if (status_same target closed && is_occupied current) account_not_empty
            >> write_row (with_status now target current.row) d))

-- `setAccountStatus`
unfoldable pub set_account_status :
    Time → Uuid → AccountStatus → Directory → Result (Directory × Account)
unfolding query_account change_status
set_account_status now id target d =
    query_account id d.rows >>= λ current. change_status now target current d

abbrev pub with_details : Details → AccountRow → AccountRow
with_details details row = record row {
  state = record row.state { version = suc row.state.version };
  details = details;
}

-- `updateAccount`
unfoldable pub update_account :
    (Text → Bool)
    → (Metadata → Text)
    → Uuid
    → UpdateInput
    → Directory
    → Result (Directory × Account)
unfolding query_account apply_update same_details write_row
update_account reads_object text_of id i d = query_account id d.rows >>= λ current.
    apply_update reads_object text_of current.row.details i false >>= λ next.
    if same_details current.row.details next
    then ok (d, current)
    else write_row (with_details next current.row) d

-- ===== src/Ledger/Service/Accounts.antt =====
-- Currencies, and the creation of accounts: internal/modules/ledger/service.go, with the statements of
-- store_accounts.go. Each operation is one database transaction.
pub mod Changes
use astrum.Prelude.{
  is_some, ℕ, Bool, true, false, not, ◌&&◌, ◌==◌, Option, none, some, List, [], ◌∷◌, ◌++◌,
  if◌then◌else◌,
}
use astrum.Prelude.Int.{ℤ, eqb_ℤ}
use astrum.Prelude.Eq.{Text, nat_eq, text_eq, ◌=?◌}
use astrum.Prelude.Map.{Map, lookup, insert}
use astrum.Result.{
  Result, ok, ◌>>=◌, ◌>>◌, fail_if, not_found, account_exists, currency_exists, unknown_currency,
  unknown_ledger, internal,
}
use astrum.Money.Amount.{zero_amount}
use astrum.Ledger.Types.{Uuid, Time, Currency, side_equal, open_status, Balances}
use astrum.Ledger.Json.{normalize_metadata}
use astrum.Ledger.Requests.{amount_equal}
use astrum.Ledger.Account.{AccountState, balances}
use astrum.Ledger.State.{or_err}
use astrum.Ledger.Store.{is_among}
use astrum.Ledger.Validate.{
  CreateCurrencyInput, CreateAccountInput, validate_currency, validate_account,
}
use astrum.Ledger.Service.Details.{Details}

-- A row of ledger_accounts: the columns that the engine reads, and the others.
pub record AccountRow : Type 0 where
  pub state : AccountState
  pub code : Text
  pub details : Details
  pub status_changed_at : Option Time
  pub created_at : Time

-- The `Account` that the service answers.
pub record Account : Type 0 where
  pub row : AccountRow
  pub shown : Balances

-- What `emit` puts in the outbox.
pub data AccountEvent : Type 0 where
  account_created account_updated : Account → AccountEvent

-- The tables ledger_currencies, with exponents, and ledger_accounts; the ids of ledger_ledgers.
pub record Directory : Type 0 where
  pub currencies : Map Currency ℤ
  pub ledgers : List Uuid
  pub rows : List AccountRow
  pub emitted : List AccountEvent

-- `scanAccount`
unfoldable pub scan_account : AccountRow → Result Account
scan_account row = balances row.state >>= λ shown. ok (record { row = row; shown = shown })

unfoldable pub row_by_id : Uuid → List AccountRow → Option AccountRow
row_by_id id [] = none
row_by_id id (r ∷ rs) = if r.state.id == id then some r else row_by_id id rs

-- the WHERE of `selectAccountByCode`, and the conflict of `insertAccount`
unfoldable pub row_by_code : Uuid → Text → List AccountRow → Option AccountRow
row_by_code ledger code [] = none
row_by_code ledger code (r ∷ rs) =
    if (r.state.ledger_id == ledger) && (r.code =? code) then some r else row_by_code ledger code rs

-- the UPDATE of one row
unfoldable pub replace_row : AccountRow → List AccountRow → List AccountRow
replace_row row [] = []
replace_row row (r ∷ rs) = if r.state.id == row.state.id then row ∷ rs else r ∷ replace_row row rs

-- `queryAccount` with `a.id = $1`
unfoldable pub query_account : Uuid → List AccountRow → Result Account
unfolding row_by_id scan_account
query_account id rows = or_err (row_by_id id rows) not_found >>= scan_account

abbrev pub publish : AccountEvent → Directory → Directory
publish e d = record d { emitted = d.emitted ++ e ∷ [] }

abbrev pub currency_existing :
    CreateCurrencyInput → Option ℤ → Directory → Result (Directory × (Currency × ℤ))
currency_existing i none d =
    ok (record d { currencies = insert i.code i.exponent d.currencies }, (i.code, i.exponent))
currency_existing i (some exponent) d =
    fail_if (not (eqb_ℤ exponent i.exponent)) currency_exists >> ok (d, (i.code, exponent))

-- `createCurrency`
unfoldable pub create_currency :
    CreateCurrencyInput → Directory → Result (Directory × (Currency × ℤ))
unfolding validate_currency
create_currency i d = validate_currency i >> currency_existing i (lookup i.code d.currencies) d

-- `Account.sameTerms`
unfoldable pub same_terms : AccountState → CreateAccountInput → Bool
same_terms a i =
    (a.currency =? i.currency)
    && side_equal a.normal_side i.normal_side
    && same_flag a.allow_negative i.allow_negative
    && amount_equal a.overdraft_limit i.overdraft_limit
  where
    same_flag : Bool → Bool → Bool
    same_flag true b = b
    same_flag false b = not b

-- the row that the INSERT makes, with the columns' defaults
abbrev pub new_row : Uuid → Time → CreateAccountInput → AccountRow
new_row id now i = record {
  state = record {
    id = id;
    ledger_id = i.ledger_id;
    closed_before = none;
    currency = i.currency;
    normal_side = i.normal_side;
    status = open_status;
    allow_negative = i.allow_negative;
    overdraft_limit = i.overdraft_limit;
    posted_debits = zero_amount;
    posted_credits = zero_amount;
    pending_debits = zero_amount;
    pending_credits = zero_amount;
    held = zero_amount;
    version = 0;
    original_version = 0;
  };
  code = i.code;
  details = record {
    name = i.name;
    description = i.description;
    metadata = normalize_metadata i.metadata;
  };
  status_changed_at = none;
  created_at = now;
}

-- the INSERT with its primary key and its foreign keys, and the event
unfoldable pub insert_account :
    Uuid → Time → CreateAccountInput → Directory → Result (Directory × Account)
unfolding row_by_id scan_account
insert_account id now i d = do
  fail_if (is_some (row_by_id id d.rows)) internal
  fail_if (not (is_some (lookup i.currency d.currencies))) unknown_currency
  fail_if (not (is_among i.ledger_id d.ledgers)) unknown_ledger
  account ← scan_account (new_row id now i)
  ok (publish (account_created account) (record d { rows = new_row id now i ∷ d.rows }), account)

-- a row of that code is there already: a retry of the creation, or another account
unfoldable pub create_again :
    CreateAccountInput → AccountRow → Directory → Result (Directory × Account)
unfolding same_terms scan_account
create_again i row d = do
  existing ← scan_account row
  fail_if (not (same_terms row.state i)) account_exists
  ok (d, existing)

abbrev pub create_by :
    Uuid → Time → CreateAccountInput → Directory → Option AccountRow → Result (Directory × Account)
create_by id now i d none = insert_account id now i d
create_by id now i d (some row) = create_again i row d

-- `createAccount`; `id` is what `uuid.NewV7` answers, and `raw` the text of the metadata
unfoldable pub create_account :
    (Text → Bool)
    → Text
    → Result Uuid
    → Time
    → CreateAccountInput
    → Directory
    → Result (Directory × Account)
create_account reads_object raw new_id now i d = do
  validate_account reads_object raw i
  id ← new_id
  create_by id now i d (row_by_code i.ledger_id i.code d.rows)

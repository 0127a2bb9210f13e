-- ===== src/Ledger/State.antt =====
-- internal/modules/ledger/state.go: the locked accounts of a ledger, and the transitions on them.
-- A changed copy takes the place of the pointer that the source writes through.
pub mod Staged
pub mod Tally
pub mod Steps
pub mod Records
pub mod Evolves
pub mod Entry
pub mod Loops
pub mod Commit
pub mod Refines
pub mod Balanced
pub mod Entries
use astrum.Prelude.{
  ℕ, ◌+◌, ◌%◌, Bool, true, false, ◌&&◌, not, ◌==◌, Option, none, some, List, [], ◌∷◌, ◌++◌,
  if◌then◌else◌,
}
use astrum.Prelude.Int.{pos, ltb_ℤ}
use astrum.Prelude.Eq.{nat_eq, text_eq, ◌=?◌}
use astrum.Prelude.Map.{Map, lookup, insert, copy}
use astrum.Result.{
  Error, Result, ok, err, ◌>>=◌, ◌>>◌, fail_if, not_found, nil_account, lock_version, cross_ledger,
  invalid, unbalanced, exceeds_pending, exceeds_held,
}
use astrum.Money.Words.{word}
use astrum.Money.Amount.{Amount, zero_amount, is_zero, add, sub, cmp}
use astrum.Ledger.Types.{
  Uuid, nil_id, Currency, Side, is_debit, is_credit, TransactionStatus, is_pending, Posting,
  check_locks, signed_amount,
}
use astrum.Ledger.Account.{AccountState, posted_net, balances, check_funds, check_open}

abbrev pub Accounts : Type 0
Accounts = Map Uuid AccountState

abbrev pub or_err {ℓ} : {A : Type ℓ} → Option A → Error → Result A
or_err none e = err e
or_err (some a) e = ok a

-- `stagedAccounts`: the accounts as they were, and the copies that have changed
pub record StagedAccounts : Type 0 where
  pub base : Accounts
  pub changed : Accounts

abbrev pub write : Uuid → AccountState → StagedAccounts → StagedAccounts
write id a st = record st { changed = insert id a st.changed }

-- `stagedAccounts.account`: the changed copy, or a new copy of the account
unfoldable pub staged_account : Uuid → StagedAccounts → Result (AccountState × StagedAccounts)
staged_account id st = elim (lookup id st.changed) [
  | some a ↦ ok (a, st)
  | none ↦ elim (lookup id st.base) [ none ↦ err not_found | some a ↦ ok (a, write id a st) ]
]

abbrev pub pending_total : Side → AccountState → Amount
pending_total s a = if is_credit s then a.pending_credits else a.pending_debits

abbrev pub set_pending_total : Side → Amount → AccountState → AccountState
set_pending_total s t a =
    if is_credit s then record a { pending_credits = t } else record a { pending_debits = t }

-- one round of `unpend`
unfoldable pub unpend_one : Posting → StagedAccounts → Result StagedAccounts
unpend_one p st = do
  (a, st') ← staged_account p.account_id st
  fail_if (ltb_ℤ (pos 0) (cmp p.amount (pending_total p.side a))) exceeds_pending
  total ← sub (pending_total p.side a) p.amount
  ok (write p.account_id (set_pending_total p.side total a) st')

unfoldable pub unpend : List Posting → StagedAccounts → Result StagedAccounts
unpend [] st = ok st
unpend (p ∷ ps) st = unpend_one p st >>= λ st'. unpend ps st'

-- `(*accountState).record`
unfoldable pub record_posting :
    Posting → TransactionStatus → AccountState → Result (AccountState × Posting)
record_posting p status a =
    if is_pending status && is_debit p.side
    then (add a.pending_debits p.amount >>= λ t. ok (record a { pending_debits = t }, p))
    else if is_pending status
    then (add a.pending_credits p.amount >>= λ t. ok (record a { pending_credits = t }, p))
    else if is_debit p.side
    then (add a.posted_debits p.amount >>= λ t.
        let a' = record a { posted_debits = t } in
        posted_net a' >>= λ n. ok (a', record p { balance_after = n }))
    else (add a.posted_credits p.amount >>= λ t.
        let a' = record a { posted_credits = t } in
        posted_net a' >>= λ n. ok (a', record p { balance_after = n }))

pub record BalanceChange : Type 0 where
  pub ledger_id : Uuid
  pub unpend_postings : List Posting
  pub add_postings : List Posting
  pub status : TransactionStatus
  pub releases : Map Uuid Amount

-- the variables of the loop over the entries
pub record Progress : Type 0 where
  pub staged : StagedAccounts
  pub ledger : Uuid
  pub pinned : Bool
  pub version_err : Option Error
  pub totals : Map Currency Amount
  pub recorded : List Posting

-- `deferredVersionErr` after the entry's test
abbrev pub version_check : Option ℕ → AccountState → Progress → Result (Option Error)
version_check lock a g = elim g.version_err [
  | some e ↦ ok (some e)
  | none ↦ elim lock [
    | none ↦ ok none
    | some v ↦ or_err (lookup a.id g.staged.base) nil_account >>= λ b.
        ok (if v == b.version then none else some lock_version)
  ]
]

abbrev pub total_of : Currency → Map Currency Amount → Amount
total_of c m = elim (lookup c m) [ none ↦ zero_amount | some t ↦ t ]

abbrev pub is_empty : Currency → Bool
is_empty [] = true
is_empty (_ ∷ _) = false

-- one round of the loop over the entries
unfoldable pub add_entry : TransactionStatus → Posting → Progress → Result Progress
add_entry status p g = do
  (a, st) ← staged_account p.account_id g.staged
  check_open a
  version_err ← version_check p.lock_version a g
  fail_if (g.pinned && not (a.ledger_id == g.ledger)) cross_ledger
  fail_if (not (is_empty p.currency) && not (p.currency =? a.currency)) invalid
  total ← add (total_of a.currency g.totals) (signed_amount p)
  (a', p') ← record_posting (record p { currency = a.currency }) status a
  ok (record {
    staged = write p.account_id a' st;
    ledger = if g.pinned then g.ledger else a.ledger_id;
    pinned = true;
    version_err = version_err;
    totals = insert a.currency total g.totals;
    recorded = g.recorded ++ p' ∷ [];
  })

unfoldable pub add_entries : TransactionStatus → List Posting → Progress → Result Progress
add_entries status [] g = ok g
add_entries status (p ∷ ps) g = add_entry status p g >>= λ g'. add_entries status ps g'

unfoldable pub check_balanced : Map Currency Amount → Result (Unit {0})
check_balanced [] = ok tt
check_balanced ((_, t) ∷ m) = fail_if (not (is_zero t)) unbalanced >> check_balanced m

-- the function `release`
unfoldable pub release_amount : Amount → Amount → Result Amount
release_amount held amount = do
  fail_if (ltb_ℤ (pos 0) (cmp amount held)) exceeds_held
  sub held amount

unfoldable pub release_all : Map Uuid Amount → StagedAccounts → Result StagedAccounts
release_all [] st = ok st
release_all ((id, amount) ∷ m) st = do
  (a, st') ← staged_account id st
  held ← release_amount a.held amount
  release_all m (write id (record a { held = held }) st')

unfoldable pub check_resulting_locks : List Posting → Accounts → Result (List Posting)
check_resulting_locks [] changed = ok []
check_resulting_locks (p ∷ ps) changed = do
  a ← or_err (lookup p.account_id changed) nil_account
  result ← balances a
  check_locks p result
  rest ← check_resulting_locks ps changed
  ok (record p { resulting = some result } ∷ rest)

-- the first loop of `commit`
unfoldable pub check_all_funds : Accounts → Accounts → Result (Unit {0})
check_all_funds accounts [] = ok tt
check_all_funds accounts ((id, a) ∷ scratch) = do
  before ← or_err (lookup id accounts) nil_account
  check_funds a before
  check_all_funds accounts scratch

abbrev pub bump : AccountState → AccountState
bump a = record a { version = (a.version + 1) % word }

-- the second
unfoldable pub bump_all : Accounts → Accounts
bump_all [] = []
bump_all ((id, a) ∷ scratch) = (id, bump a) ∷ bump_all scratch

unfoldable pub commit : Accounts → Accounts → Result Accounts
commit accounts scratch = do check_all_funds accounts scratch; ok (copy accounts (bump_all scratch))

unfoldable pub start : Accounts → BalanceChange → StagedAccounts → Progress
start accounts c st = record {
  staged = st;
  ledger = c.ledger_id;
  pinned = not (c.ledger_id == nil_id);
  version_err = none;
  totals = [];
  recorded = [];
}

abbrev pub fail_with : Option Error → Result (Unit {0})
fail_with none = ok tt
fail_with (some e) = err e

-- the accounts after the transition, the ledger's id and the recorded entries
unfoldable pub transition : BalanceChange → Accounts → Result (Accounts × Uuid × List Posting)
transition c accounts = do
  st ← unpend c.unpend_postings (record { base = accounts; changed = [] })
  g ← add_entries c.status c.add_postings (start accounts c st)
  check_balanced g.totals
  st' ← release_all c.releases g.staged
  fail_with g.version_err
  postings ← check_resulting_locks g.recorded st'.changed
  accounts' ← commit accounts st'.changed
  ok (accounts', g.ledger, postings)

unfoldable pub reserve : Uuid → Currency → Amount → Accounts → Result Accounts
reserve id currency amount accounts = do
  a ← or_err (lookup id accounts) not_found
  check_open a
  fail_if (not (is_empty currency) && not (currency =? a.currency)) invalid
  held ← add a.held amount
  commit accounts ((id, record a { held = held }) ∷ [])

unfoldable pub release : Uuid → Amount → Accounts → Result Accounts
release id amount accounts = do
  a ← or_err (lookup id accounts) not_found
  held ← release_amount a.held amount
  commit accounts ((id, record a { held = held }) ∷ [])

-- ===== src/Ledger/Account.antt =====
-- internal/modules/ledger/state.go: the state of one account, and its balances.
pub mod Sound
pub mod Views
pub mod Funds
use astrum.Prelude.{ℕ, Bool, true, false, ◌||◌, not, ◌==◌, Option, List, [], ◌∷◌, if◌then◌else◌}
use astrum.Prelude.Int.{pos, ltb_ℤ, leb_ℤ}
use astrum.Result.{Result, ok, ◌>>=◌, fail_if, insufficient_funds, account_not_open}
use astrum.Money.Amount.{Amount, zero_amount, add, sub, cmp, sign}
use astrum.Ledger.Types.{
  Uuid, Time, Currency, Side, is_debit, is_credit, AccountStatus, open_status, Balance, Balances,
}

pub record AccountState : Type 0 where
  pub id : Uuid
  pub ledger_id : Uuid
  pub closed_before : Option Time
  pub currency : Currency
  pub normal_side : Side
  pub status : AccountStatus
  pub allow_negative : Bool
  pub overdraft_limit : Amount
  pub posted_debits : Amount
  pub posted_credits : Amount
  pub pending_debits : Amount
  pub pending_credits : Amount
  pub held : Amount
  -- int64, as its bit pattern
  pub version : ℕ
  pub original_version : ℕ

unfoldable pub posted_net : AccountState → Result Amount
posted_net a = sub a.posted_debits a.posted_credits

-- the loop of `sumAmounts`
sum_from : Amount → List Amount → Result Amount
sum_from total [] = ok total
sum_from total (a ∷ as') = add total a >>= λ t. sum_from t as'

unfoldable pub sum_amounts : List Amount → Result Amount
unfolding sum_from
sum_amounts = sum_from zero_amount

-- what comes in, what goes out, and what is about to go out
unfoldable pub available_parts : AccountState → Amount × Amount × Amount
available_parts a =
    if is_credit a.normal_side
    then (a.posted_credits, a.posted_debits, a.pending_debits)
    else (a.posted_debits, a.posted_credits, a.pending_credits)

unfoldable pub available : AccountState → Result Amount
unfolding available_parts sum_amounts
available a =
    let (in', out, pending_out) = available_parts a in
    sum_amounts (out ∷ pending_out ∷ a.held ∷ []) >>= λ out'. sub in' out'

-- `(*accountState).balance`
unfoldable pub balance : AccountState → Amount → Amount → Result Balance
balance a debits credits = do
  amount ← if is_credit a.normal_side then sub credits debits else sub debits credits
  ok (record { debits = debits; credits = credits; amount = amount })

unfoldable pub balances : AccountState → Result Balances
balances a = do
  pending_debits ← add a.posted_debits a.pending_debits
  pending_credits ← add a.posted_credits a.pending_credits
  available_credits ←
      if is_debit a.normal_side then add pending_credits a.held else ok a.posted_credits
  available_debits ←
      if is_debit a.normal_side then ok a.posted_debits else add pending_debits a.held
  posted ← balance a a.posted_debits a.posted_credits
  pending ← balance a pending_debits pending_credits
  available ← balance a available_debits available_credits
  ok (record { pending_balance = pending; posted_balance = posted; available_balance = available })

-- `a` is the changed state, `before` the one that it replaces
unfoldable pub check_funds : AccountState → AccountState → Result (Unit {0})
check_funds a before = do
  after ← available a
  prior ← available before
  if a.allow_negative || leb_ℤ (pos 0) (cmp after prior)
      then ok tt
      else (add after a.overdraft_limit >>= λ floor.
          fail_if (ltb_ℤ (sign floor) (pos 0)) insufficient_funds)

abbrev pub is_open : AccountStatus → Bool
is_open open_status = true
is_open _ = false

unfoldable pub check_open : AccountState → Result (Unit {0})
check_open a = fail_if (not (is_open a.status)) account_not_open

unfoldable pub dirty : AccountState → Bool
dirty a = not (a.version == a.original_version)

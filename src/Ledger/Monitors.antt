-- ===== src/Ledger/Monitors.antt =====
-- The locked accounts with their balance monitors: `ledgerState` of state.go, and the alert
-- conditions of types_accounts.go.
pub mod Indexed
pub mod Complete
pub mod Crossings
use astrum.Prelude.{Bool, true, ◌&&◌, not, none, some, List, [], ◌∷◌, ◌++◌, if◌then◌else◌}
use astrum.Prelude.Int.{ℤ, pos, ltb_ℤ, leb_ℤ, eqb_ℤ}
use astrum.Prelude.Eq.{nat_eq}
use astrum.Prelude.Map.{Map, lookup, insert}
use astrum.Result.{Result, ok, ◌>>=◌, nil_account}
use astrum.Money.Amount.{Amount, cmp}
use astrum.Ledger.Types.{Uuid, Balances}
use astrum.Ledger.Account.{AccountState, balances, dirty}
use astrum.Ledger.State.{Accounts, or_err}

-- `available` stands for every other string too, as in the source's switch.
pub data AlertField : Type 0 where
  pending posted available : AlertField

-- `not_eq` stands for every other string too.
pub data AlertOperator : Type 0 where
  gt gte eq lt lte not_eq : AlertOperator

pub record AlertCondition : Type 0 where
  pub field : AlertField
  pub operator : AlertOperator
  pub bound : Amount

abbrev pub field_amount : AlertField → Balances → Amount
field_amount pending b = b.pending_balance.amount
field_amount posted b = b.posted_balance.amount
field_amount available b = b.available_balance.amount

abbrev pub operator_holds : AlertOperator → ℤ → Bool
operator_holds gt c = ltb_ℤ (pos 0) c
operator_holds gte c = leb_ℤ (pos 0) c
operator_holds eq c = eqb_ℤ c (pos 0)
operator_holds lt c = ltb_ℤ c (pos 0)
operator_holds lte c = leb_ℤ c (pos 0)
operator_holds not_eq c = not (eqb_ℤ c (pos 0))

unfoldable pub condition_holds : AlertCondition → Balances → Bool
condition_holds c b = operator_holds c.operator (cmp (field_amount c.field b) c.bound)

pub record BalanceMonitor : Type 0 where
  pub id : Uuid
  pub account_id : Uuid
  pub condition : AlertCondition
  pub triggered : Bool

pub record LedgerState : Type 0 where
  pub accounts : Accounts
  pub original : Accounts
  pub monitors : Map Uuid (List BalanceMonitor)

abbrev pub watchers : Uuid → Map Uuid (List BalanceMonitor) → List BalanceMonitor
watchers id m = elim (lookup id m) [ none ↦ [] | some ms ↦ ms ]

-- the first loop of `newLedgerState`
unfoldable pub index_accounts : List AccountState → Accounts → Accounts
index_accounts [] m = m
index_accounts (a ∷ as') m =
    index_accounts as' (insert a.id (record a { original_version = a.version }) m)

-- the second
unfoldable pub index_monitors :
    List BalanceMonitor → Map Uuid (List BalanceMonitor) → Map Uuid (List BalanceMonitor)
index_monitors [] m = m
index_monitors (w ∷ ws) m =
    index_monitors ws (insert w.account_id (watchers w.account_id m ++ w ∷ []) m)

unfoldable pub new_ledger_state : List AccountState → List BalanceMonitor → LedgerState
new_ledger_state accounts monitors = record {
  accounts = index_accounts accounts [];
  original = index_accounts accounts [];
  monitors = index_monitors monitors [];
}

unfoldable pub dirty_accounts : Accounts → List AccountState
dirty_accounts [] = []
dirty_accounts ((_, a) ∷ m) = let rest = dirty_accounts m in if dirty a then a ∷ rest else rest

-- the loop over the monitors of one account
unfoldable pub fire : Balances → Balances → List BalanceMonitor → List (BalanceMonitor × Balances)
fire before after [] = []
fire before after (w ∷ ws) =
    let rest = fire before after ws in
    if not (condition_holds w.condition before) && condition_holds w.condition after
    then (record w { triggered = true }, after) ∷ rest
    else rest

-- the loop of `crossed`, over what is left of the dirty accounts
unfoldable pub crossed_from :
    LedgerState → List AccountState → Result (List (BalanceMonitor × Balances))
crossed_from s [] = ok []
crossed_from s (a ∷ as') = elim (watchers a.id s.monitors) [
  | [] ↦ crossed_from s as'
  | w ∷ ws ↦ or_err (lookup a.id s.original) nil_account >>= λ o. balances o >>= λ before.
      balances a >>= λ after. crossed_from s as' >>= λ rest. ok (fire before after (w ∷ ws) ++ rest)
]

unfoldable pub crossed : LedgerState → Result (List (BalanceMonitor × Balances))
crossed s = crossed_from s (dirty_accounts s.accounts)

-- ===== src/Ledger/Service/Reachable.antt =====
-- The directories that the operations of internal/modules/ledger/service.go reach.
use astrum.Prelude.{◌≡◌, Bool}
use astrum.Prelude.Int.{ℤ}
use astrum.Prelude.Eq.{Text, text_eq}
use astrum.Result.{Result, ok}
use astrum.Money.Amount.Value.{IsValid}
use astrum.Ledger.Types.{Uuid, Time, Currency, AccountStatus}
use astrum.Ledger.Json.{Metadata}
use astrum.Ledger.Validate.{CreateCurrencyInput, CreateAccountInput}
use astrum.Ledger.Service.Details.{UpdateInput}
use astrum.Ledger.Service.Accounts.{Account, Directory, create_currency, create_account}
use astrum.Ledger.Service.Accounts.Changes.{set_account_status, update_account}
use astrum.Ledger.Service.Statuses.{AreKept}
use astrum.Ledger.Service.Closed.{
  HasClosed, Writes, set_account_status-Writes, update_account-Writes,
}
use astrum.Ledger.Service.Created.{create_account-Writes, create_currency-Writes}

module _ (reads_object : Text → Bool) (text_of : Metadata → Text) where
  -- One operation that succeeds. An amount that the service is given is a valid one.
  pub data Step (d : Directory) (e : Directory) : Type 0 where
    create_currency_step :
        (i : CreateCurrencyInput) (c : Currency × ℤ) → create_currency i d ≡ ok (e, c) → Step d e
    create_account_step :
        (raw : Text) (new_id : Result Uuid) (now : Time) (i : CreateAccountInput) (a : Account)
        → IsValid i.overdraft_limit
        → create_account reads_object raw new_id now i d ≡ ok (e, a)
        → Step d e
    set_status_step :
        (now : Time) (id : Uuid) (target : AccountStatus) (a : Account)
        → set_account_status now id target d ≡ ok (e, a)
        → Step d e
    update_step :
        (id : Uuid) (i : UpdateInput) (a : Account)
        → update_account reads_object text_of id i d ≡ ok (e, a)
        → Step d e

  pub data Reach (d : Directory) : Directory → Type 0 where
    here : Reach d d
    next : {e f : Directory} → Reach d e → Step e f → Reach d f

module _ (reads_object : Text → Bool) (text_of : Metadata → Text) where
  Step-Writes : {d e : Directory} → Step reads_object text_of d e → Writes d e
  Step-Writes {d} {e} (create_currency_step i c h) = create_currency-Writes i d h
  Step-Writes {d} {e} (create_account_step raw new_id now i a v h) =
      create_account-Writes reads_object raw new_id now i d v h
  Step-Writes {d} {e} (set_status_step now id target a h) =
      set_account_status-Writes now id target d h
  Step-Writes {d} {e} (update_step id i a h) = update_account-Writes reads_object text_of id i d h

  -- From a directory whose accounts are kept, the creations of currencies and accounts, the changes
  -- of status and the updates reach only directories whose accounts are kept: their totals are sound,
  -- their sides valid, and those that are closed have equal debits and credits, nothing pending and
  -- nothing held.
  pub Reach-AreKept : {d e : Directory} → Reach reads_object text_of d e → AreKept d → AreKept e
  Reach-AreKept here k = k
  Reach-AreKept (next r s) k = (Step-Writes s).kept (Reach-AreKept r k)

  -- An account that is closed is found and closed in every directory that these operations reach.
  pub Reach-HasClosed :
      (id : Uuid) {d e : Directory}
      → Reach reads_object text_of d e
      → HasClosed id d
      → HasClosed id e
  Reach-HasClosed id here c = c
  Reach-HasClosed id (next r s) c = (Step-Writes s).closed_stays id (Reach-HasClosed id r c)

-- ===== src/Ledger/Service/Statuses/Restated.antt =====
-- The rows that a change of status writes in internal/modules/ledger/service.go.
use astrum.Prelude.{ℕ, suc, ◌≡◌, refl, subst, inl, inr, false, ◌&&◌, Bool-cases}
use astrum.Result.{ok, passed, ok_unique, account_not_open, account_not_empty}
use astrum.Ledger.Types.{Uuid, Time, AccountStatus, closed}
use astrum.Ledger.Account.{AccountState, balances}
use astrum.Ledger.Account.Sound.{IsSound}
use astrum.Ledger.Account.Views.{balances-ShowsAccount}
use astrum.Ledger.Service.Accounts.{Account, Directory}
use astrum.Ledger.Service.Accounts.Changes.{status_same, is_occupied, with_status, change_status}
use astrum.Ledger.Service.Statuses.{
  IsEmptied, IsKept, Found, AreKept, is_occupied-IsEmptied, row_by_id-All, write_row-AreKept,
}

-- The status and the version of a row say nothing of its totals.
module _ (a : AccountState) (status : AccountStatus) (version : ℕ) where
  unfoldable pub restated : AccountState
  restated = record a { status = status; version = version }

  pub restated-IsSound : IsSound a → IsSound restated
  unfolding restated
  restated-IsSound s = record {
    posted_debits = s.posted_debits;
    posted_credits = s.posted_credits;
    pending_debits = s.pending_debits;
    pending_credits = s.pending_credits;
    held = s.held;
    overdraft_limit = s.overdraft_limit;
  }

  pub restated-IsEmptied : IsEmptied a → IsEmptied restated
  unfolding restated
  restated-IsEmptied e = record {
    posted = e.posted;
    pending_debits = e.pending_debits;
    pending_credits = e.pending_credits;
    held = e.held;
  }

-- a status is set where the account is not closed, and closes it only where it is empty
with_status-IsKept :
    (now : Time) (target : AccountStatus) (a : Account)
    → IsKept a.row
    → balances a.row.state ≡ ok a.shown
    → (status_same target closed && is_occupied a) ≡ false
    → IsKept (with_status now target a.row)
unfolding restated
with_status-IsKept now target a k shown h = record {
  sound = restated-IsSound a.row.state target (suc a.row.state.version) k.sound;
  side = k.side;
  emptied = λ c.
      let free : is_occupied a ≡ false = (rw c at h) in
      restated-IsEmptied a.row.state target (suc a.row.state.version) (
        is_occupied-IsEmptied a.row a.shown k.sound
          (balances-ShowsAccount a.row.state k.sound k.side shown) free);
}

pub change_status-AreKept :
    (now : Time) (id : Uuid) (target : AccountStatus) (d : Directory) (a : Account)
    {r : Directory × Account}
    → Found id d a
    → AreKept d
    → change_status now target a d ≡ ok r
    → AreKept r.0
unfolding change_status
change_status-AreKept now id target d a {r} found k h =
    elim (Bool-cases (status_same a.row.state.status target)) [
      | inl e ↦ subst (λ (x : Directory × Account). AreKept x.0) (ok_unique refl (rw e at h)) k
      | inr e ↦
          let (open', h1) =
            passed (status_same a.row.state.status closed) account_not_open (rw e at h) in
          let (empty, h2) =
            passed (status_same target closed && is_occupied a) account_not_empty h1 in
          write_row-AreKept (with_status now target a.row) d
            (with_status-IsKept now target a (row_by_id-All id d.rows k found.row) found.shown
              empty)
            k h2
    ]

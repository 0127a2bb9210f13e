-- ===== src/Ledger/State/Staged.antt =====
-- The staged copies of accounts: what an account is in the middle of a transition.
use astrum.Prelude.{◌≡◌, refl, ◌==◌, Option, none, some, [], ◌∷◌, if◌then◌else◌, arith, ==_iff}
use astrum.Prelude.Eq.{nat_eq}
use astrum.Prelude.Map.{lookup, lookup-insert}
use astrum.Result.{ok}
use astrum.Ledger.Types.{Uuid}
use astrum.Ledger.Account.{AccountState}
use astrum.Ledger.State.{Accounts, StagedAccounts, write, staged_account, bump, bump_all}

-- The changed copy, or else the account as it was.
abbrev pub current : Uuid → StagedAccounts → Option AccountState
current id st = elim (lookup id st.changed) [ some a ↦ some a | none ↦ lookup id st.base ]

pub current-write :
    (j id : Uuid) (a : AccountState) (st : StagedAccounts)
    → current j (write id a st) ≡ (if id == j then some a else current j st)
current-write j id a st = ground (arith, lookup-insert j id a st.changed)

-- Fetching an account for a change changes none.
pub record Fetched (id : Uuid) (st : StagedAccounts) (a : AccountState) (st' : StagedAccounts)
    : Type 0 where
  pub found : current id st ≡ some a
  pub base : st'.base ≡ st.base
  pub same : (j : Uuid) → current j st' ≡ current j st
  pub changed : lookup id st'.changed ≡ some a

pub staged_account-Fetched :
    (id : Uuid) (st : StagedAccounts) {a : AccountState} {st' : StagedAccounts}
    → staged_account id st ≡ ok (a, st')
    → Fetched id st a st'
unfolding staged_account
staged_account-Fetched id st {a} {st'} h = record {
  found = ground arith;
  base = ground arith;
  same = λ j. ground (arith, lookup-insert j id a st.changed, ==_iff id j);
  changed = ground (arith, lookup-insert id id a st.changed);
}

pub lookup-bump_all :
    (j : Uuid) (m : Accounts)
    → lookup j (bump_all m) ≡ elim (lookup j m) [ none ↦ none | some a ↦ some (bump a) ]
unfolding lookup bump_all
lookup-bump_all j [] = refl
lookup-bump_all j ((id, a) ∷ m) = ground (arith, lookup-bump_all j m)

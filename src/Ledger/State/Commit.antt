-- ===== src/Ledger/State/Commit.antt =====
-- `commit`: every changed account is tested for funds, and its version moves on.
use astrum.Prelude.{
  ◌≡◌, refl, ◌==◌, Option, none, some, [], ◌∷◌, arith, ◌∙◌, sym, subst, ap, Bool-cases, inl, inr,
  some_unique, ==_iff,
}
use astrum.Prelude.Eq.{nat_eq}
use astrum.Prelude.Map.{lookup, lookup-copy}
use astrum.Result.{Error, ok, >>=-elim, ok_unique, nil_account}
use astrum.Ledger.Types.{Uuid}
use astrum.Ledger.Account.{AccountState, check_funds}
use astrum.Ledger.State.{Accounts, or_err, check_all_funds, bump, bump_all, commit}
use astrum.Ledger.State.Staged.{lookup-bump_all}

pub or_err-eq-ok {ℓ} :
    {A : Type ℓ} (e : Error) (o : Option A) {a : A} → or_err o e ≡ ok a → o ≡ some a
or_err-eq-ok e none h = absurd (cc)
or_err-eq-ok e (some b) h = ap some (ok_unique refl h)

-- The account `j` passed the test against its state before.
abbrev pub Tested : Accounts → Uuid → AccountState → Type 0
Tested accounts j a =
    (before : AccountState) × (lookup j accounts ≡ some before) × (check_funds a before ≡ ok tt)

check_all_funds-Tested :
    (accounts scratch : Accounts)
    → check_all_funds accounts scratch ≡ ok tt
    → (j : Uuid) (a : AccountState) → lookup j scratch ≡ some a
    → Tested accounts j a
unfolding check_all_funds lookup
check_all_funds-Tested accounts [] h j a e = absurd (cc)
check_all_funds-Tested accounts ((id, x) ∷ scratch) h j a e =
    >>=-elim (or_err (lookup id accounts) nil_account) _ h λ before eb h1.
      >>=-elim (check_funds x before) _ h1 λ u eu h2. elim (Bool-cases (id == j)) [
        | inl here ↦
            let same : x ≡ a = some_unique refl (rw here at e) in
            (
              before,
              ap (λ k. lookup k accounts) (sym ((==_iff id j).0 here))
                  ∙ or_err-eq-ok nil_account (lookup id accounts) eb,
              ap (λ y. check_funds y before) (sym same) ∙ eu,
            )
        | inr away ↦ check_all_funds-Tested accounts scratch h2 j a (rw away at e)
      ]

-- What is left of the accounts after a commit.
pub record Committed (accounts scratch accounts' : Accounts) : Type 0 where
  pub after :
      (j : Uuid)
      → lookup j accounts'
        ≡ elim (lookup j scratch) [ none ↦ lookup j accounts | some a ↦ some (bump a) ]
  pub tested : (j : Uuid) (a : AccountState) → lookup j scratch ≡ some a → Tested accounts j a

pub commit-Committed :
    (accounts scratch : Accounts) {accounts' : Accounts}
    → commit accounts scratch ≡ ok accounts'
    → Committed accounts scratch accounts'
unfolding commit
commit-Committed accounts scratch {accounts'} h =
    >>=-elim (check_all_funds accounts scratch) _ h λ u eu h1.
      subst (λ m. Committed accounts scratch m) (ok_unique refl h1)
        (record {
          after = λ j.
              ground (arith, lookup-copy j accounts (bump_all scratch), lookup-bump_all j scratch);
          tested = check_all_funds-Tested accounts scratch eu;
        })

-- ===== src/Ledger/State/Entries.antt =====
-- What holds of the entries that a transition records and hands back.
use astrum.Prelude.{◌≡◌, refl, some, List, [], ◌∷◌, ◌∙◌, sym, subst}
use astrum.Prelude.Eq.{nat_eq}
use astrum.Prelude.Map.{lookup}
use astrum.Result.{ok, >>=-elim, ok_unique, nil_account}
use astrum.Money.Amount.Totals.{zero_amount-IsTotal, zero_amount-size, IsTotal-value}
use astrum.Ledger.Types.{Uuid, Currency, Posting, Balances, check_locks}
use astrum.Ledger.Account.{AccountState, balances, balance}
use astrum.Ledger.State.{
  Accounts, BalanceChange, start, or_err, check_resulting_locks, transition, bump,
}
use astrum.Ledger.State.Commit.{or_err-eq-ok, commit-Committed}
use astrum.Ledger.State.Refines.{AreSound, TotalAmounts, transition-Run, unpended-AllSound}
use astrum.Ledger.State.Balanced.{
  debits_in, credits_in, ValidSides, Tracks, add_entries-Tracks, balanced,
}

abbrev pub All {ℓ κ} : {A : Type ℓ} → (A → Type κ) → List A → Type κ
All P [] = Unit
All P (x ∷ xs) = P x × All P xs

same_amounts :
    (ps : List Posting) (m : Accounts) {qs : List Posting}
    → check_resulting_locks ps m ≡ ok qs
    → (c : Currency) → (debits_in c qs ≡ debits_in c ps) × (credits_in c qs ≡ credits_in c ps)
unfolding check_resulting_locks debits_in credits_in
same_amounts [] m {qs} h c =
    subst (λ x. (debits_in c x ≡ 0) × (credits_in c x ≡ 0)) (ok_unique refl h) (refl, refl)
same_amounts (p ∷ ps) m {qs} h c =
    >>=-elim (or_err (lookup p.account_id m) nil_account) _ h λ a ea h1.
      >>=-elim (balances a) _ h1 λ b eb h2. >>=-elim (check_locks p b) _ h2 λ u eu h3.
        >>=-elim (check_resulting_locks ps m) _ h3 λ rest er h4.
          let (d, e) = same_amounts ps m er c in
          subst
            (λ x. (debits_in c x ≡ debits_in c (p ∷ ps)) × (credits_in c x ≡ credits_in c (p ∷ ps)))
            (ok_unique refl h4) (rw d refl, rw e refl)

start-Tracks : Tracks [] []
unfolding lookup debits_in credits_in
start-Tracks c =
    (zero_amount-IsTotal.fits, IsTotal-value zero_amount-IsTotal ∙ rw zero_amount-size refl)

-- A transition that succeeds has recorded as much on the debit side as on the credit side, in each
-- currency.
pub transition_balanced :
    (c : BalanceChange) (accounts : Accounts) {r : Accounts × Uuid × List Posting}
    → AreSound accounts
    → TotalAmounts c
    → ValidSides c.add_postings
    → transition c accounts ≡ ok r
    → (currency : Currency) → debits_in currency r.2 ≡ credits_in currency r.2
unfolding start
transition_balanced c accounts {r} s t v h currency =
    let run = transition-Run c accounts h in
    let track =
      add_entries-Tracks c.status c.add_postings (start accounts c run.unpended)
        (unpended-AllSound run s t) t.added v run.entering start-Tracks in
    let (d, e) = same_amounts run.entered.recorded run.released.changed run.locks currency in
    d ∙ balanced run.entered.totals run.entered.recorded track run.balanced currency ∙ sym e

-- The entry carries the balances that its account now shows, and they pass its locks.
abbrev pub Locked : Accounts → Posting → Type 0
Locked accounts q =
    (a : AccountState) × (b : Balances) × (lookup q.account_id accounts ≡ some a)
    × (balances a ≡ ok b)
    × (q.resulting ≡ some b)
    × (check_locks q b ≡ ok tt)

bump-balances : (a : AccountState) → balances (bump a) ≡ balances a
unfolding balances balance
bump-balances a = refl

check_resulting_locks-Locked :
    (ps : List Posting) (m accounts : Accounts) {qs : List Posting}
    → ((id : Uuid) (a : AccountState) → lookup id m ≡ some a → lookup id accounts ≡ some (bump a))
    → check_resulting_locks ps m ≡ ok qs
    → All (Locked accounts) qs
unfolding check_resulting_locks check_locks
check_resulting_locks-Locked [] m accounts {qs} f h =
    subst (All (Locked accounts)) (ok_unique refl h) tt
check_resulting_locks-Locked (p ∷ ps) m accounts {qs} f h =
    >>=-elim (or_err (lookup p.account_id m) nil_account) _ h λ a ea h1.
      >>=-elim (balances a) _ h1 λ b eb h2. >>=-elim (check_locks p b) _ h2 λ u eu h3.
        >>=-elim (check_resulting_locks ps m) _ h3 λ rest er h4.
          subst (All (Locked accounts)) (ok_unique refl h4) (
            (
              bump a,
              b,
              f p.account_id a (or_err-eq-ok nil_account (lookup p.account_id m) ea),
              bump-balances a ∙ eb,
              refl,
              eu,
            ),
            check_resulting_locks-Locked ps m accounts f er,
          )

-- Every entry that a transition hands back carries the balances of its account after the transition,
-- and these pass the entry's balance locks.
pub transition-Locked :
    (c : BalanceChange) (accounts : Accounts) {r : Accounts × Uuid × List Posting}
    → transition c accounts ≡ ok r
    → All (Locked r.0) r.2
transition-Locked c accounts {r} h =
    let run = transition-Run c accounts h in
    let done = commit-Committed accounts run.released.changed run.committing in
    check_resulting_locks-Locked run.entered.recorded run.released.changed r.0
      (λ id a e. done.after id ∙ rw e refl) run.locks

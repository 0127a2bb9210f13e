-- ===== src/Ledger/Holds/Locks.antt =====
-- The accounts that `lockAccounts` reads, and those that `writeAccounts` leaves: of
-- internal/modules/ledger/store_accounts.go.
use astrum.Prelude.{
  ◌≡◌, refl, sym, ap, ◌∙◌, true, false, ◌==◌, Option, none, some, List, [], ◌∷◌, Bool-cases, inl,
  inr, ==_iff, if◌then◌else◌,
}
use astrum.Prelude.Eq.{nat_eq}
use astrum.Prelude.Map.{lookup, insert, lookup-insert}
use astrum.Ledger.Types.{Uuid}
use astrum.Ledger.Account.{AccountState}
use astrum.Ledger.State.{Accounts}
use astrum.Ledger.Monitors.{new_ledger_state, index_accounts}
use astrum.Ledger.Store.{Store, lock_accounts, locked_accounts, is_among}
use astrum.Ledger.Holds.Kept.{WellKeyed, WellKeyed-insert}
use astrum.Ledger.Holds.Row.{locked_copy}

-- the row, if it is there, as it is locked; otherwise what was found before
abbrev pub locked_or : Option AccountState → Option AccountState → Option AccountState
locked_or none o = o
locked_or (some a) o = some (locked_copy a)

lookup-index_accounts :
    (ids : List Uuid) (m n : Accounts) (j : Uuid)
    → WellKeyed m
    → lookup j (index_accounts (locked_accounts ids m) n)
      ≡ (if is_among j ids then locked_or (lookup j m) (lookup j n) else lookup j n)
unfolding lookup index_accounts locked_accounts
lookup-index_accounts ids [] n j k = elim (Bool-cases (is_among j ids)) [
  | inl e ↦ rw e refl
  | inr e ↦ rw e refl
]
lookup-index_accounts ids ((i, a) ∷ m) n j k = elim (Bool-cases (i == j)) [
  | inl w ↦
      let same : i ≡ j = (==_iff i j).0 w in
      let gone : lookup j m ≡ none = ap (λ z. lookup z m) (sym same) ∙ k.1 in
      elim (Bool-cases (is_among i ids)) [
        | inl e ↦
            let e' : is_among j ids ≡ true = ap (λ z. is_among z ids) (sym same) ∙ e in
            rw (e, w, e', index_accounts)
              (lookup-index_accounts ids m (insert a.id (locked_copy a) n) j k.2
                ∙ rw (e', gone) (lookup-insert j a.id (locked_copy a) n ∙ rw (k.0, w) refl))
        | inr e ↦
            let e' : is_among j ids ≡ false = ap (λ z. is_among z ids) (sym same) ∙ e in
            rw (e, e') (lookup-index_accounts ids m n j k.2 ∙ rw e' refl)
      ]
  | inr w ↦ elim (Bool-cases (is_among i ids)) [
    | inl e ↦
        let other : lookup j (insert a.id (locked_copy a) n) ≡ lookup j n =
          lookup-insert j a.id (locked_copy a) n ∙ rw (k.0, w) refl in
        rw (e, w, index_accounts)
          (lookup-index_accounts ids m (insert a.id (locked_copy a) n) j k.2 ∙ rw other refl)
    | inr e ↦ rw (e, w) (lookup-index_accounts ids m n j k.2)
  ]
]

index_accounts-WellKeyed :
    (as' : List AccountState) (m : Accounts) → WellKeyed m → WellKeyed (index_accounts as' m)
unfolding index_accounts
index_accounts-WellKeyed [] m k = k
index_accounts-WellKeyed (a ∷ as') m k =
    index_accounts-WellKeyed as' _ (WellKeyed-insert a.id (locked_copy a) m k refl)

-- What `lockAccounts` finds of the account `j`.
pub lookup-lock_accounts :
    (ids : List Uuid) (s : Store) (j : Uuid)
    → WellKeyed s.accounts
    → lookup j (lock_accounts ids s).accounts
      ≡ (if is_among j ids then locked_or (lookup j s.accounts) none else none)
unfolding lock_accounts new_ledger_state lookup
lookup-lock_accounts ids s j k = lookup-index_accounts ids s.accounts [] j k

pub lock_accounts-WellKeyed :
    (ids : List Uuid) (s : Store) → WellKeyed (lock_accounts ids s).accounts
unfolding lock_accounts new_ledger_state
lock_accounts-WellKeyed ids s = index_accounts-WellKeyed (locked_accounts ids s.accounts) [] tt

-- ===== src/Ledger/Holds/Written.antt =====
-- The accounts that `writeAccounts` of internal/modules/ledger/store_accounts.go leaves.
use astrum.Prelude.{
  ◌≡◌, refl, sym, ap, ◌∙◌, subst, false, ◌==◌, Option, none, some, List, [], ◌∷◌, ◌++◌, map,
  Bool-cases, inl, inr, ==_iff, if◌then◌else◌,
}
use astrum.Prelude.Eq.{nat_eq}
use astrum.Prelude.Map.{lookup, insert, lookup-insert}
use astrum.Result.{ok, ◌>>=◌, >>=-elim, ok_unique, retry, passed}
use astrum.Ledger.Types.{Uuid}
use astrum.Ledger.Account.{AccountState, dirty}
use astrum.Ledger.State.{Accounts, or_err}
use astrum.Ledger.State.Commit.{or_err-eq-ok}
use astrum.Ledger.Monitors.{LedgerState, dirty_accounts, crossed}
use astrum.Ledger.Store.{Store, write_accounts, update_rows, set_columns, triggered_event}
use astrum.Ledger.Holds.Kept.{WellKeyed, WellKeyed-id, WellKeyed-insert}

-- A row, as the account of the state leaves it.
abbrev pub overwritten : Option AccountState → Option AccountState → Option AccountState
overwritten none row = row
overwritten (some a) none = none
overwritten (some a) (some row) = if dirty a then some (set_columns a row) else some row

-- The rows are keyed as before, and each is what the accounts of the state make of it.
pub record Overwrites (m rows rows' : Accounts) : Type 0 where
  pub keyed : WellKeyed rows'
  pub each : (j : Uuid) → lookup j rows' ≡ overwritten (lookup j m) (lookup j rows)

overwritten_clean :
    (a : AccountState) (row : Option AccountState)
    → dirty a ≡ false
    → overwritten (some a) row ≡ row
overwritten_clean a none d = refl
overwritten_clean a (some row) d = rw d refl

update_rows-Overwrites :
    (m rows : Accounts) {rows' : Accounts}
    → WellKeyed m
    → WellKeyed rows
    → update_rows (dirty_accounts m) rows ≡ ok rows'
    → Overwrites m rows rows'
unfolding dirty_accounts update_rows lookup
update_rows-Overwrites [] rows k r h =
    subst (Overwrites [] rows) (ok_unique refl h) (record { keyed = r; each = λ j. refl })
update_rows-Overwrites ((i, a) ∷ m) rows k r h = elim (Bool-cases (dirty a)) [
  | inl d ↦ >>=-elim (or_err (lookup a.id rows) retry) _ (rw (d, update_rows) at h) λ row e h1.
      let found : lookup i rows ≡ some row =
        ap (λ z. lookup z rows) (sym k.0) ∙ or_err-eq-ok retry (lookup a.id rows) e in
      let next = insert a.id (set_columns a row) rows in
      let keyed =
        WellKeyed-insert a.id (set_columns a row) rows r (WellKeyed-id i rows r found ∙ sym k.0) in
      let rest = update_rows-Overwrites m next k.2 keyed (passed _ retry h1).1 in
      record {
        keyed = rest.keyed;
        each = λ j. elim (Bool-cases (i == j)) [
          | inl w ↦
              let same : i ≡ j = (==_iff i j).0 w in
              let gone : lookup j m ≡ none = ap (λ z. lookup z m) (sym same) ∙ k.1 in
              let there : lookup j rows ≡ some row = ap (λ z. lookup z rows) (sym same) ∙ found in
              let now : lookup j next ≡ some (set_columns a row) =
                lookup-insert j a.id (set_columns a row) rows ∙ rw (k.0, w) refl in
              rest.each j ∙ rw (gone, w, there, d) now
          | inr w ↦
              let now : lookup j next ≡ lookup j rows =
                lookup-insert j a.id (set_columns a row) rows ∙ rw (k.0, w) refl in
              rest.each j ∙ rw (w, now) refl
        ];
      }
  | inr d ↦
      let rest = update_rows-Overwrites m rows k.2 r (rw (d) at h) in
      record {
        keyed = rest.keyed;
        each = λ j. elim (Bool-cases (i == j)) [
          | inl w ↦
              let gone : lookup j m ≡ none = ap (λ z. lookup z m) (sym ((==_iff i j).0 w)) ∙ k.1 in
              rest.each j ∙ rw (gone, w) (sym (overwritten_clean a (lookup j rows) d))
          | inr w ↦ rest.each j ∙ rw w refl
        ];
      }
]

nothing_to_update : (rows : Accounts) → update_rows [] rows ≡ ok rows
unfolding update_rows
nothing_to_update rows = refl

-- What `writeAccounts` leaves of the accounts and the holds.
pub record Leaves (m : Accounts) (s s' : Store) : Type 0 where
  pub accounts : Overwrites m s.accounts s'.accounts
  pub holds : s'.holds ≡ s.holds

pub write_accounts-Leaves :
    (state : LedgerState) (s : Store) {s' : Store}
    → WellKeyed state.accounts
    → WellKeyed s.accounts
    → write_accounts state s ≡ ok s'
    → Leaves state.accounts s s'
unfolding write_accounts
write_accounts-Leaves state s {s'} k r h =
    written (dirty_accounts state.accounts)
      (λ m e. update_rows-Overwrites state.accounts s.accounts k r e) h
  where
    written :
        (d : List AccountState)
        → ((m : Accounts)
            → update_rows d s.accounts ≡ ok m
            → Overwrites state.accounts s.accounts m)
        → elim d [
          | [] ↦ ok s
          | a ∷ as' ↦ crossed state >>= λ fired. update_rows (a ∷ as') s.accounts >>= λ accounts.
              ok (record s { accounts = accounts; events = s.events ++ map triggered_event fired })
        ]
          ≡ ok s'
        → Leaves state.accounts s s'
    written [] f g =
        subst (Leaves state.accounts s) (ok_unique refl g)
          (record { accounts = f s.accounts (nothing_to_update s.accounts); holds = refl })
    written (a ∷ as') f g = >>=-elim (crossed state) _ g λ fired e g1.
        >>=-elim (update_rows (a ∷ as') s.accounts) _ g1 λ m em g2.
          subst (Leaves state.accounts s) (ok_unique refl g2)
            (record { accounts = f m em; holds = refl })

-- ===== src/Ledger/Holds/Row.antt =====
-- One account that is locked, changed and written: its row alone changes.
use astrum.Prelude.{
  ◌≡◌, refl, sym, ap, ◌∙◌, subst, true, not, ◌==◌, Option, none, some, [], ◌∷◌, Bool-cases, inl,
  inr, ==_iff, some_unique,
}
use astrum.Prelude.Eq.{nat_eq}
use astrum.Prelude.Map.{lookup, insert}
use astrum.Result.{ok, >>=-elim, ok_unique, fail_if, retry}
use astrum.Ledger.Types.{Uuid}
use astrum.Ledger.Account.{AccountState, dirty}
use astrum.Ledger.State.{Accounts, or_err}
use astrum.Ledger.Monitors.{LedgerState, new_ledger_state, index_accounts, dirty_accounts, crossed}
use astrum.Ledger.Store.{
  Store, lock_accounts, locked_accounts, write_accounts, update_rows, set_columns,
}
use astrum.Ledger.Holds.Kept.{WellKeyed, WellKeyed-id}

-- the locked copy of a row
abbrev pub locked_copy : AccountState → AccountState
locked_copy a = record a { original_version = a.version }

locked_none : (id : Uuid) (m : Accounts) → lookup id m ≡ none → locked_accounts (id ∷ []) m ≡ []
unfolding locked_accounts lookup
locked_none id [] e = refl
locked_none id ((i, x) ∷ m) e = elim (Bool-cases (i == id)) [
  | inl w ↦ absurd (cc (e, w))
  | inr w ↦ rw w (locked_none id m (rw w at e))
]

locked_one :
    (id : Uuid) (m : Accounts) {a : AccountState}
    → WellKeyed m
    → lookup id m ≡ some a
    → locked_accounts (id ∷ []) m ≡ a ∷ []
unfolding locked_accounts lookup
locked_one id [] k e = absurd (cc)
locked_one id ((i, x) ∷ m) {a} k e = elim (Bool-cases (i == id)) [
  | inl w ↦
      let same : x ≡ a = some_unique refl (rw w at e) in
      let rest : locked_accounts (id ∷ []) m ≡ [] =
        locked_none id m (ap (λ z. lookup z m) (sym ((==_iff i id).0 w)) ∙ k.1) in
      rw (w, rest, same) refl
  | inr w ↦ rw w (locked_one id m k.2 (rw w at e))
]

pub lock_one :
    (id : Uuid) (s : Store) {a : AccountState}
    → WellKeyed s.accounts
    → lookup id s.accounts ≡ some a
    → (lock_accounts (id ∷ []) s).accounts ≡ (id, locked_copy a) ∷ []
unfolding lock_accounts new_ledger_state index_accounts insert
lock_one id s {a} k e = rw (locked_one id s.accounts k e, WellKeyed-id id s.accounts k e) refl

pub lock_none :
    (id : Uuid) (s : Store)
    → lookup id s.accounts ≡ none
    → (lock_accounts (id ∷ []) s).accounts ≡ []
unfolding lock_accounts new_ledger_state index_accounts
lock_none id s e = rw (locked_none id s.accounts e) refl

-- What is left of the store.
pub record WritesOne (id : Uuid) (v a : AccountState) (s s' : Store) : Type 0 where
  pub accounts : s'.accounts ≡ insert id (set_columns v a) s.accounts
  pub holds : s'.holds ≡ s.holds

pub write_one :
    (id : Uuid) (state : LedgerState) (s : Store) (v : AccountState) {a : AccountState} {s' : Store}
    → lookup id s.accounts ≡ some a
    → v.id ≡ id
    → dirty v ≡ true
    → write_accounts (record state { accounts = (id, v) ∷ [] }) s ≡ ok s'
    → WritesOne id v a s s'
unfolding write_accounts dirty_accounts update_rows
write_one id state s v {a} {s'} f i d h =
    >>=-elim (crossed (record state { accounts = (id, v) ∷ [] })) _ (rw (d, write_accounts) at h)
      λ fired e h1. >>=-elim (update_rows (v ∷ []) s.accounts) _ h1 λ m em h2.
        >>=-elim (or_err (lookup v.id s.accounts) retry) _ em λ row er h3.
          >>=-elim (fail_if (not (row.version == v.original_version)) retry) _ h3 λ u eu h4.
            let same : row ≡ a =
              some_unique (row_of (lookup v.id s.accounts) er)
                (ap (λ j. lookup j s.accounts) i ∙ f) in
            subst (WritesOne id v a s) (ok_unique refl h2) (record {
              accounts =
                  sym (ok_unique refl h4)
                  ∙ ap (λ j. insert j (set_columns v row) s.accounts) i
                  ∙ ap (λ r. insert id (set_columns v r) s.accounts) same;
              holds = refl;
            })
  where
    row_of : (o : Option AccountState) {x : AccountState} → or_err o retry ≡ ok x → o ≡ some x
    row_of none k = cc
    row_of (some y) k = ap some (ok_unique refl k)

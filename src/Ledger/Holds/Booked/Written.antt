-- ===== src/Ledger/Holds/Booked/Written.antt =====
-- The accounts of the store after a transition on the locked ones was written: state.go and store_accounts.go of internal/modules/ledger.
use astrum.Prelude.{
  ◌≡◌, refl, sym, ap, ◌∙◌, subst, true, false, none, some, List, Bool-cases, Option-cases, inl, inr,
  some_unique, arith,
}
use astrum.Prelude.Eq.{nat_eq}
use astrum.Prelude.Map.{lookup}
use astrum.Result.{ok}
use astrum.Ledger.Types.{Uuid, Posting}
use astrum.Ledger.Account.{AccountState, dirty}
use astrum.Ledger.Account.Sound.{IsSound}
use astrum.Ledger.State.{Accounts, BalanceChange, transition}
use astrum.Ledger.State.Tally.{tally, change}
use astrum.Ledger.State.Refines.{AreSound, TotalAmounts, Changed, transition-Changed}
use astrum.Ledger.Store.{Store, lock_accounts, write_accounts, set_columns, is_among}
use astrum.Ledger.Monitors.{LedgerState}
use astrum.Ledger.Holds.Kept.{WellKeyed}
use astrum.Ledger.Holds.Row.{locked_copy}
use astrum.Ledger.Holds.Locks.{lookup-lock_accounts, lock_accounts-WellKeyed}
use astrum.Ledger.Holds.Written.{overwritten, write_accounts-Leaves}
use astrum.Ledger.Holds.Booked.{transition-WellKeyed, transition_origin}

-- What a change makes of the row `a` of an account: `b`.
pub record Rebooks (ids : List Uuid) (j : Uuid) (c : BalanceChange) (a b : AccountState)
    : Type 0 where
  pub sound : IsSound b
  pub locked : is_among j ids ≡ true → change j c (tally a) ≡ some (tally b)
  pub others : is_among j ids ≡ false → b ≡ a

-- a row that was read and not changed
clean_same :
    (j : Uuid) (c : BalanceChange) (a v : AccountState)
    → Changed j c (locked_copy a) v
    → dirty v ≡ false
    → tally v ≡ tally a
unfolding dirty
clean_same j c a v k d = elim k.moved [
  | inl same ↦ ap tally same
  | inr (next, _) ↦
      let version : v.version ≡ v.original_version = ground arith in
      let before : v.original_version ≡ a.version = k.original_version in
      absurd (omega (arith, next, version, before))
]

pub columns-IsSound : (v a : AccountState) → IsSound v → IsSound a → IsSound (set_columns v a)
columns-IsSound v a s t = record {
  posted_debits = s.posted_debits;
  posted_credits = s.posted_credits;
  pending_debits = s.pending_debits;
  pending_credits = s.pending_credits;
  held = s.held;
  overdraft_limit = t.overdraft_limit;
}

row-Rebooks :
    (ids : List Uuid) (j : Uuid) (c : BalanceChange) (a v b : AccountState)
    → is_among j ids ≡ true
    → IsSound a
    → IsSound v
    → Changed j c (locked_copy a) v
    → overwritten (some v) (some a) ≡ some b
    → Rebooks ids j c a b
row-Rebooks ids j c a v b i s t k e = elim (Bool-cases (dirty v)) [
  | inl d ↦
      let same : set_columns v a ≡ b = some_unique refl (rw d at e) in
      record {
        sound = subst IsSound same (columns-IsSound v a t s);
        locked = λ _. k.tallied ∙ ap (λ x. some (tally x)) same;
        others = λ n. absurd (cc (i, n));
      }
  | inr d ↦
      let same : a ≡ b = some_unique refl (rw d at e) in
      record {
        sound = subst IsSound same s;
        locked = λ _. k.tallied ∙ ap some (clean_same j c a v k d) ∙ ap (λ x. some (tally x)) same;
        others = λ n. absurd (cc (i, n));
      }
]

pub locked_row :
    (ids : List Uuid) (s : Store) (j : Uuid) {l : AccountState}
    → WellKeyed s.accounts
    → lookup j (lock_accounts ids s).accounts ≡ some l
    → (is_among j ids ≡ true)
      × (a : AccountState) × (lookup j s.accounts ≡ some a)
      × (locked_copy a ≡ l)
locked_row ids s j {l} k e = elim (Bool-cases (is_among j ids)) [
  | inl i ↦ elim (Option-cases (lookup j s.accounts)) [
    | inl n ↦
        let f : none ≡ some l = sym (lookup-lock_accounts ids s j k ∙ rw (i, n) refl) ∙ e in
        absurd (cc)
    | inr (a, f) ↦
        (i, a, f, some_unique refl (sym (lookup-lock_accounts ids s j k ∙ rw (i, f) refl) ∙ e))
  ]
  | inr i ↦
      let f : none ≡ some l = sym (lookup-lock_accounts ids s j k ∙ rw i refl) ∙ e in absurd (cc)
]

locked-IsSound : (a : AccountState) → IsSound a → IsSound (locked_copy a)
locked-IsSound a s = record {
  posted_debits = s.posted_debits;
  posted_credits = s.posted_credits;
  pending_debits = s.pending_debits;
  pending_credits = s.pending_credits;
  held = s.held;
  overdraft_limit = s.overdraft_limit;
}

pub locked-AreSound :
    (ids : List Uuid) (s : Store)
    → WellKeyed s.accounts
    → AreSound s.accounts
    → AreSound (lock_accounts ids s).accounts
locked-AreSound ids s k t j l e =
    let (_, a, f, same) = locked_row ids s j k e in subst IsSound same (locked-IsSound a (t j a f))

-- What is left of the store.
pub record Books (ids : List Uuid) (c : BalanceChange) (s s' : Store) : Type 0 where
  pub keyed : WellKeyed s'.accounts
  pub holds : s'.holds ≡ s.holds
  pub each :
      (j : Uuid) (b : AccountState)
      → lookup j s'.accounts ≡ some b
      → (a : AccountState) × (lookup j s.accounts ≡ some a) × Rebooks ids j c a b

module _ (ids : List Uuid) (c : BalanceChange) (s : Store) {r : Accounts × Uuid × List Posting}
    (k : WellKeyed s.accounts) (t : AreSound s.accounts) (total : TotalAmounts c)
    (h : transition c (lock_accounts ids s).accounts ≡ ok r) where
  absent-Rebooks :
      (j : Uuid) (a : AccountState)
      → lookup j r.0 ≡ none
      → lookup j s.accounts ≡ some a
      → Rebooks ids j c a a
  absent-Rebooks j a n e = record {
    sound = t j a e;
    locked = λ i.
        let found = lookup-lock_accounts ids s j k ∙ rw (i, e) refl in
        let (b, f, _, _) =
          transition-Changed c (lock_accounts ids s).accounts (locked-AreSound ids s k t) total h j
            (locked_copy a) found in
        let no : none ≡ some b = sym n ∙ f in absurd (cc);
    others = λ i. refl;
  }

  present-Rebooks :
      (j : Uuid) (v b : AccountState)
      → lookup j r.0 ≡ some v
      → overwritten (some v) (lookup j s.accounts) ≡ some b
      → (a : AccountState) × (lookup j s.accounts ≡ some a) × Rebooks ids j c a b
  present-Rebooks j v b e w =
      let (l, f, sound, changed) =
        transition_origin c (lock_accounts ids s).accounts (lock_accounts-WellKeyed ids s)
          (locked-AreSound ids s k t) total h j v e in
      let (i, a, ea, same) = locked_row ids s j k f in
      (
        a,
        ea,
        row-Rebooks ids j c a v b i (t j a ea) sound
            (subst (λ x. Changed j c x v) (sym same) changed)
            (ap (overwritten (some v)) (sym ea) ∙ w),
      )

  pub written-Books :
      (state : LedgerState) (s1 : Store) {s2 : Store}
      → s1.accounts ≡ s.accounts
      → s1.holds ≡ s.holds
      → write_accounts (record state { accounts = r.0 }) s1 ≡ ok s2
      → Books ids c s s2
  written-Books state s1 {s2} same held w =
      let m = r.0 in
      let leaves =
        write_accounts-Leaves (record state { accounts = m }) s1
          (transition-WellKeyed c (lock_accounts ids s).accounts (lock_accounts-WellKeyed ids s)
            (locked-AreSound ids s k t) total h)
          (subst WellKeyed (sym same) k) w in
      record {
        keyed = leaves.accounts.keyed;
        holds = leaves.holds ∙ held;
        each = λ j b e.
            let row : overwritten (lookup j r.0) (lookup j s.accounts) ≡ some b =
              ap (λ x. overwritten (lookup j r.0) (lookup j x)) (sym same)
              ∙ sym (leaves.accounts.each j)
              ∙ e in
            elim (Option-cases (lookup j r.0)) [
              | inl n ↦
                  let here : lookup j s.accounts ≡ some b =
                    sym (ap (λ o. overwritten o (lookup j s.accounts)) n) ∙ row in
                  (b, here, absent-Rebooks j b n here)
              | inr (v, f) ↦
                  present-Rebooks j v b f
                    (sym (ap (λ o. overwritten o (lookup j s.accounts)) f) ∙ row)
            ];
      }

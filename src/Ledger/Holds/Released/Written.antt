-- ===== src/Ledger/Holds/Released/Written.antt =====
-- The accounts of the store after the releases of `expireHolds` in internal/modules/ledger/holds.go were written.
use astrum.Prelude.{
  ℕ, ◌<◌, ◌≡◌, refl, sym, ap, ◌∙◌, subst, false, ◌==◌, ◌+◌, length, none, some, List, [], ◌∷◌, map,
  Bool-cases, Option-cases, inl, inr, some_unique, arith,
}
use astrum.Prelude.Eq.{nat_eq}
use astrum.Prelude.Map.{lookup}
use astrum.Result.{ok}
use astrum.Money.Words.{word}
use astrum.Money.Amount.Totals.{size}
use astrum.Ledger.Types.{Uuid}
use astrum.Ledger.Account.{AccountState, dirty}
use astrum.Ledger.Account.Sound.{IsSound}
use astrum.Ledger.State.{Accounts}
use astrum.Ledger.State.Refines.{AreSound}
use astrum.Ledger.Monitors.{LedgerState}
use astrum.Ledger.Store.{Store, Hold, lock_accounts, write_accounts, set_columns, is_among}
use astrum.Ledger.Holds.{release_holds}
use astrum.Ledger.Holds.Kept.{EachTotal, WellKeyed}
use astrum.Ledger.Holds.Row.{locked_copy}
use astrum.Ledger.Holds.Locks.{lookup-lock_accounts, lock_accounts-WellKeyed}
use astrum.Ledger.Holds.Written.{overwritten, write_accounts-Leaves}
use astrum.Ledger.Holds.Booked.Written.{columns-IsSound, locked_row, locked-AreSound}
use astrum.Ledger.Holds.Released.{
  Drift, Drifts, Drifts-refl, Drifts-sums, freed_on, release_holds-Drifts,
}

-- What the releases make of the row `a` of an account: `b`.
pub record Frees (d : ℕ) (a b : AccountState) : Type 0 where
  pub sound : IsSound b
  pub held : size b.held + d ≡ size a.held

-- a row that was not changed has nothing freed
clean_nothing :
    (n d : ℕ) (a v : AccountState)
    → n < word
    → Drift n d (locked_copy a) v
    → dirty v ≡ false
    → d ≡ 0
unfolding dirty
clean_nothing n d a v less k e = elim k.moved [
  | inl same ↦
      let before = k.held in
      let held : size v.held ≡ size a.held = ap (λ x. size x.held) same in
      omega (arith, before, held)
  | inr (i, p, q, next) ↦
      let version : v.version ≡ v.original_version = ground arith in
      let before : v.original_version ≡ a.version = k.original in
      absurd (omega (arith, next, version, before, less))
]

row-Frees :
    (n d : ℕ) (a v b : AccountState)
    → n < word
    → IsSound a
    → Drift n d (locked_copy a) v
    → overwritten (some v) (some a) ≡ some b
    → Frees d a b
row-Frees n d a v b less s k e = elim (Bool-cases (dirty v)) [
  | inl w ↦
      let same : set_columns v a ≡ b = some_unique refl (rw w at e) in
      let before = k.held in
      subst (Frees d a) same (record { sound = columns-IsSound v a k.sound s; held = before })
  | inr w ↦
      let same : a ≡ b = some_unique refl (rw w at e) in
      let none_freed = clean_nothing n d a v less k w in
      subst (Frees d a) same (record { sound = s; held = omega (arith, none_freed) })
]

freed_absent :
    (j : Uuid) (hs : List Hold)
    → is_among j (map (λ x. x.account_id) hs) ≡ false
    → freed_on j hs ≡ 0
unfolding is_among freed_on
freed_absent j [] e = refl
freed_absent j (h ∷ hs) e =
    let away : (h.account_id == j) ≡ false = ground arith in
    let rest : is_among j (map (λ x. x.account_id) hs) ≡ false = ground arith in
    let none_left = freed_absent j hs rest in rw away (omega (arith, none_left))

-- What is left of the accounts and the holds once the releases are written.
pub record FreesAll (hs : List Hold) (s s' : Store) : Type 0 where
  pub keyed : WellKeyed s'.accounts
  pub holds : s'.holds ≡ s.holds
  pub each :
      (j : Uuid) (b : AccountState)
      → lookup j s'.accounts ≡ some b
      → (a : AccountState) × (lookup j s.accounts ≡ some a) × Frees (freed_on j hs) a b

module _ (hs : List Hold) (s : Store) {m : Accounts} (k : WellKeyed s.accounts)
    (t : AreSound s.accounts) (totals : EachTotal hs) (few : length hs < word)
    (h : release_holds hs (lock_accounts (map (λ x. x.account_id) hs) s).accounts ≡ ok m) where
  abbrev ids : List Uuid
  ids = map (λ x. x.account_id) hs

  drifts : Drifts (length hs) (λ j. freed_on j hs) (lock_accounts ids s).accounts m
  drifts =
      subst (λ n. Drifts n (λ j. freed_on j hs) (lock_accounts ids s).accounts m) (omega arith)
        (Drifts-sums (λ j. omega arith)
          (release_holds-Drifts hs 0 (λ j. 0) (lock_accounts ids s).accounts
            (lock_accounts ids s).accounts totals
            (Drifts-refl (lock_accounts ids s).accounts (lock_accounts-WellKeyed ids s)
              (locked-AreSound ids s k t))
            h))

  absent-Frees :
      (j : Uuid) (a : AccountState)
      → lookup j m ≡ none
      → lookup j s.accounts ≡ some a
      → Frees (freed_on j hs) a a
  absent-Frees j a n e = elim (Bool-cases (is_among j ids)) [
    | inl i ↦
        let no : none ≡ some (locked_copy a) =
          sym (drifts.all j n) ∙ lookup-lock_accounts ids s j k ∙ rw (i, e) refl in
        absurd (cc)
    | inr i ↦
        let nothing = freed_absent j hs i in
        record { sound = t j a e; held = omega (arith, nothing) }
  ]

  present-Frees :
      (j : Uuid) (v b : AccountState)
      → lookup j m ≡ some v
      → overwritten (some v) (lookup j s.accounts) ≡ some b
      → (a : AccountState) × (lookup j s.accounts ≡ some a) × Frees (freed_on j hs) a b
  present-Frees j v b e w =
      let (l, f, drift) = drifts.each j v e in
      let (i, a, ea, same) = locked_row ids s j k f in
      (
        a,
        ea,
        row-Frees (length hs) (freed_on j hs) a v b few (t j a ea)
            (subst (λ x. Drift (length hs) (freed_on j hs) x v) (sym same) drift)
            (ap (overwritten (some v)) (sym ea) ∙ w),
      )

  pub written-FreesAll :
      (state : LedgerState) {s' : Store}
      → write_accounts (record state { accounts = m }) s ≡ ok s'
      → FreesAll hs s s'
  written-FreesAll state {s'} w =
      let leaves = write_accounts-Leaves (record state { accounts = m }) s drifts.keyed k w in
      record {
        keyed = leaves.accounts.keyed;
        holds = leaves.holds;
        each = λ j b e.
            let row : overwritten (lookup j m) (lookup j s.accounts) ≡ some b =
              sym (leaves.accounts.each j) ∙ e in
            elim (Option-cases (lookup j m)) [
              | inl n ↦
                  let here : lookup j s.accounts ≡ some b =
                    sym (ap (λ o. overwritten o (lookup j s.accounts)) n) ∙ row in
                  (b, here, absent-Frees j b n here)
              | inr (v, f) ↦
                  present-Frees j v b f
                    (sym (ap (λ o. overwritten o (lookup j s.accounts)) f) ∙ row)
            ];
      }

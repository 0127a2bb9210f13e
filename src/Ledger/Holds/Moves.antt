-- ===== src/Ledger/Holds/Moves.antt =====
-- One account whose held funds and holds change together.
pub mod Both
use astrum.Prelude.{
  ◌-◌, ◌≡◌, refl, sym, ap, ◌∙◌, subst, true, false, ◌&&◌, not, ◌==◌, some, List, [], ◌∷◌, arith,
  Bool-cases, inl, inr, ==_iff, some_unique, if◌then◌else◌,
}
use astrum.Prelude.Eq.{nat_eq, =?_refl, text_eq, ◌=?◌}
use astrum.Prelude.Map.{lookup, insert, copy, lookup-insert}
use astrum.Result.{ok, >>=-elim, ok_unique, fail_if, not_found, invalid}
use astrum.Money.Amount.{Amount, add}
use astrum.Money.Amount.Totals.{size, IsTotal}
use astrum.Ledger.Types.{Uuid, Currency}
use astrum.Ledger.Account.{AccountState, check_open, dirty}
use astrum.Ledger.State.{
  Accounts, reserve, release, release_amount, commit, check_all_funds, bump_all, bump, or_err,
  is_empty,
}
use astrum.Ledger.Account.Sound.{IsSound}
use astrum.Ledger.State.Refines.{AreSound}
use astrum.Ledger.Store.{Store, Hold, set_columns}
use astrum.Ledger.Holds.Kept.{IsKept, WellKeyed, EachTotal, held_on, WellKeyed-id, WellKeyed-insert}
use astrum.Ledger.Holds.Row.{locked_copy}

abbrev pub changed_copy : AccountState → Amount → AccountState
changed_copy a x = bump (record (locked_copy a) { held = x })

commit_one :
    (id : Uuid) (l v : AccountState) {m : Accounts}
    → commit ((id, l) ∷ []) ((id, v) ∷ []) ≡ ok m
    → m ≡ (id, bump v) ∷ []
unfolding commit check_all_funds bump_all copy insert
commit_one id l v {m} h =
    >>=-elim (check_all_funds ((id, l) ∷ []) ((id, v) ∷ [])) _ h
      λ u e h1. sym (ok_unique refl h1) ∙ rw (=?_refl id) refl

sole :
    (id : Uuid) (l : AccountState) {a : AccountState}
    → or_err (lookup id ((id, l) ∷ [])) not_found ≡ ok a
    → l ≡ a
unfolding lookup
sole id l h = ok_unique refl (rw (=?_refl id) at h)

pub reserve_one :
    (id : Uuid) (l : AccountState) (currency : Currency) (amount : Amount) {m : Accounts}
    → reserve id currency amount ((id, l) ∷ []) ≡ ok m
    → (x : Amount) × (add l.held amount ≡ ok x) × (m ≡ (id, bump (record l { held = x })) ∷ [])
unfolding reserve lookup
reserve_one id l currency amount {m} h =
    >>=-elim (or_err (lookup id ((id, l) ∷ [])) not_found) _ h λ a ea h1.
      >>=-elim (check_open a) _ h1 λ u eu h2.
        >>=-elim (fail_if (not (is_empty currency) && not (currency =? a.currency)) invalid) _ h2
          λ w ew h3. >>=-elim (add a.held amount) _ h3 λ x ex h4.
            let same : l ≡ a = sole id l ea in
            (
              x,
              ap (λ b. add b.held amount) same ∙ ex,
              commit_one id l (record a { held = x }) h4
                  ∙ ap (λ b. (id, bump (record b { held = x })) ∷ []) (sym same),
            )

pub release_one :
    (id : Uuid) (l : AccountState) (amount : Amount) {m : Accounts}
    → release id amount ((id, l) ∷ []) ≡ ok m
    → (x : Amount) × (release_amount l.held amount ≡ ok x)
      × (m ≡ (id, bump (record l { held = x })) ∷ [])
unfolding release
release_one id l amount {m} h =
    >>=-elim (or_err (lookup id ((id, l) ∷ [])) not_found) _ h λ a ea h1.
      >>=-elim (release_amount a.held amount) _ h1 λ x ex h2.
        let same : l ≡ a = sole id l ea in
        (
          x,
          ap (λ b. release_amount b.held amount) same ∙ ex,
          commit_one id l (record a { held = x }) h2
              ∙ ap (λ b. (id, bump (record b { held = x })) ∷ []) (sym same),
        )

pub dirty_copy : (a : AccountState) (x : Amount) → dirty (changed_copy a x) ≡ true
unfolding dirty
dirty_copy a x = ground arith

-- the holds of one account have changed, and what is held on it
pub record Moves (id : Uuid) (x : Amount) (holds holds' : List Hold) : Type 0 where
  pub amounts : EachTotal holds'
  pub total : IsTotal x
  pub here : size x ≡ held_on id holds'
  pub away : (j : Uuid) → (id == j) ≡ false → held_on j holds' ≡ held_on j holds

abbrev pub written_row : AccountState → Amount → AccountState
written_row a x = set_columns (changed_copy a x) a

pub Moves-IsKept :
    (id : Uuid) (x : Amount) (s s' : Store) {a : AccountState}
    → IsKept s
    → lookup id s.accounts ≡ some a
    → s'.accounts ≡ insert id (written_row a x) s.accounts
    → Moves id x s.holds s'.holds
    → IsKept s'
Moves-IsKept id x s s' {a} k e w m =
    let keyed =
      WellKeyed-insert id (written_row a x) s.accounts k.keyed
        (WellKeyed-id id s.accounts k.keyed e) in
    let at : (j : Uuid)
        → lookup j s'.accounts ≡ (if id == j then some (written_row a x) else lookup j s.accounts) =
      λ j. ap (lookup j) w ∙ lookup-insert j id (written_row a x) s.accounts in
    record {
      keyed = subst WellKeyed (sym w) keyed;
      amounts = m.amounts;
      total = λ j b f. elim (Bool-cases (id == j)) [
        | inl y ↦
            let row : written_row a x ≡ b = some_unique (at j ∙ rw y refl) f in
            subst (λ z. IsTotal z.held) row m.total
        | inr y ↦ k.total j b (sym (at j ∙ rw y refl) ∙ f)
      ];
      kept = λ j b f. elim (Bool-cases (id == j)) [
        | inl y ↦
            let row : written_row a x ≡ b = some_unique (at j ∙ rw y refl) f in
            sym (ap (λ z. size z.held) row)
            ∙ m.here
            ∙ ap (λ z. held_on z s'.holds) ((==_iff id j).0 y)
        | inr y ↦ k.kept j b (sym (at j ∙ rw y refl) ∙ f) ∙ sym (m.away j y)
      ];
    }

set_columns-IsSound :
    (a : AccountState) (x : Amount) → IsSound a → IsTotal x → IsSound (written_row a x)
set_columns-IsSound a x s t = record {
  posted_debits = s.posted_debits;
  posted_credits = s.posted_credits;
  pending_debits = s.pending_debits;
  pending_credits = s.pending_credits;
  held = t;
  overdraft_limit = s.overdraft_limit;
}

pub Moves-AreSound :
    (id : Uuid) (x : Amount) (s s' : Store) {a : AccountState}
    → AreSound s.accounts
    → lookup id s.accounts ≡ some a
    → s'.accounts ≡ insert id (written_row a x) s.accounts
    → Moves id x s.holds s'.holds
    → AreSound s'.accounts
Moves-AreSound id x s s' {a} k e w m j b f = elim (Bool-cases (id == j)) [
  | inl y ↦
      subst IsSound
        (some_unique refl (
          sym (lookup-insert j id (written_row a x) s.accounts ∙ rw y refl)
          ∙ ap (lookup j) (sym w)
          ∙ f))
        (set_columns-IsSound a x (k id a e) m.total)
  | inr y ↦ k j b (
      sym (lookup-insert j id (written_row a x) s.accounts ∙ rw y refl) ∙ ap (lookup j) (sym w) ∙ f)
]

-- ===== src/Ledger/Holds/Moves/Both.antt =====
-- A hold that is placed or voided, with the funds of its account: `createHold` and `voidHold` of internal/modules/ledger/holds.go.
use astrum.Prelude.{
  ◌-◌, ◌≤◌, ◌≡◌, refl, sym, ◌∙◌, subst, ◌==◌, some, [], ◌∷◌, ◌++◌, arith, Option-cases, inl, inr,
  if◌then◌else◌,
}
use astrum.Prelude.Int.{pos, ltb_ℤ}
use astrum.Prelude.Eq.{nat_eq, =?_refl, text_eq}
use astrum.Prelude.Map.{lookup}
use astrum.Result.{ok, >>=-elim, fail_if, fail_if-eq-ok, exceeds_held, err-ne-ok}
use astrum.Money.Amount.{Amount, add, cmp}
use astrum.Money.Amount.Totals.{size, IsTotal, add-IsTotal, sub-IsTotal, cmp_totals}
use astrum.Ledger.Types.{Uuid, Currency}
use astrum.Ledger.Account.{AccountState}
use astrum.Ledger.State.{Accounts, reserve, release, release_amount}
use astrum.Ledger.State.Steps.{not_ltb→le}
use astrum.Ledger.Monitors.{LedgerState}
use astrum.Ledger.Store.{
  Store, Hold, voided, pending, lock_accounts, write_accounts, hold_by_id, replace_hold,
}
use astrum.Ledger.Holds.Kept.{
  IsKept, WellKeyed, part, held_on-append, held_on-replace, EachTotal-append, EachTotal-replace,
  EachTotal-hold_by_id, WellKeyed-id,
}
use astrum.Ledger.Holds.Row.{locked_copy, WritesOne, lock_one, lock_none, write_one}
use astrum.Ledger.Holds.Moves.{Moves, changed_copy, dirty_copy, release_one, reserve_one}

-- A new pending hold of `n` on the account.
pub new_part :
    (j : Uuid) (h : Hold)
    → h.status ≡ pending
    → part j h ≡ (if h.account_id == j then size h.amount else 0)
new_part j h e = rw e refl

pub create-Moves :
    (s : Store) (h : Hold) (x : Amount) {a : AccountState}
    → IsKept s
    → lookup h.account_id s.accounts ≡ some a
    → IsTotal h.amount
    → h.status ≡ pending
    → add a.held h.amount ≡ ok x
    → Moves h.account_id x s.holds (s.holds ++ h ∷ [])
create-Moves s h x {a} k e t p f =
    let id = h.account_id in
    let (u, n) = add-IsTotal (k.total id a e) t f in
    record {
      amounts = EachTotal-append s.holds h k.amounts t;
      total = u;
      here =
          let own : part id h ≡ size h.amount = new_part id h p ∙ rw (=?_refl id) refl in
          omega (arith, n, k.kept id a e, held_on-append id s.holds h, own);
      away = λ j y.
          let own : part j h ≡ 0 = new_part j h p ∙ rw y refl in
          omega (arith, held_on-append j s.holds h, own);
    }

-- What a reservation on the locked account comes to.
pub reserve_row :
    (id : Uuid) (currency : Currency) (amount : Amount) (s : Store) {m : Accounts}
    → WellKeyed s.accounts
    → reserve id currency amount (lock_accounts (id ∷ []) s).accounts ≡ ok m
    → (a : AccountState) × (x : Amount) × (lookup id s.accounts ≡ some a)
      × (add a.held amount ≡ ok x)
      × (m ≡ (id, changed_copy a x) ∷ [])
unfolding reserve lookup
reserve_row id currency amount s {m} k h = elim (Option-cases (lookup id s.accounts)) [
  | inl e ↦
      absurd
        (nothing_reserved (subst (λ z. reserve id currency amount z ≡ ok m) (lock_none id s e) h))
  | inr (a, e) ↦
      let (x, f, w) =
        reserve_one id (locked_copy a) currency amount
          (subst (λ z. reserve id currency amount z ≡ ok m) (lock_one id s k e) h) in
      (a, x, e, f, w)
]
  where
    nothing_reserved : reserve id currency amount [] ≡ ok m → ⊥
    nothing_reserved g = err-ne-ok refl g

pub release_row :
    (id : Uuid) (amount : Amount) (s : Store) {m : Accounts}
    → WellKeyed s.accounts
    → release id amount (lock_accounts (id ∷ []) s).accounts ≡ ok m
    → (a : AccountState) × (x : Amount) × (lookup id s.accounts ≡ some a)
      × (release_amount a.held amount ≡ ok x)
      × (m ≡ (id, changed_copy a x) ∷ [])
unfolding release lookup
release_row id amount s {m} k h = elim (Option-cases (lookup id s.accounts)) [
  | inl e ↦ absurd (nothing_released (subst (λ z. release id amount z ≡ ok m) (lock_none id s e) h))
  | inr (a, e) ↦
      let (x, f, w) =
        release_one id (locked_copy a) amount
          (subst (λ z. release id amount z ≡ ok m) (lock_one id s k e) h) in
      (a, x, e, f, w)
]
  where
    nothing_released : release id amount [] ≡ ok m → ⊥
    nothing_released g = err-ne-ok refl g

pub write_row :
    (id : Uuid) (state : LedgerState) (s : Store) {m : Accounts} {a : AccountState} (x : Amount)
    {s' : Store}
    → WellKeyed s.accounts
    → lookup id s.accounts ≡ some a
    → m ≡ (id, changed_copy a x) ∷ []
    → write_accounts (record state { accounts = m }) s ≡ ok s'
    → WritesOne id (changed_copy a x) a s s'
write_row id state s {m} {a} x {s'} k e w h =
    write_one id state s (changed_copy a x) e (WellKeyed-id id s.accounts k e) (dirty_copy a x)
      (subst (λ z. write_accounts (record state { accounts = z }) s ≡ ok s') w h)

pub release_amount-IsTotal :
    (held n : Amount) {x : Amount}
    → IsTotal held
    → IsTotal n
    → release_amount held n ≡ ok x
    → IsTotal x × (size x ≡ size held - size n) × (size n ≤ size held)
unfolding release_amount
release_amount-IsTotal held n {x} s t h =
    >>=-elim (fail_if (ltb_ℤ (pos 0) (cmp n held)) exceeds_held) _ h λ u eu h1.
      let within =
        not_ltb→le (size held) (size n) (sym (cmp_totals t s) ∙ fail_if-eq-ok _ exceeds_held eu) in
      let (w, m) = sub-IsTotal s t within h1 in (w, m, within)

pub void-Moves :
    (s : Store) (h h' : Hold) (x : Amount) {a : AccountState}
    → IsKept s
    → lookup h.account_id s.accounts ≡ some a
    → hold_by_id h'.id s.holds ≡ some h
    → h.status ≡ pending
    → h'.status ≡ voided
    → h'.amount ≡ h.amount
    → release_amount a.held h.amount ≡ ok x
    → Moves h.account_id x s.holds (replace_hold h' s.holds)
void-Moves s h h' x {a} k e f p v q r =
    let id = h.account_id in
    let (t, _) = EachTotal-hold_by_id h'.id s.holds k.amounts f in
    let (u, n, within) = release_amount-IsTotal a.held h.amount (k.total id a e) t r in
    record {
      amounts = EachTotal-replace s.holds h' k.amounts (subst IsTotal (sym q) t);
      total = u;
      here =
          let own : part id h ≡ size h.amount = new_part id h p ∙ rw (=?_refl id) refl in
          let gone : part id h' ≡ 0 = rw v refl in
          omega (arith, n, within, k.kept id a e, held_on-replace id s.holds h h' f, own, gone);
      away = λ j y.
          let own : part j h ≡ 0 = new_part j h p ∙ rw y refl in
          let gone : part j h' ≡ 0 = rw v refl in
          omega (arith, held_on-replace j s.holds h h' f, own, gone);
    }

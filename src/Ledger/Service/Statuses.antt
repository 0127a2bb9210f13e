-- ===== src/Ledger/Service/Statuses.antt =====
-- What the rows of accounts keep through the operations of internal/modules/ledger/service.go: sound
-- totals, and nothing in an account that is closed.
pub mod Restated
use astrum.Prelude.{
  ℕ, ◌+◌, ◌≡◌, refl, sym, ap, ◌∙◌, subst, arith, inl, inr, Bool, true, false, not, ◌&&◌, ◌||◌, ◌==◌,
  Bool-cases, Option, none, some, some_unique, List, [], ◌∷◌,
}
use astrum.Prelude.Int.{pos, sub_ℕ}
use astrum.Result.{ok, ◌>>=◌, >>=-elim, ok_unique, not_found}
use astrum.Money.Amount.{Amount, is_zero}
use astrum.Money.Amount.Value.{value}
use astrum.Money.Amount.Totals.{size}
use astrum.Ledger.Types.{Uuid, Side, debit, credit, other, valid, closed, Balances}
use astrum.Ledger.Requests.{amount_equal}
use astrum.Ledger.Account.{AccountState, balances}
use astrum.Ledger.Account.Sound.{IsSound}
use astrum.Ledger.Account.Views.{ShowsAccount, net}
use astrum.Ledger.State.{or_err}
use astrum.Ledger.State.Entries.{All}
use astrum.Ledger.Service.Accounts.{
  AccountRow, Account, Directory, scan_account, row_by_id, replace_row, query_account,
}
use astrum.Ledger.Service.Accounts.Changes.{status_same, balance_same, is_occupied, write_row}

-- Debits and credits are equal, and nothing is pending or held.
pub record IsEmptied (a : AccountState) : Type 0 where
  pub posted : size a.posted_debits ≡ size a.posted_credits
  pub pending_debits : size a.pending_debits ≡ 0
  pub pending_credits : size a.pending_credits ≡ 0
  pub held : size a.held ≡ 0

pub record IsKept (r : AccountRow) : Type 0 where
  pub sound : IsSound r.state
  pub side : valid r.state.normal_side ≡ true
  pub emptied : status_same r.state.status closed ≡ true → IsEmptied r.state

is_zero-zero : (a : Amount) → is_zero a ≡ true → (value a ≡ pos 0) × (size a ≡ 0)
unfolding is_zero value
is_zero-zero a h = ground arith

amount_equal-same : (a b : Amount) → amount_equal a b ≡ true → size a ≡ size b
unfolding value
amount_equal-same a b h = ground arith

sub_zero : (x y : ℕ) → sub_ℕ x y ≡ pos 0 → x ≡ y
sub_zero x y h = ground arith

net-zero : (s : Side) (x y : ℕ) → net s x y ≡ pos 0 → x ≡ y
net-zero debit x y h = sub_zero x y h
net-zero credit x y h = sym (sub_zero y x h)
net-zero (other t) x y h = sub_zero x y h

-- the three tests of the condition
unoccupied :
    (a b c : Bool) → (not a || not b || not c) ≡ false → (a ≡ true) × ((b ≡ true) × (c ≡ true))
unoccupied true true true h = (refl, (refl, refl))
unoccupied true true false h = absurd (cc)
unoccupied true false c h = absurd (cc)
unoccupied false b c h = absurd (cc)

both : (a b c : Bool) → (a && b && c) ≡ true → (a ≡ true) × (b ≡ true)
both true true c h = (refl, refl)
both true false c h = absurd (cc)
both false b c h = absurd (cc)

is_occupied-IsEmptied :
    (row : AccountRow) (shown : Balances)
    → IsSound row.state
    → ShowsAccount row.state shown
    → is_occupied (record { row = row; shown = shown }) ≡ false
    → IsEmptied row.state
unfolding is_occupied
is_occupied-IsEmptied row shown s v h =
    let (zero_posted, (same, zero_held)) =
      unoccupied (is_zero shown.posted_balance.amount)
        (balance_same shown.pending_balance shown.posted_balance) (is_zero row.state.held) h in
    let (debits, credits) =
      both (amount_equal shown.pending_balance.debits shown.posted_balance.debits)
        (amount_equal shown.pending_balance.credits shown.posted_balance.credits)
        (amount_equal shown.pending_balance.amount shown.posted_balance.amount) same in
    let d = amount_equal-same shown.pending_balance.debits shown.posted_balance.debits debits in
    let c = amount_equal-same shown.pending_balance.credits shown.posted_balance.credits credits in
    let (nothing, _) = is_zero-zero shown.posted_balance.amount zero_posted in
    let (_, unheld) = is_zero-zero row.state.held zero_held in
    record {
      posted =
          net-zero row.state.normal_side (size row.state.posted_debits)
            (size row.state.posted_credits) (sym v.posted.amount ∙ nothing);
      pending_debits =
          none_added (size row.state.posted_debits) _ (sym v.pending.debits ∙ d ∙ v.posted.debits);
      pending_credits =
          none_added (size row.state.posted_credits) _
            (sym v.pending.credits ∙ c ∙ v.posted.credits);
      held = unheld;
    }
  where
    none_added : (x y : ℕ) → x + y ≡ x → y ≡ 0
    none_added x y e = omega arith

abbrev pub AreKept : Directory → Type 0
AreKept d = All IsKept d.rows

replace_row-All :
    (row : AccountRow) (rs : List AccountRow)
    → IsKept row
    → All IsKept rs
    → All IsKept (replace_row row rs)
unfolding replace_row
replace_row-All row [] k h = tt
replace_row-All row (r ∷ rs) k h = elim (Bool-cases (r.state.id == row.state.id)) [
  | inl e ↦ rw e (k, h.1)
  | inr e ↦ rw e (h.0, replace_row-All row rs k h.1)
]

pub row_by_id-All :
    (id : Uuid) (rs : List AccountRow) {q : AccountRow}
    → All IsKept rs
    → row_by_id id rs ≡ some q
    → IsKept q
unfolding row_by_id
row_by_id-All id [] h e = absurd (cc)
row_by_id-All id (r ∷ rs) {q} h e = elim (Bool-cases (r.state.id == id)) [
  | inl f ↦ subst IsKept (some_unique refl (rw f at e)) h.0
  | inr f ↦ row_by_id-All id rs h.1 (rw f at e)
]

-- What `query_account` answers: the row that has the id, and its balances.
pub record Found (id : Uuid) (d : Directory) (a : Account) : Type 0 where
  pub row : row_by_id id d.rows ≡ some a.row
  pub shown : balances a.row.state ≡ ok a.shown

pub scan_account-found :
    (row : AccountRow) {a : Account}
    → scan_account row ≡ ok a
    → (a.row ≡ row) × (balances row.state ≡ ok a.shown)
unfolding scan_account
scan_account-found row {a} h = >>=-elim (balances row.state) _ h λ shown e f.
    subst (λ (x : Account). (x.row ≡ row) × (balances row.state ≡ ok x.shown)) (ok_unique refl f)
      (refl, e)

pub query_account-Found :
    (id : Uuid) (d : Directory) {a : Account} → query_account id d.rows ≡ ok a → Found id d a
unfolding query_account
query_account-Found id d {a} h = go (row_by_id id d.rows) refl h
  where
    go :
        (o : Option AccountRow)
        → row_by_id id d.rows ≡ o
        → (or_err o not_found >>= scan_account) ≡ ok a
        → Found id d a
    go none e f = absurd (cc)
    go (some row) e f =
        let (same, shown) = scan_account-found row f in
        record {
          row = rw same e;
          shown = subst (λ (r : AccountRow). balances r.state ≡ ok a.shown) (sym same) shown;
        }

pub write_row-rows :
    (row : AccountRow) (d : Directory) {r : Directory × Account}
    → write_row row d ≡ ok r
    → r.0.rows ≡ replace_row row d.rows
unfolding write_row
write_row-rows row d {r} h =
    >>=-elim (scan_account row) _ h
      λ a e f. ap (λ (x : Directory × Account). x.0.rows) (sym (ok_unique refl f))

pub write_row-AreKept :
    (row : AccountRow) (d : Directory) {r : Directory × Account}
    → IsKept row
    → AreKept d
    → write_row row d ≡ ok r
    → AreKept r.0
write_row-AreKept row d k h e =
    subst (All IsKept) (sym (write_row-rows row d e)) (replace_row-All row d.rows k h)

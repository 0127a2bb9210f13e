-- ===== src/Ledger/Service/Created.antt =====
-- What the creations of internal/modules/ledger/service.go keep of the directory.
use astrum.Prelude.{
  is_some, ◌≡◌, refl, sym, ap, subst, arith, inl, inr, Bool, true, false, not, ◌||◌, ◌==◌, ltb,
  length, ==_iff, Bool-cases, Option, none, some, ◌∷◌,
}
use astrum.Prelude.Int.{ℤ, pos, negsuc, eqb_ℤ, ltb_ℤ, neg_part}
use astrum.Prelude.Eq.{Text, text_eq}
use astrum.Result.{
  Result, ok, >>=-elim, passed, fail_if-eq-ok, ok_unique, invalid, internal, unknown_currency,
  unknown_ledger, account_exists, currency_exists,
}
use astrum.Prelude.Map.{lookup}
use astrum.Money.Amount.{sign}
use astrum.Money.Amount.Value.{value, IsValid, IsValid-Fits, sign-value, compare_ℤ}
use astrum.Money.Amount.Totals.{IsTotal, zero_amount-IsTotal}
use astrum.Ledger.Types.{Uuid, Time, Currency, valid, nil_id}
use astrum.Ledger.Store.{is_among}
use astrum.Ledger.State.Entries.{All}
use astrum.Ledger.Validate.{
  CreateCurrencyInput, CreateAccountInput, validate_currency, validate_account, validate_details,
  bad_code,
}
use astrum.Ledger.Validate.Strings.{is_blank, storable_text}
use astrum.Ledger.Service.Accounts.{
  AccountRow, Account, Directory, scan_account, row_by_id, create_currency, currency_existing,
  create_account, insert_account, create_again, create_by, row_by_code, new_row, same_terms,
}
use astrum.Ledger.Service.Statuses.{IsKept}
use astrum.Ledger.Service.Closed.{HasClosed, Writes, unchanged}

not_negative : (z : ℤ) → ltb_ℤ (compare_ℤ z (pos 0)) (pos 0) ≡ false → neg_part z ≡ 0
not_negative (pos n) h = refl
not_negative (negsuc n) h = ground arith

double_not : (b : Bool) → not b ≡ false → b ≡ true
double_not true h = refl
double_not false h = cc

-- What the checks of a new account give: a side, and an overdraft limit that is a total.
validated :
    (reads_object : Text → Bool) (raw : Text) (i : CreateAccountInput)
    → IsValid i.overdraft_limit
    → validate_account reads_object raw i ≡ ok tt
    → (valid i.normal_side ≡ true) × IsTotal i.overdraft_limit
unfolding validate_account
validated reads_object raw i v h =
    >>=-elim (validate_details reads_object i.name i.description raw false) _ h λ u e1 h1.
      let (e2, h2) = passed (i.ledger_id == nil_id) invalid h1 in
      let (e3, h3) = passed (is_blank i.code || ltb 128 (length i.code)) invalid h2 in
      let (e4, h4) = passed (not (storable_text i.code)) invalid h3 in
      let (e5, h5) = passed (bad_code i.currency) invalid h4 in
      let (e6, h6) = passed (not (valid i.normal_side)) invalid h5 in
      let limit : ltb_ℤ (sign i.overdraft_limit) (pos 0) ≡ false = fail_if-eq-ok _ _ h6 in
      (
        double_not (valid i.normal_side) e6,
        record {
          fits = IsValid-Fits v;
          nonneg =
              not_negative (value i.overdraft_limit)
                (rw (sign-value i.overdraft_limit (IsValid-Fits v)) at limit);
          upper = v.upper;
        },
      )

new_row-IsKept :
    (id : Uuid) (now : Time) (i : CreateAccountInput)
    → valid i.normal_side ≡ true
    → IsTotal i.overdraft_limit
    → IsKept (new_row id now i)
new_row-IsKept id now i s t = record {
  sound = record {
    posted_debits = zero_amount-IsTotal;
    posted_credits = zero_amount-IsTotal;
    pending_debits = zero_amount-IsTotal;
    pending_credits = zero_amount-IsTotal;
    held = zero_amount-IsTotal;
    overdraft_limit = t;
  };
  side = s;
  emptied = λ c. absurd (cc);
}

insert_account-Writes :
    (id : Uuid) (now : Time) (i : CreateAccountInput) (d : Directory) {r : Directory × Account}
    → IsKept (new_row id now i)
    → insert_account id now i d ≡ ok r
    → Writes d r.0
unfolding insert_account row_by_id
insert_account-Writes id now i d {r} k h =
    let (unused, h1) = passed (is_some (row_by_id id d.rows)) internal h in
    let (e2, h2) = passed (not (is_some (lookup i.currency d.currencies))) unknown_currency h1 in
    let (e3, h3) = passed (not (is_among i.ledger_id d.ledgers)) unknown_ledger h2 in
    >>=-elim (scan_account (new_row id now i)) _ h3 λ a e4 h4.
      let rows : new_row id now i ∷ d.rows ≡ r.0.rows =
        ap (λ (x : Directory × Account). x.0.rows) (ok_unique refl h4) in
      record {
        kept = λ kept. subst (All IsKept) rows (k, kept);
        closed_stays = λ j c. record {
          row = c.row;
          stored =
              subst (λ rs. row_by_id j rs ≡ some c.row) rows
                (elim (Bool-cases (id == j)) [
                  | inl e ↦ absurd (taken j c ((==_iff id j).0 e) unused)
                  | inr e ↦ rw e c.stored
                ]);
          is_closed = c.is_closed;
        };
      }
  where
    taken : (j : Uuid) (c : HasClosed j d) → id ≡ j → is_some (row_by_id id d.rows) ≡ false → ⊥
    taken j c same unused =
        let stored : row_by_id id d.rows ≡ some c.row =
          subst (λ x. row_by_id x d.rows ≡ some c.row) (sym same) c.stored in
        let impossible : true ≡ false = rw stored at unused in absurd (cc)

create_again-Writes :
    (i : CreateAccountInput) (row : AccountRow) (d : Directory) {r : Directory × Account}
    → create_again i row d ≡ ok r
    → Writes d r.0
unfolding create_again
create_again-Writes i row d h = >>=-elim (scan_account row) _ h λ a e h1.
    let (same, h2) = passed (not (same_terms row.state i)) account_exists h1 in
    unchanged (ap (λ (x : Directory × Account). x.0.rows) (ok_unique refl h2))

pub create_account-Writes :
    (reads_object : Text → Bool) (raw : Text) (new_id : Result Uuid) (now : Time)
    (i : CreateAccountInput) (d : Directory) {r : Directory × Account}
    → IsValid i.overdraft_limit
    → create_account reads_object raw new_id now i d ≡ ok r
    → Writes d r.0
unfolding create_account
create_account-Writes reads_object raw new_id now i d {r} v h =
    >>=-elim (validate_account reads_object raw i) _ h λ u e1 h1. >>=-elim new_id _ h1 λ id e2 h2.
      let (side, limit) = validated reads_object raw i v e1 in
      by_code id (new_row-IsKept id now i side limit) (row_by_code i.ledger_id i.code d.rows) h2
  where
    by_code :
        (id : Uuid)
        → IsKept (new_row id now i)
        → (o : Option AccountRow) → create_by id now i d o ≡ ok r
        → Writes d r.0
    by_code id k none h2 = insert_account-Writes id now i d k h2
    by_code id k (some row) h2 = create_again-Writes i row d h2

pub create_currency-Writes :
    (i : CreateCurrencyInput) (d : Directory) {r : Directory × (Currency × ℤ)}
    → create_currency i d ≡ ok r
    → Writes d r.0
unfolding create_currency
create_currency-Writes i d {r} h =
    >>=-elim (validate_currency i) _ h λ u e h1. by_code (lookup i.code d.currencies) h1
  where
    by_code : (o : Option ℤ) → currency_existing i o d ≡ ok r → Writes d r.0
    by_code none h1 =
        unchanged (ap (λ (x : Directory × (Currency × ℤ)). x.0.rows) (ok_unique refl h1))
    by_code (some n) h1 =
        let (same, h2) = passed (not (eqb_ℤ n i.exponent)) currency_exists h1 in
        unchanged (ap (λ (x : Directory × (Currency × ℤ)). x.0.rows) (ok_unique refl h2))

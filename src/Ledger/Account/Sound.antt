-- ===== src/Ledger/Account/Sound.antt =====
-- The balances of an account by the integers that its totals stand for.
use astrum.Prelude.{
  ℕ, ◌+◌, ◌<◌, ◌≡◌, refl, ◌⊎◌, inl, inr, true, false, List, [], ◌∷◌, if◌then◌else◌, arith, subst,
}
use astrum.Prelude.Int.{ℤ, sub_ℕ}
use astrum.Result.{Result, ok, err, overflow, ◌>>=◌, ok_unique, err-ne-ok}
use astrum.Money.Amount.{Amount, zero_amount, add, sub}
use astrum.Money.Amount.Value.{value, max_value, IsValid}
use astrum.Money.Amount.Totals.{
  size, IsTotal, zero_amount-IsTotal, zero_amount-size, HasSize, HasSize-bind, add-HasSize,
  sub-Differs,
}
use astrum.Ledger.Types.{is_credit}
use astrum.Ledger.Account.{AccountState, sum_from, sum_amounts, available, available_parts}

-- Every total of the account, its held funds and its overdraft limit are totals.
pub record IsSound (a : AccountState) : Type 0 where
  pub posted_debits : IsTotal a.posted_debits
  pub posted_credits : IsTotal a.posted_credits
  pub pending_debits : IsTotal a.pending_debits
  pub pending_credits : IsTotal a.pending_credits
  pub held : IsTotal a.held
  pub overdraft_limit : IsTotal a.overdraft_limit

-- What has come in for the account's normal side, and what has gone out or may go out.
abbrev pub inflow : AccountState → ℕ
inflow a = if is_credit a.normal_side then size a.posted_credits else size a.posted_debits

abbrev pub outflow : AccountState → ℕ
outflow a =
    if is_credit a.normal_side
    then size a.posted_debits + size a.pending_debits + size a.held
    else size a.posted_credits + size a.pending_credits + size a.held

unfoldable pub available_value : AccountState → ℤ
available_value a = sub_ℕ (inflow a) (outflow a)

abbrev AllTotals : List Amount → Type 0
AllTotals [] = Unit
AllTotals (a ∷ as') = IsTotal a × AllTotals as'

abbrev sizes : List Amount → ℕ
sizes [] = 0
sizes (a ∷ as') = size a + sizes as'

sum_from-HasSize :
    (t : Amount) (as' : List Amount)
    → IsTotal t
    → AllTotals as'
    → HasSize (size t + sizes as') (sum_from t as')
unfolding sum_from
sum_from-HasSize t [] s h = (s, omega arith)
sum_from-HasSize t (a ∷ as') s h =
    subst (λ n. HasSize n (sum_from t (a ∷ as'))) (omega arith)
      (HasSize-bind (add t a) (λ c. sum_from c as') (size t + size a) (sizes as')
        (add-HasSize s h.0)
        (λ c u e.
          subst (λ n. HasSize (n + sizes as') (sum_from c as')) e (sum_from-HasSize c as' u h.1)))

sum_three :
    {x y z : Amount}
    → IsTotal x
    → IsTotal y
    → IsTotal z
    → HasSize (size x + size y + size z) (sum_amounts (x ∷ y ∷ z ∷ []))
unfolding sum_amounts
sum_three {x} {y} {z} s t u =
    subst (λ n. HasSize n (sum_from zero_amount (x ∷ y ∷ z ∷ [])))
      {x = size zero_amount + sizes (x ∷ y ∷ z ∷ [])} (omega (arith, zero_amount-size))
      (sum_from-HasSize zero_amount (x ∷ y ∷ z ∷ []) zero_amount-IsTotal (s, (t, (u, tt))))

-- What the test of `available` on the normal side chooses.
available_sides :
    (a : AccountState)
    → ((is_credit a.normal_side ≡ true)
        × (available_parts a ≡ (a.posted_credits, a.posted_debits, a.pending_debits)))
      ⊎ ((is_credit a.normal_side ≡ false)
          × (available_parts a ≡ (a.posted_debits, a.posted_credits, a.pending_credits)))
unfolding available_parts
available_sides a = ground arith

module _ {a : AccountState} (s : IsSound a) where
  inflow-IsTotal : IsTotal (available_parts a).0 × (size (available_parts a).0 ≡ inflow a)
  inflow-IsTotal = elim (available_sides a) [
    | inl (b, e) ↦ rw (e, b) (s.posted_credits, refl)
    | inr (b, e) ↦ rw (e, b) (s.posted_debits, refl)
  ]

  -- The sum that goes out, by its size.
  outflow-HasSize :
      HasSize
        (outflow a)
        (sum_amounts ((available_parts a).1 ∷ (available_parts a).2 ∷ a.held ∷ []))
  outflow-HasSize = elim (available_sides a) [
    | inl (b, e) ↦ rw (e, b) (sum_three s.posted_debits s.pending_debits s.held)
    | inr (b, e) ↦ rw (e, b) (sum_three s.posted_credits s.pending_credits s.held)
  ]

  -- `available` answers the inflow less the outflow, or an overflow where the outflow alone has more
  -- than 38 digits.
  pub available_lem :
      (available a ≡ err overflow) × (max_value < outflow a)
      ⊎ ((x : Amount) × (available a ≡ ok x) × IsValid x × (value x ≡ available_value a))
  unfolding available available_value
  available_lem =
      out (sum_amounts ((available_parts a).1 ∷ (available_parts a).2 ∷ a.held ∷ []))
        outflow-HasSize
    where
      out :
          (r : Result Amount)
          → HasSize (outflow a) r
          → ((r >>= λ o. sub (available_parts a).0 o) ≡ err overflow) × (max_value < outflow a)
            ⊎ ((x : Amount) × ((r >>= λ o. sub (available_parts a).0 o) ≡ ok x)
                × IsValid x
                × (value x ≡ available_value a))
      out (err e) h = inl (rw h.0 refl, h.1)
      out (ok o) h =
          let (x, e, v, n) = sub-Differs inflow-IsTotal.0 h.0 in
          inr (x, e, v, rw (inflow-IsTotal.1, h.1) at n)

  pub available-eq-ok :
      {x : Amount} → available a ≡ ok x → IsValid x × (value x ≡ available_value a)
  available-eq-ok {x} e = elim available_lem [
    | inl (f, _) ↦ err-ne-ok f e
    | inr (y, f, v, n) ↦ (
      subst IsValid (ok_unique f e) v,
      subst (λ z. value z ≡ available_value a) (ok_unique f e) n,
    )
  ]

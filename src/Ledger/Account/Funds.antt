-- ===== src/Ledger/Account/Funds.antt =====
-- What `checkFunds` promises: a change that it lets through leaves the account covered, or no worse.
use astrum.Prelude.{
  ◌≡◌, refl, ◌⊎◌, inl, inr, Bool, true, false, ◌||◌, if◌then◌else◌, arith, ◌∙◌, sym,
}
use mathlib.Core.Path.{ap₂}
use astrum.Prelude.Int.{ℤ, pos, ◌+ℤ◌, ◌≤ℤ◌, leb_ℤ, ltb_ℤ}
use astrum.Result.{
  Error, Result, ok, err, ◌>>=◌, >>=-elim, fail_if, fail_if-eq-ok, insufficient_funds,
}
use astrum.Money.Amount.{Amount, add, sign}
use astrum.Money.Amount.Value.{value, Fits, IsValid-Fits, cmp-value, sign-value, compare_ℤ}
use astrum.Money.Amount.Sum.{add-eq-ok}
use astrum.Money.Amount.Totals.{size, IsTotal-value}
use astrum.Ledger.Account.{AccountState, available, check_funds}
use astrum.Ledger.Account.Sound.{IsSound, available_value, available-eq-ok}

-- May go below zero, has no less available than before, or is within its overdraft.
abbrev pub Covered : AccountState → AccountState → Type 0
Covered a before =
    (a.allow_negative ≡ true)
    ⊎ (available_value before ≤ℤ available_value a)
    ⊎ (pos 0 ≤ℤ available_value a +ℤ pos (size a.overdraft_limit))

leb_cmp : (x y : ℤ) → leb_ℤ (pos 0) (compare_ℤ x y) ≡ leb_ℤ y x
leb_cmp x y = ground arith

ltb_sign : (x : ℤ) → ltb_ℤ (compare_ℤ x (pos 0)) (pos 0) ≡ ltb_ℤ x (pos 0)
ltb_sign x = ground arith

leb→≤ℤ : (x y : ℤ) → leb_ℤ x y ≡ true → x ≤ℤ y
leb→≤ℤ x y h = ground arith

nonneg_of-sign :
    (f : Amount) (z : ℤ) → Fits f → value f ≡ z → ltb_ℤ (sign f) (pos 0) ≡ false → pos 0 ≤ℤ z
nonneg_of-sign f z u e h = not_ltb z (sym (ltb_sign z) ∙ rw (← e, ← sign-value f u) h)
  where
    not_ltb : (y : ℤ) → ltb_ℤ y (pos 0) ≡ false → pos 0 ≤ℤ y
    not_ltb y k = ground arith

-- The ways through the end of `check_funds`.
ways :
    (allow le : Bool) (m : Result Amount)
    → (if allow || le
        then ok tt
        else (m >>= λ floor. fail_if (ltb_ℤ (sign floor) (pos 0)) insufficient_funds))
      ≡ ok tt
    → (allow ≡ true) ⊎ (le ≡ true) ⊎ ((f : Amount) × (m ≡ ok f) × (ltb_ℤ (sign f) (pos 0) ≡ false))
ways true le m h = inl refl
ways false true m h = inr (inl refl)
ways false false (ok f) h =
    inr (inr (f, refl, fail_if-eq-ok (ltb_ℤ (sign f) (pos 0)) insufficient_funds h))
ways false false (err e) h = cc

module _ {a before : AccountState} (s : IsSound a) (t : IsSound before) where
  -- Where both available balances are known, what is left of `check_funds`.
  last_part :
      (after prior : Amount)
      → available a ≡ ok after
      → available before ≡ ok prior
      → check_funds a before ≡ (
          if a.allow_negative || leb_ℤ (available_value before) (available_value a)
          then ok tt
          else (add after a.overdraft_limit >>= λ floor.
              fail_if (ltb_ℤ (sign floor) (pos 0)) insufficient_funds))
  unfolding check_funds
  last_part after prior e f =
      let (v, x) = available-eq-ok s e in
      let (w, y) = available-eq-ok t f in
      rw (e, f, cmp-value after prior (IsValid-Fits v) (IsValid-Fits w), x, y, leb_cmp)

  known :
      check_funds a before ≡ ok tt
      → (after : Amount) × (prior : Amount) × (available a ≡ ok after)
        × (available before ≡ ok prior)
  unfolding check_funds
  known h =
      >>=-elim (available a) _ h
        λ after e h'. >>=-elim (available before) _ h' λ prior f rest. (after, prior, e, f)

  -- A change that `checkFunds` accepts is covered.
  pub check_funds-Covered : check_funds a before ≡ ok tt → Covered a before
  check_funds-Covered h =
      let (after, prior, e, f) = known h in
      let (v, x) = available-eq-ok s e in
      elim (ways a.allow_negative (leb_ℤ (available_value before) (available_value a))
        (add after a.overdraft_limit) (sym (last_part after prior e f) ∙ h)) [
          | inl allowed ↦ inl allowed
          | inr (inl no_worse) ↦
              inr (inl (leb→≤ℤ (available_value before) (available_value a) no_worse))
          | inr (inr (floor, sum, no_debt)) ↦
              let (u, n) =
                add-eq-ok after a.overdraft_limit (IsValid-Fits v) s.overdraft_limit.fits sum in
              inr (
                inr (
                  nonneg_of-sign floor _ u (n ∙ ap₂ ◌+ℤ◌ x (IsTotal-value s.overdraft_limit))
                    no_debt))
        ]

  -- One that is not covered is refused, whatever the amounts: with insufficient funds, unless a sum
  -- overflows first.
  pub check_funds_uncovered : ¬ (Covered a before) → (e : Error) × (check_funds a before ≡ err e)
  check_funds_uncovered bad = refused (check_funds a before) refl
    where
      refused :
          (r : Result (Unit {0}))
          → check_funds a before ≡ r
          → (e : Error) × (check_funds a before ≡ err e)
      refused (ok u) h = absurd (bad (check_funds-Covered h))
      refused (err e) h = (e, h)

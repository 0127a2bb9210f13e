-- ===== src/Money/Amount/Sum.antt =====
-- `Add` and `Sub` against integer addition and subtraction.
use astrum.Prelude.{
  ◌+◌, ◌%◌, ◌/◌, ◌^◌, ◌≤◌, ◌<◌, ◌≡◌, ◌≢◌, ◌⊎◌, refl, Bool, true, false, ◌&&◌, ◌||◌, not,
  if◌then◌else◌, arith, inl, inr, ◌∙◌, ap, subst,
}
use astrum.Prelude.Int.{
  ℤ, pos, negsuc, pos_part, neg_part, ◌+ℤ◌, ◌-ℤ◌, ◌≤ℤ◌, int_laws, ltb_ℤ, eqb_ℤ,
}
use astrum.Result.{Result, ok, err, overflow}
use astrum.Money.Words.{word}
use astrum.Money.Amount.{Amount, max_amount, neg, abs, checked, add, sub}
use astrum.Money.Amount.Value.{
  value, max_value, Fits, IsValid, compare_ℤ, max_amount-value, max_amount-IsValid, IsValid-Fits,
  sign-value, cmp-value, abs-value, abs_min, abs-Fits, value_bounds, neg-value, neg-Fits,
}

-- What `Add` computes before its check.
abbrev raw_sum : Amount → Amount → Amount
raw_sum a b = record {
  hi = (a.hi + b.hi + (a.lo + b.lo + 0) / word) % word;
  lo = (a.lo + b.lo + 0) % word;
}

raw_sum-Fits : (a b : Amount) → Fits (raw_sum a b)
raw_sum-Fits a b = omega arith

raw_sum-above :
    (a b : Amount)
    → Fits a
    → Fits b
    → pos (2 ^ 127) ≤ℤ value a +ℤ value b
    → value (raw_sum a b) ≡ value a +ℤ value b -ℤ pos (2 ^ 128)
unfolding value ◌+ℤ◌ ◌-ℤ◌
raw_sum-above a b v w h = ground arith

raw_sum-below :
    (a b : Amount)
    → Fits a
    → Fits b
    → value a +ℤ value b +ℤ pos (2 ^ 127 + 1) ≤ℤ pos 0
    → value (raw_sum a b) ≡ value a +ℤ value b +ℤ pos (2 ^ 128)
unfolding value ◌+ℤ◌ ◌-ℤ◌
raw_sum-below a b v w h = ground arith

raw_sum-exact :
    (a b : Amount)
    → Fits a
    → Fits b
    → pos_part (value a +ℤ value b) < 2 ^ 127
    → neg_part (value a +ℤ value b) ≤ 2 ^ 127
    → value (raw_sum a b) ≡ value a +ℤ value b
unfolding value ◌+ℤ◌ ◌-ℤ◌
raw_sum-exact a b v w h k = ground arith

-- The test of `checked`, on the integers that its arguments stand for.
abbrev wraps : ℤ → ℤ → ℤ → Bool
wraps x y z =
    eqb_ℤ (compare_ℤ x (pos 0)) (compare_ℤ y (pos 0))
    && not (eqb_ℤ (compare_ℤ x (pos 0)) (pos 0))
    && not (eqb_ℤ (compare_ℤ z (pos 0)) (compare_ℤ x (pos 0)))

abbrev rejects : ℤ → ℤ → ℤ → ℤ → Bool
rejects x y z z' = wraps x y z || ltb_ℤ (pos 0) (compare_ℤ z' (pos max_value))

checked-rejects :
    (a b s : Amount)
    → Fits a
    → Fits b
    → Fits s
    → checked a b s
      ≡ (if rejects (value a) (value b) (value s) (value (abs s)) then err overflow else ok s)
unfolding checked
checked-rejects a b s v w u = rw (
  sign-value a v,
  sign-value b w,
  sign-value s u,
  cmp-value (abs s) max_amount (abs-Fits s u) (IsValid-Fits max_amount-IsValid),
  max_amount-value,
)

-- What `Add` answers where the integers' sum is `t`. The sum -2^127, of 39 digits, gets through: its
-- absolute value wraps to itself.
abbrev pub Sums : ℤ → Result Amount → Type 0
Sums t (ok c) =
    Fits c
    × (value c ≡ t)
    × (pos_part t ≤ max_value)
    × ((neg_part t ≤ max_value) ⊎ (neg_part t ≡ 2 ^ 127))
Sums t (err e) = (e ≡ overflow) × (max_value < pos_part t + neg_part t) × (neg_part t ≢ 2 ^ 127)

-- The cases: what the sum of the integers is, and what the machine's sum stands for.
module _ (a b : Amount) (v : Fits a) (w : Fits b) where
  sum_cases :
      let s = value a +ℤ value b in
      let r = value (raw_sum a b) in
      ((pos_part s < 2 ^ 127) × (neg_part s ≤ 2 ^ 127) × (r ≡ s))
      ⊎ ((2 ^ 127 ≤ pos_part s) × (r ≡ s -ℤ pos (2 ^ 128)))
      ⊎ ((2 ^ 127 < neg_part s) × (r ≡ s +ℤ pos (2 ^ 128)))
  sum_cases = grind (int_laws, raw_sum-above a b v w, raw_sum-below a b v w, raw_sum-exact a b v w)

  add-checked : add a b ≡ checked a b (raw_sum a b)
  unfolding add
  add-checked = refl

-- A sum that wraps shows in its sign.
rejects_wrapped :
    (x y z z' : ℤ)
    → pos_part x < 2 ^ 127
    → neg_part x ≤ 2 ^ 127
    → pos_part y < 2 ^ 127
    → neg_part y ≤ 2 ^ 127
    → ((2 ^ 127 ≤ pos_part (x +ℤ y)) × (z ≡ x +ℤ y -ℤ pos (2 ^ 128)))
      ⊎ ((2 ^ 127 < neg_part (x +ℤ y)) × (z ≡ x +ℤ y +ℤ pos (2 ^ 128)))
    → rejects x y z z' ≡ true
rejects_wrapped x y z z' hx lx hy ly h = grind int_laws

-- One that does not keeps the sign of its terms.
wraps_exact : (x y : ℤ) → wraps x y (x +ℤ y) ≡ false
unfolding ◌+ℤ◌
wraps_exact x y = ground arith

gt_max : (z : ℤ) → ltb_ℤ (pos 0) (compare_ℤ z (pos max_value)) ≡ ltb_ℤ (pos max_value) z
gt_max z = ground arith

-- The size test, on an exact sum and its absolute value.
Sums-exact :
    (t z' : ℤ) (s : Amount)
    → Fits s
    → value s ≡ t
    → neg_part t ≤ 2 ^ 127
    → (neg_part t < 2 ^ 127 → z' ≡ pos (pos_part t + neg_part t))
    → (t ≡ pos 0 -ℤ pos (2 ^ 127) → z' ≡ t)
    → Sums t (if ltb_ℤ (pos max_value) z' then err overflow else ok s)
unfolding ◌-ℤ◌
Sums-exact t z' s u e l small least = ground arith

Sums-wrapped : (t : ℤ) → (2 ^ 127 ≤ pos_part t) ⊎ (2 ^ 127 < neg_part t) → Sums t (err overflow)
Sums-wrapped (pos n) h = ground arith
Sums-wrapped (negsuc n) h = ground arith

module _ (a b : Amount) (v : Fits a) (w : Fits b) where
  add-rejects : add a b ≡ (
      if rejects (value a) (value b) (value (raw_sum a b)) (value (abs (raw_sum a b)))
      then err overflow
      else ok (raw_sum a b))
  add-rejects = add-checked a b v w ∙ checked-rejects a b (raw_sum a b) v w (raw_sum-Fits a b)

  add_wrapped :
      ((2 ^ 127 ≤ pos_part (value a +ℤ value b))
          × (value (raw_sum a b) ≡ value a +ℤ value b -ℤ pos (2 ^ 128)))
        ⊎ ((2 ^ 127 < neg_part (value a +ℤ value b))
            × (value (raw_sum a b) ≡ value a +ℤ value b +ℤ pos (2 ^ 128)))
      → add a b ≡ err overflow
  add_wrapped h = rw (
    add-rejects,
    rejects_wrapped (value a) (value b) (value (raw_sum a b)) (value (abs (raw_sum a b)))
        (value_bounds a v).0 (value_bounds a v).1 (value_bounds b w).0 (value_bounds b w).1 h,
  )

  add_exact :
      value (raw_sum a b) ≡ value a +ℤ value b
      → add a b ≡ (
          if ltb_ℤ (pos max_value) (value (abs (raw_sum a b)))
          then err overflow
          else ok (raw_sum a b))
  add_exact e = rw (add-rejects, e, wraps_exact, gt_max)

  -- `Add` is the integers' addition, and fails exactly where the sum has more than 38 digits, but for
  -- the sum -2^127, which it lets through.
  pub add-Sums : Sums (value a +ℤ value b) (add a b)
  add-Sums = elim (sum_cases a b v w) [
    | inl (h, k, e) ↦ rw (add_exact e) (
        Sums-exact (value a +ℤ value b) (value (abs (raw_sum a b))) (raw_sum a b) (raw_sum-Fits a b)
          e k (λ small. rw (← e) (abs-value (raw_sum a b) (raw_sum-Fits a b) (rw e small)))
          (λ least. ap value (abs_min (raw_sum a b) (raw_sum-Fits a b) (e ∙ least)) ∙ e))
    | inr (inl (h, e)) ↦ rw (add_wrapped (inl (h, e))) (Sums-wrapped (value a +ℤ value b) (inl h))
    | inr (inr (h, e)) ↦ rw (add_wrapped (inr (h, e))) (Sums-wrapped (value a +ℤ value b) (inr h))
  ]

-- `Sub` is the integers' subtraction in the same way, unless it subtracts -2^127, whose negation
-- wraps.
pub sub-Sums :
    (a b : Amount)
    → Fits a
    → Fits b
    → neg_part (value b) < 2 ^ 127
    → Sums (value a -ℤ value b) (sub a b)
unfolding sub
sub-Sums a b v w h =
    let e : value a +ℤ value (neg b) ≡ value a -ℤ value b = rw (neg-value b w h) (omega int_laws) in
    subst (λ t. Sums t (add a (neg b))) e (add-Sums a (neg b) v (neg-Fits b w))

Sums-eq-ok : (t : ℤ) (r : Result Amount) {c : Amount} → r ≡ ok c → Sums t r → Fits c × (value c ≡ t)
Sums-eq-ok t (ok c) e h = ground arith
Sums-eq-ok t (err x) e h = cc

pub add-eq-ok :
    (a b : Amount) {c : Amount}
    → Fits a
    → Fits b
    → add a b ≡ ok c
    → Fits c × (value c ≡ value a +ℤ value b)
add-eq-ok a b v w e = Sums-eq-ok (value a +ℤ value b) (add a b) e (add-Sums a b v w)

-- Two amounts of at most 38 digits whose sum is -2^127 are added with no error, and the result is
-- outside the range of the type's own limit.
pub add_least :
    (a b : Amount)
    → IsValid a
    → IsValid b
    → value a +ℤ value b ≡ pos 0 -ℤ pos (2 ^ 127)
    → (c : Amount) × (add a b ≡ ok c) × ¬ (IsValid c)
add_least a b v w h = least (add a b) refl (add-Sums a b (IsValid-Fits v) (IsValid-Fits w))
  where
    least :
        (r : Result Amount)
        → add a b ≡ r
        → Sums (value a +ℤ value b) r
        → (c : Amount) × (add a b ≡ ok c) × ¬ (IsValid c)
    least (ok c) e s = (
      c,
      e,
      λ u. let l = subst (λ t. neg_part t ≤ max_value) (s.1 ∙ h) u.lower in omega (int_laws, l),
    )
    least (err x) e s = absurd (s.2 (rw h (unfold ◌-ℤ◌ in refl)))

-- ===== src/Money/Amount/Text.antt =====
-- The text of an amount: `ParseAmount` and `String` of internal/money/amount.go.
use astrum.Prelude.{
  ℕ, ◌+◌, ◌-◌, ◌*◌, ◌/◌, ◌%◌, ◌^◌, ◌≤◌, ◌<◌, ◌≡◌, refl, sym, ap, subst, ◌∙◌, Bool, true, false, not,
  ◌&&◌, ◌||◌, ltb, ◌==◌, [], ◌∷◌, if◌then◌else◌, arith, length, take, drop, Bool-cases, inl, inr,
}
use astrum.Prelude.Int.{ℤ, pos, neg_part, ◌-ℤ◌}
use astrum.Prelude.Eq.{Text}
use astrum.Result.{Result, ok, err, invalid_amount, ok_unique}
use astrum.Money.Words.{word, add64, mul64}
use astrum.Money.Digits.{
  starts_with_zero, all_digits, digits_value, parse_uint, parse_uint_lem, digits_value-split,
  digits_value_acc, length-drop, length-take, all_digits-take, all_digits-drop, pow10, pow10_19,
}
use astrum.Money.Amount.{Amount, pow19, neg}
use astrum.Money.Amount.Value.{value, IsValid, IsValid-Fits, neg-IsValid, neg-value}

abbrev pub max_digits : ℕ
max_digits = 38

-- the sign, and what follows it
abbrev pub signed_digits : Text → Bool × Text
signed_digits [] = (false, [])
signed_digits (c ∷ s) = if c == 45 then (true, s) else (false, c ∷ s)

-- the first test of `ParseAmount`
unfoldable pub is_malformed : Bool → Text → Bool
is_malformed negative digits =
    length digits == 0
    || ltb max_digits (length digits)
    || (starts_with_zero digits && (ltb 1 (length digits) || negative))

-- the words of the digits: the last 19, and those before
unfoldable pub assemble : Text → Amount
assemble digits =
    let split = length digits - 19 in
    let high = if ltb 0 split then parse_uint (take split digits) else 0 in
    let low = parse_uint (drop split digits) in
    let (hi, lo) = mul64 high pow19 in
    let (lo', carry) = add64 lo low 0 in record { hi = (hi + carry) % word; lo = lo' }

unfoldable pub parse_digits : Bool → Text → Result Amount
parse_digits negative digits =
    if is_malformed negative digits
    then err invalid_amount
    else if not (all_digits digits)
    then err invalid_amount
    else ok (if negative then neg (assemble digits) else assemble digits)

unfoldable pub parse_amount : Text → Result Amount
parse_amount s = let (negative, digits) = signed_digits s in parse_digits negative digits

-- the words of two halves
words_value :
    (high low : ℕ)
    → high < 10 ^ 19
    → low < 10 ^ 19
    → let a : Amount = record {
      hi = (high * 10 ^ 19 / word + (high * 10 ^ 19 % word + low + 0) / word) % word;
      lo = (high * 10 ^ 19 % word + low + 0) % word;
    } in
      IsValid a × (value a ≡ pos (high * 10 ^ 19 + low))
unfolding value
words_value high low h l = ground arith

-- the digits as two numbers of at most 19 digits
record Halves (s : Text) (high low : ℕ) : Type 0 where
  high_lt : high < 10 ^ 19
  low_lt : low < 10 ^ 19
  joins : digits_value 0 s ≡ high * 10 ^ 19 + low

halves :
    (s : Text)
    → all_digits s ≡ true
    → length s ≤ max_digits
    → Halves s
        (if ltb 0 (length s - 19) then parse_uint (take (length s - 19) s) else 0)
        (parse_uint (drop (length s - 19) s))
unfolding pow10
halves s a l =
    let k = length s - 19 in
    let after : length (drop k s) ≤ 19 = omega (arith, length-drop k s) in
    let before : length (take k s) ≤ 19 = omega (arith, length-take k s, l) in
    let (low, low_lt) = parse_uint_lem (drop k s) (all_digits-drop k s a) after in
    let (high, high_lt) = parse_uint_lem (take k s) (all_digits-take k s a) before in
    let whole = digits_value-split k 0 s in
    let apart = digits_value_acc (digits_value 0 (take k s)) (drop k s) in
    elim (Bool-cases (ltb 0 k)) [
      | inl e ↦
          let full : length (drop k s) ≡ 19 = ground (arith, length-drop k s, e) in
          let scale : pow10 (length (drop k s)) ≡ 10 ^ 19 = ap pow10 full ∙ pow10_19 in
          rw e (record {
            high_lt = omega (arith, high, high_lt);
            low_lt = omega (arith, low, low_lt);
            joins = sym whole ∙ apart ∙ rw (scale, high, low) refl;
          })
      | inr e ↦
          let none_before : k ≡ 0 = ground (arith, e) in
          let all_after : digits_value 0 (drop k s) ≡ digits_value 0 s =
            ap (λ j. digits_value 0 (drop j s)) none_before in
          rw e (record {
            high_lt = omega arith;
            low_lt = omega (arith, low, low_lt);
            joins = omega (arith, low, all_after);
          })
    ]

assemble-value :
    (s : Text)
    → all_digits s ≡ true
    → length s ≤ max_digits
    → IsValid (assemble s) × (value (assemble s) ≡ pos (digits_value 0 s))
unfolding assemble
assemble-value s a l =
    let k = halves s a l in
    let (v, e) = words_value _ _ k.high_lt k.low_lt in (v, e ∙ ap pos (sym k.joins))

-- The number that the text spells.
abbrev pub spelled : Bool × Text → ℤ
spelled (negative, digits) =
    if negative then pos 0 -ℤ pos (digits_value 0 digits) else pos (digits_value 0 digits)

-- What `ParseAmount` accepts, and what it answers.
abbrev pub Parses : Bool → Text → Amount → Type 0
Parses negative digits a = IsValid a × (value a ≡ spelled (negative, digits))

negated :
    (negative : Bool) (x : Amount) (n : ℕ)
    → IsValid x
    → value x ≡ pos n
    → IsValid (if negative then neg x else x)
      × (value (if negative then neg x else x) ≡ (if negative then pos 0 -ℤ pos n else pos n))
negated false x n v e = (v, e)
negated true x n v e =
    let small : neg_part (value x) < 2 ^ 127 = rw e (omega arith) in
    (neg-IsValid x v, neg-value x (IsValid-Fits v) small ∙ ap (λ z. pos 0 -ℤ z) e)

short : (negative : Bool) (s : Text) → is_malformed negative s ≡ false → length s ≤ max_digits
unfolding is_malformed
short negative s h = ground arith

pub parse_digits-Parses :
    (negative : Bool) (digits : Text) {a : Amount}
    → parse_digits negative digits ≡ ok a
    → Parses negative digits a
unfolding parse_digits
parse_digits-Parses negative digits {a} h = elim (Bool-cases (is_malformed negative digits)) [
  | inl m ↦ absurd (cc (h, m))
  | inr m ↦ elim (Bool-cases (all_digits digits)) [
    | inl d ↦
        let (v, e) = assemble-value digits d (short negative digits m) in
        subst (Parses negative digits) (ok_unique refl (rw (m, d) at h))
          (negated negative (assemble digits) (digits_value 0 digits) v e)
    | inr d ↦ absurd (cc (h, m, d))
  ]
]

-- The text that `ParseAmount` accepts stands for the amount that it answers, which has at most 38
-- digits.
pub parse_amount-Parses :
    (s : Text) {a : Amount}
    → parse_amount s ≡ ok a
    → IsValid a × (value a ≡ spelled (signed_digits s))
unfolding parse_amount
parse_amount-Parses s h = parse_digits-Parses (signed_digits s).0 (signed_digits s).1 h

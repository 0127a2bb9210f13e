-- ===== src/Money/Written.antt =====
-- Decimal digits as strconv writes them, and what they spell.
use astrum.Prelude.{
  ℕ, zero, suc, ◌+◌, ◌-◌, ◌*◌, ◌/◌, ◌%◌, ◌≤◌, ◌<◌, ◌≡◌, refl, ◌∙◌, true, false, ltb, [], ◌∷◌, ◌++◌,
  if◌then◌else◌, arith, length, length-append, Bool-cases, inl, inr, ltb→lt,
}
use astrum.Prelude.Eq.{Text}
use astrum.Money.Digits.{is_digit, starts_with_zero, all_digits, digits_value, pow10}

-- decimal digits; 20 rounds write every word
unfoldable pub write_digits : ℕ → ℕ → Text
write_digits zero n = []
write_digits (suc fuel) n =
    let rest = write_digits fuel (n / 10) in
    if ltb n 10 then (n + 48) ∷ [] else rest ++ (n % 10 + 48) ∷ []

pub digits_value-append :
    (n : ℕ) (s t : Text) → digits_value n (s ++ t) ≡ digits_value (digits_value n s) t
unfolding digits_value
digits_value-append n [] t = refl
digits_value-append n (c ∷ s) t = digits_value-append (n * 10 + (c - 48)) s t

pub all_digits-append :
    (s t : Text) → all_digits s ≡ true → all_digits t ≡ true → all_digits (s ++ t) ≡ true
unfolding all_digits
all_digits-append [] t a b = b
all_digits-append (c ∷ s) t a b = ground (arith, all_digits-append s t)

digit_written : (n : ℕ) → n < 10 → (is_digit (n + 48) ≡ true) × (n + 48 - 48 ≡ n)
digit_written n h = ground arith

-- What the digits of `n` are, where it has at most `suc k` of them.
pub record Writes (k n : ℕ) (s : Text) : Type 0 where
  pub digits : all_digits s ≡ true
  pub spells : digits_value 0 s ≡ n
  pub long : length s ≤ suc k
  pub short : 1 ≤ length s
  pub first : 0 < n → starts_with_zero s ≡ false

one_digit : (k n : ℕ) → n < 10 → Writes k n ((n + 48) ∷ [])
unfolding all_digits digits_value
one_digit k n h =
    let (d, v) = digit_written n h in
    record {
      digits = rw d refl;
      spells = omega (arith, v);
      long = omega arith;
      short = omega arith;
      first = λ z. ground arith;
    }

pub zero_append : (s t : Text) → 1 ≤ length s → starts_with_zero (s ++ t) ≡ starts_with_zero s
zero_append [] t h = absurd (omega arith)
zero_append (c ∷ s) t h = refl

more_digits :
    (k n : ℕ) (s : Text) → 10 ≤ n → Writes k (n / 10) s → Writes (suc k) n (s ++ (n % 10 + 48) ∷ [])
unfolding all_digits digits_value
more_digits k n s h w =
    let (d, v) = digit_written (n % 10) (omega arith) in
    let last : all_digits ((n % 10 + 48) ∷ []) ≡ true = rw d refl in
    let len = length-append s ((n % 10 + 48) ∷ []) in
    record {
      digits = all_digits-append s ((n % 10 + 48) ∷ []) w.digits last;
      spells = omega (arith, digits_value-append 0 s ((n % 10 + 48) ∷ []), v, w.spells);
      long = omega (arith, len, w.long);
      short = omega (arith, len, w.short);
      first = λ z. zero_append s ((n % 10 + 48) ∷ []) w.short ∙ w.first (omega (arith, h));
    }

pub write_digits-Writes :
    (k fuel n : ℕ) → n < pow10 (suc k) → k < fuel → Writes k n (write_digits fuel n)
unfolding write_digits pow10 all_digits digits_value
write_digits-Writes k zero n h f = absurd (omega arith)
write_digits-Writes zero (suc fuel) n h f =
    let small : n < 10 = omega (arith, h) in
    let test : ltb n 10 ≡ true = ground (arith, small) in rw test (one_digit 0 n small)
write_digits-Writes (suc k) (suc fuel) n h f = elim (Bool-cases (ltb n 10)) [
  | inl e ↦ rw e (one_digit (suc k) n (ltb→lt n 10 e))
  | inr e ↦
      let large : 10 ≤ n = ground (arith, e) in
      let less : n / 10 < pow10 (suc k) = omega (arith, h) in
      rw e (
        more_digits k n (write_digits fuel (n / 10)) large
          (write_digits-Writes k fuel (n / 10) less (omega arith)))
]

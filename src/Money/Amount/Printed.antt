-- ===== src/Money/Amount/Printed.antt =====
-- `String` of internal/money/amount.go, and what `ParseAmount` reads of it.
use astrum.Prelude.{
  ℕ, zero, suc, ◌+◌, ◌-◌, ◌*◌, ◌^◌, ◌≤◌, ◌<◌, ◌≡◌, refl, sym, ap, subst, ◌∙◌, Bool, true, false,
  ltb, ◌==◌, Option, none, some, [], ◌∷◌, ◌++◌, if◌then◌else◌, arith, length, drop, length-append,
  Bool-cases, inl, inr, ==_iff, ltb→lt,
}
use astrum.Prelude.Int.{ℤ, pos, negsuc, ltb_ℤ}
use astrum.Prelude.Eq.{Text}
use astrum.Money.Words.{word, int64, div64}
use astrum.Money.Digits.{
  pow10_1, starts_with_zero, all_digits, digits_value, digits_value_acc, pow10, pow10_19,
}
use astrum.Money.Written.{
  write_digits, Writes, write_digits-Writes, digits_value-append, all_digits-append, zero_append,
}
use astrum.Money.Amount.{Amount, pow19, neg, sign}
use astrum.Money.Amount.Text.{max_digits, signed_digits, is_malformed}

-- the Boolean of `Int64`
abbrev pub is_int64 : Amount → Bool
is_int64 a = if ltb a.lo (2 ^ 63) then a.hi == 0 else a.hi == word - 1

abbrev pub format_uint : ℕ → Text
format_uint n = write_digits 20 n

abbrev pub minus : Bool → Text → Text
minus true s = 45 ∷ s
minus false s = s

-- `strconv.FormatInt`
abbrev pub format_int : ℤ → Text
format_int (pos n) = format_uint n
format_int (negsuc n) = 45 ∷ format_uint (suc n)

abbrev pub zeros : Text
zeros =
    48 ∷ 48 ∷ 48 ∷ 48 ∷ 48 ∷ 48 ∷ 48 ∷ 48 ∷ 48 ∷ 48 ∷ 48 ∷ 48 ∷ 48 ∷ 48 ∷ 48 ∷ 48 ∷ 48 ∷ 48 ∷ 48
    ∷ []

-- the digits of a number that is split at 10^19
unfoldable pub format_halves : ℕ → ℕ → Text
format_halves high low =
    if high == 0
    then format_uint low
    else format_uint high ++ (drop (length (format_uint low)) zeros ++ format_uint low)

-- the magnitude of an amount after its sign; `none` is the panic of bits.Div64
unfoldable pub print_signed : Bool → Amount → Option Text
print_signed negative b = elim (div64 b.hi b.lo pow19) [
  | none ↦ none
  | some (high, low) ↦ some (minus negative (format_halves high low))
]

-- `String`
unfoldable pub to_string : Amount → Option Text
to_string a =
    if is_int64 a
    then some (format_int (int64 a.lo))
    else (let negative = ltb_ℤ (sign a) (pos 0) in
        print_signed negative (if negative then neg a else a))

-- The digits of `n` as `ParseAmount` wants them.
pub record IsCanonical (n : ℕ) (s : Text) : Type 0 where
  pub digits : all_digits s ≡ true
  pub spells : digits_value 0 s ≡ n
  pub long : length s ≤ max_digits
  pub short : 1 ≤ length s
  pub first : starts_with_zero s ≡ true → length s ≤ 1
  pub positive : starts_with_zero s ≡ true → n ≡ 0

pub well_formed :
    (negative : Bool) (n : ℕ) (s : Text)
    → IsCanonical n s
    → (negative ≡ true → 0 < n)
    → is_malformed negative s ≡ false
unfolding is_malformed
well_formed negative n s c p = ground (arith, c.long, c.short, c.first, c.positive)

pub signed_minus :
    (negative : Bool) (s : Text)
    → all_digits s ≡ true
    → signed_digits (minus negative s) ≡ (negative, s)
unfolding all_digits
signed_minus true s a = refl
signed_minus false [] a = refl
signed_minus false (c ∷ s) a = ground arith

unfoldable zeros_of : ℕ → Text
zeros_of zero = []
zeros_of (suc n) = 48 ∷ zeros_of n

drop-zeros_of : (j n : ℕ) → drop j (zeros_of n) ≡ zeros_of (n - j)
unfolding zeros_of
drop-zeros_of zero n = let same : n ≡ n - 0 = omega arith in ap zeros_of same
drop-zeros_of (suc j) zero = let same : zero ≡ zero - suc j = omega arith in ap zeros_of same
drop-zeros_of (suc j) (suc n) =
    let same : n - j ≡ suc n - suc j = omega arith in drop-zeros_of j n ∙ ap zeros_of same

-- what a row of noughts adds
record IsRow (n : ℕ) (s : Text) : Type 0 where
  digits : all_digits s ≡ true
  long : length s ≡ n
  spells : (acc : ℕ) → digits_value acc s ≡ acc * pow10 n

zeros_of-IsRow : (n : ℕ) → IsRow n (zeros_of n)
unfolding zeros_of all_digits digits_value pow10
zeros_of-IsRow zero = record { digits = refl; long = refl; spells = λ acc. omega arith }
zeros_of-IsRow (suc n) =
    let r = zeros_of-IsRow n in
    record {
      digits = r.digits;
      long = omega (arith, r.long);
      spells = λ acc. omega (arith, r.spells (acc * 10 + (48 - 48)));
    }

pow10_add : (m n : ℕ) → pow10 (m + n) ≡ pow10 m * pow10 n
unfolding pow10
pow10_add zero n =
    let same : zero + n ≡ n = omega arith in
    let one : pow10 n ≡ 1 * pow10 n = omega arith in ap pow10 same ∙ one
pow10_add (suc m) n =
    let same : suc m + n ≡ suc (m + n) = omega arith in
    let step : pow10 (suc (m + n)) ≡ 10 * pow10 m * pow10 n = omega (arith, pow10_add m n) in
    ap pow10 same ∙ step

-- the lower 19 digits, with noughts before them
record Pads (low : ℕ) (s : Text) : Type 0 where
  digits : all_digits s ≡ true
  long : length s ≡ 19
  spells : (acc : ℕ) → digits_value acc s ≡ acc * 10 ^ 19 + low

padded : Text → Text
padded l = drop (length l) zeros ++ l

padded-Pads : (low : ℕ) (l : Text) → Writes 18 low l → Pads low (padded l)
unfolding padded zeros_of
padded-Pads low l w =
    let row : IsRow (19 - length l) (drop (length l) zeros) =
      subst (IsRow (19 - length l)) (sym (drop-zeros_of (length l) 19))
        (zeros_of-IsRow (19 - length l)) in
    let all_of : 19 - length l + length l ≡ 19 = omega (arith, w.long) in
    let scale : pow10 (19 - length l) * pow10 (length l) ≡ 10 ^ 19 =
      sym (pow10_add (19 - length l) (length l)) ∙ ap pow10 all_of ∙ pow10_19 in
    record {
      digits = all_digits-append (drop (length l) zeros) l row.digits w.digits;
      long = length-append (drop (length l) zeros) l ∙ omega (arith, row.long, w.long);
      spells = λ acc.
          let noughts = ap (λ z. z * pow10 (length l)) (row.spells acc) in
          let scaled = ap (λ z. acc * z) scale in
          let split = digits_value-append acc (drop (length l) zeros) l in
          let apart = digits_value_acc (digits_value acc (drop (length l) zeros)) l in
          omega (arith, noughts, scaled, split, apart, w.spells);
    }

low_Writes : (n : ℕ) → n < 10 ^ 19 → Writes 18 n (format_uint n)
low_Writes n h = write_digits-Writes 18 20 n (omega (arith, h, pow10_19)) (omega arith)

pub single-IsCanonical : (n : ℕ) → n < 10 ^ 19 → IsCanonical n (format_uint n)
single-IsCanonical n h =
    let w = low_Writes n h in
    elim (Bool-cases (ltb 0 n)) [
      | inl e ↦
          let no = w.first (ltb→lt 0 n e) in
          record {
            digits = w.digits;
            spells = w.spells;
            long = omega (arith, w.long);
            short = w.short;
            first = λ z. absurd (cc (z, no));
            positive = λ z. absurd (cc (z, no));
          }
      | inr e ↦
          let zero_number : n ≡ 0 = ground (arith, e) in
          let nought =
            write_digits-Writes 0 20 n (omega (arith, zero_number, pow10_1)) (omega arith) in
          record {
            digits = w.digits;
            spells = w.spells;
            long = omega (arith, w.long);
            short = w.short;
            first = λ z. nought.long;
            positive = λ z. zero_number;
          }
    ]

double-IsCanonical :
    (high low : ℕ)
    → high < 10 ^ 19
    → low < 10 ^ 19
    → 0 < high
    → IsCanonical (high * 10 ^ 19 + low) (format_uint high ++ padded (format_uint low))
double-IsCanonical high low h l p =
    let w = low_Writes high h in
    let q = padded-Pads low (format_uint low) (low_Writes low l) in
    let s = format_uint high in
    let r = padded (format_uint low) in
    let len = length-append s r in
    let no : starts_with_zero (s ++ r) ≡ false = zero_append s r w.short ∙ w.first p in
    record {
      digits = all_digits-append s r w.digits q.digits;
      spells = digits_value-append 0 s r ∙ ap (λ z. digits_value z r) w.spells ∙ q.spells high;
      long = omega (arith, len, w.long, q.long);
      short = omega (arith, len, w.short);
      first = λ z. absurd (cc (z, no));
      positive = λ z. absurd (cc (z, no));
    }

pub halves-IsCanonical :
    (high low : ℕ)
    → high < 10 ^ 19
    → low < 10 ^ 19
    → IsCanonical (high * 10 ^ 19 + low) (format_halves high low)
unfolding format_halves padded
halves-IsCanonical high low h l = elim (Bool-cases (high == 0)) [
  | inl e ↦
      let none_high : high ≡ 0 = (==_iff high 0).0 e in
      let same : low ≡ high * 10 ^ 19 + low = omega (arith, none_high) in
      rw e (subst (λ n. IsCanonical n (format_uint low)) same (single-IsCanonical low l))
  | inr e ↦
      let some_high : 0 < high = ground (arith, e) in
      rw e (double-IsCanonical high low h l some_high)
]

-- ===== src/Tests/Money.antt =====
-- Amounts: tests and instances.
use astrum.Prelude.{◌^◌, ◌≡◌, refl, arith, some, [], ◌∷◌}
use astrum.Prelude.Int.{pos, ◌+ℤ◌, ◌-ℤ◌}
use astrum.Result.{ok, err, overflow}
use astrum.Money.Amount.{Amount, max_amount, zero_amount, sign, abs, neg, cmp, add, sub, checked}
use astrum.Money.Amount.Value.{value, Fits, IsValid}
use astrum.Prelude.Eq.{Text}
use astrum.Money.Digits.{all_digits, digits_value, parse_uint}
use astrum.Money.Amount.Text.{
  signed_digits, is_malformed, assemble, parse_digits, parse_amount, spelled, parse_amount-Parses,
}
use astrum.Money.Written.{write_digits}
use astrum.Money.Amount.Printed.{format_halves, print_signed, to_string}
use astrum.Money.Amount.Roundtrip.{parse_amount-to_string}
use astrum.Money.Amount.Sum.{Sums, add-Sums, sub-Sums, add_least}

abbrev three : Amount
three = record { hi = 0; lo = 3 }

-- -(10^38 - 1)
abbrev lowest : Amount
lowest = neg max_amount

-- -(2^127 - 10^38 + 1)
abbrev rest : Amount
rest = record { hi = 14644382899282297978; lo = 687399551400673279 }

three-Fits : Fits three
three-Fits = omega arith

lowest-IsValid : IsValid lowest
unfolding value neg max_amount
lowest-IsValid = omega arith

rest-IsValid : IsValid rest
unfolding value
rest-IsValid = omega arith

sum-lowest-rest : value lowest +ℤ value rest ≡ pos 0 -ℤ pos (2 ^ 127)
unfolding value ◌+ℤ◌ ◌-ℤ◌ neg max_amount
sum-lowest-rest = refl

add_least_example : (c : Amount) × (add lowest rest ≡ ok c) × ¬ (IsValid c)
add_least_example = add_least lowest rest lowest-IsValid rest-IsValid sum-lowest-rest

add-overflows : add max_amount three ≡ err overflow
unfolding add checked sign abs neg cmp max_amount
add-overflows = refl

sub-below_zero : sub zero_amount three ≡ ok (neg three)
unfolding sub add checked sign abs neg cmp max_amount
sub-below_zero = refl

add-Sums_example : Sums (value three +ℤ value three) (add three three)
add-Sums_example = add-Sums three three three-Fits three-Fits

sub-Sums_example : Sums (value zero_amount -ℤ value three) (sub zero_amount three)
unfolding value
sub-Sums_example = sub-Sums zero_amount three (omega arith) three-Fits (omega arith)

-- "-12345678901234567890123"
abbrev long_text : Text
long_text =
    45 ∷ 49 ∷ 50 ∷ 51 ∷ 52 ∷ 53 ∷ 54 ∷ 55 ∷ 56 ∷ 57 ∷ 48 ∷ 49 ∷ 50 ∷ 51 ∷ 52 ∷ 53 ∷ 54 ∷ 55 ∷ 56
    ∷ 57 ∷ 48 ∷ 49 ∷ 50 ∷ 51 ∷ []

abbrev long_amount : Amount
long_amount = record { hi = 18446744073709550946; lo = 13639628150831692597 }

long_parsed : parse_amount long_text ≡ ok long_amount
unfolding parse_amount parse_digits is_malformed all_digits assemble parse_uint digits_value neg
long_parsed = refl

parse_amount-Parses_example :
    IsValid long_amount × (value long_amount ≡ spelled (signed_digits long_text))
parse_amount-Parses_example = parse_amount-Parses long_text long_parsed

long_amount-IsValid : IsValid long_amount
unfolding value
long_amount-IsValid = omega arith

parse_amount-to_string_example :
    (s : Text) × (to_string long_amount ≡ some s) × (parse_amount s ≡ ok long_amount)
parse_amount-to_string_example = parse_amount-to_string long_amount long_amount-IsValid

long_printed : to_string long_amount ≡ some long_text
unfolding to_string print_signed format_halves write_digits sign neg
long_printed = refl

-- ===== src/Money/Amount.antt =====
-- internal/money/amount.go: a signed 128-bit amount in two words.
pub mod Value
pub mod Sum
pub mod Totals
pub mod Text
pub mod Printed
pub mod Roundtrip
use astrum.Prelude.{ℕ, ◌+◌, ◌-◌, ◌%◌, ◌^◌, Bool, not, ◌&&◌, ◌||◌, ltb, ◌==◌, if◌then◌else◌}
use astrum.Prelude.Int.{ℤ, pos, negsuc, ltb_ℤ, eqb_ℤ}
use astrum.Result.{Result, ok, err, overflow}
use astrum.Money.Words.{word, int64, add64, sub64, mul64}

abbrev pub pow19 : ℕ
pow19 = 10 ^ 19

pub record Amount : Type 0 where
  pub hi : ℕ
  pub lo : ℕ

-- the initialiser of `maxAmount`
unfoldable pub max_amount : Amount
max_amount =
    let (hi, lo) = mul64 pow19 pow19 in
    let (lo', borrow) = sub64 lo 1 0 in record { hi = (hi + word - borrow) % word; lo = lo' }

abbrev pub zero_amount : Amount
zero_amount = record { hi = 0; lo = 0 }

unfoldable pub sign : Amount → ℤ
sign a =
    if ltb_ℤ (int64 a.hi) (pos 0) then negsuc 0 else if a.hi == 0 && a.lo == 0 then pos 0 else pos 1

unfoldable pub is_zero : Amount → Bool
is_zero a = a.hi == 0 && a.lo == 0

unfoldable pub cmp : Amount → Amount → ℤ
cmp a b =
    if ltb_ℤ (int64 a.hi) (int64 b.hi)
    then negsuc 0
    else if ltb_ℤ (int64 b.hi) (int64 a.hi)
    then pos 1
    else if ltb a.lo b.lo
    then negsuc 0
    else if ltb b.lo a.lo
    then pos 1
    else pos 0

unfoldable pub neg : Amount → Amount
neg a =
    let (lo, borrow) = sub64 0 a.lo 0 in
    let (hi, _) = sub64 0 a.hi borrow in record { hi = hi; lo = lo }

unfoldable pub abs : Amount → Amount
abs a = if ltb_ℤ (sign a) (pos 0) then neg a else a

unfoldable pub checked : Amount → Amount → Amount → Result Amount
checked a b sum =
    let wrapped =
      eqb_ℤ (sign a) (sign b) && not (eqb_ℤ (sign a) (pos 0)) && not (eqb_ℤ (sign sum) (sign a)) in
    if wrapped || ltb_ℤ (pos 0) (cmp (abs sum) max_amount) then err overflow else ok sum

unfoldable pub add : Amount → Amount → Result Amount
add a b =
    let (lo, carry) = add64 a.lo b.lo 0 in
    let (hi, _) = add64 a.hi b.hi carry in checked a b (record { hi = hi; lo = lo })

unfoldable pub sub : Amount → Amount → Result Amount
sub a b = add a (neg b)

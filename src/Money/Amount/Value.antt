-- ===== src/Money/Amount/Value.antt =====
-- What the operations of internal/money/amount.go do to the integer that an amount stands for.
use astrum.Prelude.{ℕ, ◌+◌, ◌-◌, ◌*◌, ◌^◌, ◌≤◌, ◌<◌, ◌≡◌, refl, ltb, if◌then◌else◌, arith}
use astrum.Prelude.Int.{ℤ, pos, negsuc, pos_part, neg_part, ◌-ℤ◌, ltb_ℤ, eqb_ℤ}
use astrum.Money.Words.{word}
use astrum.Money.Amount.{Amount, max_amount, is_zero, sign, cmp, neg, abs}

abbrev pub max_value : ℕ
max_value = 10 ^ 38 - 1

-- Two's complement over 128 bits.
unfoldable pub value : Amount → ℤ
value a =
    if ltb a.hi (2 ^ 63)
    then pos (a.hi * word + a.lo)
    else negsuc (word * word - 1 - (a.hi * word + a.lo))

-- Both words are words.
pub record Fits (a : Amount) : Type 0 where
  pub hi_word : a.hi < word
  pub lo_word : a.lo < word

-- An amount of at most 38 digits.
pub record IsValid (a : Amount) : Type 0 where
  pub hi_word : a.hi < word
  pub lo_word : a.lo < word
  pub upper : pos_part (value a) ≤ max_value
  pub lower : neg_part (value a) ≤ max_value

pub IsValid-Fits : {a : Amount} → IsValid a → Fits a
IsValid-Fits v = record { hi_word = v.hi_word; lo_word = v.lo_word }

-- -1, 0 or 1, as Go's `Cmp` methods answer.
abbrev pub compare_ℤ : ℤ → ℤ → ℤ
compare_ℤ x y = if ltb_ℤ x y then negsuc 0 else if ltb_ℤ y x then pos 1 else pos 0

pub max_amount-value : value max_amount ≡ pos max_value
unfolding value max_amount
max_amount-value = refl

pub max_amount-IsValid : IsValid max_amount
unfolding value max_amount
max_amount-IsValid = omega arith

pub value_bounds :
    (a : Amount) → Fits a → (pos_part (value a) < 2 ^ 127) × (neg_part (value a) ≤ 2 ^ 127)
unfolding value
value_bounds a v = ground arith

pub value-injective : (a b : Amount) → Fits a → Fits b → value a ≡ value b → a ≡ b
unfolding value
value-injective a b v w e = ground arith

pub neg-Fits : (a : Amount) → Fits a → Fits (neg a)
unfolding neg
neg-Fits a v = ground arith

-- Every negation but that of -2^127 is exact.
pub neg-value :
    (a : Amount) → Fits a → neg_part (value a) < 2 ^ 127 → value (neg a) ≡ pos 0 -ℤ value a
unfolding neg value ◌-ℤ◌
neg-value a v h = ground arith

pub neg-IsValid : (a : Amount) → IsValid a → IsValid (neg a)
unfolding neg value
neg-IsValid a v = ground arith

pub sign-value : (a : Amount) → Fits a → sign a ≡ compare_ℤ (value a) (pos 0)
unfolding sign value
sign-value a v = ground arith

pub cmp-value : (a b : Amount) → Fits a → Fits b → cmp a b ≡ compare_ℤ (value a) (value b)
unfolding cmp value
cmp-value a b v w = ground arith

pub is_zero-value : (a : Amount) → Fits a → is_zero a ≡ eqb_ℤ (value a) (pos 0)
unfolding is_zero value
is_zero-value a v = ground arith

pub abs-Fits : (a : Amount) → Fits a → Fits (abs a)
unfolding abs sign neg
abs-Fits a v = ground arith

pub abs-value :
    (a : Amount)
    → Fits a
    → neg_part (value a) < 2 ^ 127
    → value (abs a) ≡ pos (pos_part (value a) + neg_part (value a))
unfolding abs sign neg value
abs-value a v h = ground arith

-- `Abs` leaves -2^127 as it is.
pub abs_min : (a : Amount) → Fits a → value a ≡ pos 0 -ℤ pos (2 ^ 127) → abs a ≡ a
unfolding abs sign neg value ◌-ℤ◌
abs_min a v h = ground arith

-- ===== src/Money/Digits.antt =====
-- Decimal digits, as strconv reads and writes them.
use astrum.Prelude.{
  ℕ, zero, suc, ◌+◌, ◌-◌, ◌*◌, ◌^◌, ◌≤◌, ◌<◌, ◌≡◌, refl, Bool, true, false, ◌&&◌, ltb, leb, ◌==◌,
  [], ◌∷◌, if◌then◌else◌, arith, length, take, drop,
}
use native.Mathlib.Nat.{mul-le-mul_right}
use astrum.Prelude.Eq.{Text}
use astrum.Money.Words.{word}

abbrev pub is_digit : ℕ → Bool
is_digit c = leb 48 c && leb c 57

abbrev pub starts_with_zero : Text → Bool
starts_with_zero [] = false
starts_with_zero (c ∷ s) = c == 48

unfoldable pub all_digits : Text → Bool
all_digits [] = true
all_digits (c ∷ s) = is_digit c && all_digits s

-- the value of the digits, after what was read
unfoldable pub digits_value : ℕ → Text → ℕ
digits_value n [] = n
digits_value n (c ∷ s) = digits_value (n * 10 + (c - 48)) s

-- `strconv.ParseUint` on digits, whose value on a range error is the greatest word
unfoldable pub parse_uint : Text → ℕ
parse_uint s = let v = digits_value 0 s in if ltb v word then v else word - 1

pub digits_value-split :
    (k n : ℕ) (s : Text) → digits_value (digits_value n (take k s)) (drop k s) ≡ digits_value n s
unfolding digits_value
digits_value-split zero n s = refl
digits_value-split (suc k) n [] = refl
digits_value-split (suc k) n (c ∷ s) = digits_value-split k (n * 10 + (c - 48)) s

unfoldable pub pow10 : ℕ → ℕ
pow10 zero = 1
pow10 (suc n) = 10 * pow10 n

pub digits_value_acc :
    (n : ℕ) (s : Text) → digits_value n s ≡ n * pow10 (length s) + digits_value 0 s
unfolding digits_value pow10
digits_value_acc n [] = omega arith
digits_value_acc n (c ∷ s) =
    omega (arith, digits_value_acc (n * 10 + (c - 48)) s, digits_value_acc (0 + (c - 48)) s)

digit_le : (c : ℕ) → is_digit c ≡ true → c - 48 ≤ 9
digit_le c h = ground arith

pub digits_value-lt : (s : Text) → all_digits s ≡ true → digits_value 0 s < pow10 (length s)
unfolding digits_value all_digits pow10
digits_value-lt [] a = omega arith
digits_value-lt (c ∷ s) a =
    let (first, rest) = both (is_digit c) (all_digits s) a in
    let most = mul-le-mul_right (pow10 (length s)) (digit_le c first) in
    omega (arith, digits_value_acc (0 + (c - 48)) s, digits_value-lt s rest, most)
  where
    both : (b c : Bool) → b && c ≡ true → (b ≡ true) × (c ≡ true)
    both b c h = ground arith

pub pow10_le : (m n : ℕ) → m ≤ n → pow10 m ≤ pow10 n
unfolding pow10
pow10_le zero zero h = omega arith
pow10_le zero (suc n) h = omega (arith, pow10_le zero n (omega arith))
pow10_le (suc m) zero h = absurd (omega arith)
pow10_le (suc m) (suc n) h = omega (arith, pow10_le m n (omega arith))

pub length-drop : (k : ℕ) (s : Text) → length (drop k s) ≡ length s - k
length-drop zero s = omega arith
length-drop (suc k) [] = omega arith
length-drop (suc k) (c ∷ s) = omega (arith, length-drop k s)

pub length-take : (k : ℕ) (s : Text) → length (take k s) ≤ k
length-take zero s = omega arith
length-take (suc k) [] = omega arith
length-take (suc k) (c ∷ s) = omega (arith, length-take k s)

pub all_digits-take : (k : ℕ) (s : Text) → all_digits s ≡ true → all_digits (take k s) ≡ true
unfolding all_digits
all_digits-take zero s a = refl
all_digits-take (suc k) [] a = refl
all_digits-take (suc k) (c ∷ s) a = ground (arith, all_digits-take k s)

pub all_digits-drop : (k : ℕ) (s : Text) → all_digits s ≡ true → all_digits (drop k s) ≡ true
unfolding all_digits
all_digits-drop zero s a = a
all_digits-drop (suc k) [] a = refl
all_digits-drop (suc k) (c ∷ s) a = ground (arith, all_digits-drop k s)

pub pow10_1 : pow10 1 ≡ 10
unfolding pow10
pow10_1 = refl

pub pow10_19 : pow10 19 ≡ 10 ^ 19
unfolding pow10
pow10_19 = refl

-- At most 19 digits fit a word.
pub parse_uint_lem :
    (s : Text)
    → all_digits s ≡ true
    → length s ≤ 19
    → (parse_uint s ≡ digits_value 0 s) × (digits_value 0 s < 10 ^ 19)
unfolding parse_uint
parse_uint_lem s a l =
    let below = digits_value-lt s a in
    let most = pow10_le (length s) 19 l in ground (arith, below, most, pow10_19)

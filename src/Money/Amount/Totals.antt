-- ===== src/Money/Amount/Totals.antt =====
-- Amounts that are not negative, as the totals of an account are: their operations by size, which
-- is a number.
use astrum.Prelude.{ℕ, ◌+◌, ◌-◌, ◌≤◌, ◌<◌, ◌≡◌, refl, ltb, arith, ◌∙◌, subst}
use astrum.Prelude.Int.{ℤ, pos, negsuc, pos_part, neg_part, sub_ℕ, ◌+ℤ◌, ◌-ℤ◌, ltb_ℤ}
use astrum.Result.{Result, ok, err, overflow, ◌>>=◌}
use astrum.Money.Amount.{Amount, add, sub, cmp, zero_amount}
use astrum.Money.Amount.Value.{value, max_value, Fits, IsValid, IsValid-Fits, cmp-value}
use astrum.Money.Amount.Sum.{Sums, add-Sums, sub-Sums}

abbrev pub size : Amount → ℕ
size a = pos_part (value a)

-- Not negative, and of at most 38 digits.
pub record IsTotal (a : Amount) : Type 0 where
  pub fits : Fits a
  pub nonneg : neg_part (value a) ≡ 0
  pub upper : size a ≤ max_value

pub IsTotal-value : {a : Amount} → IsTotal a → value a ≡ pos (size a)
IsTotal-value {a} t = parts (value a) t.nonneg
  where
    parts : (z : ℤ) → neg_part z ≡ 0 → z ≡ pos (pos_part z)
    parts (pos n) h = refl
    parts (negsuc n) h = absurd (omega arith)

pub zero_amount-IsTotal : IsTotal zero_amount
unfolding value
zero_amount-IsTotal = omega arith

pub zero_amount-size : size zero_amount ≡ 0
unfolding value
zero_amount-size = refl

-- A result that is a total of size `n`, or an overflow where `n` has more than 38 digits.
abbrev pub HasSize : ℕ → Result Amount → Type 0
HasSize n (ok c) = IsTotal c × (size c ≡ n)
HasSize n (err e) = (e ≡ overflow) × (max_value < n)

HasSize-of-Sums : (n : ℕ) (t : ℤ) (r : Result Amount) → t ≡ pos n → Sums t r → HasSize n r
HasSize-of-Sums n t (ok c) e (f, v, u, l) = ground arith
HasSize-of-Sums n t (err x') e (o, u, l) = ground arith

+ℤ_nonneg : (x y : ℤ) → neg_part x ≡ 0 → neg_part y ≡ 0 → x +ℤ y ≡ pos (pos_part x + pos_part y)
unfolding ◌+ℤ◌
+ℤ_nonneg x y h k = ground arith

-ℤ_nonneg : (x y : ℤ) → neg_part x ≡ 0 → neg_part y ≡ 0 → x -ℤ y ≡ sub_ℕ (pos_part x) (pos_part y)
unfolding ◌-ℤ◌
-ℤ_nonneg x y h k = ground arith

pub add-HasSize : {a b : Amount} → IsTotal a → IsTotal b → HasSize (size a + size b) (add a b)
add-HasSize {a} {b} s t =
    HasSize-of-Sums (size a + size b) (value a +ℤ value b) (add a b)
      (+ℤ_nonneg (value a) (value b) s.nonneg t.nonneg) (add-Sums a b s.fits t.fits)

pub add-IsTotal :
    {a b c : Amount}
    → IsTotal a
    → IsTotal b
    → add a b ≡ ok c
    → IsTotal c × (size c ≡ size a + size b)
add-IsTotal {a} {b} {c} s t e = subst (HasSize (size a + size b)) e (add-HasSize s t)

abbrev pub Differs : ℕ → ℕ → Result Amount → Type 0
Differs x y r = (c : Amount) × (r ≡ ok c) × IsValid c × (value c ≡ sub_ℕ x y)

Differs-of-Sums :
    (x y : ℕ) (t : ℤ) (r : Result Amount)
    → x ≤ max_value
    → y ≤ max_value
    → t ≡ sub_ℕ x y
    → Sums t r
    → Differs x y r
Differs-of-Sums x y t (ok c) h k e (f, v, u, l) = (
  c,
  refl,
  record { hi_word = f.hi_word; lo_word = f.lo_word; upper = rw v u; lower = ground arith },
  v ∙ e,
)
Differs-of-Sums x y t (err e') h k e (o, l, n) = absurd (ground arith)

-- The difference of two totals has no more digits than they have, so `sub` does not fail.
pub sub-Differs : {a b : Amount} → IsTotal a → IsTotal b → Differs (size a) (size b) (sub a b)
sub-Differs {a} {b} s t =
    Differs-of-Sums (size a) (size b) (value a -ℤ value b) (sub a b) s.upper t.upper
      (-ℤ_nonneg (value a) (value b) s.nonneg t.nonneg)
      (sub-Sums a b s.fits t.fits (omega (arith, t.nonneg)))

Differs-eq-ok : (x y : ℕ) (c : Amount) → Differs x y (ok c) → IsValid c × (value c ≡ sub_ℕ x y)
Differs-eq-ok x y c (d, e, v, n) =
    let same : d ≡ c = cc in (subst IsValid same v, subst (λ z. value z ≡ sub_ℕ x y) same n)

pub sub-eq-ok :
    {a b c : Amount}
    → IsTotal a
    → IsTotal b
    → sub a b ≡ ok c
    → IsValid c × (value c ≡ sub_ℕ (size a) (size b))
sub-eq-ok {a} {b} {c} s t e =
    Differs-eq-ok (size a) (size b) c (subst (Differs (size a) (size b)) e (sub-Differs s t))

IsTotal-of-sub_ℕ :
    (x y : ℕ) (c : Amount) → y ≤ x → IsValid c → value c ≡ sub_ℕ x y → IsTotal c × (size c ≡ x - y)
IsTotal-of-sub_ℕ x y c h v e =
    let n : value c ≡ pos (x - y) = e ∙ ground arith in
    (record { fits = IsValid-Fits v; nonneg = rw n refl; upper = v.upper }, rw n refl)

-- One total less another that is no larger is a total.
pub sub-IsTotal :
    {a b c : Amount}
    → IsTotal a
    → IsTotal b
    → size b ≤ size a
    → sub a b ≡ ok c
    → IsTotal c × (size c ≡ size a - size b)
sub-IsTotal {a} {b} {c} s t h e =
    let (v, n) = sub-eq-ok s t e in IsTotal-of-sub_ℕ (size a) (size b) c h v n

pub cmp_totals :
    {a b : Amount} → IsTotal a → IsTotal b → ltb_ℤ (pos 0) (cmp a b) ≡ ltb (size b) (size a)
cmp_totals {a} {b} s t =
    rw (cmp-value a b s.fits t.fits, IsTotal-value s, IsTotal-value t) (ground arith)

-- What comes after a sum: it runs on the total, or is passed over by an overflow.
pub HasSize-bind :
    (r : Result Amount) (k : Amount → Result Amount) (n m : ℕ)
    → HasSize n r
    → ((c : Amount) → IsTotal c → size c ≡ n → HasSize (n + m) (k c))
    → HasSize (n + m) (r >>= k)
HasSize-bind (ok c) k n m h then' = then' c h.0 h.1
HasSize-bind (err e) k n m h then' = (h.0, omega (arith, h.1))

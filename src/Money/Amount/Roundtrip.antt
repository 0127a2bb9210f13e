-- ===== src/Money/Amount/Roundtrip.antt =====
-- `ParseAmount` reads back what `String` writes.
use astrum.Prelude.{
  ℕ, suc, ◌+◌, ◌-◌, ◌*◌, ◌/◌, ◌%◌, ◌^◌, ◌≤◌, ◌<◌, ◌≡◌, refl, sym, ap, subst, ◌∙◌, Bool, true, false,
  leb, some, if◌then◌else◌, arith, Bool-cases, inl, inr,
}
use astrum.Prelude.Int.{ℤ, pos, negsuc, pos_part, neg_part, ltb_ℤ, ◌-ℤ◌}
use astrum.Prelude.Eq.{Text}
use astrum.Result.{ok}
use astrum.Money.Words.{word, int64, div64}
use astrum.Money.Amount.{Amount, pow19, neg, sign}
use astrum.Money.Amount.Value.{value, max_value, Fits, IsValid, IsValid-Fits, value-injective}
use astrum.Money.Amount.Text.{assemble, parse_digits, parse_amount, spelled, parse_digits-Parses}
use astrum.Money.Amount.Printed.{
  is_int64, format_uint, minus, format_int, format_halves, print_signed, to_string, IsCanonical,
  single-IsCanonical, halves-IsCanonical, well_formed, signed_minus,
}

-- What is printed of the amount.
record Prints (a : Amount) (s : Text) : Type 0 where
  negative : Bool
  number : ℕ
  body : Text
  text : s ≡ minus negative body
  canonical : IsCanonical number body
  signed : negative ≡ true → 0 < number
  amount : value a ≡ (if negative then pos 0 -ℤ pos number else pos number)

below_zero : (n : ℕ) → negsuc n ≡ pos 0 -ℤ pos (suc n)
unfolding ◌-ℤ◌
below_zero n = ground arith

int64_text :
    (a : Amount) (z : ℤ)
    → value a ≡ z
    → (pos_part z < 10 ^ 19)
    → (neg_part z < 10 ^ 19)
    → Prints a (format_int z)
int64_text a (pos n) e h l = record {
  negative = false;
  number = n;
  body = format_uint n;
  text = refl;
  canonical = single-IsCanonical n h;
  signed = λ z. absurd (cc);
  amount = e;
}
int64_text a (negsuc n) e h l = record {
  negative = true;
  number = suc n;
  body = format_uint (suc n);
  text = refl;
  canonical = single-IsCanonical (suc n) l;
  signed = λ z. omega arith;
  amount = e ∙ below_zero n;
}

is_int64-value :
    (a : Amount)
    → Fits a
    → is_int64 a ≡ true
    → (value a ≡ int64 a.lo) × (pos_part (int64 a.lo) < 10 ^ 19) × (neg_part (int64 a.lo) < 10 ^ 19)
unfolding value
is_int64-value a v h = ground arith

-- the words of an amount that is not negative, as they are divided
record Divides (b : Amount) (n : ℕ) : Type 0 where
  number : b.hi * word + b.lo ≡ n
  bound : n ≤ max_value

negative_words :
    (a : Amount)
    → IsValid a
    → ltb_ℤ (sign a) (pos 0) ≡ true
    → (n : ℕ) × Divides (neg a) n × (0 < n) × (value a ≡ pos 0 -ℤ pos n)
unfolding value sign neg ◌-ℤ◌
negative_words a v h = (
  word * word - (a.hi * word + a.lo),
  record {
    number = ground (arith, v.hi_word, v.lo_word);
    bound = ground (arith, v.lower, v.hi_word, v.lo_word);
  },
  ground (arith, v.hi_word, v.lo_word),
  ground (arith, v.hi_word, v.lo_word),
)

other_words :
    (a : Amount)
    → IsValid a
    → ltb_ℤ (sign a) (pos 0) ≡ false
    → (n : ℕ) × Divides a n × (value a ≡ pos n)
unfolding value sign
other_words a v h =
    (a.hi * word + a.lo, record { number = refl; bound = ground (arith, v.upper) }, ground arith)

division :
    (b : Amount) (n : ℕ)
    → Divides b n
    → (div64 b.hi b.lo pow19 ≡ some (n / 10 ^ 19, n % 10 ^ 19))
      × (n / 10 ^ 19 < 10 ^ 19)
      × (n % 10 ^ 19 < 10 ^ 19)
      × (n / 10 ^ 19 * 10 ^ 19 + n % 10 ^ 19 ≡ n)
division b n d =
    let fits : leb pow19 b.hi ≡ false = ground (arith, d.number, d.bound) in
    (rw (fits, d.number) refl, omega (arith, d.bound), omega arith, omega arith)

divided :
    (negative : Bool) (a b : Amount) (n : ℕ)
    → Divides b n
    → (negative ≡ true → 0 < n)
    → value a ≡ (if negative then pos 0 -ℤ pos n else pos n)
    → (s : Text) × (print_signed negative b ≡ some s) × Prints a s
unfolding print_signed
divided negative a b n d p e =
    let (q, h, l, same) = division b n d in
    (
      minus negative (format_halves (n / 10 ^ 19) (n % 10 ^ 19)),
      rw (q, print_signed) refl,
      record {
        negative = negative;
        number = n;
        body = format_halves (n / 10 ^ 19) (n % 10 ^ 19);
        text = refl;
        canonical =
            subst (λ m. IsCanonical m (format_halves (n / 10 ^ 19) (n % 10 ^ 19))) same
              (halves-IsCanonical (n / 10 ^ 19) (n % 10 ^ 19) h l);
        signed = p;
        amount = e;
      },
    )

to_string-Prints : (a : Amount) → IsValid a → (s : Text) × (to_string a ≡ some s) × Prints a s
unfolding to_string
to_string-Prints a v = elim (Bool-cases (is_int64 a)) [
  | inl i ↦
      let (e, h, l) = is_int64-value a (IsValid-Fits v) i in
      (format_int (int64 a.lo), rw i refl, int64_text a (int64 a.lo) e h l)
  | inr i ↦ elim (Bool-cases (ltb_ℤ (sign a) (pos 0))) [
    | inl g ↦
        let (n, d, p, e) = negative_words a v g in
        let (s, t, u) = divided true a (neg a) n d (λ z. p) e in (s, rw (i, g) t, u)
    | inr g ↦
        let (n, d, e) = other_words a v g in
        let (s, t, u) = divided false a a n d (λ z. absurd (cc)) e in (s, rw (i, g) t, u)
  ]
]

parse-Prints : (a : Amount) (s : Text) → IsValid a → Prints a s → parse_amount s ≡ ok a
unfolding parse_amount parse_digits
parse-Prints a s v p =
    let form = well_formed p.negative p.number p.body p.canonical p.signed in
    let read : parse_amount s ≡ parse_digits p.negative p.body =
      ap parse_amount p.text
      ∙ ap (λ (x : Bool × Text). parse_digits x.0 x.1)
          (signed_minus p.negative p.body p.canonical.digits) in
    let b : Amount = if p.negative then neg (assemble p.body) else assemble p.body in
    let accepted : parse_digits p.negative p.body ≡ ok b = rw (form, p.canonical.digits) refl in
    let (w, e) = parse_digits-Parses p.negative p.body accepted in
    let spelled' : spelled (p.negative, p.body) ≡ value a =
      ap (λ n. if p.negative then pos 0 -ℤ pos n else pos n) p.canonical.spells ∙ sym p.amount in
    read ∙ accepted ∙ ap ok (value-injective b a (IsValid-Fits w) (IsValid-Fits v) (e ∙ spelled'))

-- `String` of an amount of at most 38 digits answers a text, and `ParseAmount` reads the amount back
-- from it.
pub parse_amount-to_string :
    (a : Amount) → IsValid a → (s : Text) × (to_string a ≡ some s) × (parse_amount s ≡ ok a)
parse_amount-to_string a v = let (s, e, p) = to_string-Prints a v in (s, e, parse-Prints a s v p)

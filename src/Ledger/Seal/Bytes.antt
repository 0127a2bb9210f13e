-- ===== src/Ledger/Seal/Bytes.antt =====
-- encoding/binary, big endian, as internal/modules/ledger/seal.go uses it, and what can be read back.
use astrum.Prelude.{
  ℕ, zero, suc, ◌*◌, ◌/◌, ◌%◌, ◌^◌, ◌<◌, ◌≡◌, refl, sym, ap, ◌∙◌, arith, List, [], ◌∷◌, ◌++◌,
  length, length-append,
}
use astrum.Prelude.Eq.{Text}
use native.Mathlib.Numerals.{unary_clauses}

-- the last `k` bytes of a number, the highest first
unfoldable pub big_endian : ℕ → ℕ → Text
big_endian zero n = []
big_endian (suc k) n = big_endian k (n / 256) ++ n % 256 ∷ []

-- `writeBytes`
unfoldable pub write_bytes : Text → Text
unfolding big_endian
write_bytes b = big_endian 4 (length b) ++ b

pub big_endian-length : (k n : ℕ) → length (big_endian k n) ≡ k
unfolding big_endian
big_endian-length zero n = refl
big_endian-length (suc k) n =
    omega
      (arith, big_endian-length k (n / 256), length-append (big_endian k (n / 256)) (n % 256 ∷ []))

-- Two texts with beginnings of one length are equal only part by part.
pub split {ℓ} :
    {A : Type ℓ} (a b x y : List A) → length a ≡ length b → a ++ x ≡ b ++ y → (a ≡ b) × (x ≡ y)
split [] [] x y l e = (refl, e)
split [] (c ∷ b) x y l e = absurd (omega arith)
split (c ∷ a) [] x y l e = absurd (omega arith)
split (c ∷ a) (d ∷ b) x y l e =
    let same : c ≡ d = cc in
    let rest : a ++ x ≡ b ++ y = cc in let (f, g) = split a b x y (omega arith) rest in (cc, g)

-- The same for endings of one length.
pub split_end {ℓ} :
    {A : Type ℓ} (a b x y : List A) → length x ≡ length y → a ++ x ≡ b ++ y → (a ≡ b) × (x ≡ y)
split_end a b x y l e =
    let total : length (a ++ x) ≡ length (b ++ y) = ap length e in
    split a b x y (omega (arith, l, total, length-append a x, length-append b y)) e

pub big_endian_unique :
    (k m n : ℕ) → m < 256 ^ k → n < 256 ^ k → big_endian k m ≡ big_endian k n → m ≡ n
unfolding big_endian
big_endian_unique zero m n h l e = omega arith
big_endian_unique (suc k) m n h l e =
    let lengths = big_endian-length k (m / 256) ∙ sym (big_endian-length k (n / 256)) in
    let (high, low) = split (big_endian k (m / 256)) (big_endian k (n / 256)) _ _ lengths e in
    let last : m % 256 ≡ n % 256 = cc in
    let power : 256 ^ suc k ≡ 256 * 256 ^ k = simp unary_clauses (omega arith) in
    let rest =
      big_endian_unique k (m / 256) (n / 256) (omega (arith, h, power)) (omega (arith, l, power))
        high in
    omega (arith, rest, last)

-- Reading back a number, and a text with its length, from the beginning of a text.
pub big_endian-split :
    (k m n : ℕ) (x y : Text)
    → m < 256 ^ k
    → n < 256 ^ k
    → big_endian k m ++ x ≡ big_endian k n ++ y
    → (m ≡ n) × (x ≡ y)
big_endian-split k m n x y h l e =
    let lengths = big_endian-length k m ∙ sym (big_endian-length k n) in
    let (a, b) = split (big_endian k m) (big_endian k n) x y lengths e in
    (big_endian_unique k m n h l a, b)

pub append_assoc : (a b c : Text) → (a ++ b) ++ c ≡ a ++ (b ++ c)
append_assoc [] b c = refl
append_assoc (x ∷ a) b c = ap (λ t. x ∷ t) (append_assoc a b c)

pub write_bytes-split :
    (a b x y : Text)
    → length a < 2 ^ 32
    → length b < 2 ^ 32
    → write_bytes a ++ x ≡ write_bytes b ++ y
    → (a ≡ b) × (x ≡ y)
unfolding write_bytes
write_bytes-split a b x y h l e =
    let e' : big_endian 4 (length a) ++ (a ++ x) ≡ big_endian 4 (length b) ++ (b ++ y) =
      sym (append_assoc (big_endian 4 (length a)) a x)
      ∙ e
      ∙ append_assoc (big_endian 4 (length b)) b y in
    let (lengths, f) =
      big_endian-split 4 (length a) (length b) (a ++ x) (b ++ y) (omega arith) (omega arith) e' in
    split a b x y lengths f

-- ===== src/Money/Words.antt =====
-- Go's 64-bit words, and the functions of math/bits that internal/money calls. A `uint64` is a
-- number below 2^64; the results wrap as Go's do.
use astrum.Prelude.{ℕ, ◌+◌, ◌-◌, ◌*◌, ◌/◌, ◌%◌, ◌^◌, Option, none, some, ltb, leb, if◌then◌else◌}
use astrum.Prelude.Int.{ℤ, pos, negsuc}

abbrev pub word : ℕ
word = 2 ^ 64

-- `int64(x)`
abbrev pub int64 : ℕ → ℤ
int64 x = if ltb x (2 ^ 63) then pos x else negsuc (word - 1 - x)

-- sum and carry
abbrev pub add64 : ℕ → ℕ → ℕ → ℕ × ℕ
add64 x y carry = ((x + y + carry) % word, (x + y + carry) / word)

-- difference and borrow
abbrev pub sub64 : ℕ → ℕ → ℕ → ℕ × ℕ
sub64 x y borrow = ((x + word - (y + borrow)) % word, if ltb x (y + borrow) then 1 else 0)

-- high and low word of the product
abbrev pub mul64 : ℕ → ℕ → ℕ × ℕ
mul64 x y = (x * y / word, x * y % word)

-- quotient and remainder; `none` is the panic on a zero divisor or a quotient of more than a word
abbrev pub div64 : ℕ → ℕ → ℕ → Option (ℕ × ℕ)
div64 hi lo y = if leb y hi then none else some ((hi * word + lo) / y, (hi * word + lo) % y)

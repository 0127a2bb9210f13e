-- ===== src/Ledger/Validate/Strings.antt =====
-- The tests on text of internal/modules/ledger/validate.go and internal/money/money.go, with what
-- they use of the packages strings, bytes and unicode/utf8.
use astrum.Prelude.{
  ℕ, zero, suc, Bool, true, false, not, ◌&&◌, ◌||◌, ◌==◌, ltb, leb, Option, none, some, [], ◌∷◌,
  if◌then◌else◌, length,
}
use astrum.Prelude.Eq.{Text}
use astrum.Result.{Result, fail_if, ◌>>◌, invalid_currency}
use astrum.Ledger.Types.{Currency}

abbrev pub between : ℕ → ℕ → ℕ → Bool
between low high c = leb low c && leb c high

-- What the first byte of a rune asks of the rest: the number of bytes, and the range of the next.
abbrev first_byte : ℕ → Option (ℕ × ℕ × ℕ)
first_byte a =
    if ltb a 128
    then some (0, 128, 191)
    else if between 194 223 a
    then some (1, 128, 191)
    else if a == 224
    then some (2, 160, 191)
    else if a == 237
    then some (2, 128, 159)
    else if between 225 239 a
    then some (2, 128, 191)
    else if a == 240
    then some (3, 144, 191)
    else if between 241 243 a
    then some (3, 128, 191)
    else if a == 244
    then some (3, 128, 143)
    else none

-- inside a rune of which `n` bytes are to come, the next one between `low` and `high`
unfoldable pub valid_from : ℕ → ℕ → ℕ → Text → Bool
valid_from zero low high [] = true
valid_from (suc n) low high [] = false
valid_from zero low high (a ∷ s) = elim (first_byte a) [
  | none ↦ false
  | some (n, l, h) ↦ valid_from n l h s
]
valid_from (suc n) low high (a ∷ s) =
    let rest = valid_from n 128 191 s in between low high a && rest

-- `utf8.Valid` and `utf8.ValidString`
abbrev pub valid_utf8 : Text → Bool
valid_utf8 = valid_from 0 128 191

unfoldable pub contains_byte : ℕ → Text → Bool
contains_byte c [] = false
contains_byte c (a ∷ s) = (a == c) || contains_byte c s

-- `storableText`: the NUL rune is the NUL byte
unfoldable pub storable_text : Text → Bool
storable_text s = valid_utf8 s && not (contains_byte 0 s)

-- The bytes that were read of a white-space rune of more than one byte.
pub data SpaceState : Type 0 where
  outside after_c2 after_e1 after_e2 after_e3 after_e1_9a after_e2_80 after_e2_81 after_e3_80 :
      SpaceState

abbrev pub when : Bool → SpaceState → Option SpaceState
when true s = some s
when false s = none

-- `unicode.IsSpace`, byte by byte
abbrev space_step : SpaceState → ℕ → Option SpaceState
space_step outside b =
    if between 9 13 b || b == 32
    then some outside
    else if b == 194
    then some after_c2
    else if b == 225
    then some after_e1
    else if b == 226
    then some after_e2
    else when (b == 227) after_e3
space_step after_c2 b = when (b == 133 || b == 160) outside
space_step after_e1 b = when (b == 154) after_e1_9a
space_step after_e2 b = if b == 128 then some after_e2_80 else when (b == 129) after_e2_81
space_step after_e3 b = when (b == 128) after_e3_80
space_step after_e1_9a b = when (b == 128) outside
space_step after_e2_80 b = when (between 128 138 b || b == 168 || b == 169 || b == 175) outside
space_step after_e2_81 b = when (b == 159) outside
space_step after_e3_80 b = when (b == 128) outside

unfoldable pub blank_from : SpaceState → Text → Bool
blank_from outside [] = true
blank_from _ [] = false
blank_from state (b ∷ s) = elim (space_step state b) [
  | none ↦ false
  | some next ↦ blank_from next s
]

-- `strings.TrimSpace(s) == ""`
unfoldable pub is_blank : Text → Bool
unfolding blank_from
is_blank = blank_from outside

unfoldable pub has_prefix : Text → Text → Bool
has_prefix [] s = true
has_prefix (p ∷ ps) [] = false
has_prefix (p ∷ ps) (a ∷ s) = (p == a) && has_prefix ps s

-- `bytes.Contains`
unfoldable pub contains : Text → Text → Bool
unfolding has_prefix
contains part [] = has_prefix part []
contains part (a ∷ s) = has_prefix part (a ∷ s) || contains part s

-- the six characters `\u0000`
abbrev pub escaped_nul : Text
escaped_nul = 92 ∷ 117 ∷ 48 ∷ 48 ∷ 48 ∷ 48 ∷ []

abbrev pub is_upper : ℕ → Bool
is_upper = between 65 90

abbrev code_byte : ℕ → Bool
code_byte c = is_upper c || between 48 57 c || c == 95

unfoldable pub code_bytes : Text → Bool
code_bytes [] = true
code_bytes (c ∷ s) = code_byte c && code_bytes s

abbrev starts_upper : Text → Bool
starts_upper [] = false
starts_upper (c ∷ s) = is_upper c

-- `Currency.Validate`
unfoldable pub validate_code : Currency → Result (Unit {0})
validate_code c = do
  fail_if (ltb (length c) 3 || ltb 16 (length c) || not (starts_upper c)) invalid_currency
  fail_if (not (code_bytes c)) invalid_currency

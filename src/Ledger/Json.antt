-- ===== src/Ledger/Json.antt =====
-- Metadata of internal/modules/ledger/types.go: decoded JSON values and when two of them are equal.
-- encoding/json/jsontext reads the text; a `Document` is the token tree that it yields, and blank
-- text is `none`.
use astrum.Prelude.{
  ℕ, suc, ◌+◌, ◌-◌, ◌*◌, ◌^◌, Bool, true, false, ◌&&◌, ◌||◌, ltb, leb, ◌==◌, Option, none, some, [],
  ◌∷◌, ◌++◌, if◌then◌else◌, length,
}
use astrum.Prelude.Eq.{Text, text_eq, ◌=?◌}
use astrum.Money.Written.{write_digits}
use astrum.Money.Words.{word, add64, sub64}

mutual
  -- `any` as `readJSON` fills it, with a number in its text; `null` is nil.
  pub data Json : Type 0 where
    null : Json
    boolean : Bool → Json
    string number : Text → Json
    array : Elements → Json
    object : Members → Json

  pub data Elements : Type 0 where
    end : Elements
    element : Json → Elements → Elements

  -- the members of an object, in an iteration order
  pub data Members : Type 0 where
    no_member : Members
    member : Text → Json → Members → Members

unfoldable pub get : Text → Members → Option Json
get k no_member = none
get k (member j v m) = if j =? k then some v else get k m

-- `obj[key] = v`
unfoldable pub put : Text → Json → Members → Members
put k v no_member = member k v no_member
put k v (member j w m) = if j =? k then member k v m else member j w (put k v m)

unfoldable pub count : Members → ℕ
count no_member = 0
count (member k v m) = suc (count m)

unfoldable mutual
  unfolding put

  -- `readJSON`: of the members of one name the last one stays
  pub read_json : Json → Json
  read_json (array es) = array (read_elements es)
  read_json (object ms) = object (read_members no_member ms)
  read_json v = v

  pub read_elements : Elements → Elements
  read_elements end = end
  read_elements (element v es) = element (read_json v) (read_elements es)

  pub read_members : Members → Members → Members
  read_members obj no_member = obj
  read_members obj (member k v ms) = read_members (put k (read_json v) obj) ms

-- `strings.TrimLeft(s, "0")`
unfoldable pub trim_left : Text → Text
trim_left [] = []
trim_left (c ∷ s) = if c == 48 then trim_left s else c ∷ s

-- `strings.TrimRight(s, "0")`
unfoldable pub trim_right : Text → Text
trim_right [] = []
trim_right (c ∷ s) =
    let rest = trim_right s in elim rest [ [] ↦ if c == 48 then [] else c ∷ [] | d ∷ t ↦ c ∷ d ∷ t ]

-- what stands before the first character of a kind, and what after it
unfoldable pub cut : (ℕ → Bool) → Text → Option (Text × Text)
cut f [] = none
cut f (c ∷ s) =
    let rest = cut f s in
    if f c then some ([], s) else elim rest [ none ↦ none | some r ↦ some (c ∷ r.0, r.1) ]

-- the value of decimal digits, after what was read
unfoldable pub read_digits : ℕ → Text → Option ℕ
read_digits n [] = some n
read_digits n (c ∷ s) =
    let rest = read_digits (n * 10 + (c - 48)) s in if leb 48 c && leb c 57 then rest else none

abbrev pub read_number : Text → Option ℕ
read_number [] = none
read_number (c ∷ s) = read_digits 0 (c ∷ s)

abbrev pub at_most : ℕ → Option ℕ → Option ℕ
at_most bound none = none
at_most bound (some n) = if leb n bound then some n else none

abbrev pub negate_word : Option ℕ → Option ℕ
negate_word none = none
negate_word (some n) = some ((sub64 0 n 0).0)

-- `strconv.Atoi`: the int's bit pattern, `none` the error
unfoldable pub atoi : Text → Option ℕ
unfolding read_digits
atoi [] = none
atoi (c ∷ s) =
    if c == 45
    then negate_word (at_most (2 ^ 63) (read_number s))
    else if c == 43
    then at_most (2 ^ 63 - 1) (read_number s)
    else at_most (2 ^ 63 - 1) (read_number (c ∷ s))

-- `strconv.Itoa`
unfoldable pub itoa : ℕ → Text
unfolding write_digits
itoa n = if ltb n (2 ^ 63) then write_digits 20 n else 45 ∷ write_digits 20 (word - n)

abbrev pub drop_sign : Text → Text × Text
drop_sign [] = ([], [])
drop_sign (c ∷ s) = if c == 45 then (45 ∷ [], s) else ([], c ∷ s)

-- the digits round the point, and the exponent less the places behind it
abbrev pub without_point : Text → ℕ → Text × ℕ
without_point s exp = elim (cut (λ c. c == 46) s) [
  | none ↦ (s, exp)
  | some (whole, places) ↦ (whole ++ places, (sub64 exp (length places) 0).0)
]

-- what follows once the exponent is read
unfoldable pub scaled : Text → Text → ℕ → Text
unfolding trim_left trim_right itoa cut
scaled sign s exp =
    let (digits, exp') = without_point s exp in
    let digits' = trim_left digits in
    let trimmed = trim_right digits' in
    elim digits' [
      | [] ↦ 48 ∷ []
      | d ∷ rest ↦
          sign ++ trimmed ++ 101 ∷ itoa ((add64 exp' (length (d ∷ rest) - length trimmed) 0).0)
    ]

unfoldable pub canonical_number : Text → Text
unfolding cut atoi scaled
canonical_number n =
    let (sign, s) = drop_sign n in
    elim (cut (λ c. c == 101 || c == 69) s) [
      | none ↦ scaled sign s 0
      | some (before, after) ↦ elim (atoi after) [ none ↦ n | some e ↦ scaled sign before e ]
    ]

-- `bv, ok := b[k]`
abbrev pub is_member : Text → Members → Bool
is_member k m = elim (get k m) [ none ↦ false | some v ↦ true ]

abbrev pub value_of : Text → Members → Json
value_of k m = elim (get k m) [ none ↦ null | some v ↦ v ]

-- `jsonValueEqual`
unfoldable mutual
  unfolding get count canonical_number

  pub json_value_equal : Json → Json → Bool
  json_value_equal null null = true
  json_value_equal (boolean true) (boolean true) = true
  json_value_equal (boolean false) (boolean false) = true
  json_value_equal (string s) (string t) = s =? t
  json_value_equal (number s) (number t) = canonical_number s =? canonical_number t
  json_value_equal (array as') (array bs) = elements_equal as' bs
  json_value_equal (object ms) (object ns) = (count ms == count ns) && members_equal ms ns
  json_value_equal _ _ = false

  -- two arrays of one length, element by element
  pub elements_equal : Elements → Elements → Bool
  elements_equal end end = true
  elements_equal (element a as') (element b bs) = json_value_equal a b && elements_equal as' bs
  elements_equal _ _ = false

  pub members_equal : Members → Members → Bool
  members_equal no_member ns = true
  members_equal (member k v ms) ns =
      is_member k ns && json_value_equal v (value_of k ns) && members_equal ms ns

-- The bytes of a `jsontext.Value`, as the tree that they spell.
abbrev pub Metadata : Type 0
Metadata = Option Json

abbrev pub decode : Metadata → Json
decode none = object no_member
decode (some v) = read_json v

unfoldable pub json_equal : Metadata → Metadata → Bool
unfolding read_json json_value_equal
json_equal a b = json_value_equal (decode a) (decode b)

-- `normalizeMetadata`: blank text is the empty object; white space is no part of the tree
unfoldable pub normalize_metadata : Metadata → Metadata
normalize_metadata none = some (object no_member)
normalize_metadata (some v) = some v

-- ===== src/Ledger/Categories.antt =====
-- internal/modules/ledger/categories.go: groups of accounts, which nest. Each operation is one database
-- transaction; the lock on the row of the ledger makes those of one ledger follow each other.
pub mod Walks
pub mod Shallow
pub mod Tree
pub mod RollUp
pub mod Reachable
use astrum.Prelude.{
  is_some, ℕ, zero, suc, ◌+◌, max, Bool, true, false, not, ◌&&◌, ◌||◌, ◌==◌, ltb, Option, none,
  some, List, [], ◌∷◌, ◌++◌, if◌then◌else◌,
}
use astrum.Prelude.Eq.{Text, nat_eq, text_eq, pair_eq, ◌=?◌}
use astrum.Prelude.Map.{lookup}
use astrum.Result.{
  Result, ok, ◌>>=◌, ◌>>◌, fail_if, not_found, invalid, unknown_currency, unknown_ledger,
  category_mismatch, category_cycle, category_depth, internal,
}
use astrum.Ledger.Types.{Uuid, Time, Currency, Side, valid, nil_id}
use astrum.Ledger.Json.{Metadata, normalize_metadata}
use astrum.Ledger.State.{or_err}
use astrum.Ledger.Store.{is_among}
use astrum.Ledger.Validate.{validate_details, bad_code}
use astrum.Ledger.Service.Details.{Details, UpdateInput, apply_update, same_details}
use astrum.Ledger.Service.Accounts.{Directory, row_by_id}

-- A row of ledger_categories.
pub record Category : Type 0 where
  pub id : Uuid
  pub ledger_id : Uuid
  pub currency : Currency
  pub normal_side : Side
  pub details : Details
  pub version : ℕ
  pub created_at : Time

pub record CreateCategoryInput : Type 0 where
  pub ledger_id : Uuid
  pub currency : Currency
  pub normal_side : Side
  pub details : Details

-- The rows of ledger_category_edges, parents first.
abbrev pub Edges : Type 0
Edges = List (Uuid × Uuid)

-- The tables. `members` has the rows of ledger_category_accounts, the category first; the ledger and the
-- currency of such a row, and of an edge, are those of its category.
pub record Categories : Type 0 where
  pub rows : List Category
  pub members : List (Uuid × Uuid)
  pub edges : Edges

-- `queryCategory`
unfoldable pub category_by_id : Uuid → List Category → Option Category
category_by_id id [] = none
category_by_id id (c ∷ cs) = if c.id == id then some c else category_by_id id cs

-- the UPDATE of one row
unfoldable pub replace_category : Category → List Category → List Category
replace_category c [] = []
replace_category c (b ∷ bs) = if b.id == c.id then c ∷ bs else b ∷ replace_category c bs

unfoldable pub remove_category : Uuid → List Category → List Category
remove_category id [] = []
remove_category id (c ∷ cs) = if c.id == id then cs else c ∷ remove_category id cs

-- `INSERT … ON CONFLICT DO NOTHING` and `DELETE`, on a table of pairs
unfoldable pub has_pair : Uuid × Uuid → List (Uuid × Uuid) → Bool
has_pair p [] = false
has_pair p (q ∷ qs) = (q =? p) || has_pair p qs

abbrev pub add_pair : Uuid × Uuid → List (Uuid × Uuid) → List (Uuid × Uuid)
add_pair p qs = if has_pair p qs then qs else p ∷ qs

unfoldable pub remove_pairs : (Uuid × Uuid → Bool) → List (Uuid × Uuid) → List (Uuid × Uuid)
remove_pairs gone [] = []
remove_pairs gone (q ∷ qs) = let rest = remove_pairs gone qs in if gone q then rest else q ∷ rest

-- the joins of the two recursive queries of `setChild`
unfoldable pub children : Edges → Uuid → List Uuid
children [] id = []
children ((p, c) ∷ es) id = let rest = children es id in if p == id then c ∷ rest else rest

unfoldable pub parents : Edges → Uuid → List Uuid
parents [] id = []
parents ((p, c) ∷ es) id = let rest = parents es id in if c == id then p ∷ rest else rest

abbrev pub concat_map {ℓ κ} : {A : Type ℓ} {B : Type κ} → (A → List B) → List A → List B
concat_map f [] = []
concat_map f (x ∷ xs) = f x ++ concat_map f xs

-- The rows of `down`, or of `up`, from one of them on: an id and its depth. The fuel is how often the
-- depth still passes `depth <= $3`.
unfoldable pub walk : (Uuid → List Uuid) → ℕ → ℕ → Uuid → List (Uuid × ℕ)
walk next zero depth id = (id, depth) ∷ []
walk next (suc n) depth id = (id, depth) ∷ concat_map (walk next n (suc depth)) (next id)

unfoldable pub visits : Uuid → List (Uuid × ℕ) → Bool
visits id [] = false
visits id ((j, d) ∷ rows) = (j == id) || visits id rows

unfoldable pub max_depth : List (Uuid × ℕ) → ℕ
max_depth [] = 0
max_depth ((j, d) ∷ rows) = max d (max_depth rows)

abbrev pub max_category_depth : ℕ
max_category_depth = 7

-- the tests of `setChild` on the graph, and its INSERT
unfoldable pub nest : Uuid → Uuid → Edges → Result Edges
unfolding children parents walk visits max_depth has_pair
nest parent child es =
    let up = walk (parents es) max_category_depth 1 parent in
    let down = walk (children es) max_category_depth 1 child in
    fail_if (visits parent down) category_cycle
    >> (fail_if (ltb max_category_depth (max_depth up + max_depth down)) category_depth
        >> ok (add_pair (parent, child) es))

abbrev pub same_kind : Category → Uuid → Currency → Bool
same_kind c ledger currency = (c.ledger_id == ledger) && (c.currency =? currency)

abbrev pub nest_in : Category → Category → Categories → Result Categories
nest_in parent child t = do
  fail_if (not (same_kind parent child.ledger_id child.currency)) category_mismatch
  es ← nest parent.id child.id t.edges
  ok (record t { edges = es })

-- `setChild`, with the read of `changeGraph`. The category that it reads again and answers is left out.
unfoldable pub set_child : Uuid → Uuid → Bool → Categories → Result Categories
unfolding category_by_id nest remove_pairs
set_child parent_id child_id true t = do
  parent ← or_err (category_by_id parent_id t.rows) not_found
  child ← or_err (category_by_id child_id t.rows) not_found
  nest_in parent child t
set_child parent_id child_id false t = do
  parent ← or_err (category_by_id parent_id t.rows) not_found
  ok (record t { edges = remove_pairs (λ e. e =? (parent_id, child_id)) t.edges })

-- `setMember`, in the same way
unfoldable pub set_member : Uuid → Uuid → Bool → Directory → Categories → Result Categories
unfolding category_by_id has_pair remove_pairs
set_member category_id account_id true d t = do
  c ← or_err (category_by_id category_id t.rows) not_found
  row ← or_err (row_by_id account_id d.rows) not_found
  fail_if (not (same_kind c row.state.ledger_id row.state.currency)) category_mismatch
  ok (record t { members = add_pair (category_id, account_id) t.members })
set_member category_id account_id false d t = do
  c ← or_err (category_by_id category_id t.rows) not_found
  ok (record t { members = remove_pairs (λ e. e =? (category_id, account_id)) t.members })

-- `deleteCategory`; the rows of the other tables that refer to it go by ON DELETE CASCADE
unfoldable pub delete_category : Uuid → Categories → Result Categories
unfolding category_by_id remove_category remove_pairs
delete_category id t = do
  c ← or_err (category_by_id id t.rows) not_found
  ok (record {
    rows = remove_category id t.rows;
    members = remove_pairs (λ e. e.0 == id) t.members;
    edges = remove_pairs (λ e. (e.0 == id) || (e.1 == id)) t.edges;
  })

abbrev pub new_category : Uuid → Time → CreateCategoryInput → Category
new_category id now i = record {
  id = id;
  ledger_id = i.ledger_id;
  currency = i.currency;
  normal_side = i.normal_side;
  details = record i.details { metadata = normalize_metadata i.details.metadata };
  version = 0;
  created_at = now;
}

abbrev pub changed_category : Category → Details → Category
changed_category c details = record c { details = details; version = suc c.version }

-- the UPDATE of `updateCategory`, where the details change
unfoldable pub write_category : Category → Details → Categories → Categories × Category
unfolding same_details replace_category
write_category current details t = if same_details current.details details then (t, current) else (
  record t { rows = replace_category (changed_category current details) t.rows },
  changed_category current details,
)

module _ (reads_object : Text → Bool) (text_of : Metadata → Text) where
  unfoldable pub validate_category : Text → CreateCategoryInput → Result (Unit {0})
  validate_category raw i = do
    validate_details reads_object i.details.name i.details.description raw true
    fail_if (i.ledger_id == nil_id) invalid
    fail_if (bad_code i.currency) invalid
    fail_if (not (valid i.normal_side)) invalid

  -- `createCategory`, with the primary key and the foreign keys of its INSERT
  unfoldable pub create_category :
      Text
      → Result Uuid
      → Time
      → CreateCategoryInput
      → Directory
      → Categories
      → Result (Categories × Category)
  unfolding validate_category category_by_id
  create_category raw new_id now i d t = do
    validate_category raw i
    id ← new_id
    fail_if (is_some (category_by_id id t.rows)) internal
    fail_if (not (is_among i.ledger_id d.ledgers)) unknown_ledger
    fail_if (not (is_some (lookup i.currency d.currencies))) unknown_currency
    ok (record t { rows = new_category id now i ∷ t.rows }, new_category id now i)

  -- `updateCategory`; the balances that it answers are left out
  unfoldable pub update_category : Uuid → UpdateInput → Categories → Result (Categories × Category)
  unfolding category_by_id apply_update write_category
  update_category id i t = do
    current ← or_err (category_by_id id t.rows) not_found
    details ← apply_update reads_object text_of current.details i true
    ok (write_category current details t)

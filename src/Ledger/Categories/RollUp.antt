-- ===== src/Ledger/Categories/RollUp.antt =====
-- `rollUp` of internal/modules/ledger/categories.go without a range: the balances of a category.
pub mod Groups
pub mod Summed
use astrum.Prelude.{
  ℕ, ◌+◌, ◌/◌, ◌%◌, ◌^◌, false, leb, Option, none, some, List, [], ◌∷◌, if◌then◌else◌,
}
use astrum.Prelude.Eq.{nat_eq}
use astrum.Result.{Result, ok, err, ◌>>=◌, overflow, internal}
use astrum.Money.Amount.{Amount, zero_amount, add}
use astrum.Money.Amount.Value.{max_value}
use astrum.Money.Amount.Totals.{size}
use astrum.Ledger.Types.{
  Uuid, Side, debit, credit, side_equal, nil_id, open_status, Balance, Balances,
}
use astrum.Ledger.Account.{AccountState, balance, balances}
use astrum.Ledger.Store.{is_among}
use astrum.Ledger.Categories.{Category, Categories, children, max_category_depth}
use astrum.Ledger.Categories.Tree.{tree}

-- the accounts of the categories that `tree` found
unfoldable pub accounts_of : List Uuid → List (Uuid × Uuid) → List Uuid
unfolding is_among
accounts_of ids [] = []
accounts_of ids ((category, account) ∷ ms) =
    let rest = accounts_of ids ms in if is_among category ids then account ∷ rest else rest

-- `WHERE a.id IN (…)` and `GROUP BY a.normal_side`, for one side
unfoldable pub group : Side → List Uuid → List AccountState → List AccountState
unfolding is_among
group s ids [] = []
group s ids (a ∷ as') =
    let rest = group s ids as' in
    if is_among a.id ids then (if side_equal a.normal_side s then a ∷ rest else rest) else rest

-- `sum` of a column, whose amounts are not negative
unfoldable pub sum_of : (AccountState → Amount) → List AccountState → ℕ
sum_of f [] = 0
sum_of f (a ∷ as') = size (f a) + sum_of f as'

-- `ScanNumeric` of such a sum
unfoldable pub amount_of : ℕ → Result Amount
amount_of n =
    if leb n max_value then ok (record { hi = n / 2 ^ 64; lo = n % 2 ^ 64 }) else err overflow

-- `&accountState{normalSide: s}`
abbrev pub view : Side → AccountState
view s = record {
  id = nil_id;
  ledger_id = nil_id;
  closed_before = none;
  currency = [];
  normal_side = s;
  status = open_status;
  allow_negative = false;
  overdraft_limit = zero_amount;
  posted_debits = zero_amount;
  posted_credits = zero_amount;
  pending_debits = zero_amount;
  pending_credits = zero_amount;
  held = zero_amount;
  version = 0;
  original_version = 0;
}

-- the columns of a group, scanned
unfoldable pub scan_group : Side → List AccountState → Result AccountState
unfolding sum_of amount_of
scan_group s as' = do
  posted_debits ← amount_of (sum_of (λ a. a.posted_debits) as')
  posted_credits ← amount_of (sum_of (λ a. a.posted_credits) as')
  pending_debits ← amount_of (sum_of (λ a. a.pending_debits) as')
  pending_credits ← amount_of (sum_of (λ a. a.pending_credits) as')
  held ← amount_of (sum_of (λ a. a.held) as')
  ok (record (view s) {
    posted_debits = posted_debits;
    posted_credits = posted_credits;
    pending_debits = pending_debits;
    pending_credits = pending_credits;
    held = held;
  })

-- `sums`: the debits and the credits of the three balances
pub record Sums : Type 0 where
  pub posted : Amount × Amount
  pub pending : Amount × Amount
  pub available : Amount × Amount

unfoldable pub add_balance : Amount × Amount → Balance → Result (Amount × Amount)
add_balance (d, c) b = add d b.debits >>= λ d'. add c b.credits >>= λ c'. ok (d', c')

-- the loop over the groups; a side without accounts has no row
unfoldable pub add_group : Side → List AccountState → Sums → Result Sums
unfolding scan_group add_balance
add_group s [] sums = ok sums
add_group s (a ∷ as') sums = do
  g ← scan_group s (a ∷ as')
  b ← balances g
  posted ← add_balance sums.posted b.posted_balance
  pending ← add_balance sums.pending b.pending_balance
  available ← add_balance sums.available b.available_balance
  ok (record { posted = posted; pending = pending; available = available })

abbrev pub no_sums : Sums
no_sums = record {
  posted = (zero_amount, zero_amount);
  pending = (zero_amount, zero_amount);
  available = (zero_amount, zero_amount);
}

-- the two groups, in an order that does not matter where both are scanned, and the balances
unfoldable pub roll_up_accounts : Side → List Uuid → List AccountState → Result Balances
unfolding group add_group
roll_up_accounts s ids as' = do
  some_sums ← add_group debit (group debit ids as') no_sums
  sums ← add_group credit (group credit ids as') some_sums
  posted ← balance (view s) sums.posted.0 sums.posted.1
  pending ← balance (view s) sums.pending.0 sums.pending.1
  available ← balance (view s) sums.available.0 sums.available.1
  ok (record { pending_balance = pending; posted_balance = posted; available_balance = available })

abbrev pub roll_up_tree :
    Category → Categories → List AccountState → Option (List Uuid) → Result Balances
roll_up_tree c t as' none = err internal
roll_up_tree c t as' (some ids) = roll_up_accounts c.normal_side (accounts_of ids t.members) as'

-- `rollUp`, on the rows of ledger_accounts. The query of the tree has no bound;
-- seven rounds are enough where no chain has more than seven categories.
unfoldable pub roll_up : Category → Categories → List AccountState → Result Balances
unfolding tree children accounts_of roll_up_accounts
roll_up c t as' =
    roll_up_tree c t as' (tree (children t.edges) max_category_depth (c.id ∷ []) (c.id ∷ []))

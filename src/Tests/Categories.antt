-- ===== src/Tests/Categories.antt =====
-- Categories: tests and instances.
use astrum.Prelude.{ℕ, suc, ◌≡◌, ◌↔◌, refl, true, none, some, List, [], ◌∷◌}
use astrum.Prelude.Int.{pos}
use astrum.Prelude.Eq.{nat_eq, text_eq, pair_eq, text_beq, pair_beq}
use astrum.Result.{ok, category_cycle, err}
use astrum.Money.Amount.{add, sub, checked, zero_amount, sign, abs, neg, cmp, max_amount}
use astrum.Money.Amount.Value.{value}
use astrum.Ledger.Types.{Uuid, Balance, Balances, credit, debit, valid, side_equal}
use astrum.Ledger.Account.{AccountState, balances, balance}
use astrum.Ledger.Store.{is_among}
use astrum.Ledger.Categories.{
  Category, Categories, category_by_id, has_pair, children, parents, walk, visits, max_depth, nest,
  set_child,
}
use astrum.Ledger.Categories.Walks.{Chain}
use astrum.Ledger.Categories.Shallow.{AreShallow, AreShallow-nil}
use astrum.Ledger.Categories.Tree.{tree, Below, tree-Below}
use astrum.Ledger.Categories.RollUp.{accounts_of, roll_up}
use astrum.Ledger.Categories.RollUp.Summed.{among, ShowsSums, roll_up-ShowsSums}
use astrum.Ledger.Categories.Reachable.{here, next, child_step, Reach-AreShallow}
use astrum.Ledger.Json.{Metadata}
use astrum.Prelude.Eq.{Text}
use astrum.Tests.State.{account_of, ok_or}
use astrum.Tests.Service.{any_object}

abbrev category : Uuid → Category
category id = record {
  id = id;
  ledger_id = 9;
  currency = (account_of 1 debit true).currency;
  normal_side = credit;
  details = record { name = []; description = []; metadata = none };
  version = 0;
  created_at = pos 0;
}

-- one account in each of two categories
abbrev flat : Categories
flat = record { rows = category 1 ∷ category 2 ∷ []; members = (1, 1) ∷ (2, 2) ∷ []; edges = [] }

abbrev nested : Categories
nested = record flat { edges = (1, 2) ∷ [] }

nests : set_child 1 2 true flat ≡ ok nested
unfolding set_child category_by_id nest children parents walk visits max_depth has_pair text_beq
    pair_beq
nests = refl

refuses_cycle : set_child 2 1 true nested ≡ err category_cycle
unfolding set_child category_by_id nest children parents walk visits max_depth has_pair text_beq
    pair_beq
refuses_cycle = refl

abbrev no_text : Metadata → Text
no_text m = []

Reach-AreShallow_example :
    AreShallow nested.edges × ((n : ℕ) (a : Uuid) → ¬ Chain (children nested.edges) (suc n) a a)
Reach-AreShallow_example =
    Reach-AreShallow any_object no_text (next here (child_step 1 2 true nests)) AreShallow-nil

nested-AreShallow : AreShallow nested.edges
nested-AreShallow =
    (Reach-AreShallow any_object no_text (next here (child_step 1 2 true nests)) AreShallow-nil).0

tree-Below_example :
    (ids : List Uuid) × (tree (children nested.edges) 7 (1 ∷ []) (1 ∷ []) ≡ some ids)
    × ((x : Uuid) → (is_among x ids ≡ true) ↔ Below (children nested.edges) 1 x)
tree-Below_example = tree-Below nested.edges 1 nested-AreShallow

abbrev accounts : List AccountState
accounts = account_of 1 debit true ∷ account_of 2 credit true ∷ []

abbrev nothing : Balance
nothing = record { debits = zero_amount; credits = zero_amount; amount = zero_amount }

shown : Balances
shown =
    ok_or (roll_up (category 1) nested accounts)
      (record { pending_balance = nothing; posted_balance = nothing; available_balance = nothing })

rolls_up : roll_up (category 1) nested accounts ≡ ok shown
unfolding shown ok_or roll_up side_equal value balances add checked sign cmp abs max_amount balance
    sub neg
rolls_up = refl

roll_up-ShowsSums_example :
    (ids : List Uuid) × ((x : Uuid) → (is_among x ids ≡ true) ↔ Below (children nested.edges) 1 x)
    × ShowsSums credit shown (among (accounts_of ids nested.members) accounts)
roll_up-ShowsSums_example =
    roll_up-ShowsSums (category 1) nested accounts nested-AreShallow
      (unfold valid in (refl, (refl, tt))) rolls_up

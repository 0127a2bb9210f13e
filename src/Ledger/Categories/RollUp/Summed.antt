-- ===== src/Ledger/Categories/RollUp/Summed.antt =====
-- The balances of a category, by the accounts below it: `rollUp` of internal/modules/ledger/categories.go.
use astrum.Prelude.{
  ℕ, ◌+◌, ◌≡◌, refl, subst, arith, inl, inr, true, Bool-cases, Option, some, ◌↔◌, List, [], ◌∷◌,
  if◌then◌else◌,
}
use astrum.Result.{ok, >>=-elim, ok_unique}
use astrum.Money.Amount.{Amount, zero_amount}
use astrum.Money.Amount.Totals.{size, zero_amount-IsTotal, zero_amount-size}
use astrum.Ledger.Types.{Uuid, Side, debit, credit, other, valid, side_equal, Balance, Balances}
use astrum.Ledger.Account.{AccountState, balance}
use astrum.Ledger.Account.Views.{Shows, balance-Shows}
use astrum.Ledger.State.Entries.{All}
use astrum.Ledger.Store.{is_among}
use astrum.Ledger.Categories.RollUp.{
  group, sum_of, view, add_group, no_sums, accounts_of, roll_up_accounts, roll_up_tree, roll_up,
}
use astrum.Ledger.Categories.{Category, Categories, children}
use astrum.Ledger.Categories.Tree.{Below, tree-Below}
use astrum.Ledger.Categories.Shallow.{AreShallow}
use astrum.Ledger.Categories.RollUp.Groups.{
  AreTotals, add_group-Adds, posted_debits_of, posted_credits_of, pending_debits_of,
  pending_credits_of,
}

-- The accounts with these ids.
unfoldable pub among : List Uuid → List AccountState → List AccountState
unfolding is_among
among ids [] = []
among ids (a ∷ as') = let rest = among ids as' in if is_among a.id ids then a ∷ rest else rest

side_sums :
    (f : AccountState → Amount) (a : AccountState) (s : Side) (ds cs all : List AccountState)
    → valid s ≡ true
    → sum_of f ds + sum_of f cs ≡ sum_of f all
    → sum_of f (if side_equal s debit then a ∷ ds else ds)
        + sum_of f (if side_equal s credit then a ∷ cs else cs)
      ≡ size (f a) + sum_of f all
unfolding sum_of side_equal valid
side_sums f a debit ds cs all v h = omega (arith, h)
side_sums f a credit ds cs all v h = omega (arith, h)
side_sums f a (other n) ds cs all v h = absurd (cc)

group_sums :
    (f : AccountState → Amount) (ids : List Uuid) (as' : List AccountState)
    → All (λ a. valid a.normal_side ≡ true) as'
    → sum_of f (group debit ids as') + sum_of f (group credit ids as') ≡ sum_of f (among ids as')
unfolding sum_of group among
group_sums f ids [] v = refl
group_sums f ids (a ∷ as') v = elim (Bool-cases (is_among a.id ids)) [
  | inl e ↦ rw e (
      side_sums f a a.normal_side (group debit ids as') (group credit ids as') (among ids as') v.0
        (group_sums f ids as' v.1))
  | inr e ↦ rw e (group_sums f ids as' v.1)
]

-- The posted and the pending balance show the exact sums over these accounts, on the side `s`.
abbrev pub ShowsSums : Side → Balances → List AccountState → Type 0
ShowsSums s b as' =
    Shows s b.posted_balance (posted_debits_of as') (posted_credits_of as')
    × Shows s b.pending_balance (posted_debits_of as' + pending_debits_of as')
        (posted_credits_of as' + pending_credits_of as')

Shows-sizes :
    {s : Side} {b : Balance} {d c d' c' : ℕ} → Shows s b d c → d ≡ d' → c ≡ c' → Shows s b d' c'
Shows-sizes {s} {b} {d} {c} {d'} {c'} t e f =
    subst (λ n. Shows s b n c') e (subst (λ n. Shows s b d n) f t)

roll_up_accounts-ShowsSums :
    (s : Side) (ids : List Uuid) (as' : List AccountState) {b : Balances}
    → All (λ a. valid a.normal_side ≡ true) as'
    → roll_up_accounts s ids as' ≡ ok b
    → ShowsSums s b (among ids as')
unfolding roll_up_accounts
roll_up_accounts-ShowsSums s ids as' {b} v h =
    >>=-elim (add_group debit (group debit ids as') no_sums) _ h λ n1 e1 h1.
      >>=-elim (add_group credit (group credit ids as') n1) _ h1 λ n2 e2 h2.
        >>=-elim (balance (view s) n2.posted.0 n2.posted.1) _ h2 λ p e3 h3.
          >>=-elim (balance (view s) n2.pending.0 n2.pending.1) _ h3 λ q e4 h4.
            >>=-elim (balance (view s) n2.available.0 n2.available.1) _ h4 λ r e5 h5.
              let none_yet : AreTotals (zero_amount, zero_amount) 0 0 = record {
                debits = zero_amount-IsTotal;
                credits = zero_amount-IsTotal;
                debits_size = zero_amount-size;
                credits_size = zero_amount-size;
              } in
              let first =
                add_group-Adds debit (group debit ids as') no_sums 0 0 0 0
                  (record { posted = none_yet; pending = none_yet }) e1 in
              let both = add_group-Adds credit (group credit ids as') n1 _ _ _ _ first e2 in
              let posted =
                balance-Shows (view s) n2.posted.0 n2.posted.1 both.posted.debits
                  both.posted.credits e3 in
              let pending =
                balance-Shows (view s) n2.pending.0 n2.pending.1 both.pending.debits
                  both.pending.credits e4 in
              let sums = λ (f : AccountState → Amount). group_sums f ids as' v in
              let d = sums (λ a. a.posted_debits) in
              let c = sums (λ a. a.posted_credits) in
              let x = sums (λ a. a.pending_debits) in
              let y = sums (λ a. a.pending_credits) in
              subst (λ b. ShowsSums s b (among ids as')) (ok_unique refl h5)
                (
                  Shows-sizes posted (omega (arith, both.posted.debits_size, d))
                      (omega (arith, both.posted.credits_size, c)),
                  Shows-sizes pending (omega (arith, both.pending.debits_size, d, x))
                      (omega (arith, both.pending.credits_size, c, y)),
                )

roll_up_tree-ids :
    (c : Category) (t : Categories) (as' : List AccountState) {o : Option (List Uuid)}
    {ids : List Uuid} {b : Balances}
    → o ≡ some ids
    → roll_up_tree c t as' o ≡ ok b
    → roll_up_accounts c.normal_side (accounts_of ids t.members) as' ≡ ok b
roll_up_tree-ids c t as' e h = rw e at h

-- Where no chain has more than seven categories and the normal sides of the accounts are valid, the
-- balances that `rollUp` answers for a category show the exact posted and pending sums over the accounts
-- of the category and of all that are below it, on the side of the category.
pub roll_up-ShowsSums :
    (c : Category) (t : Categories) (as' : List AccountState) {b : Balances}
    → AreShallow t.edges
    → All (λ a. valid a.normal_side ≡ true) as'
    → roll_up c t as' ≡ ok b
    → (ids : List Uuid) × ((x : Uuid) → (is_among x ids ≡ true) ↔ Below (children t.edges) c.id x)
      × ShowsSums c.normal_side b (among (accounts_of ids t.members) as')
unfolding roll_up
roll_up-ShowsSums c t as' s v h =
    let (ids, e, below) = tree-Below t.edges c.id s in
    (
      ids,
      below,
      roll_up_accounts-ShowsSums c.normal_side (accounts_of ids t.members) as' v
          (roll_up_tree-ids c t as' e h),
    )

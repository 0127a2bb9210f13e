-- ===== src/Ledger/Categories/RollUp/Groups.antt =====
-- What `rollUp` of internal/modules/ledger/categories.go adds up for each side.
use astrum.Prelude.{
  ℕ, ◌+◌, ◌≤◌, ◌≡◌, refl, ap, ◌∙◌, subst, arith, inl, inr, leb, Bool-cases, List, [], ◌∷◌,
  if◌then◌else◌, ◌/◌, ◌%◌, ◌^◌, leb→le,
}
use astrum.Result.{ok, err, >>=-elim, ok_unique, overflow}
use astrum.Money.Amount.{Amount, add, sub}
use astrum.Money.Amount.Value.{value, max_value}
use astrum.Money.Amount.Totals.{size, IsTotal, add-IsTotal, zero_amount-IsTotal}
use astrum.Ledger.Types.{Side, is_credit, Balance, Balances}
use astrum.Ledger.Account.{AccountState, balance, balances}
use astrum.Ledger.Account.Sound.{IsSound}
use astrum.Ledger.Account.Views.{available_debits, available_credits}
use astrum.Ledger.Categories.RollUp.{sum_of, amount_of, scan_group, Sums, add_balance, add_group}

words-IsTotal :
    (n : ℕ)
    → n ≤ max_value
    → IsTotal (record { hi = n / 2 ^ 64; lo = n % 2 ^ 64 })
      × (size (record { hi = n / 2 ^ 64; lo = n % 2 ^ 64 }) ≡ n)
unfolding value
words-IsTotal n h = ground arith

amount_of-IsTotal : (n : ℕ) {a : Amount} → amount_of n ≡ ok a → IsTotal a × (size a ≡ n)
unfolding amount_of
amount_of-IsTotal n {a} h = elim (Bool-cases (leb n max_value)) [
  | inl e ↦
      subst (λ x. IsTotal x × (size x ≡ n)) (ok_unique refl (rw e at h))
        (words-IsTotal n (leb→le n max_value e))
  | inr e ↦ (let f : err overflow ≡ ok a = rw e at h in absurd (cc))
]

-- A pair of totals of the sizes `d` and `c`.
pub record AreTotals (x : Amount × Amount) (d c : ℕ) : Type 0 where
  pub debits : IsTotal x.0
  pub credits : IsTotal x.1
  pub debits_size : size x.0 ≡ d
  pub credits_size : size x.1 ≡ c

AreTotals-sizes :
    {x : Amount × Amount} {d c d' c' : ℕ} → AreTotals x d c → d ≡ d' → c ≡ c' → AreTotals x d' c'
AreTotals-sizes t e f = record {
  debits = t.debits;
  credits = t.credits;
  debits_size = t.debits_size ∙ e;
  credits_size = t.credits_size ∙ f;
}

add_balance-AreTotals :
    (x : Amount × Amount) (b : Balance) {y : Amount × Amount} (d c d' c' : ℕ)
    → AreTotals x d c
    → AreTotals (b.debits, b.credits) d' c'
    → add_balance x b ≡ ok y
    → AreTotals y (d + d') (c + c')
unfolding add_balance
add_balance-AreTotals x b d c d' c' s t h = >>=-elim (add x.0 b.debits) _ h λ p e1 h1.
    >>=-elim (add x.1 b.credits) _ h1 λ q e2 h2.
      let (tp, np) = add-IsTotal s.debits t.debits e1 in
      let (tq, nq) = add-IsTotal s.credits t.credits e2 in
      subst (λ y. AreTotals y (d + d') (c + c')) (ok_unique refl h2)
        (record {
          debits = tp;
          credits = tq;
          debits_size = omega (arith, np, s.debits_size, t.debits_size);
          credits_size = omega (arith, nq, s.credits_size, t.credits_size);
        })

balance-sides :
    (a : AccountState) (d c : Amount) {b : Balance}
    → balance a d c ≡ ok b
    → (d ≡ b.debits) × (c ≡ b.credits)
unfolding balance
balance-sides a d c h = >>=-elim (if is_credit a.normal_side then sub c d else sub d c) _ h λ x e f.
    (
      ap (λ (b : Balance). b.debits) (ok_unique refl f),
      ap (λ (b : Balance). b.credits) (ok_unique refl f),
    )

-- The posted and the pending balance come to the totals of an account.
abbrev Comes : AccountState → Balances → Type 0
Comes a b =
    AreTotals (b.posted_balance.debits, b.posted_balance.credits) (size a.posted_debits)
      (size a.posted_credits)
    × AreTotals (b.pending_balance.debits, b.pending_balance.credits)
        (size a.posted_debits + size a.pending_debits)
        (size a.posted_credits + size a.pending_credits)

-- the posted and the pending balance of a sound account
balances-Comes : (a : AccountState) {b : Balances} → IsSound a → balances a ≡ ok b → Comes a b
unfolding balances
balances-Comes a {b} s h = >>=-elim (add a.posted_debits a.pending_debits) _ h λ x ex h1.
    >>=-elim (add a.posted_credits a.pending_credits) _ h1 λ y ey h2.
      >>=-elim (available_credits a.normal_side a.posted_credits y a.held) _ h2 λ c ec h3.
        >>=-elim (available_debits a.normal_side a.posted_debits x a.held) _ h3 λ d ed h4.
          >>=-elim (balance a a.posted_debits a.posted_credits) _ h4 λ p ep h5.
            >>=-elim (balance a x y) _ h5 λ q eq h6. >>=-elim (balance a d c) _ h6 λ r er h7.
              let (tx, nx) = add-IsTotal s.posted_debits s.pending_debits ex in
              let (ty, ny) = add-IsTotal s.posted_credits s.pending_credits ey in
              let (pd, pc) = balance-sides a a.posted_debits a.posted_credits ep in
              let (qd, qc) = balance-sides a x y eq in
              subst (Comes a) (ok_unique refl h7) (
                rw (← pd, ← pc)
                    (record {
                      debits = s.posted_debits;
                      credits = s.posted_credits;
                      debits_size = refl;
                      credits_size = refl;
                    }),
                rw (← qd, ← qc)
                    (record { debits = tx; credits = ty; debits_size = nx; credits_size = ny }),
              )

-- A scanned group is sound, with the sums of the columns.
record Scans (as' : List AccountState) (g : AccountState) : Type 0 where
  sound : IsSound g
  posted_debits : size g.posted_debits ≡ sum_of (λ a. a.posted_debits) as'
  posted_credits : size g.posted_credits ≡ sum_of (λ a. a.posted_credits) as'
  pending_debits : size g.pending_debits ≡ sum_of (λ a. a.pending_debits) as'
  pending_credits : size g.pending_credits ≡ sum_of (λ a. a.pending_credits) as'

scan_group-Scans :
    (s : Side) (as' : List AccountState) {g : AccountState} → scan_group s as' ≡ ok g → Scans as' g
unfolding scan_group
scan_group-Scans s as' h = >>=-elim (amount_of (sum_of (λ a. a.posted_debits) as')) _ h λ pd e1 h1.
    >>=-elim (amount_of (sum_of (λ a. a.posted_credits) as')) _ h1 λ pc e2 h2.
      >>=-elim (amount_of (sum_of (λ a. a.pending_debits) as')) _ h2 λ xd e3 h3.
        >>=-elim (amount_of (sum_of (λ a. a.pending_credits) as')) _ h3 λ xc e4 h4.
          >>=-elim (amount_of (sum_of (λ a. a.held) as')) _ h4 λ held e5 h5.
            let (t1, n1) = amount_of-IsTotal _ e1 in
            let (t2, n2) = amount_of-IsTotal _ e2 in
            let (t3, n3) = amount_of-IsTotal _ e3 in
            let (t4, n4) = amount_of-IsTotal _ e4 in
            let (t5, n5) = amount_of-IsTotal _ e5 in
            subst (Scans as') (ok_unique refl h5) (record {
              sound = record {
                posted_debits = t1;
                posted_credits = t2;
                pending_debits = t3;
                pending_credits = t4;
                held = t5;
                overdraft_limit = zero_amount-IsTotal;
              };
              posted_debits = n1;
              posted_credits = n2;
              pending_debits = n3;
              pending_credits = n4;
            })

-- What was added so far: posted and pending totals of these sizes.
pub record Adds (sums : Sums) (d c x y : ℕ) : Type 0 where
  pub posted : AreTotals sums.posted d c
  pub pending : AreTotals sums.pending (d + x) (c + y)

abbrev pub posted_debits_of : List AccountState → ℕ
posted_debits_of as' = sum_of (λ a. a.posted_debits) as'

abbrev pub posted_credits_of : List AccountState → ℕ
posted_credits_of as' = sum_of (λ a. a.posted_credits) as'

abbrev pub pending_debits_of : List AccountState → ℕ
pending_debits_of as' = sum_of (λ a. a.pending_debits) as'

abbrev pub pending_credits_of : List AccountState → ℕ
pending_credits_of as' = sum_of (λ a. a.pending_credits) as'

pub add_group-Adds :
    (s : Side) (as' : List AccountState) (sums : Sums) {next : Sums} (d c x y : ℕ)
    → Adds sums d c x y
    → add_group s as' sums ≡ ok next
    → Adds next
        (d + posted_debits_of as')
        (c + posted_credits_of as')
        (x + pending_debits_of as')
        (y + pending_credits_of as')
unfolding add_group sum_of
add_group-Adds s [] sums d c x y k h =
    subst
      (λ n.
        Adds n (d + posted_debits_of []) (c + posted_credits_of []) (x + pending_debits_of [])
          (y + pending_credits_of []))
      (ok_unique refl h)
      (record {
        posted = AreTotals-sizes k.posted (omega arith) (omega arith);
        pending = AreTotals-sizes k.pending (omega arith) (omega arith);
      })
add_group-Adds s (a ∷ as') sums d c x y k h = >>=-elim (scan_group s (a ∷ as')) _ h λ g e1 h1.
    >>=-elim (balances g) _ h1 λ b e2 h2.
      >>=-elim (add_balance sums.posted b.posted_balance) _ h2 λ posted e3 h3.
        >>=-elim (add_balance sums.pending b.pending_balance) _ h3 λ pending e4 h4.
          >>=-elim (add_balance sums.available b.available_balance) _ h4 λ available e5 h5.
            let scans = scan_group-Scans s (a ∷ as') e1 in
            let (p, q) = balances-Comes g scans.sound e2 in
            subst
              (λ n.
                Adds n (d + posted_debits_of (a ∷ as')) (c + posted_credits_of (a ∷ as'))
                  (x + pending_debits_of (a ∷ as')) (y + pending_credits_of (a ∷ as')))
              (ok_unique refl h5)
              (record {
                posted =
                    AreTotals-sizes
                      (add_balance-AreTotals sums.posted b.posted_balance _ _ _ _ k.posted p e3)
                      (ap (λ n. d + n) scans.posted_debits) (ap (λ n. c + n) scans.posted_credits);
                pending =
                    AreTotals-sizes
                      (add_balance-AreTotals sums.pending b.pending_balance _ _ _ _ k.pending q e4)
                      (omega (arith, scans.posted_debits, scans.pending_debits))
                      (omega (arith, scans.posted_credits, scans.pending_credits));
              })

-- ===== src/Ledger/Account/Views.antt =====
-- The three balances that an account shows, by its totals.
use astrum.Prelude.{ℕ, ◌+◌, ◌≡◌, refl, true, if◌then◌else◌, ◌∙◌, subst}
use astrum.Prelude.Int.{ℤ, sub_ℕ}
use astrum.Result.{Result, ok, >>=-elim, ok_unique}
use astrum.Money.Amount.{Amount, add, sub}
use astrum.Money.Amount.Value.{value}
use astrum.Money.Amount.Totals.{size, IsTotal, add-IsTotal, sub-eq-ok}
use astrum.Ledger.Types.{is_credit, is_debit, valid, Side, debit, credit, other, Balance, Balances}
use astrum.Ledger.Account.{AccountState, balance, balances}
use astrum.Ledger.Account.Sound.{IsSound, available_value}

-- debits less credits on a debit account, and credits less debits on a credit account
abbrev pub net : Side → ℕ → ℕ → ℤ
net s d c = if is_credit s then sub_ℕ c d else sub_ℕ d c

-- A balance with the debits `d` and the credits `c`, and the amount that they come to.
pub record Shows (s : Side) (b : Balance) (d c : ℕ) : Type 0 where
  pub debits : size b.debits ≡ d
  pub credits : size b.credits ≡ c
  pub amount : value b.amount ≡ net s d c

net_amount :
    (s : Side) {d c x : Amount}
    → IsTotal d
    → IsTotal c
    → (if is_credit s then sub c d else sub d c) ≡ ok x
    → value x ≡ net s (size d) (size c)
net_amount debit t u h = (sub-eq-ok t u h).1
net_amount credit t u h = (sub-eq-ok u t h).1
net_amount (other n) t u h = (sub-eq-ok t u h).1

pub balance-Shows :
    (a : AccountState) (d c : Amount) {b : Balance}
    → IsTotal d
    → IsTotal c
    → balance a d c ≡ ok b
    → Shows a.normal_side b (size d) (size c)
unfolding balance
balance-Shows a d c {b} s t h =
    >>=-elim (if is_credit a.normal_side then sub c d else sub d c) _ h λ x e f.
      subst (λ b'. Shows a.normal_side b' (size d) (size c)) (ok_unique refl f)
        (record { debits = refl; credits = refl; amount = net_amount a.normal_side s t e })

-- The side that the available balance adds the pending amounts and the held funds to.
abbrev pub available_debits : Side → Amount → Amount → Amount → Result Amount
available_debits s posted pending held = if is_debit s then ok posted else add pending held

abbrev pub available_credits : Side → Amount → Amount → Amount → Result Amount
available_credits s posted pending held = if is_debit s then add pending held else ok posted

-- The debits and credits of the available balance come to the inflow less the outflow.
available_sides :
    (s : Side) {pd pc x y h d c : Amount}
    → valid s ≡ true
    → IsTotal pd
    → IsTotal pc
    → IsTotal x
    → IsTotal y
    → IsTotal h
    → available_credits s pc y h ≡ ok c
    → available_debits s pd x h ≡ ok d
    → IsTotal d
      × IsTotal c
      × (net s (size d) (size c)
          ≡ sub_ℕ
              (if is_credit s then size pc else size pd)
              (if is_credit s then size x + size h else size y + size h))
available_sides debit v s t u w z e f =
    let (q, n) = add-IsTotal w z e in
    let p = ok_unique refl f in (subst IsTotal p s, q, rw (← p, n))
available_sides credit v s t u w z e f =
    let (q, n) = add-IsTotal u z f in
    let p = ok_unique refl e in (q, subst IsTotal p t, rw (← p, n))
available_sides (other n) v s t u w z e f = absurd (unfold valid in cc)

-- What the three balances show of an account whose totals are `IsSound` and whose normal side is one
-- of the two.
pub record ShowsAccount (a : AccountState) (b : Balances) : Type 0 where
  pub posted : Shows a.normal_side b.posted_balance (size a.posted_debits) (size a.posted_credits)
  pub pending :
      Shows a.normal_side b.pending_balance
        (size a.posted_debits + size a.pending_debits)
        (size a.posted_credits + size a.pending_credits)
  pub available : value b.available_balance.amount ≡ available_value a

-- Of an account with sound totals and a valid normal side, the balances that `balances` answers show
-- the totals' exact sums, and the amount of the available one is what the test of funds goes by.
pub balances-ShowsAccount :
    (a : AccountState) {b : Balances}
    → IsSound a
    → valid a.normal_side ≡ true
    → balances a ≡ ok b
    → ShowsAccount a b
unfolding balances available_value
balances-ShowsAccount a {b} s v h = >>=-elim (add a.posted_debits a.pending_debits) _ h λ x ex h1.
    >>=-elim (add a.posted_credits a.pending_credits) _ h1 λ y ey h2.
      >>=-elim (available_credits a.normal_side a.posted_credits y a.held) _ h2 λ c ec h3.
        >>=-elim (available_debits a.normal_side a.posted_debits x a.held) _ h3 λ d ed h4.
          >>=-elim (balance a a.posted_debits a.posted_credits) _ h4 λ p ep h5.
            >>=-elim (balance a x y) _ h5 λ q eq h6. >>=-elim (balance a d c) _ h6 λ r er h7.
              let (tx, nx) = add-IsTotal s.posted_debits s.pending_debits ex in
              let (ty, ny) = add-IsTotal s.posted_credits s.pending_credits ey in
              let (td, tc, n) =
                available_sides a.normal_side v s.posted_debits s.posted_credits tx ty s.held ec
                  ed in
              subst (ShowsAccount a) (ok_unique refl h7) (record {
                posted =
                    balance-Shows a a.posted_debits a.posted_credits s.posted_debits
                      s.posted_credits ep;
                pending = rw (← nx, ← ny) (balance-Shows a x y tx ty eq);
                available = (balance-Shows a d c td tc er).amount ∙ (rw (nx, ny) at n);
              })

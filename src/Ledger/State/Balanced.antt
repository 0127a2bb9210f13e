-- ===== src/Ledger/State/Balanced.antt =====
-- Double entry: what the loop's totals say of the recorded entries.
use astrum.Prelude.{
  ℕ, ◌+◌, ◌≡◌, refl, Bool, true, List, [], ◌∷◌, ◌++◌, if◌then◌else◌, arith, ◌∙◌, sym, subst, ap,
  not, Bool-cases, inl, inr, ◌&&◌,
}
use mathlib.Core.Path.{ap₂}
use astrum.Prelude.Int.{pos, sub_ℕ, ◌+ℤ◌, ◌-ℤ◌, eqb_ℤ}
use astrum.Prelude.Eq.{text_eq, text_beq_iff, ◌=?◌}
use astrum.Prelude.Map.{Map, lookup, insert, lookup-insert}
use astrum.Result.{ok, >>=-elim, ok_unique}
use astrum.Money.Amount.{Amount, neg, is_zero}
use astrum.Money.Amount.Value.{value, Fits, neg-value, neg-Fits, is_zero-value}
use astrum.Money.Amount.Sum.{add-eq-ok}
use astrum.Money.Amount.Totals.{size, IsTotal, IsTotal-value}
use astrum.Ledger.Types.{
  Currency, Side, debit, credit, other, is_debit, is_credit, valid, TransactionStatus, Posting,
  signed_amount,
}
use astrum.Ledger.Account.{AccountState}
use astrum.Ledger.State.{Progress, total_of, add_entry, add_entries, check_balanced}
use astrum.Ledger.State.Steps.{AllSound}
use astrum.Ledger.State.Entry.{Entered, add_entry-Entered, Entered-AllSound}
use astrum.Ledger.State.Loops.{TotalEntries}

-- The debits and the credits of the entries in a currency.
abbrev pub part_of : Bool → ℕ → ℕ
part_of b n = if b then n else 0

unfoldable pub debits_in : Currency → List Posting → ℕ
debits_in c [] = 0
debits_in c (q ∷ qs) =
    part_of ((q.currency =? c) && is_debit q.side) (size q.amount) + debits_in c qs

unfoldable pub credits_in : Currency → List Posting → ℕ
credits_in c [] = 0
credits_in c (q ∷ qs) =
    part_of ((q.currency =? c) && not (is_debit q.side)) (size q.amount) + credits_in c qs

debits_in-append :
    (c : Currency) (ps qs : List Posting) → debits_in c (ps ++ qs) ≡ debits_in c ps + debits_in c qs
unfolding debits_in
debits_in-append c [] qs = omega arith
debits_in-append c (p ∷ ps) qs = omega (arith, debits_in-append c ps qs)

credits_in-append :
    (c : Currency) (ps qs : List Posting)
    → credits_in c (ps ++ qs) ≡ credits_in c ps + credits_in c qs
unfolding credits_in
credits_in-append c [] qs = omega arith
credits_in-append c (p ∷ ps) qs = omega (arith, credits_in-append c ps qs)

-- An entry on one of the two sides counts for a debit, and against a credit.
signed_amount-value :
    (p : Posting)
    → IsTotal p.amount
    → valid p.side ≡ true
    → Fits (signed_amount p)
      × (value (signed_amount p)
          ≡ (if is_debit p.side then pos (size p.amount) else pos 0 -ℤ pos (size p.amount)))
unfolding signed_amount valid
signed_amount-value p t v = sides p.side p.amount t v
  where
    sides :
        (s : Side) (a : Amount)
        → IsTotal a
        → valid s ≡ true
        → Fits (if is_credit s then neg a else a)
          × (value (if is_credit s then neg a else a)
              ≡ (if is_debit s then pos (size a) else pos 0 -ℤ pos (size a)))
    sides debit a t' v' = (t'.fits, IsTotal-value t')
    sides credit a t' v' = (
      neg-Fits a t'.fits,
      neg-value a t'.fits (omega (arith, t'.nonneg)) ∙ ap (λ z. pos 0 -ℤ z) (IsTotal-value t'),
    )
    sides (other n) a t' v' = absurd (cc)

-- In each currency the running total is the recorded debits less the recorded credits.
abbrev pub Tracks : Map Currency Amount → List Posting → Type 0
Tracks m qs =
    (c : Currency)
    → Fits (total_of c m) × (value (total_of c m) ≡ sub_ℕ (debits_in c qs) (credits_in c qs))

total_of-insert :
    (c k : Currency) (t : Amount) (m : Map Currency Amount)
    → total_of c (insert k t m) ≡ (if k =? c then t else total_of c m)
total_of-insert c k t m = ground (arith, lookup-insert c k t m)

moved_total :
    (b : Bool) (d e n : ℕ)
    → sub_ℕ d e +ℤ (if b then pos n else pos 0 -ℤ pos n)
      ≡ sub_ℕ (d + (part_of b n + 0)) (e + (part_of (not b) n + 0))
unfolding ◌+ℤ◌ ◌-ℤ◌
moved_total b d e n = ground arith

zero_parts : (d e : ℕ) → sub_ℕ d e ≡ sub_ℕ (d + (0 + 0)) (e + (0 + 0))
zero_parts d e = ground arith

abbrev pub ValidSides : List Posting → Type 0
ValidSides [] = Unit
ValidSides (p ∷ ps) = (valid p.side ≡ true) × ValidSides ps

module _ {status : TransactionStatus} {p : Posting} {g g' : Progress} {a b : AccountState}
    {q : Posting} (t : IsTotal p.amount) (v : valid p.side ≡ true)
    (k : Entered status p g g' a b q) where
  debits_after :
      (c : Currency)
      → debits_in c g'.recorded
        ≡ debits_in c g.recorded
          + (part_of ((a.currency =? c) && is_debit p.side) (size p.amount) + 0)
  unfolding debits_in
  debits_after c =
      ap (debits_in c) k.recorded
      ∙ debits_in-append c g.recorded (q ∷ [])
      ∙ ap (λ x. debits_in c g.recorded + debits_in c (x ∷ [])) k.books.entry

  credits_after :
      (c : Currency)
      → credits_in c g'.recorded
        ≡ credits_in c g.recorded
          + (part_of ((a.currency =? c) && not (is_debit p.side)) (size p.amount) + 0)
  unfolding credits_in
  credits_after c =
      ap (credits_in c) k.recorded
      ∙ credits_in-append c g.recorded (q ∷ [])
      ∙ ap (λ x. credits_in c g.recorded + credits_in c (x ∷ [])) k.books.entry

  totals_after :
      (c : Currency)
      → total_of c g'.totals ≡ (if a.currency =? c then k.total else total_of c g.totals)
  totals_after c = ap (total_of c) k.totals ∙ total_of-insert c a.currency k.total g.totals

  add_entry-Tracks : Tracks g.totals g.recorded → Tracks g'.totals g'.recorded
  add_entry-Tracks track c = elim (Bool-cases (a.currency =? c)) [
    | inl here ↦
        let (f, e) = signed_amount-value p t v in
        let (w, n) =
          add-eq-ok (total_of a.currency g.totals) (signed_amount p) (track a.currency).0 f
            k.summed in
        let base =
          ap (λ x. value (total_of x g.totals)) ((text_beq_iff a.currency c).0 here)
          ∙ (track c).1 in
        rw (totals_after c, debits_after c, credits_after c, here)
          (
            w,
            n
                ∙ ap₂ ◌+ℤ◌ base e
                ∙ moved_total (is_debit p.side) (debits_in c g.recorded) (credits_in c g.recorded)
                    (size p.amount),
          )
    | inr away ↦
        rw (totals_after c, debits_after c, credits_after c, away)
          ((track c).0, (track c).1 ∙ zero_parts (debits_in c g.recorded) (credits_in c g.recorded))
  ]

pub add_entries-Tracks :
    (status : TransactionStatus) (ps : List Posting) (g : Progress) {g' : Progress}
    → AllSound g.staged
    → TotalEntries ps
    → ValidSides ps
    → add_entries status ps g ≡ ok g'
    → Tracks g.totals g.recorded
    → Tracks g'.totals g'.recorded
unfolding add_entries
add_entries-Tracks status [] g {g'} s t v h k =
    subst (λ (x : Progress). Tracks x.totals x.recorded) (ok_unique refl h) k
add_entries-Tracks status (p ∷ ps) g {g'} s t v h k = >>=-elim (add_entry status p g) _ h λ g1 e h1.
    let (a, b, q, en) = add_entry-Entered status p g s t.0 e in
    add_entries-Tracks status ps g1 (Entered-AllSound en s) t.1 v.1 h1
      (add_entry-Tracks t.0 v.0 en k)

check_balanced-total_of :
    (m : Map Currency Amount) (c : Currency)
    → check_balanced m ≡ ok tt
    → is_zero (total_of c m) ≡ true
unfolding check_balanced lookup is_zero
check_balanced-total_of [] c h = refl
check_balanced-total_of ((k, t) ∷ m) c h = ground (arith, check_balanced-total_of m c)

zero_difference : (d e : ℕ) → eqb_ℤ (sub_ℕ d e) (pos 0) ≡ true → d ≡ e
zero_difference d e h = ground arith

-- Entries that pass the test of balance have as much on the debit side as on the credit side, in each
-- currency.
pub balanced :
    (m : Map Currency Amount) (qs : List Posting)
    → Tracks m qs
    → check_balanced m ≡ ok tt
    → (c : Currency) → debits_in c qs ≡ credits_in c qs
balanced m qs k h c = zero_difference (debits_in c qs) (credits_in c qs) (
    ap (λ z. eqb_ℤ z (pos 0)) (sym (k c).1)
    ∙ sym (is_zero-value (total_of c m) (k c).0)
    ∙ check_balanced-total_of m c h)

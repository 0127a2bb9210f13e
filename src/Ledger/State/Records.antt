-- ===== src/Ledger/State/Records.antt =====
-- `(*accountState).record` and the release of held funds, against the specification.
use astrum.Prelude.{◌≡◌, refl, true, false, some, arith, ◌∙◌, sym, subst, Bool-cases, inl, inr}
use astrum.Prelude.Int.{pos, ltb_ℤ, sub_ℕ}
use astrum.Result.{Result, ok, ◌>>=◌, >>=-elim, ok_unique, fail_if, fail_if-eq-ok, exceeds_held}
use astrum.Money.Amount.{Amount, add, sub, cmp}
use astrum.Money.Amount.Value.{value}
use astrum.Money.Amount.Totals.{size, IsTotal, add-IsTotal, sub-IsTotal, sub-eq-ok, cmp_totals}
use astrum.Ledger.Types.{is_debit, TransactionStatus, is_pending, Posting}
use astrum.Ledger.Account.{AccountState, posted_net}
use astrum.Ledger.Account.Sound.{IsSound}
use astrum.Ledger.State.{release_amount, record_posting}
use astrum.Ledger.State.Steps.{SameTerms, not_ltb→le}
use astrum.Ledger.State.Tally.{tally, book, free}

-- The account `b` and the entry `q` that come of recording the entry `p` on the account `a`.
pub record Books (p : Posting) (status : TransactionStatus) (a b : AccountState) (q : Posting)
    : Type 0 where
  pub booked : book status p.side (size p.amount) (tally a) ≡ tally b
  pub terms : SameTerms a b
  pub sound : IsSound b
  pub entry : q ≡ record p { balance_after = q.balance_after }
  -- the running balance of a posted entry
  pub running :
      is_pending status ≡ false
      → value q.balance_after ≡ sub_ℕ (size b.posted_debits) (size b.posted_credits)

abbrev recorded : AccountState × Posting → Result (AccountState × Posting)
recorded r = ok r

module _ (p : Posting) (status : TransactionStatus) (a : AccountState) (s : IsSound a)
    (t : IsTotal p.amount) where
  pending_debit :
      {b : AccountState} {q : Posting}
      → is_pending status ≡ true
      → is_debit p.side ≡ true
      → (add a.pending_debits p.amount >>= λ x. recorded (record a { pending_debits = x }, p))
        ≡ ok (b, q)
      → Books p status a b q
  unfolding book
  pending_debit {b} {q} pend deb h = >>=-elim (add a.pending_debits p.amount) _ h λ x ex h1.
      let (w, n) = add-IsTotal s.pending_debits t ex in
      subst (λ (r : AccountState × Posting). Books p status a r.0 r.1) (ok_unique refl h1)
        (record {
          booked = ground arith;
          terms = ground arith;
          sound = ground arith;
          entry = refl;
          running = λ f. absurd (cc);
        })

  pending_credit :
      {b : AccountState} {q : Posting}
      → is_pending status ≡ true
      → is_debit p.side ≡ false
      → (add a.pending_credits p.amount >>= λ x. recorded (record a { pending_credits = x }, p))
        ≡ ok (b, q)
      → Books p status a b q
  unfolding book
  pending_credit {b} {q} pend deb h = >>=-elim (add a.pending_credits p.amount) _ h λ x ex h1.
      let (w, n) = add-IsTotal s.pending_credits t ex in
      subst (λ (r : AccountState × Posting). Books p status a r.0 r.1) (ok_unique refl h1)
        (record {
          booked = ground arith;
          terms = ground arith;
          sound = ground arith;
          entry = refl;
          running = λ f. absurd (cc);
        })

  posted_debit :
      {b : AccountState} {q : Posting}
      → is_pending status ≡ false
      → is_debit p.side ≡ true
      → (add a.posted_debits p.amount >>= λ x. posted_net (record a { posted_debits = x }) >>= λ n.
          recorded (record a { posted_debits = x }, record p { balance_after = n }))
        ≡ ok (b, q)
      → Books p status a b q
  unfolding book posted_net
  posted_debit {b} {q} pend deb h = >>=-elim (add a.posted_debits p.amount) _ h λ x ex h1.
      >>=-elim (sub x a.posted_credits) _ h1 λ y ey h2.
        let (w, n) = add-IsTotal s.posted_debits t ex in
        subst (λ (r : AccountState × Posting). Books p status a r.0 r.1) (ok_unique refl h2)
          (record {
            booked = ground arith;
            terms = ground arith;
            sound = ground arith;
            entry = refl;
            running = λ f. (sub-eq-ok w s.posted_credits ey).1;
          })

  posted_credit :
      {b : AccountState} {q : Posting}
      → is_pending status ≡ false
      → is_debit p.side ≡ false
      → (add a.posted_credits p.amount >>= λ x.
          posted_net (record a { posted_credits = x }) >>= λ n.
          recorded (record a { posted_credits = x }, record p { balance_after = n }))
        ≡ ok (b, q)
      → Books p status a b q
  unfolding book posted_net
  posted_credit {b} {q} pend deb h = >>=-elim (add a.posted_credits p.amount) _ h λ x ex h1.
      >>=-elim (sub a.posted_debits x) _ h1 λ y ey h2.
        let (w, n) = add-IsTotal s.posted_credits t ex in
        subst (λ (r : AccountState × Posting). Books p status a r.0 r.1) (ok_unique refl h2)
          (record {
            booked = ground arith;
            terms = ground arith;
            sound = ground arith;
            entry = refl;
            running = λ f. (sub-eq-ok s.posted_debits w ey).1;
          })

  -- Recording an entry is its booking, on each of the four totals that it may go to.
  pub record_posting-Books :
      {b : AccountState} {q : Posting}
      → record_posting p status a ≡ ok (b, q)
      → Books p status a b q
  unfolding record_posting
  record_posting-Books h = elim (Bool-cases (is_pending status)) [
    | inl pend ↦ elim (Bool-cases (is_debit p.side)) [
      | inl deb ↦ pending_debit pend deb (rw (pend, deb) at h)
      | inr cred ↦ pending_credit pend cred (rw (pend, cred) at h)
    ]
    | inr post ↦ elim (Bool-cases (is_debit p.side)) [
      | inl deb ↦ posted_debit post deb (rw (post, deb) at h)
      | inr cred ↦ posted_credit post cred (rw (post, cred) at h)
    ]
  ]

-- Releasing held funds.
pub release_amount-free :
    (a : AccountState) (n : Amount) {x : Amount}
    → IsSound a
    → IsTotal n
    → release_amount a.held n ≡ ok x
    → IsTotal x × (free (size n) (tally a) ≡ some (tally (record a { held = x })))
unfolding release_amount free
release_amount-free a n {x} s t h =
    >>=-elim (fail_if (ltb_ℤ (pos 0) (cmp n a.held)) exceeds_held) _ h λ u eu h1.
      let within =
        not_ltb→le (size a.held) (size n)
          (sym (cmp_totals t s.held) ∙ fail_if-eq-ok _ exceeds_held eu) in
      let (w, m) = sub-IsTotal s.held t within h1 in (w, ground arith)

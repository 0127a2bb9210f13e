-- ===== src/Ledger/State/Steps.antt =====
-- One round of each loop of a transition, against the specification.
use astrum.Prelude.{
  ℕ, ◌-◌, ◌≤◌, ◌≡◌, refl, false, ◌==◌, ltb, some, if◌then◌else◌, arith, ◌∙◌, sym, subst, ap,
}
use astrum.Prelude.Int.{pos, ltb_ℤ}
use astrum.Prelude.Eq.{nat_eq}
use astrum.Result.{ok, >>=-elim, ok_unique, fail_if, fail_if-eq-ok, exceeds_pending}
use astrum.Money.Amount.{Amount, sub, cmp}
use astrum.Money.Amount.Totals.{size, IsTotal, sub-IsTotal, cmp_totals}
use astrum.Ledger.Types.{Uuid, Side, Posting}
use astrum.Ledger.Account.{AccountState}
use astrum.Ledger.Account.Sound.{IsSound}
use astrum.Ledger.State.{
  StagedAccounts, write, staged_account, pending_total, set_pending_total, unpend_one,
}
use astrum.Ledger.State.Staged.{current, current-write, Fetched, staged_account-Fetched}
use astrum.Ledger.State.Tally.{tally, unbook}

-- What no transition changes of an account.
pub record SameTerms (a b : AccountState) : Type 0 where
  pub id : b.id ≡ a.id
  pub ledger_id : b.ledger_id ≡ a.ledger_id
  pub currency : b.currency ≡ a.currency
  pub normal_side : b.normal_side ≡ a.normal_side
  pub status : b.status ≡ a.status
  pub allow_negative : b.allow_negative ≡ a.allow_negative
  pub overdraft_limit : b.overdraft_limit ≡ a.overdraft_limit
  pub version : b.version ≡ a.version
  pub original_version : b.original_version ≡ a.original_version

pub SameTerms-refl : (a : AccountState) → SameTerms a a
SameTerms-refl a = ground arith

pub SameTerms-trans : {a b c : AccountState} → SameTerms a b → SameTerms b c → SameTerms a c
SameTerms-trans s t = ground arith

abbrev pub AllSound : StagedAccounts → Type 0
AllSound st = (j : Uuid) (a : AccountState) → current j st ≡ some a → IsSound a

-- The account `id` alone is changed, from `a` to `b`; it stays sound, and keeps its terms.
pub record Changes (id : Uuid) (st st' : StagedAccounts) (a b : AccountState) : Type 0 where
  pub found : current id st ≡ some a
  pub base : st'.base ≡ st.base
  pub written : (j : Uuid) → current j st' ≡ (if id == j then some b else current j st)
  pub terms : SameTerms a b
  pub sound : IsSound b

pub Changes-of-write :
    {id : Uuid} {st st' : StagedAccounts} {a b : AccountState}
    → Fetched id st a st'
    → SameTerms a b
    → IsSound b
    → Changes id st (write id b st') a b
Changes-of-write {id} {st} {st'} {a} {b} f t s = record {
  found = f.found;
  base = f.base;
  written = λ j. current-write j id b st' ∙ ap (λ o. if id == j then some b else o) (f.same j);
  terms = t;
  sound = s;
}

pub not_ltb→le : (n m : ℕ) → ltb n m ≡ false → m ≤ n
not_ltb→le n m h = ground arith

set_pending-terms :
    (s : Side) (t : Amount) (a : AccountState) → SameTerms a (set_pending_total s t a)
set_pending-terms s t a = ground arith

set_pending-IsSound :
    (s : Side) (t : Amount) (a : AccountState)
    → IsTotal t
    → IsSound a
    → IsSound (set_pending_total s t a)
set_pending-IsSound s t a h k = ground arith

pending_total-IsTotal : (s : Side) (a : AccountState) → IsSound a → IsTotal (pending_total s a)
pending_total-IsTotal s a k = ground arith

unbook-set_pending :
    (s : Side) (n : ℕ) (t : Amount) (a : AccountState)
    → n ≤ size (pending_total s a)
    → size t ≡ size (pending_total s a) - n
    → unbook s n (tally a) ≡ some (tally (set_pending_total s t a))
unfolding unbook
unbook-set_pending s n t a h e = ground arith

-- Taking a pending entry back.
pub unpend_one-unbook :
    (p : Posting) (st : StagedAccounts) {st' : StagedAccounts}
    → AllSound st
    → IsTotal p.amount
    → unpend_one p st ≡ ok st'
    → (a : AccountState) × (b : AccountState) × Changes p.account_id st st' a b
      × (unbook p.side (size p.amount) (tally a) ≡ some (tally b))
unfolding unpend_one
unpend_one-unbook p st {st'} all t h = >>=-elim (staged_account p.account_id st) _ h λ r e h1.
    >>=-elim (fail_if (ltb_ℤ (pos 0) (cmp p.amount (pending_total p.side r.0))) exceeds_pending) _
      h1
      λ u eu h2. >>=-elim (sub (pending_total p.side r.0) p.amount) _ h2 λ total et h3.
        let f = staged_account-Fetched p.account_id st e in
        let s = all p.account_id r.0 f.found in
        let v = pending_total-IsTotal p.side r.0 s in
        let within =
          not_ltb→le (size (pending_total p.side r.0)) (size p.amount)
            (sym (cmp_totals t v) ∙ fail_if-eq-ok _ exceeds_pending eu) in
        let (w, n) = sub-IsTotal v t within et in
        (
          r.0,
          set_pending_total p.side total r.0,
          subst (λ x. Changes p.account_id st x r.0 (set_pending_total p.side total r.0))
              (ok_unique refl h3)
              (Changes-of-write f (set_pending-terms p.side total r.0)
                (set_pending-IsSound p.side total r.0 w s)),
          unbook-set_pending p.side (size p.amount) total r.0 within n,
        )

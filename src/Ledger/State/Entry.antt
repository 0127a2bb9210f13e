-- ===== src/Ledger/State/Entry.antt =====
-- One round of the loop over a transition's entries, by what it checks and what it changes.
use astrum.Prelude.{
  ◌≡◌, refl, Bool, true, false, ◌==◌, some, [], ◌∷◌, ◌++◌, if◌then◌else◌, arith, subst, not, ◌&&◌,
  ==_iff,
}
use astrum.Prelude.Eq.{nat_eq, text_eq, text_beq_iff, ◌=?◌}
use astrum.Prelude.Map.{insert}
use astrum.Result.{ok, >>=-elim, ok_unique, fail_if, fail_if-eq-ok, cross_ledger, invalid}
use astrum.Money.Amount.{Amount, add}
use astrum.Money.Amount.Totals.{IsTotal}
use astrum.Ledger.Types.{Uuid, Currency, TransactionStatus, Posting, signed_amount}
use astrum.Ledger.Account.{AccountState, check_open, is_open}
use astrum.Ledger.State.{
  staged_account, add_entry, Progress, version_check, total_of, is_empty, record_posting,
}
use astrum.Ledger.State.Staged.{staged_account-Fetched}
use astrum.Ledger.State.Steps.{AllSound, Changes, Changes-of-write}
use astrum.Ledger.State.Records.{Books, record_posting-Books}
use astrum.Ledger.State.Tally.{tally}
use astrum.Ledger.State.Evolves.{Evolves-of-Changes}

-- The entry as it is recorded: in its account's currency.
abbrev pub in_currency : Posting → AccountState → Posting
in_currency p a = record p { currency = a.currency }

-- The entry `p` went through: on the account `a`, which is now `b`, as the entry `q`.
pub record Entered (status : TransactionStatus) (p : Posting) (g g' : Progress) (a b : AccountState)
    (q : Posting) : Type 0 where
  pub changes : Changes p.account_id g.staged g'.staged a b
  pub books : Books (in_currency p a) status a b q
  pub is_open_account : is_open a.status ≡ true
  pub pinned : g'.pinned ≡ true
  pub ledger : a.ledger_id ≡ g'.ledger
  pub kept : g.pinned ≡ true → g'.ledger ≡ g.ledger
  pub currency : is_empty p.currency ≡ false → p.currency ≡ a.currency
  pub total : Amount
  pub summed : add (total_of a.currency g.totals) (signed_amount p) ≡ ok total
  pub totals : g'.totals ≡ insert a.currency total g.totals
  pub recorded : g'.recorded ≡ g.recorded ++ q ∷ []
  pub versions : version_check p.lock_version a g ≡ ok g'.version_err

same_ledger :
    (pinned : Bool) (l m : Uuid)
    → (pinned && not (l == m)) ≡ false
    → (l ≡ (if pinned then m else l)) × (pinned ≡ true → (if pinned then m else l) ≡ m)
same_ledger pinned l m h = ground (arith, ==_iff l m)

same_currency :
    (c d : Currency) → (not (is_empty c) && not (c =? d)) ≡ false → is_empty c ≡ false → c ≡ d
same_currency c d h e = ground (arith, text_beq_iff c d)

opened : (a : AccountState) → check_open a ≡ ok tt → is_open a.status ≡ true
unfolding check_open
opened a h = ground arith

pub add_entry-Entered :
    (status : TransactionStatus) (p : Posting) (g : Progress) {g' : Progress}
    → AllSound g.staged
    → IsTotal p.amount
    → add_entry status p g ≡ ok g'
    → (a : AccountState) × (b : AccountState) × (q : Posting) × Entered status p g g' a b q
unfolding add_entry
add_entry-Entered status p g {g'} all t h =
    >>=-elim (staged_account p.account_id g.staged) _ h λ r e h1.
      >>=-elim (check_open r.0) _ h1 λ u eu h2.
        >>=-elim (version_check p.lock_version r.0 g) _ h2 λ v ev h3.
          >>=-elim (fail_if (g.pinned && not (r.0.ledger_id == g.ledger)) cross_ledger) _ h3
            λ u2 eu2 h4.
              >>=-elim
                (fail_if (not (is_empty p.currency) && not (p.currency =? r.0.currency)) invalid) _
                h4
                λ u3 eu3 h5.
                  >>=-elim (add (total_of r.0.currency g.totals) (signed_amount p)) _ h5
                    λ total et h6.
                      >>=-elim (record_posting (in_currency p r.0) status r.0) _ h6 λ w ew h7.
                        let f = staged_account-Fetched p.account_id g.staged e in
                        let s = all p.account_id r.0 f.found in
                        let k = record_posting-Books (in_currency p r.0) status r.0 s t ew in
                        let l =
                          same_ledger g.pinned r.0.ledger_id g.ledger
                            (fail_if-eq-ok _ cross_ledger eu2) in
                        (
                          r.0,
                          w.0,
                          w.1,
                          subst (λ x. Entered status p g x r.0 w.0 w.1) (ok_unique refl h7)
                              (record {
                                changes = Changes-of-write f k.terms k.sound;
                                books = k;
                                is_open_account = opened r.0 eu;
                                pinned = refl;
                                ledger = l.0;
                                kept = l.1;
                                currency =
                                    same_currency p.currency r.0.currency
                                      (fail_if-eq-ok _ invalid eu3);
                                total = total;
                                summed = et;
                                totals = refl;
                                recorded = refl;
                                versions = ev;
                              }),
                        )

pub Entered-AllSound :
    {status : TransactionStatus} {p : Posting} {g g' : Progress} {a b : AccountState} {q : Posting}
    → Entered status p g g' a b q
    → AllSound g.staged
    → AllSound g'.staged
Entered-AllSound {b = b} k s = (Evolves-of-Changes (λ u. some (tally b)) k.changes refl).sound s

-- ===== src/Ledger/State/Loops.antt =====
-- The three loops of a transition over the staged accounts, against the specification.
use astrum.Prelude.{
  ◌≡◌, refl, Bool, true, false, ◌==◌, some, List, [], ◌∷◌, if◌then◌else◌, subst, ap,
}
use astrum.Prelude.Map.{Map}
use astrum.Result.{ok, >>=-elim, ok_unique}
use astrum.Money.Amount.{Amount}
use astrum.Money.Amount.Totals.{size, IsTotal}
use astrum.Ledger.Types.{Uuid, TransactionStatus, Posting}
use astrum.Ledger.Account.{AccountState}
use astrum.Ledger.Account.Sound.{IsSound}
use astrum.Ledger.State.{
  StagedAccounts, write, staged_account, unpend_one, unpend, add_entry, add_entries, Progress,
  release_amount, release_all,
}
use astrum.Ledger.State.Staged.{staged_account-Fetched}
use astrum.Ledger.State.Tally.{
  Tally, book, unbook, free, then_on, ◌>=>◌, book_all, unbook_all, free_all,
}
use astrum.Ledger.State.Steps.{AllSound, SameTerms, Changes-of-write, unpend_one-unbook}
use astrum.Ledger.State.Records.{release_amount-free}
use astrum.Ledger.State.Evolves.{
  Evolves, Evolves-refl, Evolves-trans, Evolves-of-Changes, Evolves-eq,
}
use astrum.Ledger.State.Entry.{add_entry-Entered}

abbrev pub TotalEntries : List Posting → Type 0
TotalEntries [] = Unit
TotalEntries (p ∷ ps) = IsTotal p.amount × TotalEntries ps

abbrev pub TotalReleases : Map Uuid Amount → Type 0
TotalReleases [] = Unit
TotalReleases ((_, n) ∷ m) = IsTotal n × TotalReleases m

pub unpend-Evolves :
    (ps : List Posting) (st : StagedAccounts) {st' : StagedAccounts}
    → AllSound st
    → TotalEntries ps
    → unpend ps st ≡ ok st'
    → Evolves (λ j. unbook_all j ps) st st'
unfolding unpend unbook_all
unpend-Evolves [] st {st'} s t h =
    subst (λ x. Evolves (λ j u. some u) st x) (ok_unique refl h) (Evolves-refl st)
unpend-Evolves (p ∷ ps) st {st'} s t h = >>=-elim (unpend_one p st) _ h λ st1 e h1.
    let (a, b, c, u) = unpend_one-unbook p st s t.0 e in
    let first = Evolves-of-Changes (unbook p.side (size p.amount)) c u in
    Evolves-trans first (unpend-Evolves ps st1 (first.sound s) t.1 h1)

some_book :
    (b : Bool) (f : Tally → Tally) (t : Tally)
    → then_on b (λ u. some (f u)) t ≡ some (if b then f t else t)
some_book true f t = refl
some_book false f t = refl

pub add_entries-Evolves :
    (status : TransactionStatus) (ps : List Posting) (g : Progress) {g' : Progress}
    → AllSound g.staged
    → TotalEntries ps
    → add_entries status ps g ≡ ok g'
    → Evolves (λ j t. some (book_all j status ps t)) g.staged g'.staged
unfolding add_entries book_all
add_entries-Evolves status [] g {g'} s t h =
    subst (λ (x : Progress). Evolves (λ j u. some u) g.staged x.staged) (ok_unique refl h)
      (Evolves-refl g.staged)
add_entries-Evolves status (p ∷ ps) g {g'} s t h = >>=-elim (add_entry status p g) _ h λ g1 e h1.
    let (a, b, q, k) = add_entry-Entered status p g s t.0 e in
    let first =
      Evolves-of-Changes (λ u. some (book status p.side (size p.amount) u)) k.changes
        (ap some k.books.booked) in
    Evolves-eq
      (λ j u.
        ap (λ o. o >=> (λ v. some (book_all j status ps v)))
          (some_book (p.account_id == j) (book status p.side (size p.amount)) u))
      (Evolves-trans first (add_entries-Evolves status ps g1 (first.sound s) t.1 h1))

held-IsSound :
    (a : AccountState) (x : Amount) → IsTotal x → IsSound a → IsSound (record a { held = x })
held-IsSound a x t s = record {
  posted_debits = s.posted_debits;
  posted_credits = s.posted_credits;
  pending_debits = s.pending_debits;
  pending_credits = s.pending_credits;
  held = t;
  overdraft_limit = s.overdraft_limit;
}

held-SameTerms : (a : AccountState) (x : Amount) → SameTerms a (record a { held = x })
held-SameTerms a x = record {
  id = refl;
  ledger_id = refl;
  currency = refl;
  normal_side = refl;
  status = refl;
  allow_negative = refl;
  overdraft_limit = refl;
  version = refl;
  original_version = refl;
}

pub release_all-Evolves :
    (m : Map Uuid Amount) (st : StagedAccounts) {st' : StagedAccounts}
    → AllSound st
    → TotalReleases m
    → release_all m st ≡ ok st'
    → Evolves (λ j. free_all j m) st st'
unfolding release_all free_all
release_all-Evolves [] st {st'} s t h =
    subst (λ x. Evolves (λ j u. some u) st x) (ok_unique refl h) (Evolves-refl st)
release_all-Evolves ((id, n) ∷ m) st {st'} s t h = >>=-elim (staged_account id st) _ h λ r e h1.
    >>=-elim (release_amount r.0.held n) _ h1 λ x ex h2.
      let f = staged_account-Fetched id st e in
      let v = s id r.0 f.found in
      let (w, u) = release_amount-free r.0 n v t.0 ex in
      let first =
        Evolves-of-Changes (free (size n))
          (Changes-of-write f (held-SameTerms r.0 x) (held-IsSound r.0 x w v)) u in
      Evolves-trans first
        (release_all-Evolves m (write id (record r.0 { held = x }) r.1) (first.sound s) t.1 h2)

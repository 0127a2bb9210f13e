-- ===== src/Ledger/State/Refines.antt =====
-- `(*ledgerState).transition` implements its specification.
use astrum.Prelude.{
  ◌+◌, ◌%◌, ◌≡◌, refl, ◌⊎◌, inl, inr, none, some, List, [], ◌∷◌, ◌∙◌, sym, subst, ap, Option-cases,
  some_unique, Bool-cases, ◌==◌,
}
use astrum.Prelude.Eq.{nat_eq}
use astrum.Prelude.Map.{lookup}
use astrum.Result.{ok, >>=-elim, ok_unique}
use astrum.Money.Words.{word}
use astrum.Ledger.Types.{Uuid, Posting}
use astrum.Ledger.Account.{AccountState, check_funds}
use astrum.Ledger.Account.Sound.{IsSound, available_value}
use astrum.Ledger.Account.Funds.{Covered, check_funds-Covered}
use astrum.Ledger.State.{
  Accounts, StagedAccounts, BalanceChange, Progress, unpend, add_entries, start, check_balanced,
  release_all, fail_with, check_resulting_locks, commit, transition, bump,
}
use astrum.Ledger.State.Staged.{current}
use astrum.Ledger.State.Tally.{tally, change, ◌>=>◌, unbook_all, book_all, free_all}
use astrum.Ledger.State.Steps.{AllSound}
use astrum.Ledger.State.Evolves.{Evolves, Evolves-trans, Becomes}
use astrum.Ledger.State.Loops.{
  TotalEntries, TotalReleases, unpend-Evolves, add_entries-Evolves, release_all-Evolves,
}
use astrum.Ledger.State.Commit.{Committed, commit-Committed}

abbrev pub AreSound : Accounts → Type 0
AreSound m = (j : Uuid) (a : AccountState) → lookup j m ≡ some a → IsSound a

abbrev pub EachSound : Accounts → Type 0
EachSound [] = Unit
EachSound ((_, a) ∷ m) = IsSound a × EachSound m

pub EachSound-AreSound : (m : Accounts) → EachSound m → AreSound m
unfolding lookup
EachSound-AreSound [] s j a e = absurd (cc)
EachSound-AreSound ((id, x) ∷ m) s j a e = elim (Bool-cases (id == j)) [
  | inl here ↦ subst IsSound (some_unique refl (rw here at e)) s.0
  | inr away ↦ EachSound-AreSound m s.1 j a (rw away at e)
]

-- The amounts of the change are totals: none is negative, and none has more than 38 digits.
pub record TotalAmounts (c : BalanceChange) : Type 0 where
  pub unpended : TotalEntries c.unpend_postings
  pub added : TotalEntries c.add_postings
  pub released : TotalReleases c.releases

-- The steps of a transition that succeeds.
pub record Run (c : BalanceChange) (accounts : Accounts) (r : Accounts × Uuid × List Posting)
    : Type 0 where
  pub unpended : StagedAccounts
  pub entered : Progress
  pub released : StagedAccounts
  pub unpending : unpend c.unpend_postings (record { base = accounts; changed = [] }) ≡ ok unpended
  pub entering : add_entries c.status c.add_postings (start accounts c unpended) ≡ ok entered
  pub balanced : check_balanced entered.totals ≡ ok tt
  pub releasing : release_all c.releases entered.staged ≡ ok released
  pub versions : fail_with entered.version_err ≡ ok tt
  pub locks : check_resulting_locks entered.recorded released.changed ≡ ok r.2
  pub committing : commit accounts released.changed ≡ ok r.0
  pub ledger : r.1 ≡ entered.ledger

pub transition-Run :
    (c : BalanceChange) (accounts : Accounts) {r : Accounts × Uuid × List Posting}
    → transition c accounts ≡ ok r
    → Run c accounts r
unfolding transition
transition-Run c accounts {r} h =
    >>=-elim (unpend c.unpend_postings (record { base = accounts; changed = [] })) _ h λ st e h1.
      >>=-elim (add_entries c.status c.add_postings (start accounts c st)) _ h1 λ g eg h2.
        >>=-elim (check_balanced g.totals) _ h2 λ u eu h3.
          >>=-elim (release_all c.releases g.staged) _ h3 λ st' er h4.
            >>=-elim (fail_with g.version_err) _ h4 λ v ev h5.
              >>=-elim (check_resulting_locks g.recorded st'.changed) _ h5 λ ps ep h6.
                >>=-elim (commit accounts st'.changed) _ h6 λ m em h7.
                  subst (Run c accounts) (ok_unique refl h7) (record {
                    unpended = st;
                    entered = g;
                    released = st';
                    unpending = e;
                    entering = eg;
                    balanced = eu;
                    releasing = er;
                    versions = ev;
                    locks = ep;
                    committing = em;
                    ledger = refl;
                  })

-- What a transition does to one account: `a` is now `b`.
pub record Changed (j : Uuid) (c : BalanceChange) (a b : AccountState) : Type 0 where
  pub tallied : change j c (tally a) ≡ some (tally b)
  pub id : b.id ≡ a.id
  pub ledger_id : b.ledger_id ≡ a.ledger_id
  pub currency : b.currency ≡ a.currency
  pub normal_side : b.normal_side ≡ a.normal_side
  pub status : b.status ≡ a.status
  pub allow_negative : b.allow_negative ≡ a.allow_negative
  pub overdraft_limit : b.overdraft_limit ≡ a.overdraft_limit
  pub original_version : b.original_version ≡ a.original_version
  -- untouched, or a version further and covered
  pub moved : (b ≡ a) ⊎ ((b.version ≡ (a.version + 1) % word) × Covered b a)

start_current :
    (accounts : Accounts) (j : Uuid)
    → current j (record { base = accounts; changed = [] }) ≡ lookup j accounts
unfolding lookup
start_current accounts j = refl

-- Where nothing was staged for an account, it is as it was.
Changed-untouched :
    {j : Uuid} {c : BalanceChange} {a : AccountState} → Becomes (change j c) a a → Changed j c a a
Changed-untouched k = record {
  tallied = k.tallied;
  id = refl;
  ledger_id = refl;
  currency = refl;
  normal_side = refl;
  status = refl;
  allow_negative = refl;
  overdraft_limit = refl;
  original_version = refl;
  moved = inl refl;
}

Covered-bump : (m a : AccountState) → Covered m a → Covered (bump m) a
unfolding available_value
Covered-bump m a v = v

Changed-bump :
    {j : Uuid} {c : BalanceChange} {a m : AccountState}
    → Becomes (change j c) a m
    → Covered m a
    → Changed j c a (bump m)
Changed-bump {j} {c} {a} {m} k v = record {
  tallied = k.tallied;
  id = k.terms.id;
  ledger_id = k.terms.ledger_id;
  currency = k.terms.currency;
  normal_side = k.terms.normal_side;
  status = k.terms.status;
  allow_negative = k.terms.allow_negative;
  overdraft_limit = k.terms.overdraft_limit;
  original_version = k.terms.original_version;
  moved = inr (ap (λ n. (n + 1) % word) k.terms.version, Covered-bump m a v);
}

bump-IsSound : (m : AccountState) → IsSound m → IsSound (bump m)
bump-IsSound m s = record {
  posted_debits = s.posted_debits;
  posted_credits = s.posted_credits;
  pending_debits = s.pending_debits;
  pending_credits = s.pending_credits;
  held = s.held;
  overdraft_limit = s.overdraft_limit;
}

module _ {c : BalanceChange} {accounts : Accounts} {r : Accounts × Uuid × List Posting}
    (run : Run c accounts r) (s : AreSound accounts) (t : TotalAmounts c) where
  abbrev begin' : StagedAccounts
  begin' = record { base = accounts; changed = [] }

  begin-AllSound : AllSound begin'
  begin-AllSound j a e = s j a (sym (start_current accounts j) ∙ e)

  unpended-Evolves : Evolves (λ j. unbook_all j c.unpend_postings) begin' run.unpended
  unpended-Evolves = unpend-Evolves c.unpend_postings begin' begin-AllSound t.unpended run.unpending

  pub unpended-AllSound : AllSound run.unpended
  unpended-AllSound = unpended-Evolves.sound begin-AllSound

  entered-Evolves :
      Evolves (λ j u. some (book_all j c.status c.add_postings u)) run.unpended run.entered.staged
  unfolding start
  entered-Evolves =
      add_entries-Evolves c.status c.add_postings (start accounts c run.unpended) unpended-AllSound
        t.added run.entering

  released-Evolves : Evolves (λ j. free_all j c.releases) run.entered.staged run.released
  released-Evolves =
      release_all-Evolves c.releases run.entered.staged (entered-Evolves.sound unpended-AllSound)
        t.released run.releasing

  run-Evolves :
      Evolves
        (λ j u.
          unbook_all j c.unpend_postings u
          >=> (λ v. some (book_all j c.status c.add_postings v) >=> free_all j c.releases))
        begin'
        run.released
  run-Evolves = Evolves-trans unpended-Evolves (Evolves-trans entered-Evolves released-Evolves)

  committed : Committed accounts run.released.changed r.0
  committed = commit-Committed accounts run.released.changed run.committing

  untouched :
      (j : Uuid)
      → lookup j run.released.changed ≡ none
      → (current j run.released ≡ lookup j accounts) × (lookup j r.0 ≡ lookup j accounts)
  untouched j n =
      (rw (n, current) (ap (λ m. lookup j m) run-Evolves.base), committed.after j ∙ rw n refl)

  pub touched :
      (j : Uuid) (x : AccountState)
      → lookup j run.released.changed ≡ some x
      → (current j run.released ≡ some x) × (lookup j r.0 ≡ some (bump x))
  touched j x e = (rw (e, current) refl, committed.after j ∙ rw e refl)

  -- Every account of the ledger becomes what the specification says.
  pub run-Changed :
      (j : Uuid) (a : AccountState)
      → lookup j accounts ≡ some a
      → (b : AccountState) × (lookup j r.0 ≡ some b) × IsSound b × Changed j c a b
  unfolding change
  run-Changed j a e =
      let (m, em, k) = run-Evolves.each j a (start_current accounts j ∙ e) in
      elim (Option-cases (lookup j run.released.changed)) [
        | inl n ↦
            let same : m ≡ a = some_unique (sym (untouched j n).0 ∙ em) e in
            (
              a,
              (untouched j n).1 ∙ e,
              s j a e,
              Changed-untouched (subst (Becomes (change j c) a) same k),
            )
        | inr (x, ex) ↦
            let same : m ≡ x = some_unique em (touched j x ex).0 in
            let sound = run-Evolves.sound begin-AllSound j m em in
            let (before, eb, funds) = committed.tested j x ex in
            let covered =
              check_funds-Covered (subst IsSound same sound) (s j a e)
                (subst (λ y. check_funds x y ≡ ok tt) (some_unique eb e) funds) in
            (
              bump x,
              (touched j x ex).1,
              bump-IsSound x (subst IsSound same sound),
              Changed-bump (subst (Becomes (change j c) a) same k) covered,
            )
      ]

  run-AreSound : AreSound r.0
  run-AreSound j b e = elim (Option-cases (lookup j run.released.changed)) [
    | inl n ↦ s j b (sym (untouched j n).1 ∙ e)
    | inr (x, ex) ↦
        subst IsSound (some_unique (touched j x ex).1 e)
          (bump-IsSound x (run-Evolves.sound begin-AllSound j x (touched j x ex).0))
  ]

-- A transition that succeeds changes every account of the ledger as the specification says: its
-- totals by the entries taken back, the new entries and the released holds that name it, never below
-- zero; its terms not at all; and where it was touched, its version is one further and it is covered.
pub transition-Changed :
    (c : BalanceChange) (accounts : Accounts) {r : Accounts × Uuid × List Posting}
    → AreSound accounts
    → TotalAmounts c
    → transition c accounts ≡ ok r
    → (j : Uuid) (a : AccountState) → lookup j accounts ≡ some a
    → (b : AccountState) × (lookup j r.0 ≡ some b) × IsSound b × Changed j c a b
transition-Changed c accounts s t h = run-Changed (transition-Run c accounts h) s t

pub transition-AreSound :
    (c : BalanceChange) (accounts : Accounts) {r : Accounts × Uuid × List Posting}
    → AreSound accounts
    → TotalAmounts c
    → transition c accounts ≡ ok r
    → AreSound r.0
transition-AreSound c accounts s t h = run-AreSound (transition-Run c accounts h) s t

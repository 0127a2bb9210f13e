-- ===== src/Ledger/Service/Reversed.antt =====
-- What `reverse` of internal/modules/ledger/service.go undoes, and how often.
use astrum.Prelude.{
  ℕ, ◌+◌, ◌≡◌, refl, ap, ◌∙◌, subst, inl, inr, Bool, true, false, not, ◌&&◌, ◌==◌, ==_iff,
  Bool-cases, Option, none, some, List, [], ◌∷◌, ◌++◌, map, if◌then◌else◌,
}
use astrum.Prelude.Eq.{Text, text_eq, nat_eq, ◌=?◌}
use astrum.Result.{
  Result, ok, err, ◌>>=◌, >>=-elim, ◌>>◌, fail_if, passed, ok_unique, not_found, not_posted,
  already_reversed, idempotency_conflict,
}
use astrum.Money.Amount.Totals.{size}
use astrum.Ledger.Types.{
  Uuid, Time, Currency, Side, debit, credit, other, valid, opposite, side_equal, is_posted, Posting,
}
use astrum.Ledger.State.{or_err}
use astrum.Ledger.State.Balanced.{ValidSides}
use astrum.Ledger.Requests.{Transaction, matches}
use astrum.Ledger.Store.{Store, stored, select_transaction}
use astrum.Ledger.Engine.{PostingResult, unresolved, created, replayed, failed, apply_requests}
use astrum.Ledger.Engine.Added.{Adds, apply_requests-Adds}
use astrum.Ledger.Pending.Settled.{select-id}
use astrum.Ledger.Validate.{ReverseInput, validate_reverse}
use astrum.Ledger.Service.Reversals.{
  reversed_posting, reversal_request, reverses_it, reversal_of, is_reversal, reversed_by,
  reverse_original, reverse,
}

-- What the entries move on one side of an account, in one currency.
pub amount_on : Uuid → Currency → Side → List Posting → ℕ
unfolding side_equal
amount_on id c s [] = 0
amount_on id c s (p ∷ ps) =
    (if (p.account_id == id) && (p.currency =? c) && side_equal p.side s then size p.amount else 0)
    + amount_on id c s ps

opposite_debit : (s : Side) → valid s ≡ true → side_equal (opposite s) debit ≡ side_equal s credit
unfolding valid opposite side_equal
opposite_debit debit v = refl
opposite_debit credit v = refl
opposite_debit (other t) v = absurd (cc)

opposite_credit : (s : Side) → valid s ≡ true → side_equal (opposite s) credit ≡ side_equal s debit
unfolding valid opposite side_equal
opposite_credit debit v = refl
opposite_credit credit v = refl
opposite_credit (other t) v = absurd (cc)

swaps :
    (id : Uuid) (c : Currency) (ps : List Posting)
    → ValidSides ps
    → (amount_on id c debit (map reversed_posting ps) ≡ amount_on id c credit ps)
      × (amount_on id c credit (map reversed_posting ps) ≡ amount_on id c debit ps)
unfolding amount_on reversed_posting
swaps id c [] v = (refl, refl)
swaps id c (p ∷ ps) v =
    let (d, e) = swaps id c ps v.1 in
    (rw (opposite_debit p.side v.0, d) refl, rw (opposite_credit p.side v.0, e) refl)

-- The entries of a reversal move on each side of each account, in each currency, what the entries of
-- the original move on the other side, where those have sides that are debit or credit.
pub reversal_request-amount_on :
    (original : Transaction) (i : ReverseInput) (id : Uuid) (c : Currency)
    → ValidSides original.postings
    → (amount_on id c debit (reversal_request original i).in_put.postings
        ≡ amount_on id c credit original.postings)
      × (amount_on id c credit (reversal_request original i).in_put.postings
          ≡ amount_on id c debit original.postings)
unfolding reversal_request
reversal_request-amount_on original i id c v = swaps id c original.postings v

select-append :
    (id : Uuid) (ts us : List Transaction) {t : Transaction}
    → select_transaction id ts ≡ some t
    → select_transaction id (ts ++ us) ≡ some t
unfolding select_transaction
select-append id [] us h = absurd (cc)
select-append id (u ∷ ts) us h = elim (Bool-cases (u.id == id)) [
  | inl e ↦ rw e (rw e at h)
  | inr e ↦ rw e (select-append id ts us (rw e at h))
]

reversal_of-append :
    (id : Uuid) (ts : List Transaction) (u : Transaction)
    → reversal_of id ts ≡ none
    → reverses_it id u.reverses_id ≡ true
    → reversal_of id (ts ++ u ∷ []) ≡ some u
unfolding reversal_of
reversal_of-append id [] u h r = rw r refl
reversal_of-append id (t ∷ ts) u h r = elim (Bool-cases (reverses_it id t.reverses_id)) [
  | inl e ↦ let no : some t ≡ none = (rw e at h) in absurd (cc)
  | inr e ↦ rw e (reversal_of-append id ts u (rw e at h) r)
]

reversal_of-more :
    (id : Uuid) (ts us : List Transaction) {t : Transaction}
    → reversal_of id ts ≡ some t
    → reversal_of id (ts ++ us) ≡ some t
unfolding reversal_of
reversal_of-more id [] us h = absurd (cc)
reversal_of-more id (u ∷ ts) us h = elim (Bool-cases (reverses_it id u.reverses_id)) [
  | inl e ↦ rw e (rw e at h)
  | inr e ↦ rw e (reversal_of-more id ts us (rw e at h))
]

-- The posted transaction and its reversal, by the key `k`, that a store has.
record Undone (id : Uuid) (k : Text) (s : Store) : Type 0 where
  original : Transaction
  selected : select_transaction id s.transactions ≡ some original
  is_posted_still : is_posted original.status ≡ true
  reversal : Transaction
  reversed : reversal_of id s.transactions ≡ some reversal
  key : reversal.idempotency_key ≡ k

Adds-Undone :
    (id : Uuid) (original : Transaction) (i : ReverseInput) (s s' : Store) (t : Transaction)
    → select_transaction id s.transactions ≡ some original
    → is_posted original.status ≡ true
    → reversal_of id s.transactions ≡ none
    → Adds (reversal_request original i) s s' t
    → Undone id i.idempotency_key s'
unfolding reversal_request stored
Adds-Undone id original i s s' t found posted_still unreversed a =
    let same : original.id ≡ id = select-id id s.transactions found in
    let marked : reverses_it id (stored t).reverses_id ≡ true =
      rw (a.reverses, same) ((==_iff id id).1 refl) in
    record {
      original = original;
      selected = rw a.transactions (select-append id s.transactions (stored t ∷ []) found);
      is_posted_still = posted_still;
      reversal = stored t;
      reversed =
          rw a.transactions (reversal_of-append id s.transactions (stored t) unreversed marked);
      key = a.key;
    }

Undone-more :
    (id : Uuid) (k : Text) (s s' : Store) (more : List Transaction)
    → s'.transactions ≡ s.transactions ++ more
    → Undone id k s
    → Undone id k s'
Undone-more id k s s' more h u = record {
  original = u.original;
  selected = rw h (select-append id s.transactions more u.selected);
  is_posted_still = u.is_posted_still;
  reversal = u.reversal;
  reversed = rw h (reversal_of-more id s.transactions more u.reversed);
  key = u.key;
}

double_not : (b : Bool) → not b ≡ false → b ≡ true
double_not true h = refl
double_not false h = cc

reversed_by-Undone :
    (id : Uuid) (original : Transaction) (i : ReverseInput) (s : Store)
    (x : Store × List PostingResult × Bool) {s' : Store} {t : Transaction}
    → select_transaction id s.transactions ≡ some original
    → is_posted original.status ≡ true
    → reversal_of id s.transactions ≡ none
    → ((s2 : Store) (u : Transaction) (rs : List PostingResult) (aborted : Bool)
        → x ≡ (s2, created u ∷ rs, aborted)
        → Adds (reversal_request original i) s s2 u)
    → reversed_by original.id x ≡ ok (s', t, false)
    → Undone id i.idempotency_key s'
unfolding reversed_by
reversed_by-Undone id original i s (s2, created u ∷ rs, ab) {s'} found p n k h =
    subst (Undone id i.idempotency_key)
      (ap (λ (y : Store × Transaction × Bool). y.0) (ok_unique refl h))
      (Adds-Undone id original i s s2 u found p n (k s2 u rs ab refl))
reversed_by-Undone id original i s (s2, replayed u ∷ rs, ab) found p n k h =
    let (ok', h1) =
      passed (not (is_reversal u (reversal_of original.id s2.transactions))) idempotency_conflict
        h in
    absurd (cc)
reversed_by-Undone id original i s (s2, failed e ∷ rs, ab) found p n k h = absurd (cc)
reversed_by-Undone id original i s (s2, unresolved ∷ rs, ab) found p n k h = absurd (cc)
reversed_by-Undone id original i s (s2, [], ab) found p n k h = absurd (cc)

module _ (reads_object : Text → Bool) (new_id : ℕ → Result Uuid) (now : Time) (id : Uuid)
    (i : ReverseInput) (s : Store) where
  original-Undone :
      (original : Transaction) (o : Option Transaction) {s' : Store} {t : Transaction}
      → select_transaction id s.transactions ≡ some original
      → is_posted original.status ≡ true
      → reversal_of id s.transactions ≡ o
      → reverse_original new_id now original i s o ≡ ok (s', t, false)
      → Undone id i.idempotency_key s'
  unfolding reverse_original
  original-Undone original (some prior) {s'} {t} found p q h =
      elim (Bool-cases (
        (prior.idempotency_key =? i.idempotency_key)
        && matches prior (reversal_request original i).in_put)) [
          | inl e ↦ let no : ok (s, prior, true) ≡ ok (s', t, false) = (rw e at h) in absurd (cc)
          | inr e ↦ let no : err already_reversed ≡ ok (s', t, false) = (rw e at h) in absurd (cc)
        ]
  original-Undone original none found p q h =
      >>=-elim (apply_requests new_id now true (reversal_request original i ∷ []) s) _ h λ x e h1.
        reversed_by-Undone id original i s x found p q
          (λ s2 u rs ab w.
            apply_requests-Adds new_id now (reversal_request original i) s (e ∙ ap (λ y. ok y) w))
          h1

  reverse-Undone :
      (raw : Text) {s' : Store} {t : Transaction}
      → reverse reads_object raw new_id now id i s ≡ ok (s', t, false)
      → Undone id i.idempotency_key s'
  unfolding reverse
  reverse-Undone raw {s'} {t} h =
      >>=-elim (validate_reverse reads_object raw i) _ h
        λ u e h1. selected (select_transaction id s.transactions) refl h1
    where
      selected :
          (o : Option Transaction)
          → select_transaction id s.transactions ≡ o
          → (or_err o not_found >>= λ original.
              (fail_if (not (is_posted original.status)) not_posted
                >> reverse_original new_id now original i s (reversal_of id s.transactions)))
            ≡ ok (s', t, false)
          → Undone id i.idempotency_key s'
      selected none q f = absurd (cc)
      selected (some original) q f =
          let (p, f1) = passed (not (is_posted original.status)) not_posted f in
          original-Undone original (reversal_of id s.transactions) q
            (double_not (is_posted original.status) p) refl f1

  -- Once `reverse` has created the reversal of a transaction, a later reversal of it with another key,
  -- whose metadata and texts the checks admit, answers that the transaction is reversed already, in
  -- every store whose transactions are those that the first one left, with others behind them.
  pub reverse-already_reversed :
      (raw : Text) (s' : Store) (t : Transaction) (s'' : Store) (more : List Transaction)
      (raw' : Text) (new_id' : ℕ → Result Uuid) (later : Time) (j : ReverseInput)
      → reverse reads_object raw new_id now id i s ≡ ok (s', t, false)
      → s''.transactions ≡ s'.transactions ++ more
      → validate_reverse reads_object raw' j ≡ ok tt
      → (i.idempotency_key =? j.idempotency_key) ≡ false
      → reverse reads_object raw' new_id' later id j s'' ≡ err already_reversed
  unfolding reverse reverse_original
  reverse-already_reversed raw s' t s'' more raw' new_id' later j h added v differ =
      let u = Undone-more id i.idempotency_key s' s'' more added (reverse-Undone raw h) in
      rw (v, u.selected, u.is_posted_still, u.reversed, u.key, differ) refl

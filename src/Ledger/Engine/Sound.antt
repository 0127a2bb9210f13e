-- ===== src/Ledger/Engine/Sound.antt =====
-- What a batch does to the accounts, and which transactions come of it.
use astrum.Prelude.{
  ℕ, suc, ◌≡◌, refl, subst, inl, inr, Bool, true, false, not, ◌||◌, ◌&&◌, Option, none, some, List,
  [], ◌∷◌, Bool-cases, if◌then◌else◌,
}
use astrum.Prelude.Eq.{text_eq}
use astrum.Prelude.Map.{lookup}
use astrum.Result.{
  Error, Result, ok, err, ◌>>=◌, >>=-elim, ok_unique, nil_account, idempotency_conflict,
}
use astrum.Ledger.Types.{Uuid, Time, Currency, TransactionStatus, is_archived, Posting}
use astrum.Ledger.State.{Accounts, transition, or_err}
use astrum.Ledger.State.Loops.{TotalEntries, TotalReleases}
use astrum.Ledger.State.Refines.{AreSound, TotalAmounts, transition-AreSound}
use astrum.Ledger.State.Balanced.{ValidSides, debits_in, credits_in}
use astrum.Ledger.State.Entries.{All, transition_balanced}
use astrum.Ledger.Requests.{Transaction, PostingRequest, PostInput, status, matches}
use astrum.Ledger.Store.{transaction_by_key}
use astrum.Ledger.Engine.{
  PostingResult, unresolved, created, replayed, failed, Batch, ExternalKey, book, finish,
  resolve_new, resolve_prior, resolve_existing, resolve_request, resolve_all, truncate_request,
  truncated, replay, answer_stored, is_failed, unresolved_all, closes, time_or, first_account,
  external_key, is_taken, archived_postings, change_of, name_currencies, is_lock_failure,
  book_result,
}

-- The amounts of the request are totals, and its entries stand on the two sides.
pub record IsRegular (req : PostingRequest) : Type 0 where
  pub entries : TotalEntries req.in_put.postings
  pub sides : ValidSides req.in_put.postings
  pub releases : TotalReleases req.releases

IsRegular-TotalAmounts : (req : PostingRequest) → IsRegular req → TotalAmounts (change_of req)
IsRegular-TotalAmounts req g = record { unpended = tt; added = g.entries; released = g.releases }

-- On the debit side as on the credit side, in each currency.
abbrev pub Balanced : List Posting → Type 0
Balanced ps = (c : Currency) → debits_in c ps ≡ credits_in c ps

-- The accounts stay sound; the entries are balanced unless they are archived.
abbrev Booked : Accounts × TransactionStatus × Uuid × List Posting → Type 0
Booked r = AreSound r.0 × ((is_archived r.1 ≡ false) → Balanced r.3)

pub archived_postings-archived :
    (m : Accounts) (ps : List Posting) {q : TransactionStatus × Uuid × List Posting}
    → archived_postings m ps ≡ ok q
    → is_archived q.0 ≡ true
unfolding archived_postings
archived_postings-archived m ps {q} h = >>=-elim (name_currencies ps m) _ h λ named en h1.
    >>=-elim (or_err (first_account ps m) nil_account) _ h1 λ a ea h2.
      subst (λ (x : TransactionStatus × Uuid × List Posting). is_archived x.0 ≡ true)
        (ok_unique refl h2) refl

module _ (req : PostingRequest) (m : Accounts) (g : IsRegular req) (s : AreSound m) where
  archived-Booked :
      (c : Bool) (e : Error) {r : Accounts × TransactionStatus × Uuid × List Posting}
      → (if c
          then err e
          else (archived_postings m req.in_put.postings >>= λ q. ok (m, q.0, q.1, q.2)))
        ≡ ok r
      → Booked r
  archived-Booked true e h = absurd (cc)
  archived-Booked false e h = >>=-elim (archived_postings m req.in_put.postings) _ h λ q eq h1.
      subst Booked (ok_unique refl h1)
        (s, λ f. absurd (cc (f, archived_postings-archived m req.in_put.postings eq)))

  result-Booked :
      (o : Result (Accounts × Uuid × List Posting))
      {r : Accounts × TransactionStatus × Uuid × List Posting}
      → transition (change_of req) m ≡ o
      → book_result req m o ≡ ok r
      → Booked r
  unfolding book_result
  result-Booked (ok x) e h =
      let total = IsRegular-TotalAmounts req g in
      subst Booked (ok_unique refl h) (
        transition-AreSound (change_of req) m s total e,
        λ f. transition_balanced (change_of req) m s total g.sides e,
      )
  result-Booked (err x) e h =
      archived-Booked (not req.in_put.archive_on_lock_failure || not (is_lock_failure x)) x h

-- A result that creates a transaction creates one that is balanced, or archived.
abbrev pub IsProper : PostingResult → Type 0
IsProper (created t) = (is_archived t.status ≡ false) → Balanced t.postings
IsProper _ = Unit

abbrev Goes : PostingResult × Batch → Type 0
Goes r = IsProper r.0 × AreSound r.1.accounts

finish-Goes :
    (req : PostingRequest) (id : Result Uuid) (now : Time) (external : Option ExternalKey)
    (b : Batch) (o : Result (Accounts × TransactionStatus × Uuid × List Posting))
    → AreSound b.accounts
    → ((r : Accounts × TransactionStatus × Uuid × List Posting) → o ≡ ok r → Booked r)
    → Goes (finish req id now external b o)
unfolding finish
finish-Goes req id now external b (err e) s f = (tt, s)
finish-Goes req (ok i) now external b (ok r) s f = ((f r refl).1, (f r refl).0)
finish-Goes req (err e) now external b (ok r) s f = (tt, (f r refl).0)

resolve_new-Goes :
    (req : PostingRequest) (id : Result Uuid) (now : Time) (b : Batch)
    → IsRegular req
    → AreSound b.accounts
    → Goes (resolve_new req id now b)
unfolding resolve_new book
resolve_new-Goes req id now b g s =
    let i = req.in_put in
    let first = first_account i.postings b.accounts in
    let external = external_key i first in
    elim (Bool-cases (is_taken i.idempotency_key external b.taken)) [
      | inl e ↦ rw (e, Goes) (tt, s)
      | inr e ↦ elim (Bool-cases (closes (status i) (time_or now i.effective_at) first)) [
        | inl f ↦ rw (e, f, Goes) (tt, s)
        | inr f ↦
            rw (e, f, Goes)
              (finish-Goes req id now external b (book req b.accounts) s (λ r k.
                result-Booked req b.accounts g s (transition (change_of req) b.accounts) refl k))
      ]
    ]

answer-IsProper :
    (c : Bool) (t : Transaction) → IsProper (if c then replayed t else failed idempotency_conflict)
answer-IsProper true t = tt
answer-IsProper false t = tt

replay-IsProper : (i : PostInput) (r : PostingResult) → IsProper (replay i r)
unfolding replay
replay-IsProper i (failed e) = tt
replay-IsProper i (created t) = answer-IsProper (matches t i) t
replay-IsProper i (replayed t) = answer-IsProper (matches t i) t
replay-IsProper i unresolved = tt

resolve_prior-Goes :
    (r : PostingRequest) (id : Result Uuid) (now : Time) (b : Batch) (o : Option PostingResult)
    → IsRegular r
    → AreSound b.accounts
    → Goes (resolve_prior r id now b o)
unfolding resolve_prior
resolve_prior-Goes r id now b (some prior) g s = (replay-IsProper r.in_put prior, s)
resolve_prior-Goes r id now b none g s = resolve_new-Goes r id now b g s

resolve_existing-Goes :
    (r : PostingRequest) (id : Result Uuid) (now : Time) (b : Batch) (o : Option Transaction)
    → IsRegular r
    → AreSound b.accounts
    → Goes (resolve_existing r id now b o)
unfolding resolve_existing answer_stored
resolve_existing-Goes r id now b (some t) g s = (answer-IsProper (matches t r.in_put) t, s)
resolve_existing-Goes r id now b none g s =
    resolve_prior-Goes r id now b (lookup r.in_put.idempotency_key b.first_by_key) g s

truncate_request-IsRegular :
    (req : PostingRequest) → IsRegular req → IsRegular (truncate_request req)
unfolding truncated
truncate_request-IsRegular req g = record {
  entries = g.entries;
  sides = g.sides;
  releases = g.releases;
}

resolve_request-Goes :
    (ts : List Transaction) (req : PostingRequest) (id : Result Uuid) (now : Time) (b : Batch)
    → IsRegular req
    → AreSound b.accounts
    → Goes (resolve_request ts req id now b)
unfolding resolve_request
resolve_request-Goes ts req id now b g s =
    let r = truncate_request req in
    resolve_existing-Goes r id now b (transaction_by_key r.in_put.idempotency_key ts)
      (truncate_request-IsRegular req g) s

unresolved_all-IsProper : (reqs : List PostingRequest) → All IsProper (unresolved_all reqs)
unfolding unresolved_all
unresolved_all-IsProper [] = tt
unresolved_all-IsProper (r ∷ rs) = (tt, unresolved_all-IsProper rs)

-- A batch of regular requests on sound accounts keeps them sound, and each transaction that it
-- creates has as much on the debit side as on the credit side in each currency, unless it is
-- archived.
pub resolve_all-IsProper :
    (ts : List Transaction) (new_id : ℕ → Result Uuid) (now : Time) (atomic : Bool) (n : ℕ)
    (reqs : List PostingRequest) (b : Batch)
    → All IsRegular reqs
    → AreSound b.accounts
    → All IsProper (resolve_all ts new_id now atomic n reqs b).0
      × AreSound (resolve_all ts new_id now atomic n reqs b).2.accounts
unfolding resolve_all
resolve_all-IsProper ts new_id now atomic n [] b g s = (tt, s)
resolve_all-IsProper ts new_id now atomic n (req ∷ reqs) b g s =
    let (p, s') = resolve_request-Goes ts req (new_id n) now b g.0 s in
    let b' = (resolve_request ts req (new_id n) now b).1 in
    let (ps, t) = resolve_all-IsProper ts new_id now atomic (suc n) reqs b' g.1 s' in
    elim (Bool-cases (is_failed (resolve_request ts req (new_id n) now b).0 && atomic)) [
      | inl e ↦ rw e ((p, unresolved_all-IsProper reqs), s')
      | inr e ↦ rw e ((p, ps), t)
    ]

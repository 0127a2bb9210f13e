-- ===== src/Ledger/Engine/Atomic.antt =====
-- An atomic batch of `runRequests`: all of its requests or none.
use astrum.Prelude.{
  ℕ, suc, ◌≡◌, refl, sym, ap, subst, ◌⊎◌, inl, inr, Bool, true, false, ◌&&◌, ◌||◌, Option, none,
  some, List, [], ◌∷◌, map, arith, Bool-cases,
}
use astrum.Prelude.Eq.{text_eq}
use astrum.Prelude.Map.{lookup}
use astrum.Result.{Result, ok, err, ◌>>=◌, ok_unique, err-ne-ok}
use astrum.Ledger.Types.{Uuid, Time, TransactionStatus, Posting}
use astrum.Ledger.State.{Accounts}
use astrum.Ledger.Requests.{PostInput, Transaction, PostingRequest}
use astrum.Ledger.Store.{Store, lock_accounts, transaction_by_key}
use astrum.Ledger.Monitors.{LedgerState}
use astrum.Ledger.Engine.{
  PostingResult, unresolved, created, replayed, failed, Batch, resolve_request, resolve_all,
  is_failed, apply_requests, run_requests, abort_one, ExternalKey, finish, replay, resolve_new,
  resolve_prior, deliver, conclude, first_batch, accepted, request_accounts, write_batch,
  resolve_existing, answer_stored, book, truncate_request, external_key, first_account,
}

-- every request has an outcome, and none has failed
unfoldable pub all_done : List PostingResult → Bool
all_done [] = true
all_done (created t ∷ rs) = all_done rs
all_done (replayed t ∷ rs) = all_done rs
all_done (failed e ∷ rs) = false
all_done (unresolved ∷ rs) = false

unfoldable pub all_failed : List PostingResult → Bool
all_failed [] = true
all_failed (r ∷ rs) = is_failed r && all_failed rs

abort_one-all_failed : (rs : List PostingResult) → all_failed (map abort_one rs) ≡ true
unfolding all_failed
abort_one-all_failed [] = refl
abort_one-all_failed (created t ∷ rs) = abort_one-all_failed rs
abort_one-all_failed (replayed t ∷ rs) = abort_one-all_failed rs
abort_one-all_failed (failed e ∷ rs) = abort_one-all_failed rs
abort_one-all_failed (unresolved ∷ rs) = abort_one-all_failed rs

abbrev pub is_done : PostingResult → Bool
is_done (created t) = true
is_done (replayed t) = true
is_done _ = false

-- An outcome: done or failed.
abbrev Decided : PostingResult → Type 0
Decided r = (is_done r || is_failed r) ≡ true

finish-Decided :
    (req : PostingRequest) (id : Result Uuid) (now : Time) (external : Option ExternalKey)
    (b : Batch) (m : Result (Accounts × TransactionStatus × Uuid × List Posting))
    → Decided (finish req id now external b m).0
unfolding finish
finish-Decided req id now external b (err e) = refl
finish-Decided req (ok i) now external b (ok r) = refl
finish-Decided req (err e) now external b (ok r) = refl

replay-Decided : (i : PostInput) (r : PostingResult) → Decided (replay i r)
unfolding replay
replay-Decided i (failed e) = refl
replay-Decided i (created t) = ground arith
replay-Decided i (replayed t) = ground arith
replay-Decided i unresolved = refl

resolve_new-Decided :
    (req : PostingRequest) (id : Result Uuid) (now : Time) (b : Batch)
    → Decided (resolve_new req id now b).0
unfolding resolve_new
resolve_new-Decided req id now b =
    let external = external_key req.in_put (first_account req.in_put.postings b.accounts) in
    ground (arith, finish-Decided req id now external b (book req b.accounts))

resolve_prior-Decided :
    (r : PostingRequest) (id : Result Uuid) (now : Time) (b : Batch) (o : Option PostingResult)
    → Decided (resolve_prior r id now b o).0
unfolding resolve_prior
resolve_prior-Decided r id now b (some prior) = replay-Decided r.in_put prior
resolve_prior-Decided r id now b none = resolve_new-Decided r id now b

resolve_existing-Decided :
    (r : PostingRequest) (id : Result Uuid) (now : Time) (b : Batch) (o : Option Transaction)
    → Decided (resolve_existing r id now b o).0
unfolding resolve_existing answer_stored
resolve_existing-Decided r id now b (some t) = ground arith
resolve_existing-Decided r id now b none =
    resolve_prior-Decided r id now b (lookup r.in_put.idempotency_key b.first_by_key)

resolve_request-Decided :
    (ts : List Transaction) (req : PostingRequest) (id : Result Uuid) (now : Time) (b : Batch)
    → Decided (resolve_request ts req id now b).0
unfolding resolve_request
resolve_request-Decided ts req id now b =
    let r = truncate_request req in
    resolve_existing-Decided r id now b (transaction_by_key r.in_put.idempotency_key ts)

all_done-cons :
    (r : PostingResult) (rs : List PostingResult)
    → Decided r
    → is_failed r ≡ false
    → all_done rs ≡ true
    → all_done (r ∷ rs) ≡ true
unfolding all_done
all_done-cons (created t) rs d f h = h
all_done-cons (replayed t) rs d f h = h
all_done-cons (failed e) rs d f h = cc
all_done-cons unresolved rs d f h = cc

module _ (ts : List Transaction) (new_id : ℕ → Result Uuid) (now : Time) where
  resolve_all-all_done :
      (n : ℕ) (reqs : List PostingRequest) (b : Batch)
      → (resolve_all ts new_id now true n reqs b).1 ≡ false
      → all_done (resolve_all ts new_id now true n reqs b).0 ≡ true
  unfolding resolve_all all_done
  resolve_all-all_done n [] b h = refl
  resolve_all-all_done n (req ∷ reqs) b h =
      let (r, b') = resolve_request ts req (new_id n) now b in
      elim (Bool-cases (is_failed r)) [
        | inl e ↦ absurd (cc (h, e))
        | inr e ↦ rw e (
            all_done-cons r _ (resolve_request-Decided ts req (new_id n) now b) e
              (resolve_all-all_done (suc n) reqs b' (rw e at h)))
      ]

abbrev pub AllOrNothing : Store → Store → List PostingResult → Type 0
AllOrNothing s s' results = (all_done results ≡ true) ⊎ ((all_failed results ≡ true) × (s' ≡ s))

deliver-AllOrNothing :
    (state : LedgerState) (s s' : Store) (r : List PostingResult × Bool × Batch)
    (results : List PostingResult)
    → (r.1 ≡ false → all_done r.0 ≡ true)
    → deliver s (conclude state s r) ≡ (s', ok results)
    → AllOrNothing s s' results
unfolding deliver conclude
deliver-AllOrNothing state s s' (rs, true, b) results done h = inr (
  subst (λ q. all_failed q ≡ true) (ok_unique refl (ap (λ x. x.1) h)) (abort_one-all_failed rs),
  sym (ap (λ x. x.0) h),
)
deliver-AllOrNothing state s s' (rs, false, b) results done h =
    written (write_batch (accepted rs) (record state { accounts = b.accounts }) s) h
  where
    written :
        (m : Result Store)
        → deliver s (m >>= λ w. ok (w, rs, false)) ≡ (s', ok results)
        → (all_done results ≡ true) ⊎ ((all_failed results ≡ true) × (s' ≡ s))
    written (ok w) k =
        inl (subst (λ q. all_done q ≡ true) (ok_unique refl (ap (λ x. x.1) k)) (done refl))
    written (err e) k = absurd (err-ne-ok {A = List PostingResult} refl (ap (λ x. x.1) k))

-- Of an atomic batch that `runRequests` runs, every request is done, or every request has failed and
-- the store is as it was.
pub run_requests-AllOrNothing :
    (new_id : ℕ → Result Uuid) (now : Time) (reqs : List PostingRequest) (s s' : Store)
    (results : List PostingResult)
    → run_requests new_id now true reqs s ≡ (s', ok results)
    → AllOrNothing s s' results
unfolding run_requests apply_requests
run_requests-AllOrNothing new_id now reqs s s' results h =
    let state = lock_accounts (request_accounts reqs) s in
    let b = first_batch state s in
    deliver-AllOrNothing state s s' (resolve_all s.transactions new_id now true 0 reqs b) results
      (resolve_all-all_done s.transactions new_id now 0 reqs b) h

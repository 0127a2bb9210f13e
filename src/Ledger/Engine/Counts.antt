-- ===== src/Ledger/Engine/Counts.antt =====
-- The outcomes of internal/modules/ledger/engine.go: one for each request.
use astrum.Prelude.{
  ℕ, suc, ◌≡◌, refl, sym, ap, ◌∙◌, inl, inr, Bool, true, false, ◌&&◌, Bool-cases, List, [], ◌∷◌,
  map, length,
}
use astrum.Result.{Result, ok, err, ◌>>=◌, >>=-elim, ok_unique}
use astrum.Ledger.Types.{Uuid, Time}
use astrum.Ledger.Requests.{Transaction, PostingRequest}
use astrum.Ledger.Monitors.{LedgerState}
use astrum.Ledger.Store.{Store, lock_accounts}
use astrum.Ledger.Engine.{
  PostingResult, Batch, is_failed, unresolved_all, resolve_all, resolve_request, accepted,
  write_batch, conclude, apply_requests, request_accounts, first_batch, abort_one, deliver,
  run_requests,
}

unresolved_all-length : (reqs : List PostingRequest) → length (unresolved_all reqs) ≡ length reqs
unfolding unresolved_all
unresolved_all-length [] = refl
unresolved_all-length (r ∷ rs) = ap suc (unresolved_all-length rs)

pub resolve_all-length :
    (ts : List Transaction) (new_id : ℕ → Result Uuid) (now : Time) (atomic : Bool) (n : ℕ)
    (reqs : List PostingRequest) (b : Batch)
    → length (resolve_all ts new_id now atomic n reqs b).0 ≡ length reqs
unfolding resolve_all
resolve_all-length ts new_id now atomic n [] b = refl
resolve_all-length ts new_id now atomic n (req ∷ reqs) b =
    let r = resolve_request ts req (new_id n) now b in
    elim (Bool-cases (is_failed r.0 && atomic)) [
      | inl e ↦ rw e (ap suc (unresolved_all-length reqs))
      | inr e ↦ rw e (ap suc (resolve_all-length ts new_id now atomic (suc n) reqs r.1))
    ]

pub length-map {ℓ κ} :
    {A : Type ℓ} {B : Type κ} (f : A → B) (xs : List A) → length (map f xs) ≡ length xs
length-map f [] = refl
length-map f (x ∷ xs) = ap suc (length-map f xs)

unfoldable pub outcomes_of : Store × Result (List PostingResult) → Result (List PostingResult)
outcomes_of x = x.1

deliver-length :
    (state : LedgerState) (s : Store) (x : List PostingResult × Bool × Batch)
    {os : List PostingResult}
    → outcomes_of (deliver s (conclude state s x)) ≡ ok os
    → length os ≡ length x.0
unfolding deliver conclude outcomes_of
deliver-length state s (results, true, b) h =
    ap length (sym (ok_unique refl h)) ∙ length-map abort_one results
deliver-length state s (results, false, b) {os} h =
    written (write_batch (accepted results) (record state { accounts = b.accounts }) s) h
  where
    written :
        (m : Result Store)
        → (deliver s (m >>= λ t. ok (t, results, false))).1 ≡ ok os
        → length os ≡ length results
    written (ok t) f = ap length (sym (ok_unique refl f))
    written (err e) f = absurd (cc)

pub run_requests-length :
    (new_id : ℕ → Result Uuid) (now : Time) (atomic : Bool) (reqs : List PostingRequest) (s : Store)
    {os : List PostingResult}
    → outcomes_of (run_requests new_id now atomic reqs s) ≡ ok os
    → length os ≡ length reqs
unfolding run_requests apply_requests
run_requests-length new_id now atomic reqs s h =
    let state = lock_accounts (request_accounts reqs) s in
    deliver-length state s _ h
    ∙ resolve_all-length s.transactions new_id now atomic 0 reqs (first_batch state s)

conclude-length :
    (state : LedgerState) (s : Store) (y : List PostingResult × Bool × Batch)
    {x : Store × List PostingResult × Bool}
    → conclude state s y ≡ ok x
    → length x.1 ≡ length y.0
unfolding conclude
conclude-length state s (results, true, b) f =
    ap (λ (z : Store × List PostingResult × Bool). length z.1) (sym (ok_unique refl f))
conclude-length state s (results, false, b) f =
    >>=-elim (write_batch (accepted results) (record state { accounts = b.accounts }) s) _ f
      λ t e g. ap (λ (z : Store × List PostingResult × Bool). length z.1) (sym (ok_unique refl g))

pub apply_requests-length :
    (new_id : ℕ → Result Uuid) (now : Time) (atomic : Bool) (reqs : List PostingRequest) (s : Store)
    {x : Store × List PostingResult × Bool}
    → apply_requests new_id now atomic reqs s ≡ ok x
    → length x.1 ≡ length reqs
unfolding apply_requests
apply_requests-length new_id now atomic reqs s h =
    let state = lock_accounts (request_accounts reqs) s in
    conclude-length state s _ h
    ∙ resolve_all-length s.transactions new_id now atomic 0 reqs (first_batch state s)

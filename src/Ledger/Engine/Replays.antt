-- ===== src/Ledger/Engine/Replays.antt =====
-- Requests that are answered from what is stored.
use astrum.Prelude.{
  ℕ, suc, ◌≡◌, refl, ap, ◌∙◌, Bool, true, false, some, List, [], ◌∷◌, arith, ◌&&◌, if◌then◌else◌,
}
use astrum.Prelude.Eq.{text_eq}
use astrum.Result.{Result, ok, idempotency_conflict}
use astrum.Ledger.Types.{Uuid, Time}
use astrum.Ledger.Requests.{Transaction, matches, PostingRequest}
use astrum.Ledger.Store.{Store, lock_accounts, transaction_by_key}
use astrum.Ledger.Monitors.{LedgerState}
use astrum.Ledger.Engine.{
  PostingResult, replayed, failed, Batch, resolve_existing, resolve_request, resolve_all,
  truncate_request, truncated, answer_stored, accepted, conclude, deliver, apply_requests,
  run_requests, first_batch, request_accounts, write_batch,
}

-- Each request repeats the key of a stored transaction, the one beside it.
pub data Repeats (ts : List Transaction) : List PostingRequest → List Transaction → Type 0 where
  none_left : Repeats ts [] []
  repeat :
      {req : PostingRequest} {t : Transaction} {reqs : List PostingRequest} {us : List Transaction}
      → transaction_by_key req.in_put.idempotency_key ts ≡ some t
      → Repeats ts reqs us
      → Repeats ts (req ∷ reqs) (t ∷ us)

-- What the requests are answered from these transactions.
unfoldable pub answers : List PostingRequest → List Transaction → List PostingResult
answers (req ∷ reqs) (t ∷ us) =
    (if matches t (truncated req.in_put) then replayed t else failed idempotency_conflict)
    ∷ answers reqs us
answers _ _ = []

accepted-answers :
    {ts us : List Transaction} {reqs : List PostingRequest}
    → Repeats ts reqs us
    → accepted (answers reqs us) ≡ []
unfolding accepted answers
accepted-answers none_left = refl
accepted-answers (repeat e r) = ground (arith, accepted-answers r)

and_false {ℓ} : {A : Type ℓ} (c : Bool) (x y : A) → (if c && false then x else y) ≡ y
and_false true x y = refl
and_false false x y = refl

module _ (ts : List Transaction) (new_id : ℕ → Result Uuid) (now : Time) where
  resolve_request-stored :
      (req : PostingRequest) (id : Result Uuid) (b : Batch) {t : Transaction}
      → transaction_by_key req.in_put.idempotency_key ts ≡ some t
      → resolve_request ts req id now b
        ≡ (if matches t (truncated req.in_put) then replayed t else failed idempotency_conflict, b)
  unfolding resolve_request resolve_existing answer_stored truncated
  resolve_request-stored req id b e = ap (resolve_existing (truncate_request req) id now b) e

  resolve_all-stored :
      (n : ℕ) (b : Batch) {reqs : List PostingRequest} {us : List Transaction}
      → Repeats ts reqs us
      → resolve_all ts new_id now false n reqs b ≡ (answers reqs us, false, b)
  unfolding resolve_all answers
  resolve_all-stored n b none_left = refl
  resolve_all-stored n b (repeat {req} e r) =
      rw (resolve_request-stored req (new_id n) b e, resolve_all-stored (suc n) b r)
        (and_false _ _ _)

write-nothing :
    (state : LedgerState) (s : Store) (rs : List PostingResult) (b : Batch)
    → accepted rs ≡ []
    → deliver s (conclude state s (rs, false, b)) ≡ (s, ok rs)
unfolding deliver conclude write_batch
write-nothing state s rs b e = rw e refl

-- In a batch that is not atomic, requests that all repeat stored keys change nothing: each is answered
-- with the stored transaction, replayed, where that matches the request, and with a conflict where it
-- does not.
pub run_requests-answers :
    (new_id : ℕ → Result Uuid) (now : Time) (reqs : List PostingRequest) (s : Store)
    {us : List Transaction}
    → Repeats s.transactions reqs us
    → run_requests new_id now false reqs s ≡ (s, ok (answers reqs us))
unfolding run_requests apply_requests
run_requests-answers new_id now reqs s {us} r =
    let state = lock_accounts (request_accounts reqs) s in
    ap (λ x. deliver s (conclude state s x))
      (resolve_all-stored s.transactions new_id now 0 (first_batch state s) r)
    ∙ write-nothing state s (answers reqs us) (first_batch state s) (accepted-answers r)

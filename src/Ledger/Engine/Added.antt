-- ===== src/Ledger/Engine/Added.antt =====
-- The transaction that a request to `applyRequests` alone adds to the store.
use astrum.Prelude.{
  ℕ, ◌≡◌, refl, sym, ap, ◌∙◌, subst, inl, inr, Bool, true, false, ◌&&◌, Bool-cases, Option, none,
  some, some_unique, List, [], ◌∷◌, ◌++◌, if◌then◌else◌,
}
use astrum.Prelude.Eq.{text_eq, nat_eq}
use astrum.Prelude.Map.{lookup}
use astrum.Result.{
  Result, ok, err, >>=-elim, ok_unique, idempotency_conflict, external_id_exists, period_closed,
}
use astrum.Ledger.Types.{Uuid, Time, TransactionStatus, Posting}
use astrum.Ledger.State.{Accounts}
use astrum.Ledger.Requests.{PostInput, Transaction, PostingRequest, status, matches}
use astrum.Ledger.Monitors.{LedgerState}
use astrum.Ledger.Store.{Store, stored, transaction_by_key, lock_accounts}
use astrum.Ledger.Engine.{
  PostingResult, unresolved, created, replayed, failed, Batch, ExternalKey, is_failed, is_taken,
  closes, time_or, first_account, external_key, finish, book, replay, answer_stored,
  truncate_request, resolve_new, resolve_prior, resolve_existing, resolve_request, resolve_all,
  conclude, apply_requests, write_batch, first_batch, request_accounts, accepted, truncated,
  unresolved_all,
}
use astrum.Ledger.Pending.Settled.{write_accounts-transactions}

-- What a request makes of a transaction that it creates.
record Makes (req : PostingRequest) (r : PostingResult) : Type 0 where
  reverses : (t : Transaction) → r ≡ created t → t.reverses_id ≡ req.reverses
  key : (t : Transaction) → r ≡ created t → t.idempotency_key ≡ req.in_put.idempotency_key

created_of : PostingResult → Option Transaction
created_of (created t) = some t
created_of _ = none

-- an outcome that creates nothing
created_of-Makes : (req : PostingRequest) (r : PostingResult) → created_of r ≡ none → Makes req r
unfolding created_of
created_of-Makes req r n = record {
  reverses = λ t e. let no : some t ≡ none = ap created_of (sym e) ∙ n in absurd (cc);
  key = λ t e. let no : some t ≡ none = ap created_of (sym e) ∙ n in absurd (cc);
}

finish-Makes :
    (req : PostingRequest) (id : Result Uuid) (now : Time) (external : Option ExternalKey)
    (b : Batch) (m : Result (Accounts × TransactionStatus × Uuid × List Posting))
    → Makes req (finish req id now external b m).0
unfolding finish created_of
finish-Makes req id now external b (err e) = created_of-Makes req _ refl
finish-Makes req (err e) now external b (ok r) = created_of-Makes req _ refl
finish-Makes req (ok i) now external b (ok (accounts, s, ledger, postings)) = record {
  reverses = λ t e.
      let same = some_unique refl (ap created_of e) in
      subst (λ (x : Transaction). x.reverses_id ≡ req.reverses) same refl;
  key = λ t e.
      let same = some_unique refl (ap created_of e) in
      subst (λ (x : Transaction). x.idempotency_key ≡ req.in_put.idempotency_key) same refl;
}

resolve_new-Makes :
    (req : PostingRequest) (id : Result Uuid) (now : Time) (b : Batch)
    → Makes req (resolve_new req id now b).0
unfolding resolve_new created_of
resolve_new-Makes req id now b =
    let i = req.in_put in
    let first = first_account i.postings b.accounts in
    let external = external_key i first in
    elim (Bool-cases (is_taken i.idempotency_key external b.taken)) [
      | inl e ↦ rw e (created_of-Makes req (failed external_id_exists) refl)
      | inr e ↦ elim (Bool-cases (closes (status i) (time_or now i.effective_at) first)) [
        | inl f ↦ rw (e, f) (created_of-Makes req (failed period_closed) refl)
        | inr f ↦ rw (e, f) (finish-Makes req id now external b (book req b.accounts))
      ]
    ]

answers_nothing :
    (c : Bool) (t : Transaction)
    → created_of (if c then replayed t else failed idempotency_conflict) ≡ none
unfolding created_of
answers_nothing true t = refl
answers_nothing false t = refl

replay-created_of : (i : PostInput) (r : PostingResult) → created_of (replay i r) ≡ none
unfolding replay created_of
replay-created_of i (failed e) = refl
replay-created_of i (created t) = answers_nothing (matches t i) t
replay-created_of i (replayed t) = answers_nothing (matches t i) t
replay-created_of i unresolved = refl

resolve_prior-Makes :
    (req : PostingRequest) (id : Result Uuid) (now : Time) (b : Batch) (o : Option PostingResult)
    → Makes req (resolve_prior req id now b o).0
unfolding resolve_prior
resolve_prior-Makes req id now b none = resolve_new-Makes req id now b
resolve_prior-Makes req id now b (some r) =
    created_of-Makes req (replay req.in_put r) (replay-created_of req.in_put r)

resolve_existing-Makes :
    (req : PostingRequest) (id : Result Uuid) (now : Time) (b : Batch) (o : Option Transaction)
    → Makes req (resolve_existing req id now b o).0
unfolding resolve_existing answer_stored
resolve_existing-Makes req id now b none =
    resolve_prior-Makes req id now b (lookup req.in_put.idempotency_key b.first_by_key)
resolve_existing-Makes req id now b (some t) =
    created_of-Makes req _ (answers_nothing (matches t req.in_put) t)

resolve_request-Makes :
    (ts : List Transaction) (req : PostingRequest) (id : Result Uuid) (now : Time) (b : Batch)
    → Makes req (resolve_request ts req id now b).0
unfolding resolve_request truncated
resolve_request-Makes ts req id now b =
    let r = truncate_request req in
    let m = resolve_existing-Makes r id now b (transaction_by_key r.in_put.idempotency_key ts) in
    record { reverses = m.reverses; key = m.key }

-- What a single request that creates a transaction leaves.
pub record Adds (req : PostingRequest) (s s' : Store) (t : Transaction) : Type 0 where
  pub transactions : s'.transactions ≡ s.transactions ++ stored t ∷ []
  pub reverses : t.reverses_id ≡ req.reverses
  pub key : t.idempotency_key ≡ req.in_put.idempotency_key

-- by the outcome `r` of the request and what the loop makes of it
conclude-Adds :
    (req : PostingRequest) (state : LedgerState) (s : Store) (r : PostingResult) (b : Batch)
    {s' : Store} {t : Transaction} {rs : List PostingResult} {aborted : Bool}
    → Makes req r
    → conclude state s (if is_failed r && true then (r ∷ [], true, b) else (r ∷ [], false, b))
      ≡ ok (s', created t ∷ rs, aborted)
    → Adds req s s' t
unfolding conclude write_batch accepted
conclude-Adds req state s (replayed u) b m h = absurd (cc)
conclude-Adds req state s (failed e) b m h = absurd (cc)
conclude-Adds req state s unresolved b m h = absurd (cc)
conclude-Adds req state s (created u) b {s'} {t} {rs} {aborted} m h = >>=-elim _ _ h λ s2 e h1.
    let all : (s2, created u ∷ [], false) ≡ (s', created t ∷ rs, aborted) = ok_unique refl h1 in
    let store : s2 ≡ s' = ap (λ (p : Store × List PostingResult × Bool). p.0) all in
    let same : u ≡ t = cc in
    let written = write_accounts-transactions (record state { accounts = b.accounts }) _ e in
    record {
      transactions =
          subst (λ (x : Store). x.transactions ≡ s.transactions ++ stored t ∷ []) store
            (subst (λ (x : Transaction). s2.transactions ≡ s.transactions ++ stored x ∷ []) same
              written);
      reverses = subst (λ (x : Transaction). x.reverses_id ≡ req.reverses) same (m.reverses u refl);
      key =
          subst (λ (x : Transaction). x.idempotency_key ≡ req.in_put.idempotency_key) same
            (m.key u refl);
    }

pub apply_requests-Adds :
    (new_id : ℕ → Result Uuid) (now : Time) (req : PostingRequest) (s : Store) {s' : Store}
    {t : Transaction} {rs : List PostingResult} {aborted : Bool}
    → apply_requests new_id now true (req ∷ []) s ≡ ok (s', created t ∷ rs, aborted)
    → Adds req s s' t
unfolding apply_requests resolve_all unresolved_all
apply_requests-Adds new_id now req s h =
    let state = lock_accounts (request_accounts (req ∷ [])) s in
    let r = resolve_request s.transactions req (new_id 0) now (first_batch state s) in
    conclude-Adds req state s r.0 r.1
      (resolve_request-Makes s.transactions req (new_id 0) now (first_batch state s)) h

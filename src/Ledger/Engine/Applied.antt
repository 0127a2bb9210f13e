-- ===== src/Ledger/Engine/Applied.antt =====
-- The transition behind a request that creates a transaction where it stands alone, of
-- `applyRequests` in internal/modules/ledger/engine.go.
use astrum.Prelude.{
  ℕ, ◌≡◌, refl, sym, ap, ◌∙◌, inl, inr, Bool, true, false, ◌&&◌, Bool-cases, Option, none, some,
  List, [], ◌∷◌, ◌++◌, if◌then◌else◌,
}
use astrum.Prelude.Eq.{text_eq, nat_eq}
use astrum.Prelude.Map.{lookup}
use astrum.Result.{
  Result, ok, err, >>=-elim, ok_unique, idempotency_conflict, external_id_exists, period_closed,
}
use astrum.Ledger.Types.{Uuid, Time, TransactionStatus, Posting}
use astrum.Ledger.State.{Accounts, transition}
use astrum.Ledger.Requests.{PostInput, Transaction, PostingRequest, status, matches}
use astrum.Ledger.Monitors.{LedgerState}
use astrum.Ledger.Store.{
  Store, stored, transaction_by_key, lock_accounts, write_accounts, transaction_created,
}
use astrum.Ledger.Engine.{
  PostingResult, unresolved, created, replayed, failed, Batch, ExternalKey, is_failed, is_taken,
  closes, time_or, first_account, external_key, finish, book, book_result, change_of, replay,
  answer_stored, truncate_request, resolve_new, resolve_prior, resolve_existing, resolve_request,
  resolve_all, conclude, apply_requests, write_batch, first_batch, request_accounts, accepted,
  truncated, unresolved_all,
}

-- Where a transaction is created, the accounts are those of the transition.
abbrev Applies : PostingRequest → Accounts → PostingResult × Batch → Type 0
Applies req m x =
    (t : Transaction)
    → x.0 ≡ created t
    → (r : Accounts × Uuid × List Posting) × (transition (change_of req) m ≡ ok r)
      × (x.1.accounts ≡ r.0)

module _ (req : PostingRequest) (never : req.in_put.archive_on_lock_failure ≡ false) where
  result-Applies :
      (m : Accounts) (x : Accounts × TransactionStatus × Uuid × List Posting)
      (o : Result (Accounts × Uuid × List Posting))
      → transition (change_of req) m ≡ o
      → book_result req m o ≡ ok x
      → (r : Accounts × Uuid × List Posting) × (transition (change_of req) m ≡ ok r) × (x.0 ≡ r.0)
  unfolding book_result
  result-Applies m x (ok r) e w = (r, e, ap (λ y. y.0) (sym (ok_unique refl w)))
  result-Applies m x (err e) f w = (let no : err e ≡ ok x = rw (never) at w in absurd (cc))

  book-Applies :
      (m : Accounts) (x : Accounts × TransactionStatus × Uuid × List Posting)
      → book req m ≡ ok x
      → (r : Accounts × Uuid × List Posting) × (transition (change_of req) m ≡ ok r) × (x.0 ≡ r.0)
  unfolding book
  book-Applies m x h = result-Applies m x (transition (change_of req) m) refl h

  finish-Applies :
      (id : Result Uuid) (now : Time) (external : Option ExternalKey) (b : Batch)
      (o : Result (Accounts × TransactionStatus × Uuid × List Posting))
      → book req b.accounts ≡ o
      → Applies req b.accounts (finish req id now external b o)
  unfolding finish
  finish-Applies id now external b (err e) h t g = absurd (cc)
  finish-Applies (err e) now external b (ok x) h t g = absurd (cc)
  finish-Applies (ok i) now external b (ok x) h t g = book-Applies b.accounts x h

  resolve_new-Applies :
      (id : Result Uuid) (now : Time) (b : Batch)
      → Applies req b.accounts (resolve_new req id now b)
  unfolding resolve_new
  resolve_new-Applies id now b t h =
      let i = req.in_put in
      let first = first_account i.postings b.accounts in
      let external = external_key i first in
      elim (Bool-cases (is_taken i.idempotency_key external b.taken)) [
        | inl e ↦ (let no : failed external_id_exists ≡ created t = rw e at h in absurd (cc))
        | inr e ↦ elim (Bool-cases (closes (status i) (time_or now i.effective_at) first)) [
          | inl f ↦ (let no : failed period_closed ≡ created t = rw (e, f) at h in absurd (cc))
          | inr f ↦
              rw (e, f)
                (finish-Applies id now external b (book req b.accounts) refl t (rw (e, f) at h))
        ]
      ]

  answers_nothing :
      (c : Bool) (u t : Transaction)
      → (if c then replayed u else failed idempotency_conflict) ≡ created t
      → ⊥
  answers_nothing true u t h = cc
  answers_nothing false u t h = cc

  replays_nothing :
      (i : PostInput) (r : PostingResult) (t : Transaction) → replay i r ≡ created t → ⊥
  unfolding replay
  replays_nothing i (failed e) t h = cc
  replays_nothing i (created u) t h = answers_nothing (matches u i) u t h
  replays_nothing i (replayed u) t h = answers_nothing (matches u i) u t h
  replays_nothing i unresolved t h = cc

  resolve_existing-Applies :
      (id : Result Uuid) (now : Time) (b : Batch) (o : Option Transaction)
      → Applies req b.accounts (resolve_existing req id now b o)
  unfolding resolve_existing resolve_prior answer_stored lookup
  resolve_existing-Applies id now b (some u) t h =
      absurd (answers_nothing (matches u req.in_put) u t h)
  resolve_existing-Applies id now b none t h =
      by_prior (lookup req.in_put.idempotency_key b.first_by_key) t h
    where
      by_prior : (o : Option PostingResult) → Applies req b.accounts (resolve_prior req id now b o)
      by_prior none t h = resolve_new-Applies id now b t h
      by_prior (some r) t h = absurd (replays_nothing req.in_put r t h)

-- the writes of `applyRequests` before the accounts
abbrev pub added : Transaction → Store → Store
added t s = record s {
  transactions = s.transactions ++ stored t ∷ [];
  events = s.events ++ transaction_created t ∷ [];
}

module _ (req : PostingRequest) (never : req.in_put.archive_on_lock_failure ≡ false) where
  truncated_never : (truncate_request req).in_put.archive_on_lock_failure ≡ false
  unfolding truncated
  truncated_never = never

  resolve_request-Applies :
      (ts : List Transaction) (id : Result Uuid) (now : Time) (b : Batch)
      → Applies (truncate_request req) b.accounts (resolve_request ts req id now b)
  unfolding resolve_request
  resolve_request-Applies ts id now b =
      let r = truncate_request req in
      resolve_existing-Applies r truncated_never id now b
        (transaction_by_key r.in_put.idempotency_key ts)

  conclude-Applies :
      (m : Accounts) (state : LedgerState) (s : Store) (r : PostingResult) (b : Batch) {s' : Store}
      {t : Transaction} {rs : List PostingResult} {aborted : Bool}
      → Applies (truncate_request req) m (r, b)
      → conclude state s (if is_failed r && true then (r ∷ [], true, b) else (r ∷ [], false, b))
        ≡ ok (s', created t ∷ rs, aborted)
      → (x : Accounts × Uuid × List Posting) × (transition (change_of (truncate_request req)) m
          ≡ ok x)
        × (write_accounts (record state { accounts = x.0 }) (added t s) ≡ ok s')
  unfolding conclude write_batch accepted
  conclude-Applies m state s (replayed u) b k h = absurd (cc)
  conclude-Applies m state s (failed e) b k h = absurd (cc)
  conclude-Applies m state s unresolved b k h = absurd (cc)
  conclude-Applies m state s (created u) b {s'} {t} {rs} {aborted} k h = >>=-elim _ _ h λ s2 e h1.
      let all : (s2, created u ∷ [], false) ≡ (s', created t ∷ rs, aborted) = ok_unique refl h1 in
      let store : s2 ≡ s' = ap (λ (p : Store × List PostingResult × Bool). p.0) all in
      let same : u ≡ t = cc in
      let (x, f, g) = k u refl in
      (
        x,
        f,
        ap (λ n. write_accounts (record state { accounts = n }) (added t s)) (sym g)
            ∙ ap (λ v. write_accounts (record state { accounts = b.accounts }) (added v s))
                (sym same)
            ∙ e
            ∙ ap ok store,
      )

-- A request that stands alone, never archives and creates a transaction has made a transition on the
-- locked accounts, and what it left of them was written.
pub apply_requests-Applies :
    (new_id : ℕ → Result Uuid) (now : Time) (req : PostingRequest) (s : Store) {s' : Store}
    {t : Transaction} {rs : List PostingResult} {aborted : Bool}
    → req.in_put.archive_on_lock_failure ≡ false
    → apply_requests new_id now true (req ∷ []) s ≡ ok (s', created t ∷ rs, aborted)
    → (x : Accounts × Uuid × List Posting) × (transition
          (change_of (truncate_request req))
          (lock_accounts (request_accounts (req ∷ [])) s).accounts
        ≡ ok x)
      × (write_accounts
            (record (lock_accounts (request_accounts (req ∷ [])) s) { accounts = x.0 })
            (added t s)
          ≡ ok s')
unfolding apply_requests resolve_all unresolved_all
apply_requests-Applies new_id now req s never h =
    let state = lock_accounts (request_accounts (req ∷ [])) s in
    let r = resolve_request s.transactions req (new_id 0) now (first_batch state s) in
    conclude-Applies req never state.accounts state s r.0 r.1
      (resolve_request-Applies req never s.transactions (new_id 0) now (first_batch state s)) h

-- ===== src/Ledger/Engine/Period.antt =====
-- Closed periods and external ids: what a created transaction has passed.
use astrum.Prelude.{
  ℕ, ◌≡◌, refl, sym, ap, ◌∙◌, Bool, true, false, not, ◌&&◌, ◌||◌, Option, none, some, List, arith,
  Bool-cases, inl, inr, if◌then◌else◌,
}
use astrum.Prelude.Eq.{nat_eq, text_eq, pair_eq, ◌=?◌}
use astrum.Prelude.Map.{lookup}
use astrum.Result.{Result, ok, err, ◌>>=◌, >>=-elim, ok_unique, idempotency_conflict}
use astrum.Ledger.Types.{Uuid, Time, TransactionStatus, is_archived, Posting}
use astrum.Ledger.Account.{AccountState}
use astrum.Ledger.State.{Accounts, transition, is_empty}
use astrum.Ledger.Requests.{PostInput, status, Transaction, matches, PostingRequest}
use astrum.Ledger.Engine.Sound.{archived_postings-archived}
use astrum.Ledger.Store.{transaction_by_key}
use astrum.Ledger.Engine.{
  PostingResult, created, replayed, failed, unresolved, Batch, ExternalKey, first_account,
  external_key, is_taken, is_before, closes, time_or, book, book_result, change_of,
  archived_postings, is_lock_failure, new_transaction, finish, resolve_new, replay, answer_stored,
  resolve_prior, resolve_existing, resolve_request, truncate_request, truncated,
}

-- What a transaction that is created has passed: where its first entry's account is in a ledger
-- whose books are closed before a time, it is not before that time, unless it is archived; and its
-- external id belongs to no other key.
pub record Admitted (req : PostingRequest) (b : Batch) (t : Transaction) : Type 0 where
  pub open_period :
      (a : AccountState)
      → first_account req.in_put.postings b.accounts ≡ some a
      → is_archived t.status ≡ false
      → is_before t.effective_at a.closed_before ≡ false
  pub free_id :
      (a : AccountState) (k : List ℕ)
      → first_account req.in_put.postings b.accounts ≡ some a
      → is_empty req.in_put.external_id ≡ false
      → lookup (a.ledger_id, req.in_put.external_id) b.taken ≡ some k
      → (k =? req.in_put.idempotency_key) ≡ true

-- a booking keeps the request's status, or archives
Kept : PostingRequest → TransactionStatus → Type 0
Kept req s = is_archived s ≡ false → s ≡ status req.in_put

book-Kept :
    (req : PostingRequest) (m : Accounts) (o : Result (Accounts × Uuid × List Posting))
    {r : Accounts × TransactionStatus × Uuid × List Posting}
    → book_result req m o ≡ ok r
    → Kept req r.1
unfolding book_result Kept
book-Kept req m (ok x) {r} h f = sym (ap (λ y. y.1) (ok_unique refl h))
book-Kept req m (err e) {r} h f =
    archives (not req.in_put.archive_on_lock_failure || not (is_lock_failure e)) h
  where
    archives :
        (c : Bool)
        → (if c
            then err e
            else (archived_postings m req.in_put.postings >>= λ q. ok (m, q.0, q.1, q.2)))
          ≡ ok r
        → r.1 ≡ status req.in_put
    archives true k = absurd (cc)
    archives false k = >>=-elim (archived_postings m req.in_put.postings) _ k λ q eq k1.
        let same : q.0 ≡ r.1 = ap (λ y. y.1) (ok_unique refl k1) in
        absurd (cc (f, same, archived_postings-archived m req.in_put.postings eq))

created_unique : {s t : Transaction} → created s ≡ created t → s ≡ t
created_unique e = cc

finish-created :
    (req : PostingRequest) (id : Result Uuid) (now : Time) (external : Option ExternalKey)
    (b : Batch) (o : Result (Accounts × TransactionStatus × Uuid × List Posting)) {t : Transaction}
    → (finish req id now external b o).0 ≡ created t
    → (r : Accounts × TransactionStatus × Uuid × List Posting) × (o ≡ ok r)
      × (t.status ≡ r.1)
      × (t.effective_at ≡ time_or now req.in_put.effective_at)
unfolding finish
finish-created req id now external b (err e) h = absurd (cc)
finish-created req (err e) now external b (ok r) h = absurd (cc)
finish-created req (ok i) now external b (ok r) {t} h =
    let same : new_transaction req i now r.1 r.2 r.3 ≡ t = created_unique h in
    (r, refl, ap (λ y. y.status) (sym same), ap (λ y. y.effective_at) (sym same))

not_archived : (c : Bool) (x : Bool) → c ≡ false → not c && x ≡ false → x ≡ false
not_archived c x e h = ground arith

own_key : (c : Bool) → not c ≡ false → c ≡ true
own_key c h = ground arith

resolve_new-Admitted :
    (req : PostingRequest) (id : Result Uuid) (now : Time) (b : Batch) {t : Transaction}
    → (resolve_new req id now b).0 ≡ created t
    → Admitted req b t
unfolding resolve_new book Kept
resolve_new-Admitted req id now b {t} h =
    let i = req.in_put in
    let first = first_account i.postings b.accounts in
    let external = external_key i first in
    elim (Bool-cases (is_taken i.idempotency_key external b.taken)) [
      | inl e ↦ absurd (cc (h, e))
      | inr e ↦ elim (Bool-cases (closes (status i) (time_or now i.effective_at) first)) [
        | inl c ↦ absurd (cc (h, e, c))
        | inr c ↦
            let (r, o, s, at) =
              finish-created req id now external b (book req b.accounts) (rw (e, c) at h) in
            record {
              open_period = λ a f n.
                  let st : t.status ≡ status i =
                    s
                    ∙ book-Kept req b.accounts (transition (change_of req) b.accounts) o
                        (sym (ap is_archived s) ∙ n) in
                  not_archived (is_archived t.status) (is_before t.effective_at a.closed_before) n
                    (rw (st, at) (rw f at c));
              free_id = λ a k f n g. own_key (k =? i.idempotency_key) (rw (f, n, g) at e);
            }
      ]
    ]

answer-ne-created :
    (c : Bool) (u : Transaction) {t : Transaction}
    → (if c then replayed u else failed idempotency_conflict) ≡ created t
    → ⊥
answer-ne-created true u h = cc
answer-ne-created false u h = cc

replay-ne-created :
    (i : PostInput) (p : PostingResult) {t : Transaction} → replay i p ≡ created t → ⊥
unfolding replay
replay-ne-created i (failed e) h = cc
replay-ne-created i (created u) h = answer-ne-created (matches u i) u h
replay-ne-created i (replayed u) h = answer-ne-created (matches u i) u h
replay-ne-created i unresolved h = cc

resolve_prior-Admitted :
    (r : PostingRequest) (id : Result Uuid) (now : Time) (b : Batch) (o : Option PostingResult)
    {t : Transaction}
    → (resolve_prior r id now b o).0 ≡ created t
    → Admitted r b t
unfolding resolve_prior
resolve_prior-Admitted r id now b (some p) h = absurd (replay-ne-created r.in_put p h)
resolve_prior-Admitted r id now b none h = resolve_new-Admitted r id now b h

resolve_existing-Admitted :
    (r : PostingRequest) (id : Result Uuid) (now : Time) (b : Batch) (o : Option Transaction)
    {t : Transaction}
    → (resolve_existing r id now b o).0 ≡ created t
    → Admitted r b t
unfolding resolve_existing answer_stored
resolve_existing-Admitted r id now b (some u) h =
    absurd (answer-ne-created (matches u r.in_put) u h)
resolve_existing-Admitted r id now b none h =
    resolve_prior-Admitted r id now b (lookup r.in_put.idempotency_key b.first_by_key) h

-- A transaction that `resolveRequest` creates does not take effect in a closed period of its ledger,
-- unless it is archived, and takes no external id that belongs to another key of that ledger. The
-- ledger is that of the first entry's account.
pub resolve_request-Admitted :
    (ts : List Transaction) (req : PostingRequest) (id : Result Uuid) (now : Time) (b : Batch)
    {t : Transaction}
    → (resolve_request ts req id now b).0 ≡ created t
    → Admitted req b t
unfolding resolve_request truncated
resolve_request-Admitted ts req id now b h =
    let r = truncate_request req in
    let k =
      resolve_existing-Admitted r id now b (transaction_by_key r.in_put.idempotency_key ts) h in
    record { open_period = k.open_period; free_id = k.free_id }

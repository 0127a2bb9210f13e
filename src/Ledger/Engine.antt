-- ===== src/Ledger/Engine.antt =====
-- internal/modules/ledger/engine.go: a batch of posting requests. `new_id` is the outcome of
-- uuid.NewV7 for each request of the batch.
mod Resolve
pub mod Applied
pub mod Atomic
pub mod Replays
pub mod Period
pub mod Sound
pub mod Outcomes
pub mod Counts
pub mod Added
unfoldable pub use Resolve.*
use astrum.Prelude.{ℕ, suc, ◌+◌, Bool, true, false, ◌&&◌, List, [], ◌∷◌, ◌++◌, map, if◌then◌else◌}
use astrum.Prelude.Eq.{Text, nat_eq, text_eq, pair_eq}
use astrum.Prelude.Map.{Map, insert}
use astrum.Result.{Result, ok, err, ◌>>=◌, batch_aborted}
use astrum.Ledger.Types.{Uuid, Time}
use astrum.Ledger.State.{is_empty}
use astrum.Ledger.Requests.{Transaction, PostingRequest}
use astrum.Ledger.Monitors.{LedgerState}
use astrum.Ledger.Store.{Store, lock_accounts, write_accounts, stored, transaction_created}

abbrev pub is_failed : PostingResult → Bool
is_failed (failed e) = true
is_failed _ = false

unfoldable pub unresolved_all : List PostingRequest → List PostingResult
unresolved_all [] = []
unresolved_all (r ∷ rs) = unresolved ∷ unresolved_all rs

-- The loop of `applyRequests`: the results, whether the batch was aborted, and the state. The
-- index counts the requests, for `new_id`.
unfoldable pub resolve_all :
    List Transaction
    → (ℕ → Result Uuid)
    → Time
    → Bool
    → ℕ
    → List PostingRequest
    → Batch
    → List PostingResult × Bool × Batch
unfolding unresolved_all
resolve_all transactions new_id now atomic n [] b = ([], false, b)
resolve_all transactions new_id now atomic n (req ∷ reqs) b =
    let (r, b') = resolve_request transactions req (new_id n) now b in
    let rest = resolve_all transactions new_id now atomic (suc n) reqs b' in
    if is_failed r && atomic
    then (r ∷ unresolved_all reqs, true, b')
    else (r ∷ rest.0, rest.1, rest.2)

unfoldable pub accepted : List PostingResult → List Transaction
accepted [] = []
accepted (created t ∷ rs) = t ∷ accepted rs
accepted (unresolved ∷ rs) = accepted rs
accepted (replayed t ∷ rs) = accepted rs
accepted (failed e ∷ rs) = accepted rs

unfoldable pub request_accounts : List PostingRequest → List Uuid
request_accounts [] = []
request_accounts (r ∷ rs) =
    map (λ p. p.account_id) r.in_put.postings ++ map (λ x. x.0) r.releases ++ request_accounts rs

-- `queueSelectExternalIDs`; the ids that no request names are not looked up
unfoldable pub external_ids : List Transaction → Map ExternalKey Text
external_ids [] = []
external_ids (t ∷ ts) =
    let rest = external_ids ts in
    if is_empty t.external_id
    then rest
    else insert (t.ledger_id, t.external_id) t.idempotency_key rest

-- the writes of `applyRequests`
unfoldable pub write_batch : List Transaction → LedgerState → Store → Result Store
write_batch [] state s = ok s
write_batch (t ∷ ts) state s = write_accounts state (record s {
  transactions = s.transactions ++ map stored (t ∷ ts);
  events = s.events ++ map transaction_created (t ∷ ts);
})

-- the end of `applyRequests`: an aborted batch returns early, with `errAborted`
unfoldable pub conclude :
    LedgerState
    → Store
    → List PostingResult × Bool × Batch
    → Result (Store × List PostingResult × Bool)
conclude state s (results, true, b) = ok (s, results, true)
conclude state s (results, false, b) =
    write_batch (accepted results) (record state { accounts = b.accounts }) s >>= λ s'.
    ok (s', results, false)

abbrev pub first_batch : LedgerState → Store → Batch
first_batch state s = record {
  accounts = state.accounts;
  taken = external_ids s.transactions;
  first_by_key = [];
}

-- `applyRequests`: the store, the results, and whether the error is `errAborted`
unfoldable pub apply_requests :
    (ℕ → Result Uuid)
    → Time
    → Bool
    → List PostingRequest
    → Store
    → Result (Store × List PostingResult × Bool)
apply_requests new_id now atomic reqs s =
    let state = lock_accounts (request_accounts reqs) s in
    conclude state s (resolve_all s.transactions new_id now atomic 0 reqs (first_batch state s))

abbrev pub abort_one : PostingResult → PostingResult
abort_one (failed e) = failed e
abort_one _ = failed batch_aborted

-- the end of `runRequests`: an aborted transaction leaves the store as it was
unfoldable pub deliver :
    Store → Result (Store × List PostingResult × Bool) → Store × Result (List PostingResult)
deliver s (err e) = (s, err e)
deliver s (ok (s', results, true)) = (s, ok (map abort_one results))
deliver s (ok (s', results, false)) = (s', ok results)

unfoldable pub run_requests :
    (ℕ → Result Uuid)
    → Time
    → Bool
    → List PostingRequest
    → Store
    → Store × Result (List PostingResult)
run_requests new_id now atomic reqs s = deliver s (apply_requests new_id now atomic reqs s)

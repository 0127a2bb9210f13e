-- ===== src/Ledger/Batcher.antt =====
-- internal/modules/ledger/batcher.go: how the requests that wait in the queue are committed in groups.
-- One worker is modelled, on the requests that are in the queue; time and the queue's bound are not.
pub mod Drained
use astrum.Prelude.{
  ℕ, zero, suc, ◌-◌, Bool, false, Option, none, some, List, [], ◌∷◌, ◌++◌, take, drop, length,
  if◌then◌else◌,
}
use astrum.Result.{Error, Result, ok, err}
use astrum.Ledger.Types.{Uuid, Time}
use astrum.Ledger.Requests.{PostingRequest}
use astrum.Ledger.Store.{Store}
use astrum.Ledger.Engine.{PostingResult, failed, run_requests}

-- `done` is a channel, which is the number of the caller that waits on it. `cancelled` is the error of
-- the request's context, if it has ended when its group is committed, and `cancelled_later` if it has
-- when the request is tried on its own.
pub record Request : Type 0 where
  pub done : ℕ
  pub cancelled : Option Error
  pub cancelled_later : Option Error
  pub req : PostingRequest

-- what is sent on a channel
pub record Answer : Type 0 where
  pub to : ℕ
  pub result : PostingResult

-- the first loop of `commit`: those that are cancelled have their answer, the others are live
unfoldable pub cancelled_answers : List Request → List Answer
cancelled_answers [] = []
cancelled_answers (r ∷ rs) = elim r.cancelled [
  | none ↦ cancelled_answers rs
  | some e ↦ record { to = r.done; result = failed e } ∷ cancelled_answers rs
]

unfoldable pub live : List Request → List Request
live [] = []
live (r ∷ rs) = elim r.cancelled [ none ↦ r ∷ live rs | some e ↦ live rs ]

-- `r.done <- results[i]`, for each live request
unfoldable pub deliver_results : List Request → List PostingResult → List Answer
deliver_results [] results = []
deliver_results (r ∷ rs) [] = []
deliver_results (r ∷ rs) (o ∷ os) = record { to = r.done; result = o } ∷ deliver_results rs os

unfoldable pub deliver_error : Error → List Request → List Answer
deliver_error e [] = []
deliver_error e (r ∷ rs) = record { to = r.done; result = failed e } ∷ deliver_error e rs

abbrev pub requests_of : List Request → List PostingRequest
requests_of [] = []
requests_of (r ∷ rs) = r.req ∷ requests_of rs

-- What can go wrong with a database transaction of its own: a timeout, a lost connection, a conflict
-- that stays after all attempts. The error is what `runRequests` answers; it may come after a commit
-- that took effect.
pub record Fault : Type 0 where
  pub error : Error
  pub took_effect : Bool

-- the answer of the transaction with the number `n`, from a store and what `runRequests` makes of it
abbrev pub with_fault :
    Option Fault
    → ℕ
    → Store
    → Store × Result (List PostingResult)
    → (Store × ℕ) × Result (List PostingResult)
with_fault none n s (s', results) = ((s', suc n), results)
with_fault (some f) n s (s', results) = ((if f.took_effect then s' else s, suc n), err f.error)

-- the test of a context that has ended, before a request is tried on its own
abbrev pub unless_ended :
    Option Error → Request → Store × ℕ → (Store × ℕ) × List Answer → (Store × ℕ) × List Answer
unless_ended none r x committed = committed
unless_ended (some e) r x committed = (x, deliver_error e (r ∷ []))

-- The world of a batcher: the ids, the time and the fault of each database transaction, by its number.
-- The state is the store with the number of transactions that were begun.
module _ (new_id : ℕ → ℕ → Result Uuid) (now : ℕ → Time) (faults : ℕ → Option Fault) where
  -- the call of `runRequests`
  unfoldable pub run_group :
      List PostingRequest → Store × ℕ → (Store × ℕ) × Result (List PostingResult)
  unfolding run_requests
  run_group reqs (s, n) = with_fault (faults n) n s (run_requests (new_id n) (now n) false reqs s)

  abbrev pub answer_one :
      Request → (Store × ℕ) × Result (List PostingResult) → (Store × ℕ) × List Answer
  answer_one r (x, ok results) = (x, deliver_results (r ∷ []) results)
  answer_one r (x, err e) = (x, deliver_error e (r ∷ []))

  -- `commit` of one live request: an error is its answer
  unfoldable pub commit_one : Request → Store × ℕ → (Store × ℕ) × List Answer
  unfolding run_group deliver_results deliver_error
  commit_one r x = answer_one r (run_group (r.req ∷ []) x)

  -- `b.commit([]*request{r})`, which reads the error of the context again
  unfoldable pub commit_again : Request → Store × ℕ → (Store × ℕ) × List Answer
  unfolding commit_one
  commit_again r x = unless_ended r.cancelled_later r x (commit_one r x)

  -- the loop that retries the requests of a group one by one
  unfoldable pub retry_each : List Request → Store × ℕ → (Store × ℕ) × List Answer
  unfolding commit_again
  retry_each [] x = (x, [])
  retry_each (r ∷ rs) x =
      let (y, first) = commit_again r x in let (z, rest) = retry_each rs y in (z, first ++ rest)

  -- what `commit` does with the answer of the database to a group: each request is tried on its own
  -- after an error, on the store as the failed transaction left it
  abbrev pub answer_group :
      List Request → (Store × ℕ) × Result (List PostingResult) → (Store × ℕ) × List Answer
  answer_group rs (x, ok results) = (x, deliver_results rs results)
  answer_group rs (x, err e) = retry_each rs x

  unfoldable pub commit_live : List Request → Store × ℕ → (Store × ℕ) × List Answer
  unfolding commit_one run_group deliver_results retry_each
  commit_live [] x = (x, [])
  commit_live (r ∷ []) x = commit_one r x
  commit_live (r ∷ q ∷ rs) x = answer_group (r ∷ q ∷ rs) (run_group (requests_of (r ∷ q ∷ rs)) x)

  abbrev pub after : List Answer → (Store × ℕ) × List Answer → (Store × ℕ) × List Answer
  after answers (x, more) = (x, answers ++ more)

  -- `commit`
  unfoldable pub commit : List Request → Store × ℕ → (Store × ℕ) × List Answer
  unfolding cancelled_answers live commit_live
  commit batch x = after (cancelled_answers batch) (commit_live (live batch) x)

  -- `drain`, with `collect` for the batch of each round: the first request and at most `max_batch - 1`
  -- more. The fuel is the number of rounds.
  unfoldable pub drain_from : ℕ → ℕ → List Request → Store × ℕ → (Store × ℕ) × List Answer
  unfolding commit
  drain_from max_batch zero queue x = (x, [])
  drain_from max_batch (suc fuel) [] x = (x, [])
  drain_from max_batch (suc fuel) (r ∷ rs) x =
      let (y, first) = commit (r ∷ take (max_batch - 1) rs) x in
      let (z, rest) = drain_from max_batch fuel (drop (max_batch - 1) rs) y in (z, first ++ rest)

  unfoldable pub drain : ℕ → List Request → Store → (Store × ℕ) × List Answer
  unfolding drain_from
  drain max_batch queue s = drain_from max_batch (length queue) queue (s, 0)

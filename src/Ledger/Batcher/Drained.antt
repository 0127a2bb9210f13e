-- ===== src/Ledger/Batcher/Drained.antt =====
-- The answers of internal/modules/ledger/batcher.go: one for each request, also where database transactions fail.
use astrum.Prelude.{
  ℕ, zero, suc, ◌+◌, ◌-◌, ◌≤◌, ◌≡◌, refl, ap, ◌∙◌, arith, Bool, false, ◌==◌, Option, none, some,
  List, [], ◌∷◌, ◌++◌, take, drop, length, if◌then◌else◌,
}
use astrum.Result.{Error, Result, ok, err}
use astrum.Ledger.Types.{Uuid, Time}
use astrum.Ledger.Requests.{PostingRequest}
use astrum.Ledger.Store.{Store}
use astrum.Ledger.Engine.{PostingResult, failed, run_requests}
use astrum.Ledger.Engine.Counts.{outcomes_of, run_requests-length}
use astrum.Ledger.Batcher.{
  Request, Answer, Fault, run_group, with_fault, unless_ended, commit_again, cancelled_answers,
  live, deliver_results, deliver_error, requests_of, answer_one, commit_one, retry_each,
  answer_group, commit_live, commit, drain_from, drain,
}

one_if : Bool → ℕ
one_if b = if b then 1 else 0

-- How many of the requests wait on the channel `k`, and how many answers are sent to it.
pub asked : ℕ → List Request → ℕ
unfolding one_if
asked k [] = 0
asked k (r ∷ rs) = one_if (r.done == k) + asked k rs

pub answered : ℕ → List Answer → ℕ
unfolding one_if
answered k [] = 0
answered k (a ∷ as') = one_if (a.to == k) + answered k as'

module _ (k : ℕ) where
  answered-append : (as' bs : List Answer) → answered k (as' ++ bs) ≡ answered k as' + answered k bs
  unfolding answered
  answered-append [] bs = omega arith
  answered-append (a ∷ as') bs = omega (arith, answered-append as' bs)

  live-asked :
      (rs : List Request) → answered k (cancelled_answers rs) + asked k (live rs) ≡ asked k rs
  unfolding answered asked cancelled_answers live
  live-asked [] = refl
  live-asked (r ∷ rs) = by_context r.cancelled (live-asked rs)
    where
      by_context :
          (o : Option Error)
          → answered k (cancelled_answers rs) + asked k (live rs) ≡ asked k rs
          → answered k (elim o [
            | none ↦ cancelled_answers rs
            | some e ↦ record { to = r.done; result = failed e } ∷ cancelled_answers rs
          ])
              + asked k (elim o [ none ↦ r ∷ live rs | some e ↦ live rs ])
            ≡ one_if (r.done == k) + asked k rs
      by_context none h = omega (arith, h)
      by_context (some e) h = omega (arith, h)

  deliver_results-answered :
      (rs : List Request) (os : List PostingResult)
      → length os ≡ length (requests_of rs)
      → answered k (deliver_results rs os) ≡ asked k rs
  unfolding answered asked deliver_results
  deliver_results-answered [] os h = refl
  deliver_results-answered (r ∷ rs) [] h = absurd (omega arith)
  deliver_results-answered (r ∷ rs) (o ∷ os) h =
      ap (λ n. one_if (r.done == k) + n) (deliver_results-answered rs os (omega arith))

  deliver_error-answered :
      (e : Error) (rs : List Request) → answered k (deliver_error e rs) ≡ asked k rs
  unfolding answered asked deliver_error
  deliver_error-answered e [] = refl
  deliver_error-answered e (r ∷ rs) =
      ap (λ n. one_if (r.done == k) + n) (deliver_error-answered e rs)

  module _ (new_id : ℕ → ℕ → Result Uuid) (now : ℕ → Time) (faults : ℕ → Option Fault) where
    run_group-length :
        (reqs : List PostingRequest) (x : Store × ℕ) {os : List PostingResult}
        → (run_group new_id now faults reqs x).1 ≡ ok os
        → length os ≡ length reqs
    unfolding run_group outcomes_of
    run_group-length reqs (s, n) {os} h =
        by_fault (faults n) (run_requests (new_id n) (now n) false reqs s) refl h
      where
        by_fault :
            (o : Option Fault) (y : Store × Result (List PostingResult))
            → run_requests (new_id n) (now n) false reqs s ≡ y
            → (with_fault o n s y).1 ≡ ok os
            → length os ≡ length reqs
        by_fault none (s', rs) same e =
            run_requests-length (new_id n) (now n) false reqs s
              (ap (λ (y : Store × Result (List PostingResult)). y.1) same ∙ e)
        by_fault (some f) (s', rs) same e = absurd (cc)

    commit_one-answered :
        (r : Request) (x : Store × ℕ)
        → answered k (commit_one new_id now faults r x).1 ≡ asked k (r ∷ [])
    unfolding commit_one
    commit_one-answered r x = go (run_group new_id now faults (r.req ∷ []) x) refl
      where
        go :
            (y : (Store × ℕ) × Result (List PostingResult))
            → run_group new_id now faults (r.req ∷ []) x ≡ y
            → answered k (answer_one new_id now faults r y).1 ≡ asked k (r ∷ [])
        go (z, ok os) e = deliver_results-answered (r ∷ []) os (
            run_group-length (r.req ∷ []) x
              (ap (λ (y : (Store × ℕ) × Result (List PostingResult)). y.1) e))
        go (z, err f) e = deliver_error-answered f (r ∷ [])

    commit_again-answered :
        (r : Request) (x : Store × ℕ)
        → answered k (commit_again new_id now faults r x).1 ≡ asked k (r ∷ [])
    unfolding commit_again
    commit_again-answered r x = by_context r.cancelled_later
      where
        by_context :
            (o : Option Error)
            → answered k (unless_ended o r x (commit_one new_id now faults r x)).1
              ≡ asked k (r ∷ [])
        by_context none = commit_one-answered r x
        by_context (some e) = deliver_error-answered e (r ∷ [])

    retry_each-answered :
        (rs : List Request) (x : Store × ℕ)
        → answered k (retry_each new_id now faults rs x).1 ≡ asked k rs
    unfolding retry_each answered asked
    retry_each-answered [] x = refl
    retry_each-answered (r ∷ rs) x =
        answered-append (commit_again new_id now faults r x).1 _
        ∙ (let first = commit_again-answered r x in
            let rest = retry_each-answered rs (commit_again new_id now faults r x).0 in
            omega (arith, first, rest))

    commit_live-answered :
        (rs : List Request) (x : Store × ℕ)
        → answered k (commit_live new_id now faults rs x).1 ≡ asked k rs
    unfolding commit_live answered asked
    commit_live-answered [] x = refl
    commit_live-answered (r ∷ []) x = commit_one-answered r x
    commit_live-answered (r ∷ q ∷ rs) x =
        go (run_group new_id now faults (requests_of (r ∷ q ∷ rs)) x) refl
      where
        go :
            (y : (Store × ℕ) × Result (List PostingResult))
            → run_group new_id now faults (requests_of (r ∷ q ∷ rs)) x ≡ y
            → answered k (answer_group new_id now faults (r ∷ q ∷ rs) y).1 ≡ asked k (r ∷ q ∷ rs)
        go (z, ok os) e = deliver_results-answered (r ∷ q ∷ rs) os (
            run_group-length (requests_of (r ∷ q ∷ rs)) x
              (ap (λ (y : (Store × ℕ) × Result (List PostingResult)). y.1) e))
        go (z, err f) e = retry_each-answered (r ∷ q ∷ rs) z

    commit-answered :
        (rs : List Request) (x : Store × ℕ)
        → answered k (commit new_id now faults rs x).1 ≡ asked k rs
    unfolding commit
    commit-answered rs x =
        answered-append (cancelled_answers rs) (commit_live new_id now faults (live rs) x).1
        ∙ ap (λ n. answered k (cancelled_answers rs) + n) (commit_live-answered (live rs) x)
        ∙ live-asked rs

    take-drop-asked :
        (n : ℕ) (rs : List Request) → asked k (take n rs) + asked k (drop n rs) ≡ asked k rs
    unfolding asked
    take-drop-asked zero rs = omega arith
    take-drop-asked (suc n) [] = refl
    take-drop-asked (suc n) (r ∷ rs) = omega (arith, take-drop-asked n rs)

    drop-length : (n : ℕ) (rs : List Request) → length (drop n rs) ≤ length rs
    drop-length zero rs = omega arith
    drop-length (suc n) [] = omega arith
    drop-length (suc n) (r ∷ rs) = omega (arith, drop-length n rs)

    drain_from-answered :
        (max_batch fuel : ℕ) (queue : List Request) (x : Store × ℕ)
        → length queue ≤ fuel
        → answered k (drain_from new_id now faults max_batch fuel queue x).1 ≡ asked k queue
    unfolding drain_from answered asked
    drain_from-answered max_batch zero [] x h = refl
    drain_from-answered max_batch zero (r ∷ rs) x h = absurd (omega arith)
    drain_from-answered max_batch (suc fuel) [] x h = refl
    drain_from-answered max_batch (suc fuel) (r ∷ rs) x h =
        let batch = r ∷ take (max_batch - 1) rs in
        let left = drop (max_batch - 1) rs in
        let first = commit-answered batch x in
        let rest =
          drain_from-answered max_batch fuel left (commit new_id now faults batch x).0
            (omega (arith, drop-length (max_batch - 1) rs)) in
        answered-append (commit new_id now faults batch x).1 _
        ∙ omega (arith, first, rest, take-drop-asked (max_batch - 1) rs)

    -- Whichever database transactions fail, with or without effect, and whichever requests are cancelled
    -- at their first or their second try, `drain` sends on each channel as many answers as there are
    -- requests in the queue that wait on it: each has exactly one.
    pub drain-answered :
        (max_batch : ℕ) (queue : List Request) (s : Store)
        → answered k (drain new_id now faults max_batch queue s).1 ≡ asked k queue
    unfolding drain
    drain-answered max_batch queue s =
        drain_from-answered max_batch (length queue) queue (s, 0) (omega arith)

-- ===== src/Ledger/Service/Batches.antt =====
-- `postBatch` of internal/modules/ledger/service.go. The texts of the metadata stand beside the
-- requests, and the group of requests that are underway at once is left out.
use astrum.Prelude.{
  ℕ, zero, suc, Bool, true, false, ◌||◌, ◌==◌, ltb, List, [], ◌∷◌, length, if◌then◌else◌,
}
use astrum.Prelude.Eq.{Text}
use astrum.Result.{Error, Result, ok, err, ◌>>=◌, invalid}
use astrum.Ledger.Types.{Uuid, Time}
use astrum.Ledger.Requests.{PostInput, Transaction, PostingRequest}
use astrum.Ledger.Store.{Store}
use astrum.Ledger.Engine.{PostingResult, unresolved, created, replayed, failed, run_requests}
use astrum.Ledger.Validate.{validate_post}
use astrum.Ledger.Validate.Regular.{request_for}

-- `absent` is the zero value.
pub data BatchResult : Type 0 where
  absent : BatchResult
  succeeded repeated : Transaction → BatchResult
  refused : Error → BatchResult

-- one round of the loop over the outcomes; a request that was not resolved has the zero outcome
abbrev pub result_of : PostingResult → BatchResult
result_of (created t) = succeeded t
result_of (replayed t) = repeated t
result_of (failed e) = refused e
result_of unresolved = absent

-- `results[n] = r`
unfoldable pub set_at : ℕ → BatchResult → List BatchResult → List BatchResult
set_at n r [] = []
set_at zero r (x ∷ xs) = r ∷ xs
set_at (suc n) r (x ∷ xs) = x ∷ set_at n r xs

-- the loop over the outcomes, `results[positions[j]]`
unfoldable pub fill : List ℕ → List PostingResult → List BatchResult → List BatchResult
unfolding set_at
fill [] os results = results
fill (n ∷ ns) [] results = results
fill (n ∷ ns) (o ∷ os) results = fill ns os (set_at n (result_of o) results)

-- what the loop over the inputs makes: the results of those that are refused, and the requests of
-- the others with their positions
pub record Collected : Type 0 where
  pub results : List BatchResult
  pub reqs : List PostingRequest
  pub positions : List ℕ

abbrev pub add_request : ℕ → PostInput → Collected → Collected
add_request n i c = record {
  results = absent ∷ c.results;
  reqs = request_for i ∷ c.reqs;
  positions = n ∷ c.positions;
}

abbrev pub add_refusal : Error → Collected → Collected
add_refusal e c = record c { results = refused e ∷ c.results }

-- by the check of one input and the loop over the rest
abbrev pub collect_one :
    Bool → ℕ → PostInput → Result (Unit {0}) → Result Collected → Result Collected
collect_one atomic n i (ok u) rest = rest >>= λ c. ok (add_request n i c)
collect_one true n i (err e) rest = err e
collect_one false n i (err e) rest = rest >>= λ c. ok (add_refusal e c)

module _ (reads_object : Text → Bool) where
  unfoldable pub collect : Bool → ℕ → List (Text × PostInput) → Result Collected
  unfolding validate_post request_for
  collect atomic n [] = ok (record { results = []; reqs = []; positions = [] })
  collect atomic n ((raw, i) ∷ ins) =
      collect_one atomic n i (validate_post reads_object raw i) (collect atomic (suc n) ins)

  abbrev pub fill_from :
      Collected → Store × Result (List PostingResult) → Store × Result (List BatchResult)
  fill_from c (s, err e) = (s, err e)
  fill_from c (s, ok os) = (s, ok (fill c.positions os c.results))

  abbrev pub run_collected :
      (ℕ → Result Uuid) → Time → Bool → Collected → Store → Store × Result (List BatchResult)
  run_collected new_id now atomic c s = elim c.reqs [
    | [] ↦ (s, ok c.results)
    | r ∷ rs ↦ fill_from c (run_requests new_id now atomic (r ∷ rs) s)
  ]

  abbrev pub run_checked :
      (ℕ → Result Uuid) → Time → Bool → Store → Result Collected → Store × Result (List BatchResult)
  run_checked new_id now atomic s (err e) = (s, err e)
  run_checked new_id now atomic s (ok c) = run_collected new_id now atomic c s

  -- `postBatch`
  unfoldable pub post_batch :
      (ℕ → Result Uuid)
      → Time
      → Bool
      → List (Text × PostInput)
      → Store
      → Store × Result (List BatchResult)
  unfolding collect fill run_requests
  post_batch new_id now atomic ins s =
      if (length ins == 0) || ltb 1000 (length ins)
      then (s, err invalid)
      else run_checked new_id now atomic s (collect atomic 0 ins)

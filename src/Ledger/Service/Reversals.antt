-- ===== src/Ledger/Service/Reversals.antt =====
-- `reverse` of internal/modules/ledger/service.go, in one database transaction.
use astrum.Prelude.{
  ℕ, Bool, true, false, not, ◌&&◌, ◌==◌, Option, none, some, List, [], ◌∷◌, map, if◌then◌else◌,
}
use astrum.Prelude.Eq.{Text, text_eq, ◌=?◌}
use astrum.Result.{
  Result, ok, err, ◌>>=◌, ◌>>◌, fail_if, not_found, not_posted, already_reversed,
  idempotency_conflict, internal,
}
use astrum.Money.Amount.{zero_amount}
use astrum.Ledger.Types.{Uuid, Time, opposite, is_posted, unset, Posting}
use astrum.Ledger.Requests.{Transaction, PostingRequest, matches}
use astrum.Ledger.Store.{Store, select_transaction}
use astrum.Ledger.State.{or_err}
use astrum.Ledger.Engine.{PostingResult, unresolved, created, replayed, failed, apply_requests}
use astrum.Ledger.Validate.{ReverseInput, validate_reverse}

-- one round of the loop of `reversalRequest`
unfoldable pub reversed_posting : Posting → Posting
reversed_posting p = record {
  account_id = p.account_id;
  side = opposite p.side;
  amount = p.amount;
  currency = p.currency;
  pending_lock = none;
  posted_lock = none;
  available_lock = none;
  lock_version = none;
  resulting = none;
  balance_after = zero_amount;
}

unfoldable pub reversal_request : Transaction → ReverseInput → PostingRequest
reversal_request original i = record {
  in_put = record {
    idempotency_key = i.idempotency_key;
    description = i.description;
    metadata = i.metadata;
    postings = map reversed_posting original.postings;
    status_given = unset;
    effective_at = none;
    external_id = [];
    archive_on_lock_failure = false;
  };
  reverses = some original.id;
  releases = [];
}

abbrev pub reverses_it : Uuid → Option Uuid → Bool
reverses_it id none = false
reverses_it id (some j) = j == id

-- `selectReversal`
unfoldable pub reversal_of : Uuid → List Transaction → Option Transaction
reversal_of id [] = none
reversal_of id (t ∷ ts) = if reverses_it id t.reverses_id then some t else reversal_of id ts

-- `prior.ID != o.txn.ID`, where the reversal is read again
abbrev pub is_reversal : Transaction → Option Transaction → Bool
is_reversal t none = false
is_reversal t (some prior) = prior.id == t.id

-- the end of `reverse`, by the outcome of the request; the Boolean is whether it was replayed
unfoldable pub reversed_by :
    Uuid → Store × List PostingResult × Bool → Result (Store × Transaction × Bool)
unfolding reversal_of
reversed_by id (s, created t ∷ rs, aborted) = ok (s, t, false)
reversed_by id (s, replayed t ∷ rs, aborted) =
    fail_if (not (is_reversal t (reversal_of id s.transactions))) idempotency_conflict
    >> ok (s, t, true)
reversed_by id (s, failed e ∷ rs, aborted) = err e
reversed_by id (s, unresolved ∷ rs, aborted) = err internal
reversed_by id (s, [], aborted) = err internal

-- by the reversal that is there already
unfoldable pub reverse_original :
    (ℕ → Result Uuid)
    → Time
    → Transaction
    → ReverseInput
    → Store
    → Option Transaction
    → Result (Store × Transaction × Bool)
unfolding reversed_by reversal_request apply_requests
reverse_original new_id now original i s (some prior) =
    if (prior.idempotency_key =? i.idempotency_key)
      && matches prior (reversal_request original i).in_put
    then ok (s, prior, true)
    else err already_reversed
reverse_original new_id now original i s none =
    apply_requests new_id now true (reversal_request original i ∷ []) s >>= λ r.
    reversed_by original.id r

-- `reverse`
unfoldable pub reverse :
    (Text → Bool)
    → Text
    → (ℕ → Result Uuid)
    → Time
    → Uuid
    → ReverseInput
    → Store
    → Result (Store × Transaction × Bool)
unfolding validate_reverse select_transaction reverse_original
reverse reads_object raw new_id now id i s = do
  validate_reverse reads_object raw i
  original ← or_err (select_transaction id s.transactions) not_found
  fail_if (not (is_posted original.status)) not_posted
  reverse_original new_id now original i s (reversal_of id s.transactions)

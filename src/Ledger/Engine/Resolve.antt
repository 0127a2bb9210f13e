-- ===== src/Ledger/Engine/Resolve.antt =====
-- `resolveRequest` of internal/modules/ledger/engine.go: one request against the locked accounts.
-- The outcome of uuid.NewV7 is an argument. `first_by_key` holds the result at the index that the
-- source keeps.
use astrum.Prelude.{
  Bool, true, false, ◌&&◌, ◌||◌, not, Option, none, some, List, [], ◌∷◌, if◌then◌else◌,
}
use astrum.Prelude.Int.{ltb_ℤ}
use astrum.Prelude.Eq.{Text, nat_eq, text_eq, pair_eq, ◌=?◌}
use astrum.Prelude.Map.{Map, lookup, insert}
use astrum.Result.{
  Error, Result, ok, err, ◌>>=◌, idempotency_conflict, external_id_exists, period_closed,
  nil_account, balance_lock, lock_version,
}
use astrum.Ledger.Types.{
  Uuid, nil_id, Time, TransactionStatus, archived, is_posted, is_archived, Posting,
}
use astrum.Ledger.Account.{AccountState}
use astrum.Ledger.State.{Accounts, BalanceChange, transition, or_err, is_empty}
use astrum.Ledger.Json.{normalize_metadata}
use astrum.Ledger.Requests.{PostInput, status, Transaction, matches, PostingRequest, truncate}
use astrum.Ledger.Store.{transaction_by_key}

-- `unresolved` is the zero value, which an atomic batch leaves behind the request that failed.
pub data PostingResult : Type 0 where
  unresolved : PostingResult
  created replayed : Transaction → PostingResult
  failed : Error → PostingResult

abbrev pub ExternalKey : Type 0
ExternalKey = Uuid × Text

-- the variables of the loop over the requests
pub record Batch : Type 0 where
  pub accounts : Accounts
  pub taken : Map ExternalKey Text
  pub first_by_key : Map Text PostingResult

-- the account of the first entry; the source panics on a request with no entry, which
-- `validateEntries` refuses
abbrev pub first_account : List Posting → Accounts → Option AccountState
first_account [] m = none
first_account (p ∷ ps) m = lookup p.account_id m

unfoldable pub truncated : PostInput → PostInput
truncated i = record i {
  effective_at = elim i.effective_at [ none ↦ none | some t ↦ some (truncate t) ];
}

abbrev pub external_key : PostInput → Option AccountState → Option ExternalKey
external_key i none = none
external_key i (some a) = if is_empty i.external_id then none else some (a.ledger_id, i.external_id)

abbrev pub owner_differs : Text → Option Text → Bool
owner_differs key none = false
owner_differs key (some k) = not (k =? key)

-- the id belongs to a transaction with another key
abbrev pub is_taken : Text → Option ExternalKey → Map ExternalKey Text → Bool
is_taken key none m = false
is_taken key (some e) m = owner_differs key (lookup e m)

abbrev pub is_before : Time → Option Time → Bool
is_before t none = false
is_before t (some u) = ltb_ℤ t u

abbrev pub closes : TransactionStatus → Time → Option AccountState → Bool
closes s t none = false
closes s t (some a) = not (is_archived s) && is_before t a.closed_before

abbrev pub is_lock_failure : Error → Bool
is_lock_failure balance_lock = true
is_lock_failure lock_version = true
is_lock_failure _ = false

unfoldable pub name_currencies : List Posting → Accounts → Result (List Posting)
name_currencies [] m = ok []
name_currencies (p ∷ ps) m = do
  a ← or_err (lookup p.account_id m) nil_account
  rest ← name_currencies ps m
  ok (record p { currency = a.currency } ∷ rest)

-- `archivedPostings`
unfoldable pub archived_postings :
    Accounts → List Posting → Result (TransactionStatus × Uuid × List Posting)
archived_postings m ps = do
  named ← name_currencies ps m
  a ← or_err (first_account ps m) nil_account
  ok (archived, a.ledger_id, named)

abbrev pub change_of : PostingRequest → BalanceChange
change_of req = record {
  ledger_id = nil_id;
  unpend_postings = [];
  add_postings = req.in_put.postings;
  status = status req.in_put;
  releases = req.releases;
}

-- the accounts, the status, the ledger and the entries after the transition; a lock that fails may
-- archive the request
unfoldable pub book_result :
    PostingRequest
    → Accounts
    → Result (Accounts × Uuid × List Posting)
    → Result (Accounts × TransactionStatus × Uuid × List Posting)
book_result req m (ok r) = ok (r.0, status req.in_put, r.1, r.2)
book_result req m (err e) =
    if not req.in_put.archive_on_lock_failure || not (is_lock_failure e)
    then err e
    else (archived_postings m req.in_put.postings >>= λ r. ok (m, r.0, r.1, r.2))

unfoldable pub book :
    PostingRequest → Accounts → Result (Accounts × TransactionStatus × Uuid × List Posting)
book req m = book_result req m (transition (change_of req) m)

abbrev pub time_or : Time → Option Time → Time
time_or now none = now
time_or now (some t) = t

abbrev pub new_transaction :
    PostingRequest → Uuid → Time → TransactionStatus → Uuid → List Posting → Transaction
new_transaction req id now s ledger postings =
    let i = req.in_put in
    record {
      id = id;
      ledger_id = ledger;
      idempotency_key = i.idempotency_key;
      external_id = i.external_id;
      status = s;
      version = 1;
      description = i.description;
      metadata = normalize_metadata i.metadata;
      reverses_id = req.reverses;
      postings = postings;
      effective_at = time_or now i.effective_at;
      created_at = now;
      posted_at = if is_posted s then some now else none;
      archived_at = if is_archived s then some now else none;
      request = if is_posted s then none else some i;
      entries_version = 1;
    }

abbrev pub claim : Text → Option ExternalKey → Map ExternalKey Text → Map ExternalKey Text
claim key none m = m
claim key (some e) m = insert e key m

-- what follows in `resolveRequest` once the entries are booked, or are not
unfoldable pub finish :
    PostingRequest
    → Result Uuid
    → Time
    → Option ExternalKey
    → Batch
    → Result (Accounts × TransactionStatus × Uuid × List Posting)
    → PostingResult × Batch
finish req id now external b (err e) = (failed e, b)
finish req id now external b (ok (accounts, s, ledger, postings)) =
    let b' = record b {
      accounts = accounts;
      taken = claim req.in_put.idempotency_key external b.taken;
    } in
    elim id [
      | err e ↦ (failed e, b')
      | ok i ↦ (created (new_transaction req i now s ledger postings), b')
    ]

-- `resolveRequest` for a key that is new, from the test of the external id on
unfoldable pub resolve_new : PostingRequest → Result Uuid → Time → Batch → PostingResult × Batch
resolve_new req id now b =
    let i = req.in_put in
    let first = first_account i.postings b.accounts in
    let external = external_key i first in
    if is_taken i.idempotency_key external b.taken
    then (failed external_id_exists, b)
    else if closes (status i) (time_or now i.effective_at) first
    then (failed period_closed, b)
    else finish req id now external b (book req b.accounts)

-- the answer to a key that an earlier request of the batch has
unfoldable pub replay : PostInput → PostingResult → PostingResult
replay i (failed e) = failed e
replay i (created t) = if matches t i then replayed t else failed idempotency_conflict
replay i (replayed t) = if matches t i then replayed t else failed idempotency_conflict
replay i unresolved = failed idempotency_conflict

unfoldable pub answer_stored : PostInput → Transaction → PostingResult
answer_stored i t = if matches t i then replayed t else failed idempotency_conflict

abbrev pub truncate_request : PostingRequest → PostingRequest
truncate_request req = record req { in_put = truncated req.in_put }

abbrev pub note_first : Text → PostingResult × Batch → PostingResult × Batch
note_first key r = (r.0, record r.1 { first_by_key = insert key r.0 r.1.first_by_key })

-- with the result of an earlier request of the batch that has the key
unfoldable pub resolve_prior :
    PostingRequest → Result Uuid → Time → Batch → Option PostingResult → PostingResult × Batch
resolve_prior r id now b (some prior) = (replay r.in_put prior, b)
resolve_prior r id now b none = note_first r.in_put.idempotency_key (resolve_new r id now b)

-- with the stored transaction that has the key
unfoldable pub resolve_existing :
    PostingRequest → Result Uuid → Time → Batch → Option Transaction → PostingResult × Batch
resolve_existing r id now b (some t) = (answer_stored r.in_put t, b)
resolve_existing r id now b none =
    resolve_prior r id now b (lookup r.in_put.idempotency_key b.first_by_key)

-- `resolveRequest`; `transactions` are those of the store
unfoldable pub resolve_request :
    List Transaction → PostingRequest → Result Uuid → Time → Batch → PostingResult × Batch
resolve_request transactions req id now b =
    let r = truncate_request req in
    resolve_existing r id now b (transaction_by_key r.in_put.idempotency_key transactions)

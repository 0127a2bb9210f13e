-- ===== src/Ledger/Pending.antt =====
-- internal/modules/ledger/pending.go, inside its database transactions: pending transactions that are
-- changed, posted or archived.
pub mod Partial
pub mod Settled
use astrum.Prelude.{
  suc, ◌+◌, Bool, true, false, ◌&&◌, ◌||◌, not, ◌==◌, Option, none, some, List, [], ◌∷◌, ◌++◌, map,
  length, if◌then◌else◌,
}
use astrum.Prelude.Int.{pos, ltb_ℤ, eqb_ℤ}
use astrum.Prelude.Eq.{Text, nat_eq, text_eq, pair_eq, ◌=?◌}
use astrum.Prelude.Map.{Map, lookup, insert}
use astrum.Result.{Result, ok, err, ◌>>=◌, ◌>>◌, fail_if, not_found, invalid, not_pending}
use astrum.Money.Amount.{Amount, zero_amount, add, sub, sign}
use astrum.Ledger.Types.{
  Uuid, nil_id, Time, Side, side_eq, TransactionStatus, unset, pending, posted, archived,
  is_pending, is_posted, is_archived, Posting,
}
use astrum.Ledger.State.{BalanceChange, transition, or_err}
use astrum.Ledger.Json.{Metadata, json_equal}
use astrum.Ledger.Requests.{Transaction, same_postings, truncate}
use astrum.Ledger.Store.{
  Store, Event, transaction_updated, transaction_posted, transaction_archived, lock_accounts,
  write_accounts, emit, select_transaction, replace_transaction, update_transaction_row,
  stored_posting,
}

-- the text of a side, which the source compares
abbrev pub Slot : Type 0
Slot = Uuid × Side

abbrev pub slot : Posting → Slot
slot p = (p.account_id, p.side)

abbrev pub limit_of : Slot → Map Slot Amount → Amount
limit_of k m = elim (lookup k m) [ none ↦ zero_amount | some t ↦ t ]

-- the first loop of `checkPartial`: what is pending on each account and side
unfoldable pub pending_limits : List Posting → Map Slot Amount → Result (Map Slot Amount)
pending_limits [] limits = ok limits
pending_limits (p ∷ ps) limits = do
  total ← add (limit_of (slot p) limits) p.amount
  pending_limits ps (insert (slot p) total limits)

-- the second: what is left of it
unfoldable pub use_limits : List Posting → Map Slot Amount → Result (Map Slot Amount)
use_limits [] limits = ok limits
use_limits (p ∷ ps) limits = do
  limit ← or_err (lookup (slot p) limits) invalid
  remaining ← sub limit p.amount
  fail_if (ltb_ℤ (sign remaining) (pos 0)) invalid
  use_limits ps (insert (slot p) remaining limits)

-- `checkPartial`
unfoldable pub check_partial : List Posting → List Posting → Result (Unit {0})
check_partial held given =
    pending_limits held [] >>= λ limits. use_limits given limits >>= λ rest. ok tt

-- the transaction as it becomes, and the change of the balances; `none` where nothing changes
abbrev pub Edit : Type 0
Edit = Transaction → Result (Transaction × Option BalanceChange)

abbrev pub no_change : BalanceChange
no_change = record {
  ledger_id = nil_id;
  unpend_postings = [];
  add_postings = [];
  status = unset;
  releases = [];
}

abbrev pub replacing : Transaction → List Posting → TransactionStatus → BalanceChange
replacing t added status = record {
  ledger_id = t.ledger_id;
  unpend_postings = t.postings;
  add_postings = added;
  status = status;
  releases = [];
}

-- `postPending`: the edit, for the entries given
unfoldable pub post_edit : List Posting → Edit
post_edit [] t = ok (record t { status = posted }, some (replacing t t.postings posted))
post_edit (p ∷ ps) t =
    check_partial t.postings (p ∷ ps)
    >> ok (record t { status = posted; postings = p ∷ ps }, some (replacing t (p ∷ ps) posted))

abbrev pub is_given : List Posting → Bool
is_given [] = false
is_given (p ∷ ps) = true

-- a transaction that the request has posted already
abbrev pub is_posted_so : List Posting → Transaction → Bool
is_posted_so given t =
    is_posted t.status && (not (is_given given) || same_postings t.postings given)

-- `archiveTransaction`: the edit
unfoldable pub archive_edit : Edit
archive_edit t = ok (record t { status = archived }, some (replacing t [] unset))

-- `in.Postings` is nil where it is `none`; the description and the metadata are those that
-- `applyUpdate` has merged
pub record Update : Type 0 where
  pub description : Text
  pub metadata : Metadata
  pub postings : Option (List Posting)
  pub effective_at : Option Time

abbrev pub entries_change : Transaction → Option (List Posting) → Bool
entries_change t none = false
entries_change t (some ps) = not (same_postings t.postings ps)

abbrev pub or_entries : Transaction → Option (List Posting) → List Posting
or_entries t none = t.postings
or_entries t (some ps) = ps

-- `updateTransaction`: the edit
unfoldable pub update_edit : Update → Edit
update_edit u t =
    let at : Time = elim u.effective_at [ none ↦ t.effective_at | some x ↦ truncate x ] in
    let next = record t { description = u.description; metadata = u.metadata; effective_at = at } in
    let entries = entries_change t u.postings in
    if not (
      entries
      || not (u.description =? t.description)
      || not (json_equal u.metadata t.metadata)
      || not (eqb_ℤ at t.effective_at))
    then ok (t, none)
    else if not entries
    then ok (next, some no_change)
    else ok (
      record next { postings = or_entries t u.postings; entries_version = suc t.version },
      some (replacing t (or_entries t u.postings) pending),
    )

abbrev pub account_ids : List Posting → List Uuid
account_ids ps = map (λ p. p.account_id) ps

-- the transition of `changePending`, where entries are taken back or added
unfoldable pub apply_change : BalanceChange → Transaction → Store → Result (Store × List Posting)
apply_change c next s =
    if is_given (c.unpend_postings ++ c.add_postings)
    then (do
      let state = lock_accounts (account_ids (c.unpend_postings ++ c.add_postings)) s
      r ← transition c state.accounts
      s' ← write_accounts (record state { accounts = r.0 }) s
      ok (s', r.2))
    else ok (s, next.postings)

-- the entries that the tables show after the writes: new ones are inserted for a posted
-- transaction, and for a pending one where this version has new entries
abbrev pub shown_entries : Transaction → Transaction → List Posting → List Posting
shown_entries current next postings =
    if is_posted next.status || (next.entries_version == next.version)
    then map (stored_posting next.status) postings
    else current.postings

-- `out.Postings[i].Resulting = next.Postings[i].Resulting`
unfoldable pub add_results : List Posting → List Posting → List Posting
add_results (q ∷ qs) (p ∷ ps) = record q { resulting = p.resulting } ∷ add_results qs ps
add_results qs _ = qs

abbrev pub with_results : BalanceChange → List Posting → Transaction → Transaction
with_results c ps t =
    if (length t.postings == length ps) && is_given c.add_postings
    then record t { postings = add_results t.postings ps }
    else t

abbrev pub pending_event : Transaction → Event
pending_event t = elim t.status [
  | posted ↦ transaction_posted t
  | archived ↦ transaction_archived t
  | _ ↦ transaction_updated t
]

-- `changePending` with the edit's answer
unfoldable pub write_change :
    Time → Transaction → Transaction × Option BalanceChange → Store → Result (Store × Transaction)
write_change now current (next, none) s = ok (s, current)
write_change now current (next, some c) s =
    let next' = record next { version = suc current.version } in
    apply_change c next' s >>= λ r.
    let row =
      update_transaction_row now (record next' { postings = shown_entries current next' r.1 }) in
    let out = with_results c r.1 row in
    let s' = record r.0 { transactions = replace_transaction row r.0.transactions } in
    ok (emit (pending_event out) s', out)

-- `changePending`; `done` tells a repeated request
unfoldable pub change_pending :
    Time → Uuid → Edit → (Transaction → Bool) → Store → Result (Store × Transaction)
change_pending now id edit done s = do
  current ← or_err (select_transaction id s.transactions) not_found
  if is_pending current.status
      then (edit current >>= λ r. write_change now current r s)
      else if done current
      then ok (s, current)
      else err not_pending

unfoldable pub post_pending : Time → Uuid → List Posting → Store → Result (Store × Transaction)
post_pending now id given s = change_pending now id (post_edit given) (is_posted_so given) s

unfoldable pub archive_transaction : Time → Uuid → Store → Result (Store × Transaction)
archive_transaction now id s = change_pending now id archive_edit (λ t. is_archived t.status) s

unfoldable pub update_transaction : Time → Uuid → Update → Store → Result (Store × Transaction)
update_transaction now id u s = change_pending now id (update_edit u) (λ t. false) s

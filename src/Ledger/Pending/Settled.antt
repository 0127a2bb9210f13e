-- ===== src/Ledger/Pending/Settled.antt =====
-- Pending transactions that are posted or archived, and the same request again.
use astrum.Prelude.{
  suc, ◌≡◌, refl, sym, ap, ◌∙◌, subst, Bool, true, false, Option, none, some, List, [], ◌∷◌, ◌++◌,
  Bool-cases, inl, inr, map, if◌then◌else◌, ◌==◌, ==_iff, some_unique,
}
use astrum.Result.{ok, err, ◌>>=◌, >>=-elim, ok_unique, err-ne-ok, not_found, not_pending}
use astrum.Ledger.Types.{Uuid, Time, is_pending, is_archived, Posting, posted, archived, unset}
use astrum.Ledger.Account.{AccountState}
use astrum.Ledger.State.{or_err, BalanceChange, transition}
use astrum.Ledger.Requests.{Transaction}
use astrum.Ledger.Monitors.{LedgerState, dirty_accounts, crossed}
use astrum.Ledger.Store.{
  Store, lock_accounts, write_accounts, update_rows, select_transaction, replace_transaction, emit,
  update_transaction_row, triggered_event,
}
use astrum.Ledger.Pending.{
  Edit, apply_change, write_change, change_pending, post_edit, is_posted_so, archive_edit,
  post_pending, archive_transaction, replacing, is_given, shown_entries, account_ids,
}

transaction_of : (o : Option Transaction) {t : Transaction} → or_err o not_found ≡ ok t → o ≡ some t
transaction_of none h = cc
transaction_of (some u) h = ap some (ok_unique refl h)

select-replace :
    (id : Uuid) (ts : List Transaction) (row : Transaction) {t : Transaction}
    → select_transaction id ts ≡ some t
    → row.id ≡ id
    → select_transaction id (replace_transaction row ts) ≡ some row
unfolding select_transaction replace_transaction
select-replace id [] row h e = absurd (cc)
select-replace id (u ∷ us) row {t} h e = elim (Bool-cases (u.id == id)) [
  | inl w ↦
      let same : u.id ≡ row.id = (==_iff u.id id).0 w ∙ sym e in
      rw ((==_iff u.id row.id).1 same, (==_iff row.id id).1 e) refl
  | inr w ↦
      let other : (u.id == row.id) ≡ false = ap (λ x. u.id == x) e ∙ w in
      rw (other, w) (select-replace id us row (rw w at h) e)
]

pub select-id :
    (id : Uuid) (ts : List Transaction) {t : Transaction}
    → select_transaction id ts ≡ some t
    → t.id ≡ id
unfolding select_transaction
select-id id [] h = absurd (cc)
select-id id (u ∷ us) {t} h = elim (Bool-cases (u.id == id)) [
  | inl w ↦ subst (λ x. x.id ≡ id) (some_unique refl (rw w at h)) ((==_iff u.id id).0 w)
  | inr w ↦ select-id id us (rw w at h)
]

-- Writing the accounts leaves the other tables.
pub write_accounts-transactions :
    (state : LedgerState) (s : Store) {s' : Store}
    → write_accounts state s ≡ ok s'
    → s'.transactions ≡ s.transactions
unfolding write_accounts
write_accounts-transactions state s {s'} h = written (dirty_accounts state.accounts) h
  where
    written :
        (d : List AccountState)
        → elim d [
          | [] ↦ ok s
          | a ∷ as' ↦ crossed state >>= λ fired. update_rows (a ∷ as') s.accounts >>= λ accounts.
              ok (record s { accounts = accounts; events = s.events ++ map triggered_event fired })
        ]
          ≡ ok s'
        → s'.transactions ≡ s.transactions
    written [] k = ap (λ x. x.transactions) (sym (ok_unique refl k))
    written (a ∷ as') k = >>=-elim (crossed state) _ k λ fired e k1.
        >>=-elim (update_rows (a ∷ as') s.accounts) _ k1
          λ m em k2. ap (λ x. x.transactions) (sym (ok_unique refl k2))

apply_change-transactions :
    (c : BalanceChange) (next : Transaction) (s : Store) {r : Store × List Posting}
    → apply_change c next s ≡ ok r
    → r.0.transactions ≡ s.transactions
unfolding apply_change
apply_change-transactions c next s {r} h =
    applied (is_given (c.unpend_postings ++ c.add_postings))
      (lock_accounts (account_ids (c.unpend_postings ++ c.add_postings)) s) h
  where
    applied :
        (b : Bool) (state : LedgerState)
        → (if b
            then (transition c state.accounts >>= λ x.
                write_accounts (record state { accounts = x.0 }) s >>= λ s'. ok (s', x.2))
            else ok (s, next.postings))
          ≡ ok r
        → r.0.transactions ≡ s.transactions
    applied true state k = >>=-elim (transition c state.accounts) _ k λ x ex k1.
        >>=-elim (write_accounts (record state { accounts = x.0 }) s) _ k1 λ s' es k2.
          ap (λ y. y.0.transactions) (sym (ok_unique refl k2))
          ∙ write_accounts-transactions (record state { accounts = x.0 }) s es
    applied false state k = ap (λ y. y.0.transactions) (sym (ok_unique refl k))

-- What a change that succeeds leaves: the transaction as it was, or a row with the edit's status.
record Written (id : Uuid) (current next : Transaction) (s : Store) (r : Store × Transaction)
    : Type 0 where
  row : Transaction
  found : select_transaction id r.0.transactions ≡ some row
  status : row.status ≡ next.status

write_change-Written :
    (now : Time) (id : Uuid) (current next : Transaction) (c : BalanceChange) (s : Store)
    {r : Store × Transaction}
    → select_transaction id s.transactions ≡ some current
    → next.id ≡ id
    → write_change now current (next, some c) s ≡ ok r
    → Written id current next s r
unfolding write_change emit update_transaction_row
write_change-Written now id current next c s {r} f e h =
    let next' = record next { version = suc current.version } in
    >>=-elim (apply_change c next' s) _ h λ x ex h1.
      let row =
        update_transaction_row now (record next' { postings = shown_entries current next' x.1 }) in
      let kept : select_transaction id x.0.transactions ≡ some current =
        ap (select_transaction id) (apply_change-transactions c next' s ex) ∙ f in
      subst (Written id current next s) (ok_unique refl h1)
        (record { row = row; found = select-replace id x.0.transactions row kept e; status = refl })

-- An edit that settles the transaction, as `done` can tell by its status.
Settles : Edit → (Transaction → Bool) → Type 0
Settles edit done =
    (t next : Transaction) (o : Option BalanceChange)
    → edit t ≡ ok (next, o)
    → (c : BalanceChange) × (o ≡ some c)
      × (next.id ≡ t.id)
      × ((row : Transaction)
          → row.status ≡ next.status
          → (is_pending row.status ≡ false) × (done row ≡ true))

module _ (edit : Edit) (done : Transaction → Bool) (now now' : Time) (id : Uuid) (s : Store) where
  stays :
      (m : Store) (row : Transaction)
      → select_transaction id m.transactions ≡ some row
      → is_pending row.status ≡ false
      → done row ≡ true
      → change_pending now' id edit done m ≡ ok (m, row)
  unfolding change_pending
  stays m row f p d = rw (f, p, d) refl

  changed_again :
      (current : Transaction) {r : Store × Transaction}
      → Settles edit done
      → select_transaction id s.transactions ≡ some current
      → (if is_pending current.status
          then (edit current >>= λ x. write_change now current x s)
          else if done current
          then ok (s, current)
          else err not_pending)
        ≡ ok r
      → (t : Transaction) × (change_pending now' id edit done r.0 ≡ ok (r.0, t)) × (done t ≡ true)
  unfolding Settles
  changed_again current {r} k f h = elim (Bool-cases (is_pending current.status)) [
    | inl p ↦ >>=-elim (edit current) _ (rw p at h) λ x ex h1.
        let (c, o, same, settled) = k current x.0 x.1 ex in
        let written =
          write_change-Written now id current x.0 c s f (same ∙ select-id id s.transactions f)
            (subst (λ y. write_change now current (x.0, y) s ≡ ok r) o h1) in
        let (p', d) = settled written.row written.status in
        (written.row, stays r.0 written.row written.found p' d, d)
    | inr p ↦ elim (Bool-cases (done current)) [
      | inl d ↦
          subst
            (λ (y : Store × Transaction).
              (t : Transaction) × (change_pending now' id edit done y.0 ≡ ok (y.0, t))
              × (done t ≡ true))
            (ok_unique refl (rw (p, d) at h)) (current, stays s current f p d, d)
      | inr d ↦ absurd (err-ne-ok refl (rw (p, d) at h))
    ]
  ]

  change_pending_again :
      {r : Store × Transaction}
      → Settles edit done
      → change_pending now id edit done s ≡ ok r
      → (t : Transaction) × (change_pending now' id edit done r.0 ≡ ok (r.0, t)) × (done t ≡ true)
  unfolding change_pending
  change_pending_again {r} k h =
      >>=-elim (or_err (select_transaction id s.transactions) not_found) _ h λ current e h1.
        changed_again current k (transaction_of (select_transaction id s.transactions) e) h1

settled_as :
    (row : Transaction)
    → row.status ≡ posted
    → (is_pending row.status ≡ false) × (is_posted_so [] row ≡ true)
settled_as row e = rw e (refl, refl)

post_edit-Settles : Settles (post_edit []) (is_posted_so [])
unfolding Settles post_edit
post_edit-Settles t next o h =
    let change = replacing t t.postings posted in
    let same : record t { status = posted } ≡ next = ap (λ x. x.0) (ok_unique refl h) in
    (
      change,
      sym (ap (λ x. x.1) (ok_unique refl h)),
      sym (ap (λ x. x.id) same),
      λ row e. settled_as row (e ∙ sym (ap (λ x. x.status) same)),
    )

archived_as :
    (row : Transaction)
    → row.status ≡ archived
    → (is_pending row.status ≡ false) × (is_archived row.status ≡ true)
archived_as row e = rw e (refl, refl)

archive_edit-Settles : Settles archive_edit (λ t. is_archived t.status)
unfolding Settles archive_edit
archive_edit-Settles t next o h =
    let same : record t { status = archived } ≡ next = ap (λ x. x.0) (ok_unique refl h) in
    (
      replacing t [] unset,
      sym (ap (λ x. x.1) (ok_unique refl h)),
      sym (ap (λ x. x.id) same),
      λ row e. archived_as row (e ∙ sym (ap (λ x. x.status) same)),
    )

-- Posting a whole pending transaction, where it succeeds, leaves it posted; the same request again,
-- at any later time, succeeds and changes nothing.
pub post_pending_again :
    (now now' : Time) (id : Uuid) (s : Store) {r : Store × Transaction}
    → post_pending now id [] s ≡ ok r
    → (t : Transaction) × (post_pending now' id [] r.0 ≡ ok (r.0, t)) × (is_posted_so [] t ≡ true)
unfolding post_pending
post_pending_again now now' id s h =
    change_pending_again (post_edit []) (is_posted_so []) now now' id s post_edit-Settles h

-- Archiving a pending transaction, where it succeeds, leaves it archived; the same request again
-- succeeds and changes nothing.
pub archive_transaction_again :
    (now now' : Time) (id : Uuid) (s : Store) {r : Store × Transaction}
    → archive_transaction now id s ≡ ok r
    → (t : Transaction) × (archive_transaction now' id r.0 ≡ ok (r.0, t))
      × (is_archived t.status ≡ true)
unfolding archive_transaction
archive_transaction_again now now' id s h =
    change_pending_again archive_edit (λ t. is_archived t.status) now now' id s archive_edit-Settles
      h

-- ===== src/Ledger/Service/Closed.antt =====
-- What the changes of accounts in internal/modules/ledger/service.go keep of the directory.
use astrum.Prelude.{
  suc, ◌≡◌, refl, sym, ap, ◌∙◌, subst, inl, inr, Bool, true, false, ◌&&◌, ◌==◌, ==_iff, Bool-cases,
  some, some_unique, List, [], ◌∷◌,
}
use astrum.Prelude.Eq.{Text, text_eq}
use astrum.Result.{ok, >>=-elim, passed, ok_unique, account_not_open, account_not_empty}
use astrum.Ledger.Types.{Uuid, Time, AccountStatus, closed}
use astrum.Ledger.Json.{Metadata}
use astrum.Ledger.State.Entries.{All}
use astrum.Ledger.Service.Details.{Details, UpdateInput, apply_update, same_details}
use astrum.Ledger.Service.Accounts.{
  AccountRow, Account, Directory, row_by_id, replace_row, query_account,
}
use astrum.Ledger.Service.Accounts.Changes.{
  status_same, is_occupied, with_status, with_details, write_row, change_status, set_account_status,
  update_account,
}
use astrum.Ledger.Service.Statuses.{
  IsKept, AreKept, Found, query_account-Found, row_by_id-All, write_row-rows, write_row-AreKept,
}
use astrum.Ledger.Service.Statuses.Restated.{
  change_status-AreKept, restated, restated-IsSound, restated-IsEmptied,
}

row_by_id-other :
    (id : Uuid) (row : AccountRow) (rs : List AccountRow)
    → (row.state.id == id) ≡ false
    → row_by_id id (replace_row row rs) ≡ row_by_id id rs
unfolding row_by_id replace_row
row_by_id-other id row [] d = refl
row_by_id-other id row (r ∷ rs) d = elim (Bool-cases (r.state.id == row.state.id)) [
  | inl e ↦ rw (e, (==_iff r.state.id row.state.id).0 e, d) refl
  | inr e ↦ elim (Bool-cases (r.state.id == id)) [
    | inl f ↦ rw (e, f) refl
    | inr f ↦ rw (e, f) (row_by_id-other id row rs d)
  ]
]

row_by_id-same :
    (row : AccountRow) (rs : List AccountRow) {q : AccountRow}
    → row_by_id row.state.id rs ≡ some q
    → row_by_id row.state.id (replace_row row rs) ≡ some row
unfolding row_by_id replace_row
row_by_id-same row [] h = absurd (cc)
row_by_id-same row (r ∷ rs) h = elim (Bool-cases (r.state.id == row.state.id)) [
  | inl e ↦ rw (e, (==_iff row.state.id row.state.id).1 refl) refl
  | inr e ↦ rw (e, e) (row_by_id-same row rs (rw e at h))
]

row_by_id-id :
    (id : Uuid) (rs : List AccountRow) {q : AccountRow} → row_by_id id rs ≡ some q → q.state.id ≡ id
unfolding row_by_id
row_by_id-id id [] h = absurd (cc)
row_by_id-id id (r ∷ rs) {q} h = elim (Bool-cases (r.state.id == id)) [
  | inl e ↦
      subst (λ (x : AccountRow). x.state.id ≡ id) (some_unique refl (rw e at h))
        ((==_iff r.state.id id).0 e)
  | inr e ↦ row_by_id-id id rs (rw e at h)
]

-- The account with the id is closed.
pub record HasClosed (id : Uuid) (d : Directory) : Type 0 where
  pub row : AccountRow
  pub stored : row_by_id id d.rows ≡ some row
  pub is_closed : status_same row.state.status closed ≡ true

write_row-HasClosed :
    (id : Uuid) (row : AccountRow) (d : Directory) {r : Directory × Account}
    → write_row row d ≡ ok r
    → HasClosed id d
    → (row.state.id ≡ id → status_same row.state.status closed ≡ true)
    → HasClosed id r.0
write_row-HasClosed id row d {r} h c keep = elim (Bool-cases (row.state.id == id)) [
  | inl e ↦
      let same : row.state.id ≡ id = (==_iff row.state.id id).0 e in
      let before : row_by_id row.state.id d.rows ≡ some c.row = rw same c.stored in
      record {
        row = row;
        stored =
            subst (λ (x : Uuid). row_by_id x r.0.rows ≡ some row) same
              (rw (write_row-rows row d h) (row_by_id-same row d.rows before));
        is_closed = keep same;
      }
  | inr e ↦ record {
    row = c.row;
    stored = rw (write_row-rows row d h) (row_by_id-other id row d.rows e ∙ c.stored);
    is_closed = c.is_closed;
  }
]

-- One row that is kept is replaced by another that is kept, and a closed one by a closed one.
pub record Writes (d e : Directory) : Type 0 where
  pub kept : AreKept d → AreKept e
  pub closed_stays : (id : Uuid) → HasClosed id d → HasClosed id e

pub unchanged : {d e : Directory} → d.rows ≡ e.rows → Writes d e
unchanged {d} {e} same = record {
  kept = λ k. subst (All IsKept) same k;
  closed_stays = λ id c. record {
    row = c.row;
    stored = subst (λ rows. row_by_id id rows ≡ some c.row) same c.stored;
    is_closed = c.is_closed;
  };
}

-- An account that was found is the one that is closed, if the ids agree.
Found-is_closed :
    (id j : Uuid) (d : Directory) (a : Account)
    → Found id d a
    → (c : HasClosed j d) → a.row.state.id ≡ j
    → status_same a.row.state.status closed ≡ true
Found-is_closed id j d a found c same =
    let there : row_by_id a.row.state.id d.rows ≡ some a.row =
      subst (λ x. row_by_id x d.rows ≡ some a.row) (sym (row_by_id-id id d.rows found.row))
        found.row in
    let here' : row_by_id a.row.state.id d.rows ≡ some c.row =
      subst (λ x. row_by_id x d.rows ≡ some c.row) (sym same) c.stored in
    let one : c.row ≡ a.row = some_unique here' there in
    subst (λ (r : AccountRow). status_same r.state.status closed ≡ true) one c.is_closed

change_status-HasClosed :
    (now : Time) (id : Uuid) (target : AccountStatus) (d : Directory) (a : Account)
    {r : Directory × Account}
    → Found id d a
    → change_status now target a d ≡ ok r
    → (j : Uuid) → HasClosed j d
    → HasClosed j r.0
unfolding change_status
change_status-HasClosed now id target d a found h j c =
    elim (Bool-cases (status_same a.row.state.status target)) [
      | inl e ↦ subst (λ (x : Directory × Account). HasClosed j x.0) (ok_unique refl (rw e at h)) c
      | inr e ↦
          let (open', h2) =
            passed (status_same a.row.state.status closed) account_not_open (rw e at h) in
          let (empty, h3) =
            passed (status_same target closed && is_occupied a) account_not_empty h2 in
          write_row-HasClosed j (with_status now target a.row) d h3 c
            λ same. let was = Found-is_closed id j d a found c same in absurd (cc)
    ]

pub set_account_status-Writes :
    (now : Time) (id : Uuid) (target : AccountStatus) (d : Directory) {r : Directory × Account}
    → set_account_status now id target d ≡ ok r
    → Writes d r.0
unfolding set_account_status
set_account_status-Writes now id target d {r} h = >>=-elim (query_account id d.rows) _ h λ a e h1.
    let found = query_account-Found id d e in
    record {
      kept = λ k. change_status-AreKept now id target d a found k h1;
      closed_stays = λ j c. change_status-HasClosed now id target d a found h1 j c;
    }

with_details-IsKept :
    (details : Details) (row : AccountRow) → IsKept row → IsKept (with_details details row)
unfolding restated
with_details-IsKept details row k = record {
  sound = restated-IsSound row.state row.state.status (suc row.state.version) k.sound;
  side = k.side;
  emptied =
      λ c. restated-IsEmptied row.state row.state.status (suc row.state.version) (k.emptied c);
}

pub update_account-Writes :
    (reads_object : Text → Bool) (text_of : Metadata → Text) (id : Uuid) (i : UpdateInput)
    (d : Directory) {r : Directory × Account}
    → update_account reads_object text_of id i d ≡ ok r
    → Writes d r.0
unfolding update_account
update_account-Writes reads_object text_of id i d {r} h =
    >>=-elim (query_account id d.rows) _ h λ a e h1.
      >>=-elim (apply_update reads_object text_of a.row.details i false) _ h1 λ details e2 h2.
        let found = query_account-Found id d e in
        elim (Bool-cases (same_details a.row.details details)) [
          | inl f ↦
              unchanged (ap (λ (x : Directory × Account). x.0.rows) (ok_unique refl (rw f at h2)))
          | inr f ↦
              let written : write_row (with_details details a.row) d ≡ ok r = (rw f at h2) in
              record {
                kept = λ k.
                    write_row-AreKept (with_details details a.row) d
                      (with_details-IsKept details a.row (row_by_id-All id d.rows k found.row)) k
                      written;
                closed_stays = λ j c.
                    write_row-HasClosed j (with_details details a.row) d written c
                      λ same. Found-is_closed id j d a found c same;
              }
        ]

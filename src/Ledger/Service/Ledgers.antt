-- ===== src/Ledger/Service/Ledgers.antt =====
-- Ledgers: internal/modules/ledger/ledgers.go, with its statements in store_ledgers.go. Each operation
-- is one database transaction.
use astrum.Prelude.{
  ℕ, suc, ◌≡◌, arith, refl, sym, subst, inl, inr, Bool, true, false, ◌==◌, ==_iff, Bool-cases,
  some_unique, Option, none, some, List, [], ◌∷◌, if◌then◌else◌,
}
use astrum.Prelude.Int.{ltb_ℤ, eqb_ℤ}
use astrum.Prelude.Eq.{Text}
use astrum.Result.{
  Result, ok, ◌>>=◌, ◌>>◌, >>=-elim, passed, ok_unique, fail_if, invalid, not_found,
}
use astrum.Ledger.Types.{Uuid, Time}
use astrum.Ledger.Json.{Metadata, normalize_metadata}
use astrum.Ledger.Requests.{truncate, same_time}
use astrum.Ledger.State.{or_err}
use astrum.Ledger.State.Commit.{or_err-eq-ok}
use astrum.Ledger.Validate.{validate_details, representable_time, bad_time}
use astrum.Ledger.Service.Details.{Details, UpdateInput, apply_update, same_details}

pub record Ledger : Type 0 where
  pub id : Uuid
  pub details : Details
  pub closed_before : Option Time
  pub version : ℕ
  pub created_at : Time

pub record CreateLedgerInput : Type 0 where
  pub name : Text
  pub description : Text
  pub metadata : Metadata

-- `queryLedger` with `id = $1`
unfoldable pub ledger_by_id : Uuid → List Ledger → Option Ledger
ledger_by_id id [] = none
ledger_by_id id (l ∷ ls) = if l.id == id then some l else ledger_by_id id ls

-- the UPDATE of one row
unfoldable pub replace_ledger : Ledger → List Ledger → List Ledger
replace_ledger l [] = []
replace_ledger l (m ∷ ms) = if m.id == l.id then l ∷ ms else m ∷ replace_ledger l ms

-- the end of `updateLedger`
unfoldable pub write_details : Ledger → Details → List Ledger → List Ledger × Ledger
unfolding same_details replace_ledger
write_details current details ls = if same_details current.details details then (ls, current) else (
  replace_ledger (record current { details = details; version = suc current.version }) ls,
  record current { details = details; version = suc current.version },
)

module _ (reads_object : Text → Bool) (text_of : Metadata → Text) where
  -- `createLedger` and `insertLedger`; `new_id` is what `uuid.NewV7` answers
  unfoldable pub create_ledger :
      Text → Result Uuid → Time → CreateLedgerInput → List Ledger → Result (List Ledger × Ledger)
  unfolding validate_details normalize_metadata
  create_ledger raw new_id now i ls =
      validate_details reads_object i.name i.description raw true
      >> (new_id >>= λ id.
          let l : Ledger = record {
            id = id;
            details = record {
              name = i.name;
              description = i.description;
              metadata = normalize_metadata i.metadata;
            };
            closed_before = none;
            version = 0;
            created_at = now;
          } in
          ok (l ∷ ls, l))

  -- `updateLedger`
  unfoldable pub update_ledger : Uuid → UpdateInput → List Ledger → Result (List Ledger × Ledger)
  unfolding ledger_by_id apply_update write_details
  update_ledger id i ls = or_err (ledger_by_id id ls) not_found >>= λ current.
      apply_update reads_object text_of current.details i true >>= λ details.
      ok (write_details current details ls)

abbrev pub truncated_time : Option Time → Option Time
truncated_time none = none
truncated_time (some t) = some (truncate t)

-- `coalesce($1::timestamptz > now(), false)`
abbrev pub is_future : Time → Option Time → Bool
is_future now none = false
is_future now (some t) = ltb_ℤ now t

abbrev pub close_at : Option Time → Ledger → List Ledger → List Ledger × Ledger
close_at at current ls = if same_time current.closed_before at then (ls, current) else (
  replace_ledger (record current { closed_before = at; version = suc current.version }) ls,
  record current { closed_before = at; version = suc current.version },
)

-- `closePeriod`, before it waits for the database transactions that are older
unfoldable pub close_period :
    Time → Uuid → Option Time → List Ledger → Result (List Ledger × Ledger)
unfolding truncate representable_time ledger_by_id replace_ledger
close_period now id closed_before ls = do
  fail_if (bad_time (truncated_time closed_before)) invalid
  current ← or_err (ledger_by_id id ls) not_found
  fail_if (is_future now (truncated_time closed_before)) invalid
  ok (close_at (truncated_time closed_before) current ls)

eqb_same : (t : Time) → eqb_ℤ t t ≡ true
eqb_same t = ground arith

same_time-closed :
    (at : Option Time) (current : Ledger) (ls : List Ledger)
    → same_time (close_at at current ls).1.closed_before at ≡ true
same_time-closed at current ls = elim (Bool-cases (same_time current.closed_before at)) [
  | inl e ↦ rw e e
  | inr e ↦ rw e (reflexive at)
]
  where
    reflexive : (o : Option Time) → same_time o o ≡ true
    reflexive none = refl
    reflexive (some t) = eqb_same t

ledger_by_id-id :
    (id : Uuid) (ls : List Ledger) {l : Ledger} → ledger_by_id id ls ≡ some l → l.id ≡ id
unfolding ledger_by_id
ledger_by_id-id id [] e = absurd (cc)
ledger_by_id-id id (m ∷ ms) {l} e = elim (Bool-cases (m.id == id)) [
  | inl f ↦
      let same : m ≡ l = some_unique refl (rw f at e) in
      subst (λ (x : Ledger). x.id ≡ id) same ((==_iff m.id id).0 f)
  | inr f ↦ ledger_by_id-id id ms (rw f at e)
]

replaced_here :
    (id : Uuid) (l : Ledger) (ls : List Ledger) {m : Ledger}
    → ledger_by_id id ls ≡ some m
    → l.id ≡ id
    → ledger_by_id id (replace_ledger l ls) ≡ some l
unfolding ledger_by_id replace_ledger
replaced_here id l [] e same = absurd (cc)
replaced_here id l (m ∷ ms) e same = elim (Bool-cases (m.id == id)) [
  | inl f ↦
      let at_row : (m.id == l.id) ≡ true = subst (λ k. (m.id == k) ≡ true) (sym same) f in
      rw (at_row, (==_iff l.id id).1 same) refl
  | inr f ↦
      let at_row : (m.id == l.id) ≡ false = subst (λ k. (m.id == k) ≡ false) (sym same) f in
      rw (at_row, f) (replaced_here id l ms (rw f at e) same)
]

replaced_away :
    (j : Uuid) (l : Ledger) (ls : List Ledger)
    → (l.id == j) ≡ false
    → ledger_by_id j (replace_ledger l ls) ≡ ledger_by_id j ls
unfolding ledger_by_id replace_ledger
replaced_away j l [] away = refl
replaced_away j l (m ∷ ms) away = elim (Bool-cases (m.id == l.id)) [
  | inl f ↦
      let same : m.id ≡ l.id = (==_iff m.id l.id).0 f in
      let other : (m.id == j) ≡ false = rw same away in rw (f, away, other) refl
  | inr f ↦ rw (f, replaced_away j l ms away) refl
]

-- The ledger `l` is the one with the key `id` in `r`, and the others are as in `ls`.
abbrev pub Writes : Uuid → Ledger → List Ledger → List Ledger → Type 0
Writes id l ls r =
    (ledger_by_id id r ≡ some l)
    × ((j : Uuid) → (id == j) ≡ false → ledger_by_id j r ≡ ledger_by_id j ls)

close_at-Writes :
    (at : Option Time) (id : Uuid) (current : Ledger) (ls : List Ledger)
    → ledger_by_id id ls ≡ some current
    → Writes id (close_at at current ls).1 ls (close_at at current ls).0
close_at-Writes at id current ls e =
    let same : current.id ≡ id = ledger_by_id-id id ls e in
    elim (Bool-cases (same_time current.closed_before at)) [
      | inl f ↦ rw f (e, λ j away. refl)
      | inr f ↦ rw f (
        replaced_here id (record current { closed_before = at; version = suc current.version }) ls e
            same,
        λ j away.
            replaced_away j (record current { closed_before = at; version = suc current.version })
              ls (rw same away),
      )
    ]

-- After `close_period` the ledger that is stored under the id is the one that is answered, and the
-- other ledgers are as they were. It is closed before the time that was asked for, cut to
-- microseconds, or is open where none was asked for; and that time is one that texts represent, and is
-- not in the future.
pub close_period-closed :
    (now : Time) (id : Uuid) (closed_before : Option Time) (ls : List Ledger)
    {r : List Ledger × Ledger}
    → close_period now id closed_before ls ≡ ok r
    → Writes id r.1 ls r.0
      × ((same_time r.1.closed_before (truncated_time closed_before) ≡ true)
          × ((bad_time (truncated_time closed_before) ≡ false)
              × (is_future now (truncated_time closed_before) ≡ false)))
unfolding close_period
close_period-closed now id closed_before ls {r} h =
    let (fine, h1) = passed (bad_time (truncated_time closed_before)) invalid h in
    >>=-elim (or_err (ledger_by_id id ls) not_found) _ h1 λ current e h2.
      let (past, h3) = passed (is_future now (truncated_time closed_before)) invalid h2 in
      let at = truncated_time closed_before in
      let found = or_err-eq-ok not_found (ledger_by_id id ls) e in
      subst
        (λ (x : List Ledger × Ledger).
          Writes id x.1 ls x.0
          × ((same_time x.1.closed_before at ≡ true)
              × ((bad_time at ≡ false) × (is_future now at ≡ false))))
        (ok_unique refl h3)
        (close_at-Writes at id current ls found, (same_time-closed at current ls, (fine, past)))

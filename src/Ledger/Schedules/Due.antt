-- ===== src/Ledger/Schedules/Due.antt =====
-- The rows that `executeDue` of internal/modules/ledger/schedules.go selects and resolves.
use astrum.Prelude.{
  ℕ, zero, suc, ◌≤◌, ◌≡◌, refl, ap, ◌∙◌, arith, inl, inr, true, false, ◌||◌, ◌==◌, ==_iff,
  Bool-cases, Option, none, some, List, [], ◌∷◌, map, take, length,
}
use astrum.Prelude.Eq.{nat_eq}
use astrum.Prelude.Map.{Map, lookup}
use astrum.Ledger.Types.{Uuid, Time}
use astrum.Ledger.Store.{is_among}
use astrum.Ledger.Engine.{PostingResult, unresolved, created, replayed, failed}
use astrum.Ledger.Schedules.{ScheduledTransaction, is_scheduled}
use astrum.Ledger.Schedules.Execution.{
  is_due, due_rows, precedes, insert_ordered, ordered, select_due, outcomes_by_id, update_by,
  resolve_rows,
}

abbrev pub ids_of : List ScheduledTransaction → List Uuid
ids_of rows = map (λ st. st.id) rows

-- Whether an id is among the rows that are selected, and how many these are.
insert_ordered-ids :
    (id : Uuid) (st : ScheduledTransaction) (rs : List ScheduledTransaction)
    → is_among id (ids_of (insert_ordered st rs)) ≡ is_among id (ids_of (st ∷ rs))
unfolding is_among insert_ordered
insert_ordered-ids id st [] = refl
insert_ordered-ids id st (r ∷ rs) = elim (Bool-cases (precedes st r)) [
  | inl e ↦ rw e refl
  | inr e ↦ rw (e, insert_ordered-ids id st rs) (ground arith)
]

pub ordered-ids :
    (id : Uuid) (sts : List ScheduledTransaction)
    → is_among id (ids_of (ordered sts)) ≡ is_among id (ids_of sts)
unfolding is_among ordered
ordered-ids id [] = refl
ordered-ids id (st ∷ sts) =
    insert_ordered-ids id st (ordered sts) ∙ ap (λ b. (id == st.id) || b) (ordered-ids id sts)

insert_ordered-length :
    (st : ScheduledTransaction) (rs : List ScheduledTransaction)
    → length (insert_ordered st rs) ≡ suc (length rs)
unfolding insert_ordered
insert_ordered-length st [] = refl
insert_ordered-length st (r ∷ rs) = elim (Bool-cases (precedes st r)) [
  | inl e ↦ rw e refl
  | inr e ↦ rw e (ap suc (insert_ordered-length st rs))
]

pub ordered-length : (sts : List ScheduledTransaction) → length (ordered sts) ≡ length sts
unfolding ordered
ordered-length [] = refl
ordered-length (st ∷ sts) = insert_ordered-length st (ordered sts) ∙ ap suc (ordered-length sts)

take_all {ℓ} : {A : Type ℓ} (n : ℕ) (xs : List A) → length xs ≤ n → take n xs ≡ xs
take_all zero [] h = refl
take_all zero (x ∷ xs) h = absurd (omega arith)
take_all (suc n) [] h = refl
take_all (suc n) (x ∷ xs) h = ap (λ ys. x ∷ ys) (take_all n xs (omega arith))

take-is_among :
    (id : Uuid) (n : ℕ) (sts : List ScheduledTransaction)
    → is_among id (ids_of sts) ≡ false
    → is_among id (ids_of (take n sts)) ≡ false
unfolding is_among
take-is_among id zero sts h = refl
take-is_among id (suc n) [] h = refl
take-is_among id (suc n) (st ∷ sts) h = elim (Bool-cases (id == st.id)) [
  | inl e ↦ (let f : true ≡ false = rw e at h in absurd (cc))
  | inr e ↦ rw e (take-is_among id n sts (rw e at h))
]

pub select_due-misses :
    (id : Uuid) (now : Time) (limit : ℕ) (rows : List ScheduledTransaction)
    → is_among id (ids_of (due_rows now rows)) ≡ false
    → is_among id (ids_of (select_due now limit rows)) ≡ false
unfolding select_due
select_due-misses id now limit rows h =
    take-is_among id limit _ (ordered-ids id (due_rows now rows) ∙ h)

pub select_due_all :
    (now : Time) (limit : ℕ) (rows : List ScheduledTransaction)
    → length (due_rows now rows) ≤ limit
    → select_due now limit rows ≡ ordered (due_rows now rows)
unfolding select_due
select_due_all now limit rows h =
    take_all limit (ordered (due_rows now rows)) (rw (ordered-length (due_rows now rows)) h)

-- The outcomes are there for the ids of the selected rows, and for no other.
pub outcomes_by_id-misses :
    (id : Uuid) (sts : List ScheduledTransaction) (os : List PostingResult)
    → is_among id (ids_of sts) ≡ false
    → lookup id (outcomes_by_id sts os) ≡ none
unfolding is_among lookup outcomes_by_id
outcomes_by_id-misses id [] os h = refl
outcomes_by_id-misses id (st ∷ sts) [] h = refl
outcomes_by_id-misses id (st ∷ sts) (o ∷ os) h =
    ground (arith, h, ==_iff st.id id, ==_iff id st.id, outcomes_by_id-misses id sts os)

pub data IsFound {ℓ} {A : Type ℓ} : Option A → Type ℓ where
  found : (a : A) → IsFound (some a)

found-ne-none {ℓ κ} : {A : Type ℓ} {B : Type κ} {o : Option A} → o ≡ none → IsFound o → B
found-ne-none e (found a) = absurd (cc)

pub outcomes_by_id-IsFound :
    (id : Uuid) (sts : List ScheduledTransaction) (os : List PostingResult)
    → length os ≡ length sts
    → is_among id (ids_of sts) ≡ true
    → IsFound (lookup id (outcomes_by_id sts os))
unfolding is_among lookup outcomes_by_id
outcomes_by_id-IsFound id [] os l h = absurd (cc)
outcomes_by_id-IsFound id (st ∷ sts) [] l h = absurd (omega arith)
outcomes_by_id-IsFound id (st ∷ sts) (o ∷ os) l h = elim (Bool-cases (st.id == id)) [
  | inl e ↦ rw e (found o)
  | inr e ↦ rw e (
      outcomes_by_id-IsFound id sts os (omega (arith, l))
        (ground (arith, h, e, ==_iff st.id id, ==_iff id st.id)))
]

-- A row that is due is among the selected, one that has an outcome is resolved, and no row is then due.
due_rows-is_among :
    (now : Time) (st : ScheduledTransaction) (rows : List ScheduledTransaction)
    → is_due now st ≡ true
    → is_among st.id (ids_of (due_rows now (st ∷ rows))) ≡ true
unfolding is_among due_rows
due_rows-is_among now st rows h = rw h (ground (arith, ==_iff st.id st.id))

pub update_by-resolves :
    (now : Time) (st : ScheduledTransaction) {o : Option PostingResult}
    → IsFound o
    → is_scheduled (update_by now st o).status ≡ false
update_by-resolves now st (found (created t)) = refl
update_by-resolves now st (found (replayed t)) = refl
update_by-resolves now st (found (failed e)) = refl
update_by-resolves now st (found unresolved) = refl

-- the ids that stay when a row is put before the others
due_rows-more :
    (now : Time) (id : Uuid) (st : ScheduledTransaction) (rows : List ScheduledTransaction)
    → is_among id (ids_of (due_rows now rows)) ≡ true
    → is_among id (ids_of (due_rows now (st ∷ rows))) ≡ true
unfolding is_among due_rows
due_rows-more now id st rows h = elim (Bool-cases (is_due now st)) [
  | inl e ↦ rw (e, h) (ground arith)
  | inr e ↦ rw e h
]

pub resolve_rows-none_due :
    (now : Time) (outcomes : Map Uuid PostingResult) (rows : List ScheduledTransaction)
    → ((id : Uuid) → is_among id (ids_of (due_rows now rows)) ≡ true → IsFound (lookup id outcomes))
    → due_rows now (resolve_rows now outcomes rows) ≡ []
unfolding due_rows resolve_rows
resolve_rows-none_due now outcomes [] k = refl
resolve_rows-none_due now outcomes (st ∷ sts) k =
    rw (not_due (lookup st.id outcomes) refl)
      (resolve_rows-none_due now outcomes sts λ id h. k id (due_rows-more now id st sts h))
  where
    not_due :
        (o : Option PostingResult)
        → lookup st.id outcomes ≡ o
        → is_due now (update_by now st o) ≡ false
    not_due (some o) e = rw (update_by-resolves now st (found o)) refl
    not_due none e = elim (Bool-cases (is_due now st)) [
      | inl h ↦ found-ne-none e (k st.id (due_rows-is_among now st sts h))
      | inr h ↦ h
    ]

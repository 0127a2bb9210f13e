-- ===== src/Ledger/Schedules/Kept.antt =====
-- The rows that the operations of internal/modules/ledger/schedules.go keep.
use astrum.Prelude.{
  ◌≡◌, refl, sym, ap, ◌∙◌, arith, inl, inr, false, ◌==◌, ==_iff, Bool-cases, Option, none, some,
  some_unique, List, [], ◌∷◌, ◌++◌,
}
use astrum.Prelude.Eq.{nat_eq}
use astrum.Prelude.Map.{Map, lookup}
use astrum.Ledger.Types.{Uuid, Time}
use astrum.Ledger.Store.{is_among}
use astrum.Ledger.Engine.{PostingResult, created, replayed, failed, unresolved}
use astrum.Ledger.Schedules.{ScheduledTransaction, schedule_by_id, replace_schedule}
use astrum.Ledger.Schedules.Execution.{is_due, due_rows, update_by, resolve_rows}
use astrum.Ledger.Schedules.Due.{ids_of}

-- No two rows have the same id, which is the primary key.
unfoldable pub HaveUnique : List ScheduledTransaction → Type 0
HaveUnique [] = Unit
HaveUnique (st ∷ sts) = (is_among st.id (ids_of sts) ≡ false) × HaveUnique sts

-- rows with the same ids
pub HaveUnique-ids :
    (xs ys : List ScheduledTransaction) → ids_of xs ≡ ids_of ys → HaveUnique xs → HaveUnique ys
unfolding HaveUnique
HaveUnique-ids [] [] h u = tt
HaveUnique-ids [] (y ∷ ys) h u = absurd (cc)
HaveUnique-ids (x ∷ xs) [] h u = absurd (cc)
HaveUnique-ids (x ∷ xs) (y ∷ ys) h u =
    let same_id : x.id ≡ y.id = cc in
    let same_ids : ids_of xs ≡ ids_of ys = cc in
    (
      ap (λ i. is_among i (ids_of ys)) (sym same_id)
          ∙ ap (λ is. is_among x.id is) (sym same_ids)
          ∙ u.0,
      HaveUnique-ids xs ys same_ids u.1,
    )

update_by-id :
    (now : Time) (st : ScheduledTransaction) (o : Option PostingResult)
    → (update_by now st o).id ≡ st.id
update_by-id now st none = refl
update_by-id now st (some (created t)) = refl
update_by-id now st (some (replayed t)) = refl
update_by-id now st (some (failed e)) = refl
update_by-id now st (some unresolved) = refl

pub resolve_rows-ids :
    (now : Time) (outcomes : Map Uuid PostingResult) (rows : List ScheduledTransaction)
    → ids_of rows ≡ ids_of (resolve_rows now outcomes rows)
unfolding resolve_rows
resolve_rows-ids now outcomes [] = refl
resolve_rows-ids now outcomes (st ∷ sts) =
    let same = update_by-id now st (lookup st.id outcomes) in
    let rest = resolve_rows-ids now outcomes sts in cc

pub replace_schedule-ids :
    (st : ScheduledTransaction) (rows : List ScheduledTransaction)
    → ids_of rows ≡ ids_of (replace_schedule st rows)
unfolding replace_schedule
replace_schedule-ids st [] = refl
replace_schedule-ids st (r ∷ rs) = elim (Bool-cases (r.id == st.id)) [
  | inl e ↦ rw e (ap (λ i. i ∷ ids_of rs) ((==_iff r.id st.id).0 e))
  | inr e ↦ rw e (ap (λ is. r.id ∷ is) (replace_schedule-ids st rs))
]

pub schedule_by_id-id :
    (id : Uuid) (rows : List ScheduledTransaction) {st : ScheduledTransaction}
    → schedule_by_id id rows ≡ some st
    → st.id ≡ id
unfolding schedule_by_id
schedule_by_id-id id [] h = absurd (cc)
schedule_by_id-id id (r ∷ rs) {st} h = elim (Bool-cases (r.id == id)) [
  | inl e ↦
      ap (λ (q : ScheduledTransaction). q.id) (sym (some_unique refl (rw e at h)))
      ∙ (==_iff r.id id).0 e
  | inr e ↦ schedule_by_id-id id rs (rw e at h)
]

pub schedule_by_id-none :
    (id : Uuid) (rows : List ScheduledTransaction)
    → schedule_by_id id rows ≡ none
    → is_among id (ids_of rows) ≡ false
unfolding schedule_by_id is_among
schedule_by_id-none id [] h = refl
schedule_by_id-none id (r ∷ rs) h = elim (Bool-cases (r.id == id)) [
  | inl e ↦ (let f : some r ≡ none = rw e at h in absurd (cc))
  | inr e ↦ ground (arith, e, ==_iff r.id id, ==_iff id r.id, schedule_by_id-none id rs (rw e at h))
]

-- the row that an id finds, after each kind of write
pub schedule_by_id-append :
    (id : Uuid) (rows more : List ScheduledTransaction) {st : ScheduledTransaction}
    → schedule_by_id id rows ≡ some st
    → schedule_by_id id (rows ++ more) ≡ some st
unfolding schedule_by_id
schedule_by_id-append id [] more h = absurd (cc)
schedule_by_id-append id (r ∷ rs) more h = elim (Bool-cases (r.id == id)) [
  | inl e ↦ rw e (rw e at h)
  | inr e ↦ rw e (schedule_by_id-append id rs more (rw e at h))
]

pub schedule_by_id-replace_other :
    (id : Uuid) (q : ScheduledTransaction) (rows : List ScheduledTransaction)
    → (q.id == id) ≡ false
    → schedule_by_id id (replace_schedule q rows) ≡ schedule_by_id id rows
unfolding schedule_by_id replace_schedule
schedule_by_id-replace_other id q [] d = refl
schedule_by_id-replace_other id q (r ∷ rs) d = elim (Bool-cases (r.id == q.id)) [
  | inl e ↦ rw (e, (==_iff r.id q.id).0 e, d) refl
  | inr e ↦ elim (Bool-cases (r.id == id)) [
    | inl f ↦ rw (e, f) refl
    | inr f ↦ rw (e, f) (schedule_by_id-replace_other id q rs d)
  ]
]

pub schedule_by_id-resolve_rows :
    (id : Uuid) (now : Time) (outcomes : Map Uuid PostingResult) (rows : List ScheduledTransaction)
    {st : ScheduledTransaction}
    → schedule_by_id id rows ≡ some st
    → lookup id outcomes ≡ none
    → schedule_by_id id (resolve_rows now outcomes rows) ≡ some st
unfolding schedule_by_id resolve_rows
schedule_by_id-resolve_rows id now outcomes [] h l = absurd (cc)
schedule_by_id-resolve_rows id now outcomes (r ∷ rs) h l = elim (Bool-cases (r.id == id)) [
  | inl e ↦
      let same : lookup r.id outcomes ≡ none =
        ap (λ i. lookup i outcomes) ((==_iff r.id id).0 e) ∙ l in
      rw (same, e) (rw e at h)
  | inr e ↦
      rw (update_by-id now r (lookup r.id outcomes), e)
        (schedule_by_id-resolve_rows id now outcomes rs (rw e at h) l)
]

-- a row that is not due is not selected, for its id is no other row's
due_rows-subset :
    (id : Uuid) (now : Time) (rows : List ScheduledTransaction)
    → is_among id (ids_of rows) ≡ false
    → is_among id (ids_of (due_rows now rows)) ≡ false
unfolding is_among due_rows
due_rows-subset id now [] h = refl
due_rows-subset id now (r ∷ rs) h = elim (Bool-cases (is_due now r)) [
  | inl e ↦ rw e (ground (arith, h, due_rows-subset id now rs))
  | inr e ↦ rw e (ground (arith, h, due_rows-subset id now rs))
]

pub due_rows-misses :
    (id : Uuid) (now : Time) (rows : List ScheduledTransaction) {st : ScheduledTransaction}
    → HaveUnique rows
    → schedule_by_id id rows ≡ some st
    → is_due now st ≡ false
    → is_among id (ids_of (due_rows now rows)) ≡ false
unfolding HaveUnique schedule_by_id is_among due_rows
due_rows-misses id now [] u h d = refl
due_rows-misses id now (r ∷ rs) {st} u h d = elim (Bool-cases (r.id == id)) [
  | inl e ↦
      let same : r ≡ st = some_unique refl (rw e at h) in
      let idle : is_due now r ≡ false = ap (λ q. is_due now q) same ∙ d in
      rw idle (
        due_rows-subset id now rs
          (ap (λ i. is_among i (ids_of rs)) (sym ((==_iff r.id id).0 e)) ∙ u.0))
  | inr e ↦
      let rest = due_rows-misses id now rs u.1 (rw e at h) d in
      let apart : (id == r.id) ≡ false = ground (arith, e, ==_iff r.id id, ==_iff id r.id) in
      elim (Bool-cases (is_due now r)) [ inl f ↦ rw (f, apart) rest | inr f ↦ rw f rest ]
]

pub HaveUnique-append :
    (rows : List ScheduledTransaction) (st : ScheduledTransaction)
    → HaveUnique rows
    → is_among st.id (ids_of rows) ≡ false
    → HaveUnique (rows ++ st ∷ [])
unfolding HaveUnique is_among
HaveUnique-append [] st u h = (refl, tt)
HaveUnique-append (r ∷ rs) st u h = (apart rs u.0, HaveUnique-append rs st u.1 (ground (arith, h)))
  where
    apart :
        (xs : List ScheduledTransaction)
        → is_among r.id (ids_of xs) ≡ false
        → is_among r.id (ids_of (xs ++ st ∷ [])) ≡ false
    apart [] k = ground (arith, h, ==_iff r.id st.id, ==_iff st.id r.id)
    apart (x ∷ xs) k = ground (arith, k, apart xs)

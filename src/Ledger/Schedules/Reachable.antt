-- ===== src/Ledger/Schedules/Reachable.antt =====
-- The step relation of the operations of internal/modules/ledger/schedules.go.
use astrum.Prelude.{
  ℕ, ◌≡◌, refl, sym, ap, ◌∙◌, subst, inl, inr, Bool, true, false, ◌==◌, ==_iff, Bool-cases, Option,
  none, some, some_unique, [], ◌∷◌,
}
use astrum.Prelude.Eq.{Text, nat_eq}
use astrum.Result.{Result, ok, >>=-elim, passed, ok_unique, idempotency_conflict, not_found}
use astrum.Ledger.Types.{Uuid, Time}
use astrum.Ledger.State.{or_err}
use astrum.Ledger.State.Commit.{or_err-eq-ok}
use astrum.Ledger.Validate.{validate_schedule}
use astrum.Ledger.Schedules.{
  ScheduleStatus, schedule_scheduled, schedule_executed, schedule_failed, schedule_canceled,
  ScheduleInput, ScheduledTransaction, Planner, is_scheduled, schedule_by_id, schedule_by_key,
  check_accounts_exist, new_schedule, insert_schedule, normal_input, schedule, canceled_at,
  cancel_by, cancel_schedule,
}
use astrum.Ledger.Schedules.Execution.{select_due, outcomes_by_id, execute_due}
use astrum.Ledger.Schedules.Due.{ids_of, select_due-misses, outcomes_by_id-misses}
use astrum.Ledger.Schedules.Executed.{execute_due-Executes}
use astrum.Ledger.Schedules.Kept.{
  HaveUnique, HaveUnique-ids, HaveUnique-append, resolve_rows-ids, replace_schedule-ids,
  schedule_by_id-id, schedule_by_id-none, schedule_by_id-append, schedule_by_id-replace_other,
  schedule_by_id-resolve_rows, due_rows-misses,
}

-- Unique ids stay unique, and a row that is resolved stays as it is.
record Keeps (d : Planner) (e : Planner) : Type 0 where
  unique : HaveUnique e.schedules
  resolved_stay :
      (id : Uuid) {st : ScheduledTransaction}
      → schedule_by_id id d.schedules ≡ some st
      → is_scheduled st.status ≡ false
      → schedule_by_id id e.schedules ≡ some st

Keeps-refl : (d : Planner) → HaveUnique d.schedules → Keeps d d
Keeps-refl d u = record { unique = u; resolved_stay = λ id h r. h }

module _ (d : Planner) (u : HaveUnique d.schedules) where
  insert_schedule-Keeps :
      (id : Uuid) (now : Time) (i : ScheduleInput) (same_key same_id : Option ScheduledTransaction)
      {x : Planner × ScheduledTransaction}
      → schedule_by_id id d.schedules ≡ same_id
      → insert_schedule id now i d same_key same_id ≡ ok x
      → Keeps d x.0
  insert_schedule-Keeps id now i (some existing) same_id f h =
      subst (λ (x : Planner × ScheduledTransaction). Keeps d x.0)
        (ok_unique refl (passed _ idempotency_conflict h).1) (Keeps-refl d u)
  insert_schedule-Keeps id now i none (some st) f h = absurd (cc)
  insert_schedule-Keeps id now i none none f h =
      subst (λ (x : Planner × ScheduledTransaction). Keeps d x.0) (ok_unique refl h)
        (record {
          unique =
              HaveUnique-append d.schedules (new_schedule id now i) u
                (schedule_by_id-none id d.schedules f);
          resolved_stay =
              λ j g r. schedule_by_id-append j d.schedules (new_schedule id now i ∷ []) g;
        })

  schedule-Keeps :
      (reads_object : Text → Bool) (raw : Text) (new_id : Result Uuid) (now : Time)
      (i : ScheduleInput) {x : Planner × ScheduledTransaction}
      → schedule reads_object raw new_id now i d ≡ ok x
      → Keeps d x.0
  unfolding schedule
  schedule-Keeps reads_object raw new_id now i h =
      >>=-elim (validate_schedule reads_object raw i.execute_at i.post) _ h λ t e1 h1.
        >>=-elim new_id _ h1 λ id e2 h2.
          >>=-elim (check_accounts_exist i.post.postings d.store) _ h2 λ t' e3 h3.
            insert_schedule-Keeps id now (normal_input i)
              (schedule_by_key i.post.idempotency_key d.schedules) _ refl h3

  cancel_by-Keeps :
      (now : Time) (st : ScheduledTransaction) (status : ScheduleStatus)
      {x : Planner × ScheduledTransaction}
      → schedule_by_id st.id d.schedules ≡ some st
      → st.status ≡ status
      → cancel_by now st d status ≡ ok x
      → Keeps d x.0
  cancel_by-Keeps now st schedule_canceled f g h =
      subst (λ (x : Planner × ScheduledTransaction). Keeps d x.0) (ok_unique refl h)
        (Keeps-refl d u)
  cancel_by-Keeps now st schedule_executed f g h = absurd (cc)
  cancel_by-Keeps now st schedule_failed f g h = absurd (cc)
  cancel_by-Keeps now st schedule_scheduled f g h =
      let q = canceled_at now st in
      subst (λ (x : Planner × ScheduledTransaction). Keeps d x.0) (ok_unique refl h)
        (record {
          unique = HaveUnique-ids d.schedules _ (replace_schedule-ids q d.schedules) u;
          resolved_stay = λ id {st = r} k c. elim (Bool-cases (st.id == id)) [
            | inl e ↦
                let same : st ≡ r =
                  some_unique f
                    (ap (λ j. schedule_by_id j d.schedules) ((==_iff st.id id).0 e) ∙ k) in
                let waits : true ≡ false =
                  ap (λ s. is_scheduled s) (sym g)
                  ∙ ap (λ (p : ScheduledTransaction). is_scheduled p.status) same
                  ∙ c in
                absurd (cc)
            | inr e ↦ schedule_by_id-replace_other id q d.schedules e ∙ k
          ];
        })

  cancel_schedule-Keeps :
      (now : Time) (id : Uuid) {x : Planner × ScheduledTransaction}
      → cancel_schedule now id d ≡ ok x
      → Keeps d x.0
  unfolding cancel_schedule
  cancel_schedule-Keeps now id h =
      >>=-elim (or_err (schedule_by_id id d.schedules) not_found) _ h λ st e g.
        let f = or_err-eq-ok not_found (schedule_by_id id d.schedules) e in
        cancel_by-Keeps now st st.status
          (ap (λ j. schedule_by_id j d.schedules) (schedule_by_id-id id d.schedules f) ∙ f) refl g

  execute_due-Keeps :
      (new_id : ℕ → Result Uuid) (now : Time) (limit : ℕ) {x : Planner × ℕ × ℕ}
      → execute_due new_id now limit d ≡ ok x
      → Keeps d x.0
  execute_due-Keeps new_id now limit {x} h =
      let due = select_due now limit d.schedules in
      let run = execute_due-Executes new_id now d limit h in
      record {
        unique =
            HaveUnique-ids d.schedules x.0.schedules
              (resolve_rows-ids now (outcomes_by_id due run.outcomes) d.schedules
                ∙ ap (λ rs. ids_of rs) (sym run.rows))
              u;
        resolved_stay = λ id {st} k c.
            ap (λ rs. schedule_by_id id rs) run.rows
            ∙ schedule_by_id-resolve_rows id now (outcomes_by_id due run.outcomes) d.schedules k (
                outcomes_by_id-misses id due run.outcomes (
                  select_due-misses id now limit d.schedules
                    (due_rows-misses id now d.schedules u k (rw c refl))));
      }

module _ (reads_object : Text → Bool) where
  -- One operation that succeeds.
  pub data Step (d : Planner) (e : Planner) : Type 0 where
    schedule_step :
        (raw : Text) (new_id : Result Uuid) (now : Time) (i : ScheduleInput)
        (st : ScheduledTransaction)
        → schedule reads_object raw new_id now i d ≡ ok (e, st)
        → Step d e
    cancel_step :
        (now : Time) (id : Uuid) (st : ScheduledTransaction)
        → cancel_schedule now id d ≡ ok (e, st)
        → Step d e
    execute_step :
        (new_id : ℕ → Result Uuid) (now : Time) (limit executed failed : ℕ)
        → execute_due new_id now limit d ≡ ok (e, executed, failed)
        → Step d e

  pub data Reach (d : Planner) : Planner → Type 0 where
    here : Reach d d
    next : {e f : Planner} → Reach d e → Step e f → Reach d f

module _ (reads_object : Text → Bool) where
  Step-Keeps : {d e : Planner} → HaveUnique d.schedules → Step reads_object d e → Keeps d e
  Step-Keeps {d} {e} u (schedule_step raw new_id now i st h) =
      schedule-Keeps d u reads_object raw new_id now i h
  Step-Keeps {d} {e} u (cancel_step now id st h) = cancel_schedule-Keeps d u now id h
  Step-Keeps {d} {e} u (execute_step new_id now limit executed failed h) =
      execute_due-Keeps d u new_id now limit h

  Reach-Keeps : {d e : Planner} → HaveUnique d.schedules → Reach reads_object d e → Keeps d e
  Reach-Keeps {d} u here = Keeps-refl d u
  Reach-Keeps u (next r s) =
      let before = Reach-Keeps u r in
      let step = Step-Keeps before.unique s in
      record {
        unique = step.unique;
        resolved_stay = λ id h c. step.resolved_stay id (before.resolved_stay id h c) c;
      }

  -- From rows whose ids differ, a schedule that was executed, failed or canceled is found unchanged
  -- after every sequence of `schedule`, `cancelSchedule` and `executeDue`: what was canceled is not
  -- executed, and nothing is executed twice.
  pub Reach-stays_resolved :
      (id : Uuid) {d e : Planner} {st : ScheduledTransaction}
      → HaveUnique d.schedules
      → Reach reads_object d e
      → schedule_by_id id d.schedules ≡ some st
      → is_scheduled st.status ≡ false
      → schedule_by_id id e.schedules ≡ some st
  Reach-stays_resolved id u r h c = (Reach-Keeps u r).resolved_stay id h c

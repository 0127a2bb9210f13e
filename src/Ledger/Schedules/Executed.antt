-- ===== src/Ledger/Schedules/Executed.antt =====
-- What `executeDue` of internal/modules/ledger/schedules.go leaves of the rows.
use astrum.Prelude.{
  ℕ, ◌+◌, ◌≤◌, ◌≡◌, refl, sym, ap, ◌∙◌, subst, arith, inl, inr, Bool, true, false, Bool-cases, List,
  [], ◌∷◌, map, length,
}
use astrum.Prelude.Eq.{nat_eq}
use astrum.Prelude.Map.{lookup}
use astrum.Result.{Result, ok, >>=-elim, ok_unique}
use astrum.Ledger.Types.{Uuid, Time}
use astrum.Ledger.Store.{Store}
use astrum.Ledger.Engine.{PostingResult, is_failed, apply_requests}
use astrum.Ledger.Engine.Counts.{length-map, apply_requests-length}
use astrum.Ledger.Schedules.{ScheduledTransaction, Planner}
use astrum.Ledger.Schedules.Execution.{
  due_rows, ordered, select_due, due_request, outcomes_by_id, resolve_rows, count_executed,
  count_failed, record_outcomes, execute_rows, execute_due,
}
use astrum.Ledger.Schedules.Due.{
  ordered-ids, ordered-length, select_due_all, outcomes_by_id-IsFound, resolve_rows-none_due,
}

count-is_failed : (os : List PostingResult) → count_executed os + count_failed os ≡ length os
unfolding count_executed count_failed
count-is_failed [] = refl
count-is_failed (o ∷ os) = elim (Bool-cases (is_failed o)) [
  | inl e ↦ rw e (omega (arith, count-is_failed os))
  | inr e ↦ rw e (omega (arith, count-is_failed os))
]

-- what an execution leaves: the counts, and the rows
pub record Executes (now : Time) (due : List ScheduledTransaction) (d : Planner)
    (x : Planner × ℕ × ℕ) : Type 0 where
  pub outcomes : List PostingResult
  pub one_each : length outcomes ≡ length due
  pub counted : x.1 + x.2 ≡ length due
  pub rows : x.0.schedules ≡ resolve_rows now (outcomes_by_id due outcomes) d.schedules

resolve_rows-nothing :
    (now : Time) (rows : List ScheduledTransaction) → rows ≡ resolve_rows now [] rows
unfolding resolve_rows lookup
resolve_rows-nothing now [] = refl
resolve_rows-nothing now (st ∷ sts) = ap (λ rs. st ∷ rs) (resolve_rows-nothing now sts)

module _ (new_id : ℕ → Result Uuid) (now : Time) (d : Planner) {x : Planner × ℕ × ℕ} where
  record_outcomes-Executes :
      (due : List ScheduledTransaction) (y : Store × List PostingResult × Bool)
      → length y.1 ≡ length due
      → record_outcomes now due d y ≡ ok x
      → Executes now due d x
  record_outcomes-Executes due (s, os, true) l h = absurd (cc)
  record_outcomes-Executes due (s, os, false) l h =
      let f = ok_unique refl h in
      record {
        outcomes = os;
        one_each = l;
        counted =
            subst (λ (z : Planner × ℕ × ℕ). z.1 + z.2 ≡ length due) f (count-is_failed os ∙ l);
        rows = ap (λ (z : Planner × ℕ × ℕ). z.0.schedules) (sym f);
      }

  execute_rows-Executes :
      (due : List ScheduledTransaction)
      → execute_rows new_id now d due ≡ ok x
      → Executes now due d x
  unfolding outcomes_by_id
  execute_rows-Executes [] h =
      let f = ok_unique refl h in
      record {
        outcomes = [];
        one_each = refl;
        counted = subst (λ (z : Planner × ℕ × ℕ). z.1 + z.2 ≡ 0) f refl;
        rows =
            ap (λ (z : Planner × ℕ × ℕ). z.0.schedules) (sym f)
            ∙ resolve_rows-nothing now d.schedules;
      }
  execute_rows-Executes (st ∷ sts) h =
      >>=-elim (apply_requests new_id now false (map due_request (st ∷ sts)) d.store) _ h λ y e g.
        record_outcomes-Executes (st ∷ sts) y
          (apply_requests-length new_id now false _ d.store e ∙ length-map due_request (st ∷ sts)) g

  pub execute_due-Executes :
      (limit : ℕ)
      → execute_due new_id now limit d ≡ ok x
      → Executes now (select_due now limit d.schedules) d x
  unfolding execute_due
  execute_due-Executes limit h = execute_rows-Executes (select_due now limit d.schedules) h

  -- When `executeDue` succeeds with a limit that is not below the number of the rows that are due,
  -- each of these is counted once, as executed or as failed, and no row is due any more.
  pub execute_due-all_resolved :
      (limit : ℕ)
      → length (due_rows now d.schedules) ≤ limit
      → execute_due new_id now limit d ≡ ok x
      → (x.1 + x.2 ≡ length (due_rows now d.schedules)) × (due_rows now x.0.schedules ≡ [])
  execute_due-all_resolved limit l h =
      let due = due_rows now d.schedules in
      let run =
        subst (λ sts. Executes now sts d x) (select_due_all now limit d.schedules l)
          (execute_due-Executes limit h) in
      (
        run.counted ∙ ordered-length due,
        ap (λ rs. due_rows now rs) run.rows
            ∙ resolve_rows-none_due now _ d.schedules λ id m.
              outcomes_by_id-IsFound id (ordered due) run.outcomes run.one_each
                (ordered-ids id due ∙ m),
      )

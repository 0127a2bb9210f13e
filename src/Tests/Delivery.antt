-- ===== src/Tests/Delivery.antt =====
-- The outbox and its webhook deliveries: tests and instances.
use astrum.Prelude.{ℕ, ◌≡◌, refl, true, false, none, some, [], ◌∷◌}
use astrum.Prelude.Int.{pos}
use astrum.Prelude.Eq.{Text}
use astrum.Result.{Result, ok}
use astrum.Ledger.Types.{Uuid, Time}
use astrum.Ledger.Validate.Strings.{has_prefix}
use astrum.Kernel.Delivery.{
  pending, succeeded, Delivery, Outbox, cut_star, covered, subscribed, visible_events, insert_event,
  in_commit_order, next_events, endpoints_for, wanted, conflicts, insert_deliveries, dispatch,
}
use astrum.Kernel.Delivery.Sends.{Claimed, delay_at, outcome, update_delivery, send, delivery_by_id}
use astrum.Kernel.Delivery.Lasting.{has_delivered}
use astrum.Kernel.Delivery.Reachable.{here, next, send_step, Reach-has_delivered}

-- `a.*` and `a.b`
abbrev wildcard : Text
wildcard = 97 ∷ 46 ∷ 42 ∷ []

abbrev event_name : Text
event_name = 97 ∷ 46 ∷ 98 ∷ []

subscribed-wildcard : subscribed (wildcard ∷ []) event_name ≡ true
unfolding subscribed covered cut_star has_prefix
subscribed-wildcard = refl

abbrev numbered : ℕ → Result Uuid
numbered n = ok 9

-- one event that is visible, and one of a transaction that is underway
abbrev outbox : Outbox
outbox = record {
  events =
      record { id = 5; typ = event_name; xid = 30 }
      ∷ record { id = 4; typ = event_name; xid = 20 }
      ∷ [];
  endpoints =
      record { id = 1; event_types = wildcard ∷ []; enabled = true }
      ∷ record { id = 2; event_types = []; enabled = false }
      ∷ [];
  deliveries = [];
  cursor = none;
}

abbrev waiting : Delivery
waiting = record {
  id = 9;
  endpoint_id = 1;
  event_id = 4;
  status = pending;
  attempts = 0;
  next_attempt_at = pos 100;
  last_attempt_at = none;
  last_status_code = none;
  delivered_at = none;
}

abbrev dispatched : Outbox
dispatched = record outbox { deliveries = waiting ∷ []; cursor = some (20, 4) }

dispatch_lem : dispatch numbered (pos 100) 30 10 outbox ≡ ok (dispatched, 1)
unfolding dispatch next_events visible_events in_commit_order insert_event wanted endpoints_for
    subscribed covered cut_star has_prefix insert_deliveries conflicts
dispatch_lem = refl

-- two workers claim it; one of them is answered 200, and the other fails for good after that
abbrev twice : Claimed
twice = record { id = 9; attempts = 0 }

abbrev answered_at : Time → Outbox
answered_at now = record dispatched {
  deliveries =
      record waiting {
        status = succeeded;
        attempts = 1;
        last_attempt_at = some now;
        last_status_code = some 200;
        delivered_at = some now;
      }
      ∷ [];
}

success :
    send (pos 200) [] twice (record { status = 200; is_error = false }) dispatched
    ≡ some (answered_at (pos 200))
unfolding send outcome update_delivery delay_at
success = refl

-- without delays a failure is for good, and the row that succeeded refuses it
late_failure :
    send (pos 300) [] twice (record { status = 500; is_error = true }) (answered_at (pos 200))
    ≡ some (answered_at (pos 200))
unfolding send outcome update_delivery delay_at
late_failure = refl

delivered : has_delivered 9 (answered_at (pos 200)).deliveries ≡ true
unfolding has_delivered delivery_by_id
delivered = refl

Reach-has_delivered_example : has_delivered 9 (answered_at (pos 200)).deliveries ≡ true
Reach-has_delivered_example =
    Reach-has_delivered 9 []
      (next here (
        send_step (pos 300) twice (record { status = 500; is_error = true }) (answered_at (pos 200))
          late_failure))
      delivered

-- ===== src/Kernel/Delivery.antt =====
-- internal/kernel/events/dispatch.go: the outbox of events, their webhook deliveries and the retries.
-- Each statement is a function on the tables. The body that is sent, its signature and the text of the
-- last error are left out; what an endpoint answers is an argument.
pub mod Sends
pub mod Lasting
pub mod Reachable
use astrum.Prelude.{
  ℕ, suc, ◌+◌, Bool, true, false, ◌&&◌, ◌||◌, ◌==◌, ltb, Option, none, some, List, [], ◌∷◌, ◌++◌,
  take, length, if◌then◌else◌,
}
use astrum.Prelude.Eq.{Text, text_eq, ◌=?◌}
use astrum.Result.{Result, ok, ◌>>=◌}
use astrum.Ledger.Types.{Uuid, Time}
use astrum.Ledger.Validate.Strings.{has_prefix}

pub data DeliveryStatus : Type 0 where
  pending succeeded failed : DeliveryStatus

-- A row of webhook_endpoints, less its URL, its secret and what only people read.
pub record Endpoint : Type 0 where
  pub id : Uuid
  pub event_types : List Text
  pub enabled : Bool

-- `xid` is the transaction that made the event, `created_xid`.
pub record QueuedEvent : Type 0 where
  pub id : Uuid
  pub typ : Text
  pub xid : ℕ

-- a row of webhook_deliveries
pub record Delivery : Type 0 where
  pub id : Uuid
  pub endpoint_id : Uuid
  pub event_id : Uuid
  pub status : DeliveryStatus
  pub attempts : ℕ
  pub next_attempt_at : Time
  pub last_attempt_at : Option Time
  pub last_status_code : Option ℕ
  pub delivered_at : Option Time

-- The tables. `cursor` is the row of event_dispatch_cursor: last_xid and last_id.
pub record Outbox : Type 0 where
  pub events : List QueuedEvent
  pub endpoints : List Endpoint
  pub deliveries : List Delivery
  pub cursor : Option (ℕ × Uuid)

-- `strings.CutSuffix(t, "*")`
unfoldable pub cut_star : Text → Option Text
cut_star [] = none
cut_star (c ∷ []) = if c == 42 then some [] else none
cut_star (c ∷ d ∷ t) = elim (cut_star (d ∷ t)) [ none ↦ none | some p ↦ some (c ∷ p) ]

-- one round of the loop of `subscribed`
abbrev pub covers : Text → Text → Bool
covers t event_type =
    elim (cut_star t) [ none ↦ false | some prefix ↦ has_prefix prefix event_type ]
    || (t =? event_type)

unfoldable pub covered : List Text → Text → Bool
unfolding cut_star has_prefix
covered [] event_type = false
covered (t ∷ ts) event_type = covers t event_type || covered ts event_type

unfoldable pub subscribed : List Text → Text → Bool
unfolding covered
subscribed [] event_type = true
subscribed (t ∷ ts) event_type = covered (t ∷ ts) event_type

-- `(created_xid, id) > (last_xid, last_id)`, or there is no cursor
abbrev pub is_after : Option (ℕ × Uuid) → QueuedEvent → Bool
is_after none ev = true
is_after (some (xid, id)) ev = ltb xid ev.xid || ((xid == ev.xid) && ltb id ev.id)

-- the WHERE of `nextEvents`; `xmin` is the oldest transaction that is underway
unfoldable pub visible_events : ℕ → Option (ℕ × Uuid) → List QueuedEvent → List QueuedEvent
visible_events xmin cursor [] = []
visible_events xmin cursor (ev ∷ evs) =
    let rest = visible_events xmin cursor evs in
    if ltb ev.xid xmin && is_after cursor ev then ev ∷ rest else rest

-- `ORDER BY created_xid, id`
unfoldable pub insert_event : QueuedEvent → List QueuedEvent → List QueuedEvent
insert_event ev [] = ev ∷ []
insert_event ev (f ∷ fs) =
    if is_after (some (ev.xid, ev.id)) f then ev ∷ f ∷ fs else f ∷ insert_event ev fs

unfoldable pub in_commit_order : List QueuedEvent → List QueuedEvent
unfolding insert_event
in_commit_order [] = []
in_commit_order (ev ∷ evs) = insert_event ev (in_commit_order evs)

unfoldable pub next_events : ℕ → ℕ → Outbox → List QueuedEvent
unfolding visible_events in_commit_order
next_events xmin limit o = take limit (in_commit_order (visible_events xmin o.cursor o.events))

-- the loops of `insertDeliveries`: the endpoint and the event of each delivery
unfoldable pub endpoints_for : QueuedEvent → List Endpoint → List (Uuid × Uuid)
unfolding subscribed
endpoints_for ev [] = []
endpoints_for ev (ep ∷ eps) =
    let rest = endpoints_for ev eps in
    if ep.enabled && subscribed ep.event_types ev.typ then (ep.id, ev.id) ∷ rest else rest

unfoldable pub wanted : List Endpoint → List QueuedEvent → List (Uuid × Uuid)
unfolding endpoints_for
wanted eps [] = []
wanted eps (ev ∷ evs) = endpoints_for ev eps ++ wanted eps evs

-- the row that the INSERT makes, with the columns' defaults
abbrev pub new_delivery : Time → Uuid → Uuid × Uuid → Delivery
new_delivery now id (endpoint_id, event_id) = record {
  id = id;
  endpoint_id = endpoint_id;
  event_id = event_id;
  status = pending;
  attempts = 0;
  next_attempt_at = now;
  last_attempt_at = none;
  last_status_code = none;
  delivered_at = none;
}

-- what `ON CONFLICT` finds: a row with the primary key, or for the same endpoint and event
unfoldable pub conflicts : Delivery → List Delivery → Bool
conflicts row [] = false
conflicts row (r ∷ rs) =
    (r.id == row.id)
    || ((r.endpoint_id == row.endpoint_id) && (r.event_id == row.event_id))
    || conflicts row rs

abbrev pub add_delivery : Delivery → List Delivery → List Delivery
add_delivery row rows = if conflicts row rows then rows else row ∷ rows

-- `insertDeliveries`: an id for each, `new_id n` for the n-th, and the INSERT
unfoldable pub insert_deliveries :
    (ℕ → Result Uuid) → Time → ℕ → List (Uuid × Uuid) → List Delivery → Result (List Delivery)
unfolding conflicts
insert_deliveries new_id now n [] rows = ok rows
insert_deliveries new_id now n (pair ∷ pairs) rows = new_id n >>= λ id.
    insert_deliveries new_id now (suc n) pairs (add_delivery (new_delivery now id pair) rows)

abbrev pub last_key : QueuedEvent → List QueuedEvent → ℕ × Uuid
last_key ev [] = (ev.xid, ev.id)
last_key ev (f ∷ fs) = last_key f fs

abbrev pub dispatch_batch :
    (ℕ → Result Uuid) → Time → Outbox → List QueuedEvent → Result (Outbox × ℕ)
dispatch_batch new_id now o [] = ok (o, 0)
dispatch_batch new_id now o (ev ∷ evs) =
    insert_deliveries new_id now 0 (wanted o.endpoints (ev ∷ evs)) o.deliveries >>= λ rows.
    ok (record o { deliveries = rows; cursor = some (last_key ev evs) }, length (ev ∷ evs))

-- `Dispatch`, when it has the lock
unfoldable pub dispatch : (ℕ → Result Uuid) → Time → ℕ → ℕ → Outbox → Result (Outbox × ℕ)
unfolding next_events wanted insert_deliveries
dispatch new_id now xmin batch_size o = dispatch_batch new_id now o (next_events xmin batch_size o)

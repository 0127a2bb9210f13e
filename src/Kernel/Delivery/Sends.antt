-- ===== src/Kernel/Delivery/Sends.antt =====
-- `claim` and `send` of internal/kernel/events/dispatch.go.
use astrum.Prelude.{
  ℕ, zero, suc, ◌-◌, Bool, true, false, not, ◌&&◌, ◌||◌, ◌==◌, ltb, Option, none, some, List, [],
  ◌∷◌, map, take, length, if◌then◌else◌,
}
use astrum.Prelude.Int.{pos, leb_ℤ, ltb_ℤ, ◌+ℤ◌}
use astrum.Ledger.Types.{Uuid, Time}
use astrum.Ledger.Store.{is_among}
use astrum.Kernel.Delivery.{DeliveryStatus, pending, succeeded, failed, Endpoint, Delivery, Outbox}

-- The id and the attempts of `claimed`; the endpoint and the event are those of the row.
pub record Claimed : Type 0 where
  pub id : Uuid
  pub attempts : ℕ

abbrev pub is_waiting : DeliveryStatus → Bool
is_waiting pending = true
is_waiting _ = false

unfoldable pub is_enabled : Uuid → List Endpoint → Bool
is_enabled id [] = false
is_enabled id (ep ∷ eps) = ((ep.id == id) && ep.enabled) || is_enabled id eps

-- the WHERE of `claim`
unfoldable pub due_deliveries : Time → List Endpoint → List Delivery → List Delivery
unfolding is_enabled
due_deliveries now eps [] = []
due_deliveries now eps (d ∷ ds) =
    let rest = due_deliveries now eps ds in
    if is_waiting d.status && leb_ℤ d.next_attempt_at now && is_enabled d.endpoint_id eps
    then d ∷ rest
    else rest

-- `ORDER BY d.next_attempt_at`
unfoldable pub insert_due : Delivery → List Delivery → List Delivery
insert_due d [] = d ∷ []
insert_due d (e ∷ es) =
    if ltb_ℤ e.next_attempt_at d.next_attempt_at then e ∷ insert_due d es else d ∷ e ∷ es

unfoldable pub by_next_attempt : List Delivery → List Delivery
unfolding insert_due
by_next_attempt [] = []
by_next_attempt (d ∷ ds) = insert_due d (by_next_attempt ds)

-- the UPDATE that leases the rows, and what it returns
unfoldable pub lease_rows : Time → List Uuid → List Delivery → List Delivery
unfolding is_among
lease_rows until ids [] = []
lease_rows until ids (d ∷ ds) =
    (if is_among d.id ids then record d { next_attempt_at = until } else d)
    ∷ lease_rows until ids ds

abbrev pub claimed_of : Delivery → Claimed
claimed_of d = record { id = d.id; attempts = d.attempts }

-- `claim`
unfoldable pub claim : Time → ℕ → ℕ → Outbox → Outbox × List Claimed
unfolding due_deliveries by_next_attempt lease_rows
claim now batch_size lease o =
    let due = take batch_size (by_next_attempt (due_deliveries now o.endpoints o.deliveries)) in
    (
      record o { deliveries = lease_rows (now +ℤ pos lease) (map (λ d. d.id) due) o.deliveries },
      map claimed_of due,
    )

abbrev pub null_status : ℕ → Option ℕ
null_status status = if status == 0 then none else some status

abbrev pub is_succeeded : DeliveryStatus → Bool
is_succeeded succeeded = true
is_succeeded _ = false

abbrev pub is_set : Option Time → Bool
is_set none = false
is_set (some t) = true

-- the CHECK of the table webhook_deliveries, `(status = 'succeeded') = (delivered_at IS NOT NULL)`
abbrev pub is_consistent : Delivery → Bool
is_consistent d =
    if is_set d.delivered_at then is_succeeded d.status else not (is_succeeded d.status)

-- an UPDATE with `WHERE id = $1`; one that breaks the CHECK fails, which is only logged
unfoldable pub update_delivery : Uuid → (Delivery → Delivery) → List Delivery → List Delivery
update_delivery id f [] = []
update_delivery id f (d ∷ ds) =
    (if (d.id == id) && is_consistent (f d) then f d else d) ∷ update_delivery id f ds

abbrev pub succeed : Time → ℕ → ℕ → Delivery → Delivery
succeed now attempts status d = record d {
  status = succeeded;
  attempts = attempts;
  last_attempt_at = some now;
  last_status_code = some status;
  delivered_at = some now;
}

abbrev pub give_up : Time → ℕ → ℕ → Delivery → Delivery
give_up now attempts status d = record d {
  status = failed;
  attempts = attempts;
  last_attempt_at = some now;
  last_status_code = null_status status;
}

abbrev pub try_later : Time → ℕ → ℕ → ℕ → Delivery → Delivery
try_later now attempts status delay d = record d {
  attempts = attempts;
  last_attempt_at = some now;
  last_status_code = null_status status;
  next_attempt_at = now +ℤ pos delay;
}

-- `s.cfg.Retries[n]`; an index that is out of range, which panics, is `none`
unfoldable pub delay_at : ℕ → List ℕ → Option ℕ
delay_at n [] = none
delay_at zero (r ∷ rs) = some r
delay_at (suc n) (r ∷ rs) = delay_at n rs

-- what `post` answers: the status, 0 if there is none, and whether it is an error
pub record Answer : Type 0 where
  pub status : ℕ
  pub is_error : Bool

-- the change that `send` makes to the row
unfoldable pub outcome : Time → List ℕ → Claimed → Answer → Option (Delivery → Delivery)
unfolding delay_at
outcome now retries c a =
    let attempts = suc c.attempts in
    let delay = delay_at (attempts - 1) retries in
    if a.is_error
    then (if ltb (length retries) attempts
        then some (give_up now attempts a.status)
        else elim delay [ none ↦ none | some t ↦ some (try_later now attempts a.status t) ])
    else some (succeed now attempts a.status)

-- `send`
unfoldable pub send : Time → List ℕ → Claimed → Answer → Outbox → Option Outbox
unfolding outcome update_delivery
send now retries c a o = elim (outcome now retries c a) [
  | none ↦ none
  | some f ↦ some (record o { deliveries = update_delivery c.id f o.deliveries })
]

-- `Service.Delivery`, on the rows of webhook_deliveries
unfoldable pub delivery_by_id : Uuid → List Delivery → Option Delivery
delivery_by_id id [] = none
delivery_by_id id (d ∷ ds) = if d.id == id then some d else delivery_by_id id ds

-- the columns that `RetryDelivery` sets; a row that succeeded is left
abbrev pub waits_again : Time → Delivery → Delivery
waits_again now d =
    if is_succeeded d.status then d else record d { status = pending; next_attempt_at = now }

-- `RetryDelivery`
unfoldable pub retry_delivery : Time → Uuid → Outbox → Outbox × Option Delivery
unfolding update_delivery delivery_by_id
retry_delivery now id o =
    let rows = update_delivery id (waits_again now) o.deliveries in
    (record o { deliveries = rows }, delivery_by_id id rows)

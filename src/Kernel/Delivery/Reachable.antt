-- ===== src/Kernel/Delivery/Reachable.antt =====
-- The states that dispatching, claiming, sending and retrying reach in internal/kernel/events.
use astrum.Prelude.{
  ℕ, zero, suc, ◌-◌, ◌<◌, ◌≡◌, refl, subst, arith, inl, inr, true, false, ltb, Bool-cases, Option,
  none, some, some_unique, List, [], ◌∷◌, length,
}
use astrum.Result.{Result, ok, >>=-elim, ok_unique}
use astrum.Ledger.Types.{Uuid, Time}
use astrum.Kernel.Delivery.{
  QueuedEvent, Delivery, Outbox, insert_deliveries, wanted, dispatch_batch, dispatch, next_events,
}
use astrum.Kernel.Delivery.Sends.{
  Claimed, claim, is_succeeded, update_delivery, succeed, give_up, try_later, delay_at, Answer,
  outcome, send, waits_again, retry_delivery,
}
use astrum.Kernel.Delivery.Lasting.{
  has_delivered, Lasts, update_delivery-has_delivered, lease_rows-has_delivered,
  insert_deliveries-has_delivered,
}

-- A step: a dispatch, a claim, a send by a worker whose claim may be out of date, or a retry.
pub data Step (retries : List ℕ) (o : Outbox) : Outbox → Type 0 where
  dispatch_step :
      (new_id : ℕ → Result Uuid) (now : Time) (xmin batch_size n : ℕ) (p : Outbox)
      → dispatch new_id now xmin batch_size o ≡ ok (p, n)
      → Step retries o p
  claim_step : (now : Time) (batch_size lease : ℕ) → Step retries o (claim now batch_size lease o).0
  send_step :
      (now : Time) (c : Claimed) (a : Answer) (p : Outbox)
      → send now retries c a o ≡ some p
      → Step retries o p
  retry_step : (now : Time) (id : Uuid) → Step retries o (retry_delivery now id o).0

pub data Reach (retries : List ℕ) (o : Outbox) : Outbox → Type 0 where
  here : Reach retries o o
  next : {p q : Outbox} → Reach retries o p → Step retries p q → Reach retries o q

dispatch_batch-has_delivered :
    (id : Uuid) (new_id : ℕ → Result Uuid) (now : Time) (o : Outbox) (batch : List QueuedEvent)
    {x : Outbox × ℕ}
    → has_delivered id o.deliveries ≡ true
    → dispatch_batch new_id now o batch ≡ ok x
    → has_delivered id x.0.deliveries ≡ true
dispatch_batch-has_delivered id new_id now o [] h e =
    subst (λ (x : Outbox × ℕ). has_delivered id x.0.deliveries ≡ true) (ok_unique refl e) h
dispatch_batch-has_delivered id new_id now o (ev ∷ evs) h e =
    >>=-elim (insert_deliveries new_id now 0 (wanted o.endpoints (ev ∷ evs)) o.deliveries) _ e
      λ rows f g.
        subst (λ (x : Outbox × ℕ). has_delivered id x.0.deliveries ≡ true) (ok_unique refl g)
          (insert_deliveries-has_delivered id new_id now 0 _ o.deliveries h f)

-- the changes of rows that `send` and `RetryDelivery` make
succeed-Lasts : (now : Time) (attempts status : ℕ) → Lasts (succeed now attempts status)
succeed-Lasts now attempts status = record { same_id = λ d. refl; delivered_stays = λ d h c. refl }

give_up-Lasts : (now : Time) (attempts status : ℕ) → Lasts (give_up now attempts status)
give_up-Lasts now attempts status = record {
  same_id = λ d. refl;
  delivered_stays = λ d h c. ground (arith, h, c);
}

try_later-Lasts :
    (now : Time) (attempts status delay : ℕ) → Lasts (try_later now attempts status delay)
try_later-Lasts now attempts status delay = record {
  same_id = λ d. refl;
  delivered_stays = λ d h c. h;
}

waits_again-Lasts : (now : Time) → Lasts (waits_again now)
waits_again-Lasts now = record {
  same_id =
      λ d. elim (Bool-cases (is_succeeded d.status)) [ inl e ↦ rw e refl | inr e ↦ rw e refl ];
  delivered_stays = λ d h c. elim (Bool-cases (is_succeeded d.status)) [
    | inl e ↦ rw e h
    | inr e ↦ (let f : false ≡ true = rw e at h in absurd (cc))
  ];
}

outcome-Lasts :
    (now : Time) (retries : List ℕ) (c : Claimed) (a : Answer) {f : Delivery → Delivery}
    → outcome now retries c a ≡ some f
    → Lasts f
unfolding outcome
outcome-Lasts now retries c a {f} h = elim (Bool-cases a.is_error) [
  | inr e ↦ subst Lasts (some_unique refl (rw e at h)) (succeed-Lasts now (suc c.attempts) a.status)
  | inl e ↦ elim (Bool-cases (ltb (length retries) (suc c.attempts))) [
    | inl g ↦
        subst Lasts (some_unique refl (rw (e, g) at h))
          (give_up-Lasts now (suc c.attempts) a.status)
    | inr g ↦ later (delay_at (suc c.attempts - 1) retries) (rw (e, g) at h)
  ]
]
  where
    later :
        (o : Option ℕ)
        → elim o [ none ↦ none | some t ↦ some (try_later now (suc c.attempts) a.status t) ]
          ≡ some f
        → Lasts f
    later none k = absurd (cc)
    later (some t) k =
        subst Lasts (some_unique refl k) (try_later-Lasts now (suc c.attempts) a.status t)

send-has_delivered :
    (id : Uuid) (now : Time) (retries : List ℕ) (c : Claimed) (a : Answer) (o : Outbox) {p : Outbox}
    → has_delivered id o.deliveries ≡ true
    → send now retries c a o ≡ some p
    → has_delivered id p.deliveries ≡ true
unfolding send
send-has_delivered id now retries c a o {p} h e = go (outcome now retries c a) refl e
  where
    go :
        (m : Option (Delivery → Delivery))
        → outcome now retries c a ≡ m
        → elim m [
          | none ↦ none
          | some f ↦ some (record o { deliveries = update_delivery c.id f o.deliveries })
        ]
          ≡ some p
        → has_delivered id p.deliveries ≡ true
    go none k g = absurd (cc)
    go (some f) k g =
        subst (λ (q : Outbox). has_delivered id q.deliveries ≡ true) (some_unique refl g)
          (update_delivery-has_delivered id c.id f o.deliveries (outcome-Lasts now retries c a k) h)

Step-has_delivered :
    (id : Uuid) (retries : List ℕ) {o p : Outbox}
    → Step retries o p
    → has_delivered id o.deliveries ≡ true
    → has_delivered id p.deliveries ≡ true
unfolding dispatch claim retry_delivery
Step-has_delivered id retries {o} {p} (dispatch_step new_id now xmin batch_size n q e) h =
    dispatch_batch-has_delivered id new_id now o (next_events xmin batch_size o) h e
Step-has_delivered id retries {o} (claim_step now batch_size lease) h =
    lease_rows-has_delivered id _ _ o.deliveries h
Step-has_delivered id retries {o} {p} (send_step now c a q e) h =
    send-has_delivered id now retries c a o h e
Step-has_delivered id retries {o} (retry_step now key) h =
    update_delivery-has_delivered id key (waits_again now) o.deliveries (waits_again-Lasts now) h

-- A delivery that is found as succeeded, with some time of delivery set, is found so after every
-- sequence of dispatches, claims, sends and retries, also of sends by workers whose lease ended before;
-- a later success may put another time in place of the first.
pub Reach-has_delivered :
    (id : Uuid) (retries : List ℕ) {o p : Outbox}
    → Reach retries o p
    → has_delivered id o.deliveries ≡ true
    → has_delivered id p.deliveries ≡ true
Reach-has_delivered id retries here h = h
Reach-has_delivered id retries (next r s) h =
    Step-has_delivered id retries s (Reach-has_delivered id retries r h)

-- `send` never indexes past the delays, so that it always comes to an end.
delay_at-found : (n : ℕ) (rs : List ℕ) → n < length rs → (t : ℕ) × (delay_at n rs ≡ some t)
unfolding delay_at
delay_at-found n [] h = absurd (omega arith)
delay_at-found zero (r ∷ rs) h = (r, refl)
delay_at-found (suc n) (r ∷ rs) h = delay_at-found n rs (omega arith)

outcome-found :
    (now : Time) (retries : List ℕ) (c : Claimed) (a : Answer)
    → (f : Delivery → Delivery) × (outcome now retries c a ≡ some f)
unfolding outcome
outcome-found now retries c a = elim (Bool-cases a.is_error) [
  | inr e ↦ (succeed now (suc c.attempts) a.status, rw e refl)
  | inl e ↦ elim (Bool-cases (ltb (length retries) (suc c.attempts))) [
    | inl g ↦ (give_up now (suc c.attempts) a.status, rw (e, g) refl)
    | inr g ↦
        let (t, k) = delay_at-found (suc c.attempts - 1) retries (ground (arith, g)) in
        (try_later now (suc c.attempts) a.status t, rw (e, g, k) refl)
  ]
]

pub send-found :
    (now : Time) (retries : List ℕ) (c : Claimed) (a : Answer) (o : Outbox)
    → (p : Outbox) × (send now retries c a o ≡ some p)
unfolding send
send-found now retries c a o =
    let (f, e) = outcome-found now retries c a in
    (record o { deliveries = update_delivery c.id f o.deliveries }, rw (send, e) refl)

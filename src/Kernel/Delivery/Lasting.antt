-- ===== src/Kernel/Delivery/Lasting.antt =====
-- The deliveries of internal/kernel/events/dispatch.go that succeeded.
use astrum.Prelude.{
  ℕ, suc, ◌≡◌, refl, ap, subst, ◌∙◌, arith, inl, inr, Bool, true, false, ◌&&◌, ◌==◌, ==_iff,
  Bool-cases, Option, none, some, List, [], ◌∷◌,
}
use astrum.Result.{Result, ok, >>=-elim, ok_unique}
use astrum.Ledger.Types.{Uuid, Time}
use astrum.Ledger.Store.{is_among}
use astrum.Kernel.Delivery.{Delivery, new_delivery, conflicts, add_delivery, insert_deliveries}
use astrum.Kernel.Delivery.Sends.{
  lease_rows, is_succeeded, is_set, is_consistent, update_delivery, delivery_by_id,
}

-- it succeeded, and the time of its delivery is set
abbrev pub is_delivered : Delivery → Bool
is_delivered d = is_succeeded d.status && is_set d.delivered_at

abbrev pub is_delivered_opt : Option Delivery → Bool
is_delivered_opt none = false
is_delivered_opt (some d) = is_delivered d

unfoldable pub has_delivered : Uuid → List Delivery → Bool
unfolding delivery_by_id
has_delivered id ds = is_delivered_opt (delivery_by_id id ds)

-- A function on rows that keeps the id, and what was delivered.
pub record Lasts (f : Delivery → Delivery) : Type 0 where
  pub same_id : (d : Delivery) → (f d).id ≡ d.id
  pub delivered_stays :
      (d : Delivery)
      → is_delivered d ≡ true
      → is_consistent (f d) ≡ true
      → is_delivered (f d) ≡ true

pub update_delivery-has_delivered :
    (id key : Uuid) (f : Delivery → Delivery) (ds : List Delivery)
    → Lasts f
    → has_delivered id ds ≡ true
    → has_delivered id (update_delivery key f ds) ≡ true
unfolding has_delivered delivery_by_id update_delivery
update_delivery-has_delivered id key f [] l h = h
update_delivery-has_delivered id key f (d ∷ ds) l h =
    elim (Bool-cases ((d.id == key) && is_consistent (f d))) [
      | inl e ↦ elim (Bool-cases (d.id == id)) [
        | inl g ↦ rw (e, l.same_id d, g) (l.delivered_stays d (rw g at h) (ground (arith, e)))
        | inr g ↦ rw (e, l.same_id d, g) (update_delivery-has_delivered id key f ds l (rw g at h))
      ]
      | inr e ↦ elim (Bool-cases (d.id == id)) [
        | inl g ↦ rw (e, g) (rw g at h)
        | inr g ↦ rw (e, g) (update_delivery-has_delivered id key f ds l (rw g at h))
      ]
    ]

pub lease_rows-has_delivered :
    (id : Uuid) (until : Time) (ids : List Uuid) (ds : List Delivery)
    → has_delivered id ds ≡ true
    → has_delivered id (lease_rows until ids ds) ≡ true
unfolding has_delivered delivery_by_id lease_rows
lease_rows-has_delivered id until ids [] h = h
lease_rows-has_delivered id until ids (d ∷ ds) h = elim (Bool-cases (is_among d.id ids)) [
  | inl e ↦ elim (Bool-cases (d.id == id)) [
    | inl g ↦ rw (e, g) (rw g at h)
    | inr g ↦ rw (e, g) (lease_rows-has_delivered id until ids ds (rw g at h))
  ]
  | inr e ↦ elim (Bool-cases (d.id == id)) [
    | inl g ↦ rw (e, g) (rw g at h)
    | inr g ↦ rw (e, g) (lease_rows-has_delivered id until ids ds (rw g at h))
  ]
]

-- a row that is there stands in the way of another with its id
has_delivered-conflicts :
    (row : Delivery) (ds : List Delivery) → has_delivered row.id ds ≡ true → conflicts row ds ≡ true
unfolding has_delivered delivery_by_id conflicts
has_delivered-conflicts row [] h = absurd (cc)
has_delivered-conflicts row (d ∷ ds) h = elim (Bool-cases (d.id == row.id)) [
  | inl e ↦ rw e refl
  | inr e ↦ rw (e, has_delivered-conflicts row ds (rw e at h)) (ground arith)
]

add_delivery-has_delivered :
    (id : Uuid) (row : Delivery) (ds : List Delivery)
    → has_delivered id ds ≡ true
    → has_delivered id (add_delivery row ds) ≡ true
unfolding has_delivered delivery_by_id
add_delivery-has_delivered id row ds h = elim (Bool-cases (conflicts row ds)) [
  | inl e ↦ rw e h
  | inr e ↦ elim (Bool-cases (row.id == id)) [
    | inl g ↦
        let there : has_delivered row.id ds ≡ true =
          ap (λ i. has_delivered i ds) ((==_iff row.id id).0 g) ∙ h in
        let never = has_delivered-conflicts row ds there in absurd (cc)
    | inr g ↦ rw (e, g) h
  ]
]

pub insert_deliveries-has_delivered :
    (id : Uuid) (new_id : ℕ → Result Uuid) (now : Time) (n : ℕ) (pairs : List (Uuid × Uuid))
    (ds : List Delivery) {es : List Delivery}
    → has_delivered id ds ≡ true
    → insert_deliveries new_id now n pairs ds ≡ ok es
    → has_delivered id es ≡ true
unfolding insert_deliveries
insert_deliveries-has_delivered id new_id now n [] ds h e =
    subst (λ es. has_delivered id es ≡ true) (ok_unique refl e) h
insert_deliveries-has_delivered id new_id now n (pair ∷ pairs) ds h e =
    >>=-elim (new_id n) _ e λ i f g.
      insert_deliveries-has_delivered id new_id now (suc n) pairs _
        (add_delivery-has_delivered id (new_delivery now i pair) ds h) g

-- ===== src/Ledger/Holds/Expired.antt =====
-- The holds that `expireHolds` of internal/modules/ledger/holds.go selects and updates.
pub mod Rows
use astrum.Prelude.{
  ℕ, zero, suc, ◌≡◌, refl, sym, ap, ◌∙◌, true, false, ◌==◌, take, none, some, List, [], ◌∷◌,
  Bool-cases, inl, inr, ==_iff, arith,
}
use astrum.Prelude.Int.{leb_ℤ}
use astrum.Prelude.Eq.{nat_eq}
use astrum.Money.Amount.Totals.{IsTotal}
use astrum.Ledger.Types.{Uuid, Time}
use astrum.Ledger.State.Entries.{All}
use astrum.Ledger.Store.{Hold, HoldStatus, pending, captured, voided, expired, hold_by_id}
use astrum.Ledger.Holds.{is_pending_hold, is_due, place_by_expiry, due_holds}
use astrum.Ledger.Holds.Kept.{HaveUniqueIds, EachTotal}

module _ (P : Hold → Type 0) where
  place-All : (h : Hold) (hs : List Hold) → P h → All P hs → All P (place_by_expiry h hs)
  unfolding place_by_expiry
  place-All h [] p k = (p, tt)
  place-All h (g ∷ hs) p k = elim (Bool-cases (leb_ℤ h.expires_at g.expires_at)) [
    | inl e ↦ rw e (p, k)
    | inr e ↦ rw e (k.0, place-All h hs p k.1)
  ]

  pub take-All : (n : ℕ) (hs : List Hold) → All P hs → All P (take n hs)
  take-All zero hs k = tt
  take-All (suc n) [] k = tt
  take-All (suc n) (h ∷ hs) k = (k.0, take-All n hs k.1)

pub Lacks : Uuid → Hold → Type 0
Lacks id h = (h.id == id) ≡ false

pub hold_by_id-Lacks : (id : Uuid) (hs : List Hold) → All (Lacks id) hs → hold_by_id id hs ≡ none
unfolding hold_by_id Lacks
hold_by_id-Lacks id [] k = refl
hold_by_id-Lacks id (h ∷ hs) k = rw (k.0) (hold_by_id-Lacks id hs k.1)

pub Lacks-hold_by_id : (id : Uuid) (hs : List Hold) → hold_by_id id hs ≡ none → All (Lacks id) hs
unfolding hold_by_id Lacks
Lacks-hold_by_id id [] e = tt
Lacks-hold_by_id id (h ∷ hs) e = elim (Bool-cases (h.id == id)) [
  | inl w ↦ (let no : some h ≡ none = rw w at e in absurd (cc))
  | inr w ↦ (w, Lacks-hold_by_id id hs (rw w at e))
]

place-HaveUniqueIds :
    (h : Hold) (hs : List Hold)
    → All (Lacks h.id) hs
    → HaveUniqueIds hs
    → HaveUniqueIds (place_by_expiry h hs)
unfolding place_by_expiry Lacks hold_by_id
place-HaveUniqueIds h [] k u = (refl, tt)
place-HaveUniqueIds h (g ∷ hs) k u = elim (Bool-cases (leb_ℤ h.expires_at g.expires_at)) [
  | inl e ↦ rw e (hold_by_id-Lacks h.id (g ∷ hs) k, u)
  | inr e ↦
      let other : (h.id == g.id) ≡ false = (let l = k.0 in ground (arith, l)) in
      rw e (
        hold_by_id-Lacks g.id (place_by_expiry h hs)
            (place-All (Lacks g.id) h hs other (Lacks-hold_by_id g.id hs u.0)),
        place-HaveUniqueIds h hs k.1 u.1,
      )
]

pub take-HaveUniqueIds : (n : ℕ) (hs : List Hold) → HaveUniqueIds hs → HaveUniqueIds (take n hs)
take-HaveUniqueIds zero hs u = tt
take-HaveUniqueIds (suc n) [] u = tt
take-HaveUniqueIds (suc n) (h ∷ hs) u = (
  hold_by_id-Lacks h.id (take n hs) (take-All (Lacks h.id) n hs (Lacks-hold_by_id h.id hs u.0)),
  take-HaveUniqueIds n hs u.1,
)

-- A pending hold of these rows, under its id.
abbrev pub Stands : List Hold → Hold → Type 0
Stands rows h = (hold_by_id h.id rows ≡ some h) × (h.status ≡ pending) × IsTotal h.amount

due-Lacks :
    (now : Time) (id : Uuid) (hs : List Hold)
    → All (Lacks id) hs
    → All (Lacks id) (due_holds now hs)
unfolding due_holds
due-Lacks now id [] k = tt
due-Lacks now id (h ∷ hs) k = elim (Bool-cases (is_due now h)) [
  | inl e ↦ rw e (place-All (Lacks id) h (due_holds now hs) k.0 (due-Lacks now id hs k.1))
  | inr e ↦ rw e (due-Lacks now id hs k.1)
]

pub due-HaveUniqueIds :
    (now : Time) (hs : List Hold) → HaveUniqueIds hs → HaveUniqueIds (due_holds now hs)
unfolding due_holds
due-HaveUniqueIds now [] u = tt
due-HaveUniqueIds now (h ∷ hs) u = elim (Bool-cases (is_due now h)) [
  | inl e ↦ rw e (
      place-HaveUniqueIds h (due_holds now hs)
        (due-Lacks now h.id hs (Lacks-hold_by_id h.id hs u.0)) (due-HaveUniqueIds now hs u.1))
  | inr e ↦ rw e (due-HaveUniqueIds now hs u.1)
]

pending_only : (c : HoldStatus) → is_pending_hold c ≡ true → c ≡ pending
pending_only pending e = refl
pending_only captured e = absurd (cc)
pending_only voided e = absurd (cc)
pending_only expired e = absurd (cc)

-- what stands in the rest of the rows stands in all of them
Stands-later :
    (h : Hold) (rows xs : List Hold)
    → hold_by_id h.id rows ≡ none
    → All (Stands rows) xs
    → All (Stands (h ∷ rows)) xs
unfolding hold_by_id
Stands-later h rows [] n k = tt
Stands-later h rows (x ∷ xs) n k = elim (Bool-cases (h.id == x.id)) [
  | inl w ↦
      let same : h.id ≡ x.id = (==_iff h.id x.id).0 w in
      let found = k.0.0 in
      let no : none ≡ some x = sym (ap (λ z. hold_by_id z rows) (sym same) ∙ n) ∙ found in
      absurd (cc)
  | inr w ↦ ((rw w (k.0.0), k.0.1, k.0.2), Stands-later h rows xs n k.1)
]

pub due-Stands :
    (now : Time) (rows : List Hold)
    → HaveUniqueIds rows
    → EachTotal rows
    → All (Stands rows) (due_holds now rows)
unfolding due_holds hold_by_id
due-Stands now [] u t = tt
due-Stands now (h ∷ rows) u t =
    let rest = Stands-later h rows (due_holds now rows) u.0 (due-Stands now rows u.1 t.1) in
    elim (Bool-cases (is_due now h)) [
      | inl e ↦
          let own : hold_by_id h.id (h ∷ rows) ≡ some h = rw ((==_iff h.id h.id).1 refl) refl in
          let status : h.status ≡ pending = pending_only h.status (ground arith) in
          rw e (place-All (Stands (h ∷ rows)) h (due_holds now rows) (own, status, t.0) rest)
      | inr e ↦ rw e rest
    ]

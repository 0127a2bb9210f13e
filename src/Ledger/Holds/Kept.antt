-- ===== src/Ledger/Holds/Kept.antt =====
-- What is held on an account: the sum of its pending holds.
use astrum.Prelude.{
  ℕ, ◌+◌, ◌≡◌, refl, sym, ap, ◌∙◌, subst, Bool, false, ◌&&◌, ◌==◌, none, some, List, [], ◌∷◌, ◌++◌,
  arith, Bool-cases, inl, inr, ==_iff, some_unique, if◌then◌else◌,
}
use astrum.Prelude.Eq.{nat_eq}
use astrum.Prelude.Map.{lookup, insert, lookup-insert}
use astrum.Money.Amount.Totals.{size, IsTotal}
use astrum.Ledger.Types.{Uuid}
use astrum.Ledger.Account.{AccountState}
use astrum.Ledger.State.{Accounts}
use astrum.Ledger.Store.{Hold, Store, hold_by_id, replace_hold}
use astrum.Ledger.Holds.{is_pending_hold}

abbrev pub counts : Uuid → Hold → Bool
counts j h = is_pending_hold h.status && (h.account_id == j)

abbrev pub part : Uuid → Hold → ℕ
part j h = if counts j h then size h.amount else 0

unfoldable pub held_on : Uuid → List Hold → ℕ
held_on j [] = 0
held_on j (h ∷ hs) = part j h + held_on j hs

abbrev pub EachTotal : List Hold → Type 0
EachTotal [] = Unit
EachTotal (h ∷ hs) = IsTotal h.amount × EachTotal hs

-- Every row stands under its id, once.
abbrev pub WellKeyed : Accounts → Type 0
WellKeyed [] = Unit
WellKeyed ((k, a) ∷ m) = (a.id ≡ k) × (lookup k m ≡ none) × WellKeyed m

-- The accounts are keyed by their ids, amounts are totals, and what is held on each account is the
-- sum of its pending holds.
pub record IsKept (s : Store) : Type 0 where
  pub keyed : WellKeyed s.accounts
  pub amounts : EachTotal s.holds
  pub total : (j : Uuid) (a : AccountState) → lookup j s.accounts ≡ some a → IsTotal a.held
  pub kept :
      (j : Uuid) (a : AccountState) → lookup j s.accounts ≡ some a → size a.held ≡ held_on j s.holds

-- No two holds have one id.
abbrev pub HaveUniqueIds : List Hold → Type 0
HaveUniqueIds [] = Unit
HaveUniqueIds (h ∷ hs) = (hold_by_id h.id hs ≡ none) × HaveUniqueIds hs

hold_by_id-append :
    (id : Uuid) (hs : List Hold) (h : Hold)
    → hold_by_id id hs ≡ none
    → (h.id == id) ≡ false
    → hold_by_id id (hs ++ h ∷ []) ≡ none
unfolding hold_by_id
hold_by_id-append id [] h e n = rw n refl
hold_by_id-append id (g ∷ hs) h e n = elim (Bool-cases (g.id == id)) [
  | inl w ↦ (let no : some g ≡ none = rw w at e in absurd (cc))
  | inr w ↦ rw w (hold_by_id-append id hs h (rw w at e) n)
]

pub HaveUniqueIds-append :
    (hs : List Hold) (h : Hold)
    → hold_by_id h.id hs ≡ none
    → HaveUniqueIds hs
    → HaveUniqueIds (hs ++ h ∷ [])
unfolding hold_by_id
HaveUniqueIds-append [] h e u = (refl, tt)
HaveUniqueIds-append (g ∷ hs) h e u = elim (Bool-cases (g.id == h.id)) [
  | inl w ↦ (let no : some g ≡ none = rw w at e in absurd (cc))
  | inr w ↦
      let other : (h.id == g.id) ≡ false = ground arith in
      (hold_by_id-append g.id hs h u.0 other, HaveUniqueIds-append hs h (rw w at e) u.1)
]

hold_by_id-replace :
    (id : Uuid) (hs : List Hold) (h : Hold)
    → hold_by_id id hs ≡ none
    → hold_by_id id (replace_hold h hs) ≡ none
unfolding hold_by_id replace_hold
hold_by_id-replace id [] h e = refl
hold_by_id-replace id (g ∷ hs) h e = elim (Bool-cases (g.id == id)) [
  | inl w ↦ (let no : some g ≡ none = rw w at e in absurd (cc))
  | inr w ↦ elim (Bool-cases (g.id == h.id)) [
    | inl v ↦
        let other : (h.id == id) ≡ false = ap (λ z. z == id) (sym ((==_iff g.id h.id).0 v)) ∙ w in
        rw (v, hold_by_id, other) (rw w at e)
    | inr v ↦ rw (v, hold_by_id, w) (hold_by_id-replace id hs h (rw w at e))
  ]
]

pub HaveUniqueIds-replace :
    (hs : List Hold) (h : Hold) → HaveUniqueIds hs → HaveUniqueIds (replace_hold h hs)
unfolding replace_hold
HaveUniqueIds-replace [] h u = tt
HaveUniqueIds-replace (g ∷ hs) h u = elim (Bool-cases (g.id == h.id)) [
  | inl v ↦ rw v (ap (λ z. hold_by_id z hs) (sym ((==_iff g.id h.id).0 v)) ∙ u.0, u.1)
  | inr v ↦ rw v (hold_by_id-replace g.id hs h u.0, HaveUniqueIds-replace hs h u.1)
]

pub held_on-append :
    (j : Uuid) (hs : List Hold) (h : Hold) → held_on j (hs ++ h ∷ []) ≡ held_on j hs + part j h
unfolding held_on
held_on-append j [] h = omega arith
held_on-append j (g ∷ gs) h = omega (arith, held_on-append j gs h)

pub EachTotal-append :
    (hs : List Hold) (h : Hold) → EachTotal hs → IsTotal h.amount → EachTotal (hs ++ h ∷ [])
EachTotal-append [] h t u = (u, tt)
EachTotal-append (g ∷ gs) h t u = (t.0, EachTotal-append gs h t.1 u)

pub held_on-replace :
    (j : Uuid) (hs : List Hold) (h h' : Hold)
    → hold_by_id h'.id hs ≡ some h
    → held_on j (replace_hold h' hs) + part j h ≡ held_on j hs + part j h'
unfolding held_on replace_hold hold_by_id
held_on-replace j [] h h' e = absurd (cc)
held_on-replace j (g ∷ gs) h h' e = elim (Bool-cases (g.id == h'.id)) [
  | inl w ↦
      let same : part j g ≡ part j h = ap (part j) (some_unique refl (rw w at e)) in
      rw w (omega (arith, same))
  | inr w ↦ rw w (omega (arith, held_on-replace j gs h h' (rw w at e)))
]

pub EachTotal-replace :
    (hs : List Hold) (h' : Hold) → EachTotal hs → IsTotal h'.amount → EachTotal (replace_hold h' hs)
unfolding replace_hold
EachTotal-replace [] h' t u = tt
EachTotal-replace (g ∷ gs) h' t u = elim (Bool-cases (g.id == h'.id)) [
  | inl w ↦ rw w (u, t.1)
  | inr w ↦ rw w (t.0, EachTotal-replace gs h' t.1 u)
]

pub EachTotal-hold_by_id :
    (id : Uuid) (hs : List Hold) {h : Hold}
    → EachTotal hs
    → hold_by_id id hs ≡ some h
    → IsTotal h.amount × (h.id ≡ id)
unfolding hold_by_id
EachTotal-hold_by_id id [] t e = absurd (cc)
EachTotal-hold_by_id id (g ∷ gs) {h} t e = elim (Bool-cases (g.id == id)) [
  | inl w ↦
      subst (λ x. IsTotal x.amount × (x.id ≡ id)) (some_unique refl (rw w at e))
        (t.0, (==_iff g.id id).0 w)
  | inr w ↦ EachTotal-hold_by_id id gs t.1 (rw w at e)
]

pub WellKeyed-id :
    (j : Uuid) (m : Accounts) {a : AccountState} → WellKeyed m → lookup j m ≡ some a → a.id ≡ j
unfolding lookup
WellKeyed-id j [] k e = absurd (cc)
WellKeyed-id j ((i, x) ∷ m) k e = elim (Bool-cases (i == j)) [
  | inl w ↦ subst (λ y. y.id ≡ j) (some_unique refl (rw w at e)) (k.0 ∙ (==_iff i j).0 w)
  | inr w ↦ WellKeyed-id j m k.2 (rw w at e)
]

pub WellKeyed-insert :
    (id : Uuid) (x : AccountState) (m : Accounts)
    → WellKeyed m
    → x.id ≡ id
    → WellKeyed (insert id x m)
unfolding insert lookup
WellKeyed-insert id x [] k e = (e, refl, tt)
WellKeyed-insert id x ((i, y) ∷ m) k e = elim (Bool-cases (i == id)) [
  | inl w ↦ rw w (e, ap (λ z. lookup z m) (sym ((==_iff i id).0 w)) ∙ k.1, k.2)
  | inr w ↦
      let other : (id == i) ≡ false = ground arith in
      rw w (k.0, lookup-insert i id x m ∙ rw other k.1, WellKeyed-insert id x m k.2 e)
]

abbrev pub EachKept : List Hold → Accounts → Type 0
EachKept hs [] = Unit
EachKept hs ((k, a) ∷ m) = IsTotal a.held × (size a.held ≡ held_on k hs) × EachKept hs m

pub EachKept-lookup :
    (hs : List Hold) (m : Accounts)
    → EachKept hs m
    → (j : Uuid) (a : AccountState) → lookup j m ≡ some a
    → IsTotal a.held × (size a.held ≡ held_on j hs)
unfolding lookup
EachKept-lookup hs [] k j a e = absurd (cc)
EachKept-lookup hs ((i, x) ∷ m) k j a e = elim (Bool-cases (i == j)) [
  | inl w ↦
      let same : x ≡ a = some_unique refl (rw w at e) in
      (
        subst (λ y. IsTotal y.held) same k.0,
        ap (λ y. size y.held) (sym same) ∙ k.1 ∙ ap (λ y. held_on y hs) ((==_iff i j).0 w),
      )
  | inr w ↦ EachKept-lookup hs m k.2 j a (rw w at e)
]

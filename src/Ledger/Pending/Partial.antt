-- ===== src/Ledger/Pending/Partial.antt =====
-- What `checkPartial` lets through.
use astrum.Prelude.{
  ℕ, ◌+◌, ◌≤◌, ◌≡◌, refl, sym, ap, subst, ◌∙◌, Bool, true, false, Option, none, some, List, [], ◌∷◌,
  arith, Bool-cases, inl, inr, if◌then◌else◌,
}
use astrum.Prelude.Int.{pos, ltb_ℤ, sub_ℕ}
use astrum.Prelude.Eq.{pair_eq, pair_beq_iff, nat_eq, ◌=?◌}
use astrum.Prelude.Map.{Map, lookup, insert, lookup-insert}
use astrum.Result.{ok, >>=-elim, ok_unique, fail_if, fail_if-eq-ok, invalid}
use astrum.Money.Amount.{Amount, zero_amount, add, sub, sign}
use astrum.Money.Amount.Value.{value, Fits, IsValid-Fits, sign-value, compare_ℤ}
use astrum.Money.Amount.Totals.{
  size, IsTotal, zero_amount-IsTotal, zero_amount-size, add-IsTotal, sub-IsTotal, sub-eq-ok,
}
use astrum.Ledger.Types.{Posting, side_eq}
use astrum.Ledger.State.{or_err}
use astrum.Ledger.State.Loops.{TotalEntries}
use astrum.Ledger.Pending.{Slot, slot, limit_of, pending_limits, use_limits, check_partial}

abbrev pub when : Bool → ℕ → ℕ
when true n = n
when false n = 0

-- what the entries come to on one account and side
unfoldable pub total_on : Slot → List Posting → ℕ
total_on k [] = 0
total_on k (p ∷ ps) = when (slot p =? k) (size p.amount) + total_on k ps

abbrev AreTotals : Map Slot Amount → Type 0
AreTotals m = (k : Slot) → IsTotal (limit_of k m)

limit_of-insert :
    (j k : Slot) (v : Amount) (m : Map Slot Amount)
    → limit_of j (insert k v m) ≡ (if k =? j then v else limit_of j m)
limit_of-insert j k v m = ground (arith, lookup-insert j k v m)

insert-AreTotals :
    (k : Slot) {v : Amount} (m : Map Slot Amount)
    → AreTotals m
    → IsTotal v
    → AreTotals (insert k v m)
insert-AreTotals k {v} m a t j = elim (Bool-cases (k =? j)) [
  | inl e ↦ rw (limit_of-insert j k v m, e) t
  | inr e ↦ rw (limit_of-insert j k v m, e) (a j)
]

-- the limit of one slot, after another's is set to `n`
size-insert :
    (j k : Slot) (v : Amount) (m : Map Slot Amount)
    → size (limit_of j (insert k v m)) ≡ (if k =? j then size v else size (limit_of j m))
size-insert j k v m = elim (Bool-cases (k =? j)) [
  | inl e ↦ rw (limit_of-insert j k v m, e) refl
  | inr e ↦ rw (limit_of-insert j k v m, e) refl
]

same_slot :
    (j k : Slot) (m : Map Slot Amount) → (j =? k) ≡ true → size (limit_of j m) ≡ size (limit_of k m)
same_slot j k m e = ap (λ x. size (limit_of x m)) ((pair_beq_iff j k).0 e)

pending_limits-total_on :
    (ps : List Posting) (m : Map Slot Amount) {m' : Map Slot Amount}
    → AreTotals m
    → TotalEntries ps
    → pending_limits ps m ≡ ok m'
    → AreTotals m' × ((k : Slot) → size (limit_of k m') ≡ size (limit_of k m) + total_on k ps)
unfolding pending_limits total_on
pending_limits-total_on [] m {m'} a t h =
    subst (λ x. AreTotals x × ((k : Slot) → size (limit_of k x) ≡ size (limit_of k m) + 0))
      (ok_unique refl h) (a, λ k. omega arith)
pending_limits-total_on (p ∷ ps) m {m'} a t h =
    >>=-elim (add (limit_of (slot p) m) p.amount) _ h λ total e h1.
      let (u, n) = add-IsTotal (a (slot p)) t.0 e in
      let (b, f) =
        pending_limits-total_on ps (insert (slot p) total m) (insert-AreTotals (slot p) m a u) t.1
          h1 in
      (
        b,
        λ k. elim (Bool-cases (slot p =? k)) [
          | inl w ↦
              let keep : size (limit_of k (insert (slot p) total m)) ≡ size total =
                size-insert k (slot p) total m ∙ rw w refl in
              rw w (omega (arith, f k, keep, n, same_slot (slot p) k m w))
          | inr w ↦
              let keep : size (limit_of k (insert (slot p) total m)) ≡ size (limit_of k m) =
                size-insert k (slot p) total m ∙ rw w refl in
              rw w (omega (arith, f k, keep))
        ],
      )

nonneg_sub :
    (x y : ℕ) (c : Amount) → Fits c → value c ≡ sub_ℕ x y → ltb_ℤ (sign c) (pos 0) ≡ false → y ≤ x
nonneg_sub x y c u e h = at_least x y (rw (sign-value c u, e) at h)
  where
    at_least : (x y : ℕ) → ltb_ℤ (compare_ℤ (sub_ℕ x y) (pos 0)) (pos 0) ≡ false → y ≤ x
    at_least x y k = ground arith

found_limit :
    (k : Slot) (m : Map Slot Amount) {x : Amount}
    → or_err (lookup k m) invalid ≡ ok x
    → x ≡ limit_of k m
found_limit k m h = found (lookup k m) h
  where
    found :
        (o : Option Amount) {x : Amount}
        → or_err o invalid ≡ ok x
        → x ≡ elim o [ none ↦ zero_amount | some t ↦ t ]
    found none e = absurd (cc)
    found (some t) e = sym (ok_unique refl e)

use_limits-total_on :
    (ps : List Posting) (m : Map Slot Amount) {m' : Map Slot Amount}
    → AreTotals m
    → TotalEntries ps
    → use_limits ps m ≡ ok m'
    → (k : Slot) → total_on k ps + size (limit_of k m') ≡ size (limit_of k m)
unfolding use_limits total_on
use_limits-total_on [] m {m'} a t h k =
    let same : size (limit_of k m) ≡ size (limit_of k m') =
      ap (λ x. size (limit_of k x)) (ok_unique refl h) in
    omega (arith, same)
use_limits-total_on (p ∷ ps) m {m'} a t h k =
    >>=-elim (or_err (lookup (slot p) m) invalid) _ h λ limit e h1.
      >>=-elim (sub limit p.amount) _ h1 λ left el h2.
        >>=-elim (fail_if (ltb_ℤ (sign left) (pos 0)) invalid) _ h2 λ u eu h3.
          let limit' : limit ≡ limit_of (slot p) m = found_limit (slot p) m e in
          let known : IsTotal limit = subst IsTotal (sym limit') (a (slot p)) in
          let (v, d) = sub-eq-ok known t.0 el in
          let enough : size p.amount ≤ size limit =
            nonneg_sub (size limit) (size p.amount) left (IsValid-Fits v) d
              (fail_if-eq-ok (ltb_ℤ (sign left) (pos 0)) invalid eu) in
          let (w, n) = sub-IsTotal known t.0 enough el in
          let rest =
            use_limits-total_on ps (insert (slot p) left m) (insert-AreTotals (slot p) m a w) t.1 h3
              k in
          let at : size limit ≡ size (limit_of (slot p) m) = ap size limit' in
          elim (Bool-cases (slot p =? k)) [
            | inl y ↦
                let keep : size (limit_of k (insert (slot p) left m)) ≡ size left =
                  size-insert k (slot p) left m ∙ rw y refl in
                rw y (omega (arith, rest, keep, n, enough, at, same_slot (slot p) k m y))
            | inr y ↦
                let keep : size (limit_of k (insert (slot p) left m)) ≡ size (limit_of k m) =
                  size-insert k (slot p) left m ∙ rw y refl in
                rw y (omega (arith, rest, keep))
          ]

-- A partial posting that `checkPartial` accepts posts, on each account and side, no more than the
-- transaction has pending there.
pub check_partial-total_on :
    (held given : List Posting)
    → TotalEntries held
    → TotalEntries given
    → check_partial held given ≡ ok tt
    → (k : Slot) → total_on k given ≤ total_on k held
unfolding check_partial lookup
check_partial-total_on held given t u h k = >>=-elim (pending_limits held []) _ h λ limits e h1.
    >>=-elim (use_limits given limits) _ h1 λ rest er h2.
      let (a, f) = pending_limits-total_on held [] (λ j. zero_amount-IsTotal) t e in
      let left = use_limits-total_on given limits a u er k in omega (arith, f k, left, nothing k)
  where
    nothing : (k : Slot) → size (limit_of k []) ≡ 0
    nothing k = zero_amount-size

-- ===== src/Ledger/Holds/Expired/Rows.antt =====
-- The rows that the UPDATE of `expireHolds` in internal/modules/ledger/holds.go leaves.
use astrum.Prelude.{
  ℕ, ◌≡◌, refl, sym, ap, ◌∙◌, false, ◌==◌, ◌+◌, take, some, List, [], ◌∷◌, map, Bool-cases, inl,
  inr, ==_iff, some_unique, if◌then◌else◌, arith,
}
use astrum.Prelude.Eq.{nat_eq}
use astrum.Ledger.Types.{Uuid, Time}
use astrum.Ledger.State.Entries.{All}
use astrum.Ledger.Store.{Hold, hold_by_id, is_among}
use astrum.Ledger.Holds.{due_holds, expire_rows}
use astrum.Ledger.Holds.Kept.{HaveUniqueIds, EachTotal, part, held_on}
use astrum.Ledger.Holds.Moves.Both.{new_part}
use astrum.Ledger.Holds.Released.{freed_on, freed_by}
use astrum.Ledger.Holds.Expired.{
  Lacks, Lacks-hold_by_id, Stands, due-HaveUniqueIds, due-Stands, hold_by_id-Lacks, take-All,
  take-HaveUniqueIds,
}

-- What the rows with these ids count for.
unfoldable owed_on : Uuid → List Uuid → List Hold → ℕ
owed_on j ids [] = 0
owed_on j ids (h ∷ rows) = (if is_among h.id ids then part j h else 0) + owed_on j ids rows

expire_rows-owed :
    (now : Time) (j : Uuid) (ids : List Uuid) (rows : List Hold)
    → held_on j (expire_rows now ids rows).1 + owed_on j ids rows ≡ held_on j rows
unfolding expire_rows held_on owed_on
expire_rows-owed now j ids [] = omega arith
expire_rows-owed now j ids (h ∷ rows) =
    let rest = expire_rows-owed now j ids rows in
    elim (Bool-cases (is_among h.id ids)) [
      | inl e ↦ rw (e, held_on) (omega (arith, rest))
      | inr e ↦ rw (e, held_on) (omega (arith, rest))
    ]

owed_nothing : (j : Uuid) (rows : List Hold) → owed_on j [] rows ≡ 0
unfolding owed_on is_among
owed_nothing j [] = refl
owed_nothing j (h ∷ rows) = let rest = owed_nothing j rows in omega (arith, rest)

owed_absent :
    (j id : Uuid) (ids : List Uuid) (rows : List Hold)
    → All (Lacks id) rows
    → owed_on j (id ∷ ids) rows ≡ owed_on j ids rows
unfolding owed_on is_among Lacks
owed_absent j id ids [] k = refl
owed_absent j id ids (h ∷ rows) k =
    let rest = owed_absent j id ids rows k.1 in
    rw (k.0) (ap (λ n. (if is_among h.id ids then part j h else 0) + n) rest)

owed_found :
    (j id : Uuid) (ids : List Uuid) (rows : List Hold) {x : Hold}
    → HaveUniqueIds rows
    → hold_by_id id rows ≡ some x
    → is_among id ids ≡ false
    → owed_on j (id ∷ ids) rows ≡ part j x + owed_on j ids rows
unfolding owed_on is_among hold_by_id
owed_found j id ids [] u e n = absurd (cc)
owed_found j id ids (h ∷ rows) {x} u e n = elim (Bool-cases (h.id == id)) [
  | inl w ↦
      let here : h.id ≡ id = (==_iff h.id id).0 w in
      let same : h ≡ x = some_unique refl (rw w at e) in
      let unasked : is_among h.id ids ≡ false = ap (λ z. is_among z ids) here ∙ n in
      let lacks = Lacks-hold_by_id id rows (ap (λ z. hold_by_id z rows) (sym here) ∙ u.0) in
      let rest = owed_absent j id ids rows lacks in
      let own : part j h ≡ part j x = ap (part j) same in rw (w, unasked) (omega (arith, rest, own))
  | inr w ↦ let rest = owed_found j id ids rows u.1 (rw w at e) n in rw w (omega (arith, rest))
]

not_among_ids :
    (id : Uuid) (xs : List Hold) → All (Lacks id) xs → is_among id (map (λ x. x.id) xs) ≡ false
unfolding is_among Lacks
not_among_ids id [] k = refl
not_among_ids id (x ∷ xs) k =
    let other : (id == x.id) ≡ false = (let l = k.0 in ground (arith, l)) in
    rw other (not_among_ids id xs k.1)

owed_freed :
    (j : Uuid) (rows xs : List Hold)
    → HaveUniqueIds rows
    → HaveUniqueIds xs
    → All (Stands rows) xs
    → owed_on j (map (λ x. x.id) xs) rows ≡ freed_on j xs
unfolding freed_on
owed_freed j rows [] u v k = owed_nothing j rows
owed_freed j rows (x ∷ xs) u v k =
    let rest = owed_freed j rows xs u v.1 k.1 in
    let lacks = not_among_ids x.id xs (Lacks-hold_by_id x.id xs v.0) in
    let first = owed_found j x.id (map (λ x. x.id) xs) rows u k.0.0 lacks in
    let own : part j x ≡ freed_by j x = new_part j x k.0.1 in omega (arith, rest, first, own)

expire_rows-EachTotal :
    (now : Time) (ids : List Uuid) (rows : List Hold)
    → EachTotal rows
    → EachTotal (expire_rows now ids rows).1
unfolding expire_rows
expire_rows-EachTotal now ids [] t = tt
expire_rows-EachTotal now ids (h ∷ rows) t = elim (Bool-cases (is_among h.id ids)) [
  | inl e ↦ rw e (t.0, expire_rows-EachTotal now ids rows t.1)
  | inr e ↦ rw e (t.0, expire_rows-EachTotal now ids rows t.1)
]

expire_rows-Lacks :
    (now : Time) (id : Uuid) (ids : List Uuid) (rows : List Hold)
    → All (Lacks id) rows
    → All (Lacks id) (expire_rows now ids rows).1
unfolding expire_rows Lacks
expire_rows-Lacks now id ids [] k = tt
expire_rows-Lacks now id ids (h ∷ rows) k = elim (Bool-cases (is_among h.id ids)) [
  | inl e ↦ rw e (k.0, expire_rows-Lacks now id ids rows k.1)
  | inr e ↦ rw e (k.0, expire_rows-Lacks now id ids rows k.1)
]

expire_rows-HaveUniqueIds :
    (now : Time) (ids : List Uuid) (rows : List Hold)
    → HaveUniqueIds rows
    → HaveUniqueIds (expire_rows now ids rows).1
unfolding expire_rows
expire_rows-HaveUniqueIds now ids [] u = tt
expire_rows-HaveUniqueIds now ids (h ∷ rows) u =
    let head =
      hold_by_id-Lacks h.id (expire_rows now ids rows).1
        (expire_rows-Lacks now h.id ids rows (Lacks-hold_by_id h.id rows u.0)) in
    elim (Bool-cases (is_among h.id ids)) [
      | inl e ↦ rw e (head, expire_rows-HaveUniqueIds now ids rows u.1)
      | inr e ↦ rw e (head, expire_rows-HaveUniqueIds now ids rows u.1)
    ]

-- What `expireHolds` takes of the rows: they stand there, once, and expiring them takes what they hold.
pub record Selects (now : Time) (xs rows : List Hold) : Type 0 where
  pub totals : EachTotal xs
  pub rows_total : EachTotal (expire_rows now (map (λ x. x.id) xs) rows).1
  pub rows_unique : HaveUniqueIds (expire_rows now (map (λ x. x.id) xs) rows).1
  pub taken :
      (j : Uuid)
      → held_on j (expire_rows now (map (λ x. x.id) xs) rows).1 + freed_on j xs ≡ held_on j rows

Stands-EachTotal : (rows xs : List Hold) → All (Stands rows) xs → EachTotal xs
Stands-EachTotal rows [] k = tt
Stands-EachTotal rows (x ∷ xs) k = (k.0.2, Stands-EachTotal rows xs k.1)

pub due-Selects :
    (now : Time) (limit : ℕ) (rows : List Hold)
    → HaveUniqueIds rows
    → EachTotal rows
    → Selects now (take limit (due_holds now rows)) rows
due-Selects now limit rows u t =
    let xs = take limit (due_holds now rows) in
    let stands = take-All (Stands rows) limit (due_holds now rows) (due-Stands now rows u t) in
    let once = take-HaveUniqueIds limit (due_holds now rows) (due-HaveUniqueIds now rows u) in
    record {
      totals = Stands-EachTotal rows xs stands;
      rows_total = expire_rows-EachTotal now (map (λ x. x.id) xs) rows t;
      rows_unique = expire_rows-HaveUniqueIds now (map (λ x. x.id) xs) rows u;
      taken = λ j.
          let rest = expire_rows-owed now j (map (λ x. x.id) xs) rows in
          let same = owed_freed j rows xs u once stands in omega (arith, rest, same);
    }

-- ===== src/Ledger/Categories/Tree.antt =====
-- The recursive query `categoryMembers` of internal/modules/ledger/categories.go.
use astrum.Prelude.{
  ℕ, zero, suc, ◌+◌, ◌<◌, ◌≡◌, refl, sym, ap, ◌∙◌, arith, inl, inr, true, false, ◌||◌, ◌==◌, ==_iff,
  Bool-cases, Option, none, some, ◌⊎◌, ◌↔◌, List, [], ◌∷◌, ◌++◌,
}
use astrum.Prelude.Eq.{nat_eq}
use astrum.Ledger.Types.{Uuid}
use astrum.Ledger.Store.{is_among}
use astrum.Ledger.Categories.{Edges, children, concat_map, max_category_depth}
use astrum.Ledger.Categories.Walks.{Chain, Chain-snoc}
use astrum.Ledger.Categories.Shallow.{AreShallow}

-- what UNION leaves of the new rows: those that were not found before, once
unfoldable pub fresh : List Uuid → List Uuid → List Uuid
unfolding is_among
fresh found [] = []
fresh found (x ∷ xs) = elim (is_among x found) [
  | true ↦ fresh found xs
  | false ↦ x ∷ fresh (x ∷ found) xs
]

-- The recursive query, by rounds: what was found, and the rows of the round before, until there are
-- none. `none` is a query that goes on after the rounds of the fuel.
unfoldable pub tree : (Uuid → List Uuid) → ℕ → List Uuid → List Uuid → Option (List Uuid)
unfolding fresh
tree next fuel found [] = some found
tree next zero found (x ∷ xs) = none
tree next (suc fuel) found (x ∷ xs) =
    let new = fresh found (concat_map next (x ∷ xs)) in tree next fuel (new ++ found) new

abbrev In : Uuid → List Uuid → Type 0
In x xs = is_among x xs ≡ true

In-append :
    (x : Uuid) (xs ys : List Uuid) → is_among x (xs ++ ys) ≡ (is_among x xs || is_among x ys)
unfolding is_among
In-append x [] ys = refl
In-append x (y ∷ xs) ys = rw (In-append x xs ys) (ground arith)

In-fresh : (x : Uuid) (found xs : List Uuid) → In x (fresh found xs) → In x xs
unfolding is_among fresh
In-fresh x found [] h = h
In-fresh x found (y ∷ xs) h = elim (Bool-cases (is_among y found)) [
  | inl e ↦ ground (arith, In-fresh x found xs (rw (e, fresh) at h))
  | inr e ↦ ground (arith, In-fresh x (y ∷ found) xs, rw (e, fresh) at h)
]

fresh_covers :
    (x : Uuid) (found xs : List Uuid)
    → In x xs
    → (is_among x (fresh found xs) || is_among x found) ≡ true
unfolding is_among fresh
fresh_covers x found [] h = absurd (cc)
fresh_covers x found (y ∷ xs) h = elim (Bool-cases (is_among y found)) [
  | inl e ↦
      rw (e, fresh)
        (ground (arith, fresh_covers x found xs, ==_iff x y, ap (λ z. is_among z found), h, e))
  | inr e ↦ rw (e, fresh) (ground (arith, fresh_covers x (y ∷ found) xs, h))
]

module _ (next : Uuid → List Uuid) where
  In-concat_map :
      (c y : Uuid) (xs : List Uuid) → In c xs → In y (next c) → In y (concat_map next xs)
  unfolding is_among
  In-concat_map c y [] h k = absurd (cc)
  In-concat_map c y (x ∷ xs) h k =
      In-append y (next x) (concat_map next xs) ∙ elim (Bool-cases (c == x)) [
        | inl e ↦
            let here : In y (next x) = ap (λ z. is_among y (next z)) (sym ((==_iff c x).0 e)) ∙ k in
            rw here refl
        | inr e ↦ let there = In-concat_map c y xs (rw e at h) k in rw there (ground arith)
      ]

  concat_map-In :
      (y : Uuid) (xs : List Uuid) → In y (concat_map next xs) → (c : Uuid) × In c xs × In y (next c)
  unfolding is_among
  concat_map-In y [] h = absurd (cc)
  concat_map-In y (x ∷ xs) h =
      let split = sym (In-append y (next x) (concat_map next xs)) ∙ h in
      elim (Bool-cases (is_among y (next x))) [
        | inl e ↦ (x, ground (arith, ==_iff x x), e)
        | inr e ↦ let (c, g, k) = concat_map-In y xs (rw e at split) in (c, ground (arith, g), k)
      ]

-- The categories below `root`, itself among them.
abbrev pub Below : (Uuid → List Uuid) → Uuid → Uuid → Type 0
Below next root x = (n : ℕ) × Chain next n root x

module _ (next : Uuid → List Uuid) (root : Uuid) where
  -- The state after `k` rounds: what was found is below the root, and the children of what is not in the
  -- last round were found.
  record Walked (k : ℕ) (found working : List Uuid) : Type 0 where
    root_found : In root found
    below : (x : Uuid) → In x found → Below next root x
    closed : (x : Uuid) → In x found → In x working ⊎ ((y : Uuid) → In y (next x) → In y found)
    level : (x : Uuid) → In x working → Chain next k root x

  round_closed :
      (k : ℕ) (found working : List Uuid)
      → Walked k found working
      → (x : Uuid) → In x (fresh found (concat_map next working) ++ found)
      → In x (fresh found (concat_map next working))
        ⊎ ((y : Uuid) → In y (next x) → In y (fresh found (concat_map next working) ++ found))
  round_closed k found working w x h =
      let new = fresh found (concat_map next working) in
      let split = sym (In-append x new found) ∙ h in
      elim (Bool-cases (is_among x new)) [
        | inl e ↦ inl e
        | inr e ↦ inr λ y g. In-append y new found ∙ elim (w.closed x (rw e at split)) [
          | inl last ↦
              fresh_covers y found (concat_map next working) (In-concat_map next x y working last g)
          | inr before ↦ rw (before y g) (ground arith)
        ]
      ]

  round-Walked :
      (k : ℕ) (found working : List Uuid)
      → Walked k found working
      → Walked
          (suc k)
          (fresh found (concat_map next working) ++ found)
          (fresh found (concat_map next working))
  round-Walked k found working w =
      let new = fresh found (concat_map next working) in
      let level = λ (x : Uuid) (h : In x new).
        (let (c, g, e) =
            concat_map-In next x working (In-fresh x found (concat_map next working) h) in
          Chain-snoc next k root c x (w.level c g) e) in
      record {
        root_found = In-append root new found ∙ rw w.root_found (ground arith);
        below = λ x h.
            (let split = sym (In-append x new found) ∙ h in
              elim (Bool-cases (is_among x new)) [
                | inl e ↦ (suc k, level x e)
                | inr e ↦ w.below x (rw e at split)
              ]);
        closed = round_closed k found working w;
        level = level;
      }

  all_found :
      (k : ℕ) (found : List Uuid)
      → Walked k found []
      → (n : ℕ) (a b : Uuid) → In a found
      → Chain next n a b
      → In b found
  unfolding is_among
  all_found k found w zero a b h e = ap (λ x. is_among x found) (sym e) ∙ h
  all_found k found w (suc n) a b h (c, g, rest) = elim (w.closed a h) [
    | inl last ↦ absurd (cc)
    | inr before ↦ all_found k found w n c b (before c g) rest
  ]

  rounds :
      (fuel k : ℕ) (found working : List Uuid)
      → ((n : ℕ) (b : Uuid) → Chain next n root b → n < fuel + k)
      → Walked k found working
      → (ids : List Uuid) × (tree next fuel found working ≡ some ids)
        × ((x : Uuid) → (is_among x ids ≡ true) ↔ Below next root x)
  unfolding tree is_among
  rounds fuel k found [] short w =
      (found, refl, λ x. (λ h. w.below x h, λ b. all_found k found w b.0 root x w.root_found b.1))
  rounds zero k found (x ∷ xs) short w =
      let l = short k x (w.level x (ground (arith, ==_iff x x))) in absurd (omega arith)
  rounds (suc fuel) k found (x ∷ xs) short w =
      let new = fresh found (concat_map next (x ∷ xs)) in
      rounds fuel (suc k) (new ++ found) new (λ n b c. let l = short n b c in omega arith)
        (round-Walked k found (x ∷ xs) w)

-- Where no chain has more than seven categories, the query ends after at most seven rounds, with exactly
-- the category and those below it.
pub tree-Below :
    (es : Edges) (id : Uuid)
    → AreShallow es
    → (ids : List Uuid) × (tree (children es) max_category_depth (id ∷ []) (id ∷ []) ≡ some ids)
      × ((x : Uuid) → (is_among x ids ≡ true) ↔ Below (children es) id x)
unfolding is_among
tree-Below es id s =
    rounds (children es) id max_category_depth 0 (id ∷ []) (id ∷ [])
      (λ n b c. let l = s n id b c in omega arith)
      (record {
        root_found = ground (arith, ==_iff id id);
        below = λ x h. (0, ground (arith, ==_iff x id));
        closed = λ x h. inl h;
        level = λ x h. ground (arith, ==_iff x id);
      })

-- ===== src/Ledger/Categories/Walks.antt =====
-- Chains of categories, and the recursive queries of `setChild` in internal/modules/ledger/categories.go.
use astrum.Prelude.{
  ℕ, zero, suc, ◌+◌, ◌≤◌, ◌≡◌, refl, sym, ap, ◌∙◌, subst, max, arith, inl, inr, true, ◌||◌, ◌==◌,
  ==_iff, Bool-cases, List, [], ◌∷◌, ◌++◌,
}
use astrum.Prelude.Eq.{nat_eq}
use astrum.Ledger.Types.{Uuid}
use astrum.Ledger.Store.{is_among}
use astrum.Ledger.Categories.{Edges, children, parents, concat_map, walk, visits, max_depth}

-- A chain of `n` steps, each to one of the next: it has `n + 1` categories.
abbrev pub Chain : (Uuid → List Uuid) → ℕ → Uuid → Uuid → Type 0
Chain next zero a b = a ≡ b
Chain next (suc n) a b = (c : Uuid) × (is_among c (next a) ≡ true) × Chain next n c b

pub Chain-snoc :
    (next : Uuid → List Uuid) (n : ℕ) (a b c : Uuid)
    → Chain next n a b
    → is_among c (next b) ≡ true
    → Chain next (suc n) a c
Chain-snoc next zero a b c e h = (c, ap (λ x. is_among c (next x)) e ∙ h, refl)
Chain-snoc next (suc n) a b c (d, g, rest) h = (d, g, Chain-snoc next n d b c rest h)

pub Chain-mono :
    (next after : Uuid → List Uuid)
    → ((a c : Uuid) → is_among c (next a) ≡ true → is_among c (after a) ≡ true)
    → (n : ℕ) (a b : Uuid) → Chain next n a b
    → Chain after n a b
Chain-mono next after more zero a b e = e
Chain-mono next after more (suc n) a b (c, g, rest) =
    (c, more a c g, Chain-mono next after more n c b rest)

-- the parents are the other way round
children-parents :
    (es : Edges) (a b : Uuid) → is_among b (children es a) ≡ is_among a (parents es b)
unfolding children parents is_among
children-parents [] a b = refl
children-parents ((p, c) ∷ es) a b =
    ground (arith, ==_iff p a, ==_iff c b, ==_iff a p, ==_iff b c, children-parents es a b)

pub Chain-reverse :
    (es : Edges) (n : ℕ) (a b : Uuid) → Chain (children es) n a b → Chain (parents es) n b a
Chain-reverse es zero a b e = sym e
Chain-reverse es (suc n) a b (c, g, rest) =
    Chain-snoc (parents es) n b c a (Chain-reverse es n c b rest)
      (sym (children-parents es a c) ∙ g)

-- What a query finds from one row is among what it finds from all.
visits-append :
    (id : Uuid) (xs ys : List (Uuid × ℕ)) → visits id (xs ++ ys) ≡ (visits id xs || visits id ys)
unfolding visits
visits-append id [] ys = refl
visits-append id ((j, d) ∷ xs) ys = rw (visits-append id xs ys) (ground arith)

max_depth-append :
    (xs ys : List (Uuid × ℕ)) → max_depth (xs ++ ys) ≡ max (max_depth xs) (max_depth ys)
unfolding max_depth
max_depth-append [] ys = omega arith
max_depth-append ((j, d) ∷ xs) ys = omega (arith, max_depth-append xs ys)

module _ (f : Uuid → List (Uuid × ℕ)) (c : Uuid) where
  visits-concat_map :
      (id : Uuid) (xs : List Uuid)
      → is_among c xs ≡ true
      → visits id (f c) ≡ true
      → visits id (concat_map f xs) ≡ true
  unfolding is_among
  visits-concat_map id [] g h = absurd (cc)
  visits-concat_map id (x ∷ xs) g h = elim (Bool-cases (c == x)) [
    | inl e ↦
        let here : visits id (f x) ≡ true =
          ap (λ y. visits id (f y)) (sym ((==_iff c x).0 e)) ∙ h in
        visits-append id (f x) (concat_map f xs) ∙ rw here refl
    | inr e ↦
        let there = visits-concat_map id xs (rw e at g) h in
        visits-append id (f x) (concat_map f xs) ∙ rw there (ground arith)
  ]

  max_depth-concat_map :
      (d : ℕ) (xs : List Uuid)
      → is_among c xs ≡ true
      → d ≤ max_depth (f c)
      → d ≤ max_depth (concat_map f xs)
  unfolding is_among
  max_depth-concat_map d [] g h = absurd (cc)
  max_depth-concat_map d (x ∷ xs) g h = elim (Bool-cases (c == x)) [
    | inl e ↦
        let here : d ≤ max_depth (f x) = subst (λ y. d ≤ max_depth (f y)) ((==_iff c x).0 e) h in
        omega (arith, max_depth-append (f x) (concat_map f xs))
    | inr e ↦
        let there = max_depth-concat_map d xs (rw e at g) h in
        omega (arith, max_depth-append (f x) (concat_map f xs))
  ]

pub walk-visits :
    (next : Uuid → List Uuid) (fuel n depth : ℕ) (a b : Uuid)
    → n ≤ fuel
    → Chain next n a b
    → visits b (walk next fuel depth a) ≡ true
unfolding visits walk
walk-visits next zero zero depth a b l e = ground (arith, ==_iff a b, e)
walk-visits next (suc fuel) zero depth a b l e = ground (arith, ==_iff a b, e)
walk-visits next zero (suc n) depth a b l h = absurd (omega arith)
walk-visits next (suc fuel) (suc n) depth a b l (c, g, rest) =
    let below =
      visits-concat_map (walk next fuel (suc depth)) c b (next a) g
        (walk-visits next fuel n (suc depth) c b (omega arith) rest) in
    rw below (ground arith)

pub walk-max_depth :
    (next : Uuid → List Uuid) (fuel n depth : ℕ) (a b : Uuid)
    → n ≤ fuel
    → Chain next n a b
    → depth + n ≤ max_depth (walk next fuel depth a)
unfolding max_depth walk
walk-max_depth next zero zero depth a b l e = omega arith
walk-max_depth next (suc fuel) zero depth a b l e = omega arith
walk-max_depth next zero (suc n) depth a b l h = absurd (omega arith)
walk-max_depth next (suc fuel) (suc n) depth a b l (c, g, rest) =
    let below =
      max_depth-concat_map (walk next fuel (suc depth)) c (suc depth + n) (next a) g
        (walk-max_depth next fuel n (suc depth) c b (omega arith) rest) in
    omega (arith, below)

-- ===== src/Ledger/Categories/Shallow.antt =====
-- The nesting that the operations of internal/modules/ledger/categories.go keep shallow.
use astrum.Prelude.{
  ℕ, zero, suc, ◌+◌, ◌≤◌, ◌<◌, ◌≡◌, refl, sym, subst, arith, inl, inr, Bool, true, false, ◌==◌,
  ==_iff, Bool-cases, List, [], ◌∷◌, ◌⊎◌, ltb,
}
use astrum.Prelude.Eq.{nat_eq, pair_eq}
use astrum.Result.{ok, passed, ok_unique, category_cycle, category_depth}
use astrum.Ledger.Types.{Uuid}
use astrum.Ledger.Store.{is_among}
use astrum.Ledger.Categories.{
  Edges, children, parents, walk, visits, max_depth, max_category_depth, has_pair, add_pair,
  remove_pairs, nest,
}
use astrum.Ledger.Categories.Walks.{Chain, Chain-mono, Chain-reverse, walk-visits, walk-max_depth}

-- A chain has at most seven categories, which are six steps.
abbrev pub AreShallow : Edges → Type 0
AreShallow es = (n : ℕ) (a b : Uuid) → Chain (children es) n a b → n < max_category_depth

module _ (p c : Uuid) (es : Edges) where
  which_edge :
      (a x : Uuid)
      → is_among x (children ((p, c) ∷ es) a) ≡ true
      → (is_among x (children es a) ≡ true) ⊎ ((a ≡ p) × (x ≡ c))
  unfolding children is_among
  which_edge a x g = elim (Bool-cases (p == a)) [
    | inl e ↦ elim (Bool-cases (x == c)) [
      | inl f ↦ inr (sym ((==_iff p a).0 e), (==_iff x c).0 f)
      | inr f ↦ inl (rw (e, f) at g)
    ]
    | inr e ↦ inl (rw e at g)
  ]

  -- With the new edge, where no chain leads from the child back to the parent: a chain does not use the
  -- edge, or uses it once.
  once :
      ((k : ℕ) → ¬ Chain (children es) k c p)
      → (n : ℕ) (a b : Uuid) → Chain (children ((p, c) ∷ es)) n a b
      → Chain (children es) n a b
        ⊎ ((m k : ℕ) × Chain (children es) m a p × Chain (children es) k c b × (n ≡ m + suc k))
  unfolding children is_among
  once none_back zero a b e = inl e
  once none_back (suc n) a b (x, g, rest) = elim (once none_back n x b rest) [
    | inl old ↦ elim (which_edge a x g) [
      | inl f ↦ inl (x, f, old)
      | inr (e, f) ↦ inr (0, n, e, subst (λ y. Chain (children es) n y b) f old, omega arith)
    ]
    | inr (m, k, up, down, e) ↦ elim (which_edge a x g) [
      | inl f ↦ inr (suc m, k, (x, f, up), down, omega arith)
      | inr (e', f) ↦ absurd (none_back m (subst (λ y. Chain (children es) m y p) f up))
    ]
  ]

  -- The tests of `nest`, which the chains of the graph pass.
  unseen :
      AreShallow es
      → visits p (walk (children es) max_category_depth 1 c) ≡ false
      → (k : ℕ) → ¬ Chain (children es) k c p
  unseen s h k chain =
      let l = s k c p chain in
      let f = walk-visits (children es) max_category_depth k 1 c p (omega arith) chain in cc

  added_edge-AreShallow :
      AreShallow es
      → visits p (walk (children es) max_category_depth 1 c) ≡ false
      → max_depth (walk (parents es) max_category_depth 1 p)
          + max_depth (walk (children es) max_category_depth 1 c)
        ≤ max_category_depth
      → AreShallow ((p, c) ∷ es)
  added_edge-AreShallow s h l n a b chain = elim (once (unseen s h) n a b chain) [
    | inl old ↦ s n a b old
    | inr (m, k, up, down, e) ↦
        let lm = s m a p up in
        let lk = s k c b down in
        let above =
          walk-max_depth (parents es) max_category_depth m 1 p a (omega arith)
            (Chain-reverse es m a p up) in
        let below = walk-max_depth (children es) max_category_depth k 1 c b (omega arith) down in
        omega arith
  ]

  pub nest-AreShallow : {fs : Edges} → AreShallow es → nest p c es ≡ ok fs → AreShallow fs
  unfolding nest
  nest-AreShallow s h =
      let (unseen_parent, h1) =
        passed (visits p (walk (children es) max_category_depth 1 c)) category_cycle h in
      let (short, h2) =
        passed
          (ltb max_category_depth (
            max_depth (walk (parents es) max_category_depth 1 p)
            + max_depth (walk (children es) max_category_depth 1 c)))
          category_depth h1 in
      let added : AreShallow (add_pair (p, c) es) = elim (Bool-cases (has_pair (p, c) es)) [
        | inl e ↦ rw e s
        | inr e ↦ rw e (added_edge-AreShallow s unseen_parent (ground (arith, short)))
      ] in
      subst AreShallow (ok_unique refl h2) added

-- Removing edges leaves no other chain.
children-remove_pairs :
    (gone : Uuid × Uuid → Bool) (es : Edges) (a c : Uuid)
    → is_among c (children (remove_pairs gone es) a) ≡ true
    → is_among c (children es a) ≡ true
unfolding children remove_pairs is_among
children-remove_pairs gone [] a c h = h
children-remove_pairs gone ((p, q) ∷ es) a c h = elim (Bool-cases (gone (p, q))) [
  | inl e ↦ ground (arith, children-remove_pairs gone es a c (rw e at h))
  | inr e ↦ ground (arith, children-remove_pairs gone es a c, rw e at h)
]

pub remove_pairs-AreShallow :
    (gone : Uuid × Uuid → Bool) (es : Edges) → AreShallow es → AreShallow (remove_pairs gone es)
remove_pairs-AreShallow gone es s n a b chain = s n a b (
    Chain-mono (children (remove_pairs gone es)) (children es) (children-remove_pairs gone es) n a b
      chain)

-- No category is below itself: a round trip, made again and again, would be a long chain.
module _ (next : Uuid → List Uuid) where
  Chain-append :
      (m n : ℕ) (a b c : Uuid)
      → Chain next m a b
      → Chain next n b c
      → (k : ℕ) × (k ≡ m + n) × Chain next k a c
  Chain-append zero n a b c e k = (n, omega arith, subst (λ x. Chain next n x c) (sym e) k)
  Chain-append (suc m) n a b c (x, g, rest) k =
      let (l, e, whole) = Chain-append m n x b c rest k in (suc l, omega arith, (x, g, whole))

  around :
      (rounds n : ℕ) (a : Uuid) → Chain next (suc n) a a → (m : ℕ) × (rounds ≤ m) × Chain next m a a
  around zero n a h = (0, omega arith, refl)
  around (suc rounds) n a h =
      let (m, l, k) = around rounds n a h in
      let (q, e, whole) = Chain-append (suc n) m a a a h k in (q, omega arith, whole)

pub AreShallow-acyclic :
    (es : Edges) → AreShallow es → (n : ℕ) (a : Uuid) → ¬ Chain (children es) (suc n) a a
AreShallow-acyclic es s n a h =
    let (m, l, k) = around (children es) max_category_depth n a h in
    let short = s m a a k in omega arith

pub AreShallow-nil : AreShallow []
unfolding children is_among
AreShallow-nil zero a b h = omega arith
AreShallow-nil (suc n) a b (c, g, rest) = absurd (cc)

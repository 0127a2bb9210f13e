-- ===== src/Prelude/Map.antt =====
-- Go's maps, as association lists in an iteration order.
use astrum.Prelude.{◌≡◌, refl, Option, none, some, List, [], ◌∷◌, arith, if◌then◌else◌}
use astrum.Prelude.Eq.{Eq, ◌=?◌}

abbrev pub Map {ℓ κ} : Type ℓ → Type κ → Type (ℓ ⊔ κ)
Map K V = List (K × V)

module _ {ℓ κ} {K : Type ℓ} {V : Type κ} ⦃e : Eq K⦄ where
  unfoldable pub lookup : K → Map K V → Option V
  lookup k [] = none
  lookup k ((j, v) ∷ m) = if j =? k then some v else lookup k m

  -- `m[k] = v`
  unfoldable pub insert : K → V → Map K V → Map K V
  insert k v [] = (k, v) ∷ []
  insert k v ((j, w) ∷ m) = if j =? k then (k, v) ∷ m else (j, w) ∷ insert k v m

  -- `maps.Copy(m, n)`
  unfoldable pub copy : Map K V → Map K V → Map K V
  unfolding insert
  copy m [] = m
  copy m ((k, v) ∷ n) = insert k v (copy m n)

  pub lookup-insert :
      (j k : K) (v : V) (m : Map K V)
      → lookup j (insert k v m) ≡ (if k =? j then some v else lookup j m)
  unfolding lookup insert
  lookup-insert j k v [] = refl
  lookup-insert j k v ((i, w) ∷ m) =
      ground (arith, e.beq_iff k j, e.beq_iff i k, e.beq_iff i j, lookup-insert j k v m)

  pub lookup-copy :
      (j : K) (m n : Map K V)
      → lookup j (copy m n) ≡ elim (lookup j n) [ none ↦ lookup j m | some v ↦ some v ]
  unfolding lookup copy
  lookup-copy j m [] = refl
  lookup-copy j m ((k, v) ∷ n) = ground (arith, lookup-insert j k v (copy m n), lookup-copy j m n)

-- ===== src/Prelude/Eq.antt =====
-- Equality as Go's `==` on comparable types: an interface, and its instances for numbers and texts.
use astrum.Prelude.{ℕ, ◌≡◌, refl, ◌↔◌, Bool, true, false, ◌&&◌, List, [], ◌∷◌, arith, ==_iff}
use astrum.Prelude.{◌==◌ as nat_beq}

pub record Eq {ℓ} (A : Type ℓ) : Type ℓ where
  pub beq : A → A → Bool
  pub beq_iff : (a b : A) → (beq a b ≡ true) ↔ (a ≡ b)

infix 50 ◌=?◌
abbrev pub ◌=?◌ {ℓ} : {A : Type ℓ} ⦃e : Eq A⦄ → A → A → Bool
◌=?◌ ⦃e⦄ = e.beq

instance abbrev pub nat_eq : Eq ℕ
nat_eq = record { beq = nat_beq; beq_iff = ==_iff }

-- The bytes of a Go string.
abbrev pub Text : Type 0
Text = List ℕ

unfoldable pub text_beq : Text → Text → Bool
text_beq [] [] = true
text_beq (a ∷ s) (b ∷ t) = nat_beq a b && text_beq s t
text_beq _ _ = false

pub text_beq_iff : (s t : Text) → (text_beq s t ≡ true) ↔ (s ≡ t)
unfolding text_beq
text_beq_iff [] [] = ground arith
text_beq_iff [] (b ∷ t) = ground arith
text_beq_iff (a ∷ s) [] = ground arith
text_beq_iff (a ∷ s) (b ∷ t) = ground (arith, text_beq_iff s t)

instance abbrev pub text_eq : Eq Text
text_eq = record { beq = text_beq; beq_iff = text_beq_iff }

pub =?_refl {ℓ} : {A : Type ℓ} ⦃e : Eq A⦄ (a : A) → (a =? a) ≡ true
=?_refl ⦃e⦄ a = (e.beq_iff a a).1 refl

module _ {ℓ κ} {A : Type ℓ} {B : Type κ} ⦃e : Eq A⦄ ⦃f : Eq B⦄ where
  unfoldable pub pair_beq : A × B → A × B → Bool
  pair_beq p q = e.beq p.0 q.0 && f.beq p.1 q.1

  pub pair_beq_iff : (p q : A × B) → (pair_beq p q ≡ true) ↔ (p ≡ q)
  unfolding pair_beq
  pair_beq_iff (a, b) (c, d) = ground (arith, e.beq_iff a c, f.beq_iff b d)

  instance abbrev pub pair_eq : Eq (A × B)
  pair_eq = record { beq = pair_beq; beq_iff = pair_beq_iff }

-- ===== src/Tests/Seal.antt =====
-- The chain of seals on small data: tests and instances. In place of HMAC and SHA-256 stands a function
-- without collisions whose values have 32 numbers.
use astrum.Prelude.{
  ℕ, zero, suc, ◌+◌, ◌*◌, ◌^◌, ◌<◌, ◌≤◌, ◌≡◌, refl, ap, arith, inl, inr, none, some, List, [], ◌∷◌,
  length,
}
use astrum.Prelude.Eq.{Text}
use native.Mathlib.Numerals.{unary_clauses}
use astrum.Ledger.Seal.{Sealed}
use astrum.Ledger.Seal.Walk.{
  SealRow, ChainHead, sealed_by_id, seal_row, seal_all, verify_from, verify_chain, zero_bytes,
}
use astrum.Ledger.Seal.Preimage.{IsBounded, preimage_v3_unique}
use astrum.Ledger.Seal.Chain.{contents, Collision, verify_chain_unique}
use astrum.Ledger.Seal.Sealing.{verify_chain-seal_all}
use astrum.Tests.State.{units}

unfoldable code : Text → ℕ
code [] = 0
code (x ∷ xs) = 2 ^ x * (2 * code xs + 1)

double : (x b : ℕ) → 2 ^ suc x * (2 * b + 1) ≡ 2 * (2 ^ x * (2 * b + 1))
double x b = simp unary_clauses (omega arith)

code_parts : (x y a b : ℕ) → 2 ^ x * (2 * a + 1) ≡ 2 ^ y * (2 * b + 1) → (x ≡ y) × (a ≡ b)
code_parts zero zero a b e = (refl, omega (arith, e))
code_parts zero (suc y) a b e = absurd (omega (arith, e, double y b))
code_parts (suc x) zero a b e = absurd (omega (arith, e, double x a))
code_parts (suc x) (suc y) a b e =
    let halves : 2 ^ x * (2 * a + 1) ≡ 2 ^ y * (2 * b + 1) =
      omega (arith, e, double x a, double y b) in
    let (same, rest) = code_parts x y a b halves in (ap suc same, rest)

above : (x b : ℕ) → 1 ≤ 2 ^ x * (2 * b + 1)
above zero b = omega arith
above (suc x) b = omega (arith, double x b, above x b)

code_unique : (xs ys : Text) → code xs ≡ code ys → xs ≡ ys
unfolding code
code_unique [] [] e = refl
code_unique [] (y ∷ ys) e = absurd (omega (arith, e, above y (code ys)))
code_unique (x ∷ xs) [] e = absurd (omega (arith, e, above x (code xs)))
code_unique (x ∷ xs) (y ∷ ys) e =
    let (same, rest) = code_parts x y (code xs) (code ys) e in
    let tails = code_unique xs ys rest in cc

unfoldable digest : Text → Text
digest x = code x ∷ zero_bytes 31

digest_unique : (x y : Text) → digest x ≡ digest y → x ≡ y
unfolding digest
digest_unique x y e = let same : code x ≡ code y = cc in code_unique x y same

no_collision : (C : Type 0) → Collision digest → C
no_collision C (x, y, differ, same) = absurd (differ (digest_unique x y same))

digest_long : (x : Text) → length (digest x) ≡ 32
unfolding digest zero_bytes
digest_long x = refl

abbrev sealed_of : ℕ → ℕ → Sealed
sealed_of id n = record {
  id = id;
  ledger_id = 9;
  idempotency_key = 107 ∷ [];
  external_id = [];
  description = [];
  metadata = 123 ∷ 125 ∷ [];
  reverses_id = none;
  created_at = 5;
  effective_at = 5;
  posted_at = 6;
  entries =
      record {
        account_id = 1;
        currency = 85 ∷ 83 ∷ 68 ∷ [];
        side = 100 ∷ [];
        amount = units n;
        balance_after = units 100;
      }
      ∷ [];
}

sealed_of-IsBounded : (id : ℕ) → id < 256 ^ 16 → IsBounded (sealed_of id 30)
sealed_of-IsBounded id h = record {
  id = h;
  ledger_id = omega arith;
  idempotency_key = omega arith;
  external_id = omega arith;
  description = omega arith;
  metadata = omega arith;
  reverses_id = tt;
  created_at = omega arith;
  effective_at = omega arith;
  posted_at = omega arith;
  count = omega arith;
  entries = (omega arith, tt);
}

preimage_v3_unique_example : sealed_of 40 30 ≡ sealed_of (39 + 1) 30
preimage_v3_unique_example =
    preimage_v3_unique (sealed_of 40 30) (sealed_of (39 + 1) 30)
      (sealed_of-IsBounded 40 (omega arith)) (sealed_of-IsBounded (39 + 1) (omega arith)) refl

-- a database, and another that has one transaction more
abbrev small : List Sealed
small = sealed_of 40 30 ∷ []

abbrev large : List Sealed
large = sealed_of 50 30 ∷ sealed_of 40 30 ∷ []

abbrev first_head : ChainHead
first_head = record { seq = 0; hash = zero_bytes 32 }

-- the chain that seals the transaction 40
chain : List SealRow × ChainHead
chain = seal_all digest digest first_head small

empty_chain : (db : List Sealed) → verify_chain digest digest db [] ≡ ([], first_head)
unfolding verify_chain verify_from
empty_chain db = refl

verify_chain-seal_all_example :
    verify_chain digest digest large (seal_all digest digest first_head small).0
    ≡ ([], (seal_all digest digest first_head small).1)
unfolding sealed_by_id
verify_chain-seal_all_example =
    verify_chain-seal_all digest digest large [] first_head small (refl, tt) (empty_chain large)

chain_verifies :
    (db : List Sealed)
    → sealed_by_id 40 db ≡ some (sealed_of 40 30)
    → verify_chain digest digest db chain.0 ≡ ([], chain.1)
unfolding chain
chain_verifies db h =
    verify_chain-seal_all digest digest db [] first_head small (h, tt) (empty_chain db)

-- `digest` has no collisions, so that the contents are the same
same_contents : contents small chain.0 ≡ contents large chain.0
unfolding chain seal_all seal_row sealed_by_id
same_contents =
    elim (verify_chain_unique digest digest digest_long small large chain.0 chain.0 chain.1
      (sealed_of-IsBounded 40 (omega arith), tt)
      (sealed_of-IsBounded 50 (omega arith), (sealed_of-IsBounded 40 (omega arith), tt)) (refl, tt)
      (refl, tt) (chain_verifies small refl) (chain_verifies large refl)) [
        | inl same ↦ same
        | inr c ↦ elim c [ inl d ↦ no_collision _ d | inr d ↦ no_collision _ d ]
      ]

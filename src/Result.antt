-- ===== src/Result.antt =====
-- Go's (value, error) results. An error stands for the sentinel that `errors.Is` finds in it: the
-- text that `fmt.Errorf` wraps round it is left out.
use astrum.Prelude.{◌≡◌, Bool, true, false, refl}

pub data Error : Type 0 where
  invalid_amount invalid_currency overflow : Error
  not_found account_not_open cross_ledger invalid unbalanced insufficient_funds lock_version : Error
  balance_lock idempotency_conflict external_id_exists period_closed batch_aborted not_pending :
      Error
  hold_not_pending not_posted already_reversed exceeds_held exceeds_pending account_not_empty
        nil_account retry internal account_exists currency_exists unknown_currency unknown_ledger
        schedule_not_pending category_mismatch category_cycle category_depth :
      Error

pub data Result {ℓ} (A : Type ℓ) : Type ℓ where
  ok : A → Result A
  err : Error → Result A

-- `if c { return e }`
abbrev pub fail_if : Bool → Error → Result (Unit {0})
fail_if true e = err e
fail_if false e = ok tt

infixl 5 ◌>>=◌
abbrev pub ◌>>=◌ {ℓ κ} : {A : Type ℓ} {B : Type κ} → Result A → (A → Result B) → Result B
r >>= next = elim r [ ok a ↦ next a | err e ↦ err e ]

infixl 5 ◌>>◌
abbrev pub ◌>>◌ {κ} : {B : Type κ} → Result (Unit {0}) → Result B → Result B
r >> next = r >>= λ u. next

-- What went before a success: the value that the first part answered, and the success of the rest.
pub >>=-elim {ℓ κ μ} :
    {A : Type ℓ} {B : Type κ} {P : Type μ} (m : Result A) (f : A → Result B) {b : B}
    → (m >>= f) ≡ ok b
    → ((a : A) → m ≡ ok a → f a ≡ ok b → P)
    → P
>>=-elim (ok a) f h k = k a refl h
>>=-elim (err e) f h k = absurd (cc)

pub ok_unique {ℓ} : {A : Type ℓ} {m : Result A} {a b : A} → m ≡ ok a → m ≡ ok b → a ≡ b
ok_unique e f = cc

pub err-ne-ok {ℓ κ} :
    {A : Type ℓ} {B : Type κ} {m : Result A} {e : Error} {a : A} → m ≡ err e → m ≡ ok a → B
err-ne-ok f g = absurd (cc)

pub fail_if-eq-ok : (c : Bool) (e : Error) → fail_if c e ≡ ok tt → c ≡ false
fail_if-eq-ok true e h = cc
fail_if-eq-ok false e h = refl

-- a guard that was passed
pub passed {ℓ} :
    {B : Type ℓ} {r : Result B} {b : B} (c : Bool) (e : Error)
    → (fail_if c e >> r) ≡ ok b
    → (c ≡ false) × (r ≡ ok b)
passed true e h = absurd (cc)
passed false e h = (refl, h)

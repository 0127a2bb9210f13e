-- ===== src/Kernel/Tx.antt =====
-- `RunTx` of internal/kernel/db/tx.go. A database transaction is a function from a state of the
-- database to its outcome; one that fails leaves the state as it was.
use native.Mathlib.Nat.{one-le-pow}
use astrum.Prelude.{
  ℕ, zero, suc, ◌+◌, ◌*◌, ◌/◌, ◌^◌, ◌≤◌, ◌<◌, ◌≡◌, refl, subst, arith, inl, inr, ◌⊎◌, Bool, true,
  false, min, List, [], ◌∷◌, length, if◌then◌else◌,
}

-- What `Retryable` sees of an error: whether it wraps `ErrRetry`, the code of the server's error,
-- and whether pgconn calls it safe to retry. The codes 40001 and 40P01 are those of a serialization
-- failure and of a deadlock.
pub data SqlState : Type 0 where
  no_code serialization_failure deadlock_detected other_code : SqlState

pub record TxError : Type 0 where
  pub wraps_retry : Bool
  pub code : SqlState
  pub safe_to_retry : Bool

abbrev pub is_conflict : SqlState → Bool
is_conflict serialization_failure = true
is_conflict deadlock_detected = true
is_conflict _ = false

unfoldable pub retryable : TxError → Bool
retryable e = if e.wraps_retry then true else elim e.code [
  | serialization_failure ↦ true
  | deadlock_detected ↦ true
  | _ ↦ e.safe_to_retry
]

-- The error of a commit that took effect and whose answer was lost: it is none of `fn`, the server has
-- reported no conflict, since it rolls back where it does, and pgconn does not call it safe to retry,
-- since the commit was sent.
pub record IsLost (e : TxError) : Type 0 where
  pub not_ours : e.wraps_retry ≡ false
  pub no_conflict : is_conflict e.code ≡ false
  pub sent : e.safe_to_retry ≡ false

IsLost-retryable : (e : TxError) → IsLost e → retryable e ≡ false
unfolding retryable
IsLost-retryable e l = rw l.not_ours (by_code e.code e.safe_to_retry l.no_conflict l.sent)
  where
    by_code :
        (c : SqlState) (safe : Bool)
        → is_conflict c ≡ false
        → safe ≡ false
        → elim c [ serialization_failure ↦ true | deadlock_detected ↦ true | _ ↦ safe ] ≡ false
    by_code no_code safe h f = f
    by_code serialization_failure safe h f = absurd (cc)
    by_code deadlock_detected safe h f = absurd (cc)
    by_code other_code safe h f = f

-- `maxAttempts`, and the two delays in nanoseconds
abbrev pub max_attempts : ℕ
max_attempts = 6

abbrev pub base_backoff : ℕ
base_backoff = 5_000_000

abbrev pub max_backoff : ℕ
max_backoff = 250_000_000

-- `random` is what `rand.N` draws, a number below its argument
unfoldable pub backoff : (ℕ → ℕ) → ℕ → ℕ
backoff random attempt =
    let d = min (base_backoff * 2 ^ attempt) max_backoff in d / 2 + random (d / 2 + 1)

-- How one attempt ends. `unconfirmed` is a commit that took effect, and whose answer was lost: the
-- attempt has an error all the same.
pub data Attempt {ℓ} (S : Type ℓ) : Type ℓ where
  committed : S → Attempt S
  aborted : TxError → Attempt S
  unconfirmed : S → TxError → Attempt S

-- what `RunTx` answers: nil, the error of the last attempt, or the error of the context, where a
-- sleep is interrupted
pub data Outcome : Type 0 where
  done : Outcome
  failed : TxError → Outcome
  interrupted : Outcome

abbrev pub is_done : Outcome → Bool
is_done done = true
is_done _ = false

-- the error of an attempt: whether it calls for another one, whether the sleep was interrupted, how
-- many attempts are left, and what they end with
abbrev pub after_error {ℓ} :
    {S : Type ℓ} → TxError → Bool → Bool → ℕ → List S × Outcome → List S × Outcome
after_error e false stop left rest = ([], failed e)
after_error e true true left rest = ([], interrupted)
after_error e true false zero rest = ([], failed e)
after_error e true false (suc n) rest = rest

abbrev pub commit_first {ℓ} : {S : Type ℓ} → S → List S × Outcome → List S × Outcome
commit_first t r = (t ∷ r.0, r.1)

-- one round of the loop
abbrev pub settle {ℓ} : {S : Type ℓ} → Attempt S → Bool → ℕ → List S × Outcome → List S × Outcome
settle (committed t) stop left rest = (t ∷ [], done)
settle (aborted e) stop left rest = after_error e (retryable e) stop left rest
settle (unconfirmed t e) stop left rest =
    commit_first t (after_error e (retryable e) stop left rest)

-- The world of one call: how the attempt of each number ends, on the database as it then is, and
-- whether the context ends during the sleep after it.
module _ {ℓ} {S : Type ℓ} (attempt : ℕ → Attempt S) (interrupts : ℕ → Bool) where
  -- The loop from the attempt `n` on, with `left` attempts left. The states that it answers are those
  -- that were committed.
  unfoldable pub run_from : ℕ → ℕ → List S × Outcome
  run_from zero n = ([], done)
  run_from (suc left) n = settle (attempt n) (interrupts n) left (run_from left (suc n))

  -- `RunTx`
  unfoldable pub run_tx : List S × Outcome
  unfolding run_from
  run_tx = run_from max_attempts 0

  -- The attempt is aborted by an error that calls for another one, and the sleep after it is not
  -- interrupted.
  pub record Retries (n : ℕ) : Type ℓ where
    pub error : TxError
    pub ends : attempt n ≡ aborted error
    pub calls : retryable error ≡ true
    pub sleeps : interrupts n ≡ false

  run_from-commits :
      (k left n : ℕ) (t : S)
      → k < left
      → ((j : ℕ) → j < k → Retries (n + j))
      → attempt (n + k) ≡ committed t
      → run_from left n ≡ (t ∷ [], done)
  unfolding run_from
  run_from-commits k zero n t l before c = absurd (omega arith)
  run_from-commits zero (suc left) n t l before c =
      let now : attempt n ≡ committed t = (rw (at_once n) at c) in rw now refl
    where
      at_once : (m : ℕ) → m + 0 ≡ m
      at_once m = omega arith
  run_from-commits (suc k) (suc zero) n t l before c = absurd (omega arith)
  run_from-commits (suc k) (suc (suc left)) n t l before c =
      let r = before 0 (omega arith) in
      let ends : attempt n ≡ aborted r.error =
        subst (λ m. attempt m ≡ aborted r.error) (at_once n) r.ends in
      let sleeps : interrupts n ≡ false = subst (λ m. interrupts m ≡ false) (at_once n) r.sleeps in
      rw (ends, r.calls, sleeps)
        (run_from-commits k (suc left) (suc n) t (omega arith)
          (λ j h. subst Retries (shifted n j) (before (suc j) (omega arith)))
          (subst (λ m. attempt m ≡ committed t) (shifted n k) c))
    where
      at_once : (m : ℕ) → m + 0 ≡ m
      at_once m = omega arith

      shifted : (m j : ℕ) → m + suc j ≡ suc m + j
      shifted m j = omega arith

  -- If one of the first six attempts commits, and those before it are aborted by errors that call for
  -- another attempt, with no sleep between them interrupted, then `run_tx` ends with that commit.
  pub run_tx-commits :
      (k : ℕ) (t : S)
      → k < 6
      → ((j : ℕ) → j < k → Retries j)
      → attempt k ≡ committed t
      → run_tx ≡ (t ∷ [], done)
  unfolding run_tx
  run_tx-commits k t l before c =
      run_from-commits k max_attempts 0 t l (λ j h. subst Retries (from_zero j) (before j h))
        (subst (λ m. attempt m ≡ committed t) (from_zero k) c)
    where
      from_zero : (m : ℕ) → m ≡ 0 + m
      from_zero m = omega arith

  -- The commit of an attempt took effect and its answer was lost; it is the only one, and the error
  -- of that attempt is the answer.
  abbrev pub IsUnconfirmed : List S × Outcome → Type ℓ
  IsUnconfirmed r =
      (n : ℕ) × (t : S) × (e : TxError) × (attempt n ≡ unconfirmed t e) × (r ≡ (t ∷ [], failed e))

  -- `done` with one commit, or another outcome with none, or an unconfirmed commit.
  abbrev pub Consistent : List S × Outcome → Type ℓ
  Consistent r =
      ((r.1 ≡ done) × (length r.0 ≡ 1)) ⊎ (((is_done r.1 ≡ false) × (r.0 ≡ [])) ⊎ IsUnconfirmed r)

  stopped : (e : TxError) (c stop : Bool) → Consistent (after_error e c stop zero ([], done))
  stopped e false stop = inr (inl (refl, refl))
  stopped e true true = inr (inl (refl, refl))
  stopped e true false = inr (inl (refl, refl))

  continued :
      (e : TxError) (c stop : Bool) (n : ℕ) (rest : List S × Outcome)
      → Consistent rest
      → Consistent (after_error e c stop (suc n) rest)
  continued e false stop n rest k = inr (inl (refl, refl))
  continued e true true n rest k = inr (inl (refl, refl))
  continued e true false n rest k = k

  module _ (lost : (n : ℕ) (t : S) (e : TxError) → attempt n ≡ unconfirmed t e → IsLost e) where
    given_up :
        (n : ℕ) (t : S) (e : TxError) (c stop : Bool) (left : ℕ) (rest : List S × Outcome)
        → attempt n ≡ unconfirmed t e
        → c ≡ false
        → Consistent (commit_first t (after_error e c stop left rest))
    given_up n t e false stop left rest h f = inr (inr (n, t, e, h, refl))
    given_up n t e true stop left rest h f = absurd (cc)

    settle-Consistent :
        (n : ℕ) (a : Attempt S) (stop : Bool)
        → attempt n ≡ a
        → Consistent (settle a stop zero ([], done))
    settle-Consistent n (committed t) stop h = inl (refl, refl)
    settle-Consistent n (aborted e) stop h = stopped e (retryable e) stop
    settle-Consistent n (unconfirmed t e) stop h =
        given_up n t e (retryable e) stop zero ([], done) h (IsLost-retryable e (lost n t e h))

    settle-more :
        (n : ℕ) (a : Attempt S) (stop : Bool) (left : ℕ) (rest : List S × Outcome)
        → attempt n ≡ a
        → Consistent rest
        → Consistent (settle a stop (suc left) rest)
    settle-more n (committed t) stop left rest h k = inl (refl, refl)
    settle-more n (aborted e) stop left rest h k = continued e (retryable e) stop left rest k
    settle-more n (unconfirmed t e) stop left rest h k =
        given_up n t e (retryable e) stop (suc left) rest h (IsLost-retryable e (lost n t e h))

    run_from-Consistent : (left n : ℕ) → 0 < left → Consistent (run_from left n)
    unfolding run_from
    run_from-Consistent zero n h = absurd (omega arith)
    run_from-Consistent (suc zero) n h = settle-Consistent n (attempt n) (interrupts n) refl
    run_from-Consistent (suc (suc left)) n h =
        settle-more n (attempt n) (interrupts n) left (run_from (suc left) (suc n)) refl
          (run_from-Consistent (suc left) (suc n) (omega arith))

    -- If the error of a commit that took effect is no `ErrRetry`, no conflict that the server reports,
    -- and not one that pgconn calls safe to retry, `run_tx` commits exactly once where it answers nil, and where it answers an error it has committed nothing, or the
    -- one commit of an attempt whose answer was lost, with the error of that attempt.
    pub run_tx-Consistent : Consistent run_tx
    unfolding run_tx
    run_tx-Consistent = run_from-Consistent max_attempts 0 (omega arith)

-- With a draw below its argument, each sleep lasts from half of its delay to the whole of it: at least
-- 2.5 and at most 250 milliseconds.
pub backoff-bounds :
    (random : ℕ → ℕ) (attempt : ℕ)
    → ((m : ℕ) → 0 < m → random m < m)
    → (2_500_000 ≤ backoff random attempt) × (backoff random attempt ≤ max_backoff)
unfolding backoff
backoff-bounds random attempt below =
    drawn (5_000_000 * 2 ^ attempt) (random (min (5_000_000 * 2 ^ attempt) max_backoff / 2 + 1))
      (omega (arith, one-le-pow attempt 2 (omega arith))) (below _ (omega arith))
  where
    drawn :
        (n r : ℕ)
        → 5_000_000 ≤ n
        → r < min n max_backoff / 2 + 1
        → (2_500_000 ≤ min n max_backoff / 2 + r) × (min n max_backoff / 2 + r ≤ max_backoff)
    drawn n r h l = omega arith

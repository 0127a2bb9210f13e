-- ===== src/Tests/Kernel.antt =====
-- Database transactions, the batcher and the keys of requests: tests and instances.
use astrum.Prelude.{
  ℕ, ◌==◌, subst, ◌≡◌, ◌<◌, refl, zero, suc, Bool, true, false, Option, none, some, List, [], ◌∷◌,
  arith, if◌then◌else◌,
}
use astrum.Prelude.Eq.{Text, text_eq, text_beq, ◌=?◌}
use astrum.Prelude.Map.{lookup}
use astrum.Result.{Result, internal}
use astrum.Ledger.Types.{Uuid, Time}
use astrum.Kernel.Tx.{
  TxError, deadlock_detected, retryable, Attempt, committed, aborted, unconfirmed, done, failed,
  no_code, run_tx, run_from, Retries, Consistent, IsLost, run_tx-commits, run_tx-Consistent,
}
use astrum.Kernel.Idempotency.{
  processing, Row, claim, Recorded, kept_response, finish, replayed, problem, idempotency_reuse,
  resolve_existing,
}
use astrum.Kernel.Idempotency.Kept.{World, after_finish, here}
use astrum.Kernel.Idempotency.Replays.{finish-replayed}
use astrum.Ledger.Batcher.{Request, Fault, drain}
use astrum.Ledger.Batcher.Drained.{asked, answered, drain-answered}
use astrum.Tests.Engine.{fresh, noon, busy_store, request_of}

abbrev deadlock : TxError
deadlock = record { wraps_retry = false; code = deadlock_detected; safe_to_retry = false }

-- the first attempt is aborted, and the others commit
abbrev second_time : ℕ → Attempt ℕ
second_time n = if n == 0 then aborted deadlock else committed n

abbrev never : ℕ → Bool
never n = false

run_tx-commits_example : run_tx second_time never ≡ (1 ∷ [], done)
unfolding retryable
run_tx-commits_example = run_tx-commits second_time never 1 1 (omega arith) retries refl
  where
    first : Retries second_time never 0
    first = record { error = deadlock; ends = refl; calls = refl; sleeps = refl }

    retries : (j : ℕ) → j < 1 → Retries second_time never j
    retries j h = let same : 0 ≡ j = omega arith in subst (Retries second_time never) same first

-- the first attempt is aborted, and the answers to the commits of the others are lost
abbrev connection_lost : TxError
connection_lost = record { wraps_retry = false; code = no_code; safe_to_retry = false }

abbrev answer_lost : ℕ → Attempt ℕ
answer_lost zero = aborted deadlock
answer_lost (suc n) = unconfirmed n connection_lost

answer_lost-IsLost : (n t : ℕ) (e : TxError) → answer_lost n ≡ unconfirmed t e → IsLost e
answer_lost-IsLost zero t e h = absurd (cc)
answer_lost-IsLost (suc n) t e h =
    let same : connection_lost ≡ e = cc in
    subst IsLost same (record { not_ours = refl; no_conflict = refl; sent = refl })

run_tx-Consistent_example : Consistent answer_lost never (run_tx answer_lost never)
run_tx-Consistent_example = run_tx-Consistent answer_lost never answer_lost-IsLost

run_tx-answer_lost : run_tx answer_lost never ≡ (0 ∷ [], failed connection_lost)
unfolding run_tx run_from retryable
run_tx-answer_lost = refl

-- Four requests: the second is cancelled before its group is committed, and the fourth before it is
-- tried on its own. The first group fails, and the answer to the first single commit is lost.
abbrev queue : List Request
queue =
    record { done = 1; cancelled = none; cancelled_later = none; req = request_of 1 30 }
    ∷ record { done = 2; cancelled = some internal; cancelled_later = none; req = request_of 2 5 }
    ∷ record { done = 3; cancelled = none; cancelled_later = none; req = request_of 3 10 }
    ∷ record { done = 4; cancelled = none; cancelled_later = some internal; req = request_of 4 1 }
    ∷ []

abbrev fresh_ids : ℕ → ℕ → Result Uuid
fresh_ids n = fresh

abbrev at_noon : ℕ → Time
at_noon n = noon

abbrev faults : ℕ → Option Fault
faults zero = some (record { error = internal; took_effect = false })
faults (suc zero) = some (record { error = internal; took_effect = true })
faults (suc (suc n)) = none

drain-answered_example :
    answered 3 (drain fresh_ids at_noon faults 4 queue busy_store).1 ≡ asked 3 queue
drain-answered_example = drain-answered 3 fresh_ids at_noon faults 4 queue busy_store

abbrev key : Text
key = 107 ∷ []

abbrev claimed : Row
claimed = record {
  request_hash = 1 ∷ [];
  status = processing;
  lock_token = 5;
  locked_at = 0;
  created_at = 0;
}

abbrev same_hash : Text
same_hash = 1 ∷ []

abbrev world : World
world = record { keys = (key, claimed) ∷ []; active = 5 ∷ [] }

abbrev answer : Recorded
answer = record {
  response = record { status = 201; content_type = []; body = 1 ∷ [] };
  no_store = false;
}

abbrev after_answer : World
after_answer = after_finish 5 world (finish [] key 5 answer world.keys)

finish-replayed_example :
    (claim 70_000_000 key same_hash 6 after_answer.keys ≡ (after_answer.keys, false))
    × (resolve_existing key same_hash after_answer.keys ≡ (
        if same_hash =? same_hash
        then replayed (kept_response [] answer)
        else problem 422 idempotency_reuse))
unfolding lookup text_beq
finish-replayed_example =
    finish-replayed [] key same_hash 5 answer world after_answer 70_000_000 same_hash 6
      (record {
        row = claimed;
        stored = refl;
        status = refl;
        request_hash = refl;
        lock_token = refl;
      })
      refl here

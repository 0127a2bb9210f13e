-- ===== src/Lib.antt =====
-- Astrum, a double-entry ledger server (Go), module by module.
--
-- The program keeps accounts, transactions and holds in a database; internal/modules/ledger
-- locks the accounts that a request names, computes the change in memory (state.go) and writes
-- it back in one database transaction. Amounts are 128-bit integers of at most 38 digits
-- (internal/money).
--
-- - Prelude.antt: names and lemmas that the files share: Boolean tests, lists, integers,
--   equality, Go's maps as association lists. Result.antt: Go's (value, error) results.
-- - Money/: internal/money/amount.go, with ParseAmount in Money/Amount/Text.antt and String in
--   Money/Amount/Printed.antt. An `Amount` is its two words; `value` is the integer that they
--   stand for, and `size` the number where it is not negative.
-- - Ledger/Types.antt: the data of types.go, types_transactions.go and types_accounts.go.
--   Ledger/Account.antt: `accountState` of state.go with its balances. Ledger/State.antt:
--   `ledgerState` and `transition` of state.go, with the loops as recursions; its children prove
--   what a transition does, against the specification in Ledger/State/Tally.antt.
-- - Ledger/Json.antt: metadata, from types.go. Ledger/Requests.antt: requests and transactions
--   of types_transactions.go, and when they match. Ledger/Monitors.antt: `ledgerState` with its
--   balance monitors, with their index in Monitors/Indexed.antt and what `crossed` reports in
--   Monitors/Complete.antt and Monitors/Crossings.antt.
-- - Ledger/Store.antt: the tables, and the statements of store_accounts.go, store_holds.go and
--   store_transactions.go on them. A database transaction is a function from a store to a store
--   or an error, which leaves the store as it was.
-- - Ledger/Engine/Resolve.antt and Ledger/Engine.antt: engine.go, `resolveRequest`, then
--   `applyRequests` and `runRequests`. Ledger/Holds.antt: holds.go, with the sum of the pending
--   holds in Holds/Kept.antt, the accounts that are locked and written in Row.antt, Locks.antt,
--   Written.antt, Booked.antt and Released.antt beside it, and the step relation of holds in
--   Holds/Reachable.antt. Ledger/Pending.antt: pending.go. Each stands on the store and on
--   `transition`, `reserve` and `release`.
-- - Ledger/Validate.antt: validate.go, with its tests on text in Ledger/Validate/Strings.antt
--   and `Currency.Validate` of internal/money/money.go. Ledger/Service/: service.go and
--   ledgers.go: Patch.antt and Details.antt for metadata and names, Accounts.antt and
--   Accounts/Changes.antt with Statuses.antt, Closed.antt, Created.antt and Reachable.antt for
--   accounts and their step relation, Ledgers.antt, Batches.antt with Batched.antt and
--   Balanced.antt for `postBatch`, Reversals.antt with Reversed.antt for `reverse`.
--   Ledger/Schedules.antt: schedules.go, with `executeDue` in Schedules/Execution.antt and the
--   properties in Due.antt, Executed.antt, Kept.antt and Reachable.antt beside it.
--   Ledger/Categories.antt: categories.go, with `categoryMembers` in Categories/Tree.antt,
--   `rollUp` in Categories/RollUp.antt, and the graph of categories in Walks.antt, Shallow.antt
--   and Reachable.antt beside them. Ledger/Batcher.antt: batcher.go. Ledger/Seal.antt: seal.go,
--   with the bytes of numbers in Ledger/Seal/Bytes.antt and the chain in Ledger/Seal/Walk.antt.
-- - Kernel/Tx.antt: `RunTx` of internal/kernel/db/tx.go. Kernel/Idempotency.antt:
--   internal/kernel/idempotency, with the step relation of its requests in
--   Kernel/Idempotency/Kept.antt.
-- - Kernel/Delivery.antt: internal/kernel/events/dispatch.go, with `claim` and `send` in
--   Delivery/Sends.antt, and the properties in Delivery/Lasting.antt and
--   Delivery/Reachable.antt.
-- - Tests.antt: tests on concrete data, and an instance of each result that has hypotheses.
--
-- Numbers: Go's uint64 words are numbers with the wrap-around written out; `int64` versions are
-- their bit patterns. An id is the number of a UUID. A time is a number of nanoseconds since
-- Go's zero time. Loops are structural recursions over lists and need no fuel, except the
-- writing of digits, which has 20 rounds: one for each digit that a word can have, the `drain`
-- of the batcher, which has a round for each request that waits, the recursive queries of
-- categories, which have seven rounds (the source's bound on their depth), and `RunTx`, which
-- has as many rounds as the source has attempts.
--
-- Errors: an `Error` is the sentinel that errors.Is finds; message texts are left out. A nil
-- pointer dereference is the error `nil_account`. Go iterates over maps in any order; the model
-- takes the order of the association list, which only decides which of several errors is
-- reported first, and the order of the accounts that are written and of their events.
--
-- Not under this repository: uuid.NewV7, whose outcomes are the argument `new_id`, the clock,
-- the argument `now`, SHA-256 and HMAC, which are functions on bytes, and
-- encoding/json/jsontext, whose token trees are `Json`. Transactions on the same rows follow
-- each other, as row locks make them; a retry runs the same function on the same store. How the
-- attempts of `RunTx` end and which database transactions of the batcher fail, also after a
-- commit that took effect, are arguments, `attempt` and `faults`.
--
-- Not modelled: lists and reads, settlements, the administration of monitors, the administration
-- and retention of events, the SQL checks of verify.go, rate limits (floating point), HTTP
-- handlers, SQL migrations, the web dashboard, logging, configuration and benchmarks.
pub mod Prelude
pub mod Result
pub mod Money
pub mod Ledger
pub mod Kernel
mod Tests

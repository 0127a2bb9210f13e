-- ===== src/Ledger/Types.antt =====
-- The data of internal/modules/ledger: types.go, types_transactions.go and types_accounts.go.
-- An id is the number that a UUID spells, 0 the nil UUID. A time is a number of nanoseconds.
use astrum.Prelude.{
  ◌≡◌, ◌↔◌, arith, ℕ, Bool, true, false, not, ◌||◌, Option, none, some, if◌then◌else◌,
}
use astrum.Prelude.Int.{ℤ, pos, ltb_ℤ, leb_ℤ, eqb_ℤ}
use astrum.Prelude.Eq.{Eq, Text, text_eq, text_beq_iff, ◌=?◌}
use astrum.Result.{Result, fail_if, ◌>>◌, balance_lock}
use astrum.Money.Amount.{Amount, cmp, neg}

abbrev pub Uuid : Type 0
Uuid = ℕ

abbrev pub nil_id : Uuid
nil_id = 0

abbrev pub Time : Type 0
Time = ℤ

abbrev pub Currency : Type 0
Currency = Text

-- A `Side` is a string; `other` is any but the two constants.
pub data Side : Type 0 where
  debit credit : Side
  other : Text → Side

unfoldable pub valid : Side → Bool
valid debit = true
valid credit = true
valid (other _) = false

unfoldable pub opposite : Side → Side
opposite debit = credit
opposite credit = debit
opposite (other _) = debit

abbrev pub is_debit : Side → Bool
is_debit debit = true
is_debit _ = false

abbrev pub is_credit : Side → Bool
is_credit credit = true
is_credit _ = false

unfoldable pub side_equal : Side → Side → Bool
side_equal debit debit = true
side_equal credit credit = true
side_equal (other s) (other t) = s =? t
side_equal _ _ = false

pub side_equal_iff : (s t : Side) → (side_equal s t ≡ true) ↔ (s ≡ t)
unfolding side_equal
side_equal_iff debit debit = ground arith
side_equal_iff debit credit = ground arith
side_equal_iff debit (other t) = ground arith
side_equal_iff credit debit = ground arith
side_equal_iff credit credit = ground arith
side_equal_iff credit (other t) = ground arith
side_equal_iff (other s) debit = ground arith
side_equal_iff (other s) credit = ground arith
side_equal_iff (other s) (other t) = ground (arith, text_beq_iff s t)

instance abbrev pub side_eq : Eq Side
side_eq = record { beq = side_equal; beq_iff = side_equal_iff }

pub data AccountStatus : Type 0 where
  open_status frozen closed : AccountStatus

-- `unset` is the empty string.
pub data TransactionStatus : Type 0 where
  unset pending posted archived : TransactionStatus
  other : Text → TransactionStatus

abbrev pub is_pending : TransactionStatus → Bool
is_pending pending = true
is_pending _ = false

abbrev pub is_posted : TransactionStatus → Bool
is_posted posted = true
is_posted _ = false

abbrev pub is_archived : TransactionStatus → Bool
is_archived archived = true
is_archived _ = false

pub record Balance : Type 0 where
  pub debits : Amount
  pub credits : Amount
  pub amount : Amount

pub record Balances : Type 0 where
  pub pending_balance : Balance
  pub posted_balance : Balance
  pub available_balance : Balance

pub record BalanceCondition : Type 0 where
  pub gt : Option Amount
  pub gte : Option Amount
  pub eq : Option Amount
  pub lt : Option Amount
  pub lte : Option Amount
  pub not_eq : Option Amount

-- one row of the table of `violation`
bound_violated : (ℤ → Bool) → Option Amount → Amount → Bool
bound_violated holds none v = false
bound_violated holds (some b) v = not (holds (cmp v b))

-- `true` where the source answers a message, `false` where it answers the empty string
unfoldable pub violation : Option BalanceCondition → Amount → Bool
unfolding bound_violated
violation none v = false
violation (some c) v =
    bound_violated (λ d. ltb_ℤ (pos 0) d) c.gt v
    || bound_violated (λ d. leb_ℤ (pos 0) d) c.gte v
    || bound_violated (λ d. eqb_ℤ d (pos 0)) c.eq v
    || bound_violated (λ d. ltb_ℤ d (pos 0)) c.lt v
    || bound_violated (λ d. leb_ℤ d (pos 0)) c.lte v
    || bound_violated (λ d. not (eqb_ℤ d (pos 0))) c.not_eq v

pub record Posting : Type 0 where
  pub account_id : Uuid
  pub side : Side
  pub amount : Amount
  pub currency : Currency
  pub pending_lock : Option BalanceCondition
  pub posted_lock : Option BalanceCondition
  pub available_lock : Option BalanceCondition
  pub lock_version : Option ℕ
  pub resulting : Option Balances
  pub balance_after : Amount

unfoldable pub check_locks : Posting → Balances → Result (Unit {0})
check_locks p b = do
  fail_if (violation p.pending_lock b.pending_balance.amount) balance_lock
  fail_if (violation p.posted_lock b.posted_balance.amount) balance_lock
  fail_if (violation p.available_lock b.available_balance.amount) balance_lock

unfoldable pub signed_amount : Posting → Amount
signed_amount p = if is_credit p.side then neg p.amount else p.amount

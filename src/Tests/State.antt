-- ===== src/Tests/State.antt =====
-- Transitions of a small ledger: tests and instances.
use astrum.Prelude.{ℕ, ◌≡◌, refl, Bool, true, false, none, some, List, [], ◌∷◌, arith}
use astrum.Prelude.Eq.{nat_eq, text_beq}
use astrum.Prelude.Map.{lookup, insert, copy}
use astrum.Result.{Result, ok, err}
use astrum.Money.Amount.{
  Amount, zero_amount, max_amount, sign, abs, neg, cmp, add, sub, checked, is_zero,
}
use astrum.Money.Amount.Value.{value}
use astrum.Ledger.Types.{
  Uuid, Side, debit, credit, Currency, open_status, posted, Posting, Balance, Balances, valid,
  violation, check_locks, signed_amount,
}
use astrum.Ledger.Account.{
  AccountState, available, available_parts, sum_amounts, balance, balances, check_funds, check_open,
  posted_net,
}
use astrum.Ledger.Account.Sound.{IsSound}
use astrum.Ledger.Account.Views.{ShowsAccount, balances-ShowsAccount}
use astrum.Ledger.State.{
  Accounts, BalanceChange, unpend_one, staged_account, record_posting, add_entry, add_entries,
  check_balanced, release_all, release_amount, unpend, check_resulting_locks, check_all_funds,
  bump_all, commit, start, transition,
}
use astrum.Ledger.State.Refines.{
  AreSound, EachSound-AreSound, TotalAmounts, Changed, transition-Changed,
}
use astrum.Ledger.State.Balanced.{debits_in, credits_in}
use astrum.Ledger.State.Entries.{All, Locked, transition_balanced, transition-Locked}

abbrev pub units : ℕ → Amount
units n = record { hi = 0; lo = n }

-- "USD"
abbrev pub usd : Currency
usd = 85 ∷ 83 ∷ 68 ∷ []

abbrev no_balance : Balance
no_balance = record { debits = zero_amount; credits = zero_amount; amount = zero_amount }

abbrev pub account_of : Uuid → Side → Bool → AccountState
account_of id side allow = record {
  id = id;
  ledger_id = 9;
  closed_before = none;
  currency = usd;
  normal_side = side;
  status = open_status;
  allow_negative = allow;
  overdraft_limit = zero_amount;
  posted_debits = units 100;
  posted_credits = units 0;
  pending_debits = units 0;
  pending_credits = units 10;
  held = units 20;
  version = 1;
  original_version = 1;
}

-- a debit account with 70 available, and a credit account that may go below zero
abbrev pub two_accounts : Accounts
two_accounts = (1, account_of 1 debit false) ∷ (2, account_of 2 credit true) ∷ []

abbrev pub entry : Uuid → Side → ℕ → Posting
entry id side n = record {
  account_id = id;
  side = side;
  amount = units n;
  currency = [];
  pending_lock = none;
  posted_lock = none;
  available_lock = none;
  lock_version = none;
  resulting = none;
  balance_after = zero_amount;
}

-- 30 from account 1 to account 2, with a hold of 20 released
abbrev payment : BalanceChange
payment = record {
  ledger_id = 0;
  unpend_postings = entry 1 credit 10 ∷ [];
  add_postings = entry 1 credit 30 ∷ entry 2 debit 30 ∷ [];
  status = posted;
  releases = (1, units 20) ∷ [];
}

unfoldable pub ok_or {ℓ} : {A : Type ℓ} → Result A → A → A
ok_or (ok a) d = a
ok_or (err e) d = d

-- what the payment comes to
paid : Accounts × Uuid × List Posting
paid = ok_or (transition payment two_accounts) ([], 0, [])

payment_succeeds : transition payment two_accounts ≡ ok paid
unfolding paid ok_or transition unpend unpend_one staged_account add_entries add_entry
    record_posting posted_net check_open check_balanced release_all release_amount
    check_resulting_locks check_locks violation commit check_all_funds check_funds available
    available_parts sum_amounts balance balances bump_all start signed_amount lookup insert copy
    text_beq add sub checked sign abs neg cmp max_amount is_zero
payment_succeeds = refl

pub two_accounts-AreSound : AreSound two_accounts
unfolding value
two_accounts-AreSound = EachSound-AreSound two_accounts (omega arith)

payment-TotalAmounts : TotalAmounts payment
unfolding value
payment-TotalAmounts = omega arith

transition-Changed_example :
    (b : AccountState) × (lookup 1 paid.0 ≡ some b)
    × IsSound b
    × Changed 1 payment (account_of 1 debit false) b
unfolding lookup
transition-Changed_example =
    transition-Changed payment two_accounts two_accounts-AreSound payment-TotalAmounts
      payment_succeeds 1 (account_of 1 debit false) refl

transition_balanced_example : debits_in usd paid.2 ≡ credits_in usd paid.2
unfolding valid
transition_balanced_example =
    transition_balanced payment two_accounts two_accounts-AreSound payment-TotalAmounts
      (refl, (refl, tt)) payment_succeeds usd

transition-Locked_example : All (Locked paid.0) paid.2
transition-Locked_example = transition-Locked payment two_accounts payment_succeeds

shown : Balances
shown = ok_or (balances (account_of 1 debit false)) (record {
  pending_balance = no_balance;
  posted_balance = no_balance;
  available_balance = no_balance;
})

shown_lem : balances (account_of 1 debit false) ≡ ok shown
unfolding shown ok_or balances balance add sub checked sign abs neg cmp max_amount
shown_lem = refl

balances-ShowsAccount_example : ShowsAccount (account_of 1 debit false) shown
unfolding valid lookup
balances-ShowsAccount_example =
    balances-ShowsAccount (account_of 1 debit false)
      (two_accounts-AreSound 1 (account_of 1 debit false) refl) refl shown_lem

-- ===== src/Ledger/State/Tally.antt =====
-- What a ledger promises of an account, over plain numbers: the specification that the transitions
-- of internal/modules/ledger/state.go implement.
use astrum.Prelude.{
  ℕ, ◌+◌, ◌-◌, Bool, true, false, ◌==◌, leb, Option, none, some, List, [], ◌∷◌, if◌then◌else◌, ◌&&◌,
}
use astrum.Prelude.Map.{Map}
use astrum.Money.Amount.{Amount}
use astrum.Money.Amount.Totals.{size}
use astrum.Ledger.Types.{Uuid, Side, is_debit, is_credit, TransactionStatus, is_pending, Posting}
use astrum.Ledger.Account.{AccountState}
use astrum.Ledger.State.{BalanceChange}

pub record Tally : Type 0 where
  pub posted_debits : ℕ
  pub posted_credits : ℕ
  pub pending_debits : ℕ
  pub pending_credits : ℕ
  pub held : ℕ

abbrev pub tally : AccountState → Tally
tally a = record {
  posted_debits = size a.posted_debits;
  posted_credits = size a.posted_credits;
  pending_debits = size a.pending_debits;
  pending_credits = size a.pending_credits;
  held = size a.held;
}

-- An entry of `n` on a side adds to the pending totals while it is pending, and to the posted ones
-- otherwise.
unfoldable pub book : TransactionStatus → Side → ℕ → Tally → Tally
book status s n t =
    if is_pending status && is_debit s
    then record t { pending_debits = t.pending_debits + n }
    else if is_pending status
    then record t { pending_credits = t.pending_credits + n }
    else if is_debit s
    then record t { posted_debits = t.posted_debits + n }
    else record t { posted_credits = t.posted_credits + n }

-- A pending entry is taken back only where as much is pending.
unfoldable pub unbook : Side → ℕ → Tally → Option Tally
unbook s n t =
    if is_credit s
    then (if leb n t.pending_credits
        then some (record t { pending_credits = t.pending_credits - n })
        else none)
    else (if leb n t.pending_debits
        then some (record t { pending_debits = t.pending_debits - n })
        else none)

-- Held funds are freed only where as much is held.
unfoldable pub free : ℕ → Tally → Option Tally
free n t = if leb n t.held then some (record t { held = t.held - n }) else none

abbrev pub then_on : Bool → (Tally → Option Tally) → Tally → Option Tally
then_on true f t = f t
then_on false f t = some t

infixl 5 ◌>=>◌
abbrev pub ◌>=>◌ : Option Tally → (Tally → Option Tally) → Option Tally
none >=> f = none
some t >=> f = f t

-- What the entries do to the account `j`: each is booked where it names that account.
unfoldable pub book_all : Uuid → TransactionStatus → List Posting → Tally → Tally
book_all j status [] t = t
book_all j status (p ∷ ps) t =
    book_all j status ps (if p.account_id == j then book status p.side (size p.amount) t else t)

unfoldable pub unbook_all : Uuid → List Posting → Tally → Option Tally
unbook_all j [] t = some t
unbook_all j (p ∷ ps) t =
    then_on (p.account_id == j) (unbook p.side (size p.amount)) t >=> unbook_all j ps

unfoldable pub free_all : Uuid → Map Uuid Amount → Tally → Option Tally
free_all j [] t = some t
free_all j ((id, n) ∷ m) t = then_on (id == j) (free (size n)) t >=> free_all j m

-- The change as a whole: pending entries back, new entries in, held funds free.
unfoldable pub change : Uuid → BalanceChange → Tally → Option Tally
change j c t = unbook_all j c.unpend_postings t >=> λ u.
    free_all j c.releases (book_all j c.status c.add_postings u)

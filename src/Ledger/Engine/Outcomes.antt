-- ===== src/Ledger/Engine/Outcomes.antt =====
-- The outcomes of `runRequests` on accounts whose totals are sound.
use astrum.Prelude.{
  ℕ, ◌≡◌, refl, ap, subst, inl, inr, Bool, true, false, ◌==◌, Bool-cases, some_unique, List, [],
  ◌∷◌, map,
}
use astrum.Prelude.Eq.{nat_eq}
use astrum.Prelude.Map.{lookup, insert}
use astrum.Result.{Result, ok, err, ◌>>=◌, ok_unique}
use astrum.Ledger.Types.{Uuid, Time}
use astrum.Ledger.Account.{AccountState}
use astrum.Ledger.Account.Sound.{IsSound}
use astrum.Ledger.State.{Accounts}
use astrum.Ledger.State.Refines.{AreSound}
use astrum.Ledger.State.Entries.{All}
use astrum.Ledger.Monitors.{LedgerState, index_accounts, new_ledger_state}
use astrum.Ledger.Requests.{PostingRequest}
use astrum.Ledger.Store.{Store, is_among, locked_accounts, lock_accounts}
use astrum.Ledger.Engine.{
  PostingResult, unresolved, created, replayed, failed, Batch, accepted, write_batch, first_batch,
  conclude, apply_requests, request_accounts, abort_one, deliver, run_requests,
}
use astrum.Ledger.Engine.Sound.{IsRegular, IsProper, resolve_all-IsProper}

-- Each account of the table is sound.
abbrev pub AllSound : Accounts → Type 0
AllSound m = All (λ (p : Uuid × AccountState). IsSound p.1) m

locked_accounts-AllSound :
    (ids : List Uuid) (m : Accounts) → AllSound m → All IsSound (locked_accounts ids m)
unfolding locked_accounts
locked_accounts-AllSound ids [] s = tt
locked_accounts-AllSound ids ((id, a) ∷ m) s = elim (Bool-cases (is_among id ids)) [
  | inl e ↦ rw e (s.0, locked_accounts-AllSound ids m s.1)
  | inr e ↦ rw e (locked_accounts-AllSound ids m s.1)
]

insert-AllSound :
    (id : Uuid) (a : AccountState) (m : Accounts)
    → IsSound a
    → AllSound m
    → AllSound (insert id a m)
unfolding insert
insert-AllSound id a [] s k = (s, tt)
insert-AllSound id a ((j, b) ∷ m) s k = elim (Bool-cases (j == id)) [
  | inl e ↦ rw e (s, k.1)
  | inr e ↦ rw e (k.0, insert-AllSound id a m s k.1)
]

read-IsSound : (a : AccountState) → IsSound a → IsSound (record a { original_version = a.version })
read-IsSound a s = record {
  posted_debits = s.posted_debits;
  posted_credits = s.posted_credits;
  pending_debits = s.pending_debits;
  pending_credits = s.pending_credits;
  held = s.held;
  overdraft_limit = s.overdraft_limit;
}

index_accounts-AllSound :
    (as' : List AccountState) (m : Accounts)
    → All IsSound as'
    → AllSound m
    → AllSound (index_accounts as' m)
unfolding index_accounts
index_accounts-AllSound [] m s k = k
index_accounts-AllSound (a ∷ as') m s k =
    index_accounts-AllSound as' _ s.1 (insert-AllSound a.id _ m (read-IsSound a s.0) k)

AllSound-AreSound : (m : Accounts) → AllSound m → AreSound m
unfolding lookup
AllSound-AreSound [] s j a e = absurd (cc)
AllSound-AreSound ((i, b) ∷ m) s j a e = elim (Bool-cases (i == j)) [
  | inl f ↦ subst IsSound (some_unique refl (rw f at e)) s.0
  | inr f ↦ AllSound-AreSound m s.1 j a (rw f at e)
]

pub lock_accounts-AreSound :
    (ids : List Uuid) (s : Store) → AllSound s.accounts → AreSound (lock_accounts ids s).accounts
unfolding lock_accounts new_ledger_state
lock_accounts-AreSound ids s k = AllSound-AreSound _ (
    index_accounts-AllSound (locked_accounts ids s.accounts) []
      (locked_accounts-AllSound ids s.accounts k) tt)

abort_one-IsProper : (rs : List PostingResult) → All IsProper (map abort_one rs)
abort_one-IsProper [] = tt
abort_one-IsProper (created t ∷ rs) = (tt, abort_one-IsProper rs)
abort_one-IsProper (replayed t ∷ rs) = (tt, abort_one-IsProper rs)
abort_one-IsProper (failed e ∷ rs) = (tt, abort_one-IsProper rs)
abort_one-IsProper (unresolved ∷ rs) = (tt, abort_one-IsProper rs)

-- the results that come out are those of the loop, or are all aborted
deliver-IsProper :
    (state : LedgerState) (s : Store) (x : List PostingResult × Bool × Batch) {s' : Store}
    {rs : List PostingResult}
    → All IsProper x.0
    → deliver s (conclude state s x) ≡ (s', ok rs)
    → All IsProper rs
unfolding deliver conclude
deliver-IsProper state s (results, true, b) k h =
    subst (All IsProper) (ok_unique refl (ap (λ (x : Store × Result (List PostingResult)). x.1) h))
      (abort_one-IsProper results)
deliver-IsProper state s (results, false, b) {s'} {rs} k h =
    written (write_batch (accepted results) (record state { accounts = b.accounts }) s) h
  where
    written :
        (m : Result Store)
        → deliver s (m >>= λ t. ok (t, results, false)) ≡ (s', ok rs)
        → All IsProper rs
    written (ok t) f =
        subst (All IsProper)
          (ok_unique refl (ap (λ (x : Store × Result (List PostingResult)). x.1) f)) k
    written (err e) f =
        let never : err e ≡ ok rs = ap (λ (x : Store × Result (List PostingResult)). x.1) f in
        absurd (cc)

pub run_requests-IsProper :
    (new_id : ℕ → Result Uuid) (now : Time) (atomic : Bool) (reqs : List PostingRequest) (s : Store)
    {s' : Store} {rs : List PostingResult}
    → AllSound s.accounts
    → All IsRegular reqs
    → run_requests new_id now atomic reqs s ≡ (s', ok rs)
    → All IsProper rs
unfolding run_requests apply_requests
run_requests-IsProper new_id now atomic reqs s k g h =
    let state = lock_accounts (request_accounts reqs) s in
    let sound = lock_accounts-AreSound (request_accounts reqs) s k in
    let (proper, after) =
      resolve_all-IsProper s.transactions new_id now atomic 0 reqs (first_batch state s) g sound in
    deliver-IsProper state s _ proper h

-- ===== src/Ledger/Monitors/Indexed.antt =====
-- The index of monitors of `newLedgerState` in internal/modules/ledger/state.go, and what it is for a
-- monitor to cross its condition.
use mathlib.Core.List.{Memᴰ}
use mathlib.Core.List.Memᴰ
use astrum.Prelude.{
  ◌≡◌, refl, sym, subst, ◌==◌, ==_iff, true, false, some, List, [], ◌∷◌, ◌++◌, Bool-cases, inl, inr,
}
use astrum.Prelude.Eq.{nat_eq}
use astrum.Prelude.Map.{Map, lookup, insert}
use astrum.Result.{ok}
use astrum.Ledger.Types.{Uuid, Balances}
use astrum.Ledger.Account.{AccountState, balances, dirty}
use astrum.Ledger.State.Entries.{All}
use astrum.Ledger.Monitors.{
  BalanceMonitor, LedgerState, watchers, condition_holds, index_monitors, new_ledger_state,
}

-- The monitors that stand under each account are those of the account.
abbrev pub IsIndexed : Map Uuid (List BalanceMonitor) → Type 0
IsIndexed [] = Unit
IsIndexed ((k, ws) ∷ m) = All (λ (w : BalanceMonitor). w.account_id ≡ k) ws × IsIndexed m

-- The monitor is one of the account's own, which is one of the changed accounts of the state. Its
-- condition did not hold on the account's balances before, and it holds on those after, which are
-- reported with the monitor, which is marked as triggered.
pub record Crosses (s : LedgerState) (r : BalanceMonitor × Balances) : Type 0 where
  pub key : Uuid
  pub account : AccountState
  pub listed : Memᴰ (key, account) s.accounts
  pub monitor : BalanceMonitor
  pub watches : Memᴰ monitor (watchers account.id s.monitors)
  pub owned : monitor.account_id ≡ account.id
  pub original : AccountState
  pub before : Balances
  pub changed : dirty account ≡ true
  pub found : lookup account.id s.original ≡ some original
  pub was : balances original ≡ ok before
  pub now : balances account ≡ ok r.1
  pub failed : condition_holds monitor.condition before ≡ false
  pub holds : condition_holds monitor.condition r.1 ≡ true
  pub marked : r.0 ≡ record monitor { triggered = true }

pub member-All : {A : Type 0} (P : A → Type 0) {x : A} {xs : List A} → All P xs → Memᴰ x xs → P x
member-All P {xs = []} p i = absurd (Memᴰ.not-nil i)
member-All P {xs = y ∷ ys} p i = elim (Memᴰ.cases_cons i) [
  | inl e ↦ subst P (sym e) p.0
  | inr j ↦ member-All P p.1 j
]

pub watchers-owned :
    (id : Uuid) (m : Map Uuid (List BalanceMonitor))
    → IsIndexed m
    → All (λ (w : BalanceMonitor). w.account_id ≡ id) (watchers id m)
unfolding lookup
watchers-owned id [] h = tt
watchers-owned id ((k, ws) ∷ m) h = elim (Bool-cases (k == id)) [
  | inl e ↦
      rw (All, e)
        (subst (λ j. All (λ (w : BalanceMonitor). w.account_id ≡ j) ws) ((==_iff k id).0 e) h.0)
  | inr e ↦ rw (All, e) (watchers-owned id m h.1)
]

insert-IsIndexed :
    (id : Uuid) (ws : List BalanceMonitor) (m : Map Uuid (List BalanceMonitor))
    → All (λ (w : BalanceMonitor). w.account_id ≡ id) ws
    → IsIndexed m
    → IsIndexed (insert id ws m)
unfolding insert
insert-IsIndexed id ws [] a h = (a, tt)
insert-IsIndexed id ws ((k, vs) ∷ m) a h = elim (Bool-cases (k == id)) [
  | inl e ↦ rw e (a, h.1)
  | inr e ↦ rw e (h.0, insert-IsIndexed id ws m a h.1)
]

pub append-All {ℓ} :
    {A : Type ℓ} (P : A → Type 0) (xs ys : List A) → All P xs → All P ys → All P (xs ++ ys)
append-All P [] ys p q = q
append-All P (x ∷ xs) ys p q = (p.0, append-All P xs ys p.1 q)

index_monitors-IsIndexed :
    (ws : List BalanceMonitor) (m : Map Uuid (List BalanceMonitor))
    → IsIndexed m
    → IsIndexed (index_monitors ws m)
unfolding index_monitors
index_monitors-IsIndexed [] m h = h
index_monitors-IsIndexed (w ∷ ws) m h =
    index_monitors-IsIndexed ws (insert w.account_id (watchers w.account_id m ++ w ∷ []) m) (
      insert-IsIndexed w.account_id (watchers w.account_id m ++ w ∷ []) m
        (append-All (λ (x : BalanceMonitor). x.account_id ≡ w.account_id) (watchers w.account_id m)
          (w ∷ []) (watchers-owned w.account_id m h) (refl, tt))
        h)

-- The index that `new_ledger_state` makes has under each account its own monitors.
pub new_ledger_state-IsIndexed :
    (accounts : List AccountState) (monitors : List BalanceMonitor)
    → IsIndexed (new_ledger_state accounts monitors).monitors
unfolding new_ledger_state
new_ledger_state-IsIndexed accounts monitors = index_monitors-IsIndexed monitors [] tt

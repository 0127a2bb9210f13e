-- ===== src/Ledger/Monitors/Crossings.antt =====
-- What `crossed` of internal/modules/ledger/state.go reports.
use mathlib.Core.List.{Memᴰ}
use astrum.Prelude.{
  ◌≡◌, refl, sym, subst, Bool, true, false, not, ◌&&◌, some, List, [], ◌∷◌, ◌++◌, Bool-cases, inl,
  inr, if◌then◌else◌,
}
use astrum.Prelude.Eq.{nat_eq}
use astrum.Prelude.Map.{lookup}
use astrum.Result.{ok, ◌>>=◌, >>=-elim, ok_unique, nil_account}
use astrum.Ledger.Types.{Uuid, Balances}
use astrum.Ledger.Account.{AccountState, balances, dirty}
use astrum.Ledger.State.{Accounts, or_err}
use astrum.Ledger.State.Commit.{or_err-eq-ok}
use astrum.Ledger.State.Entries.{All}
use astrum.Ledger.Monitors.{
  BalanceMonitor, LedgerState, watchers, condition_holds, dirty_accounts, fire, crossed_from,
  crossed,
}
use astrum.Ledger.Monitors.Indexed.{IsIndexed, Crosses, member-All, watchers-owned, append-All}
use astrum.Ledger.Monitors.Complete.{crossed_from-reports, dirty_accounts-lists}

-- A changed account that the state lists.
abbrev Listed : LedgerState → AccountState → Type 0
Listed s a = (dirty a ≡ true) × ((key : Uuid) × Memᴰ (key, a) s.accounts)

module _ (s : LedgerState) (indexed : IsIndexed s.monitors) where
  module _ (a o : AccountState) (before after : Balances) (d : Listed s a)
      (f : lookup a.id s.original ≡ some o) (w : balances o ≡ ok before)
      (n : balances a ≡ ok after) where
    fire-Crosses :
        (ws : List BalanceMonitor)
        → ((m : BalanceMonitor) → Memᴰ m ws → Memᴰ m (watchers a.id s.monitors))
        → All (Crosses s) (fire before after ws)
    unfolding fire
    fire-Crosses [] own = tt
    fire-Crosses (m ∷ ws) own =
        fired (condition_holds m.condition before) (condition_holds m.condition after) refl refl
          (fire-Crosses ws (λ x i. own x (Memᴰ.tail i)))
      where
        mine : Memᴰ m (watchers a.id s.monitors)
        mine = own m (Memᴰ.head refl)

        fired :
            (b c : Bool)
            → condition_holds m.condition before ≡ b
            → condition_holds m.condition after ≡ c
            → All (Crosses s) (fire before after ws)
            → All (Crosses s) (
                if not b && c
                then (record m { triggered = true }, after) ∷ fire before after ws
                else fire before after ws)
        fired true c x y rest = rest
        fired false false x y rest = rest
        fired false true x y rest = (
          record {
            key = d.1.0;
            account = a;
            listed = d.1.1;
            monitor = m;
            watches = mine;
            owned =
                member-All (λ (v : BalanceMonitor). v.account_id ≡ a.id)
                  (watchers-owned a.id s.monitors indexed) mine;
            original = o;
            before = before;
            changed = d.0;
            found = f;
            was = w;
            now = n;
            failed = x;
            holds = y;
            marked = refl;
          },
          rest,
        )

  crossed_from-Crosses :
      (as' : List AccountState) {rs : List (BalanceMonitor × Balances)}
      → All (Listed s) as'
      → crossed_from s as' ≡ ok rs
      → All (Crosses s) rs
  unfolding crossed_from
  crossed_from-Crosses [] {rs} d h = subst (All (Crosses s)) (ok_unique refl h) tt
  crossed_from-Crosses (a ∷ as') {rs} d h =
      watched (watchers a.id s.monitors) refl (λ rest. crossed_from-Crosses as' {rs = rest} d.1) h
    where
      watched :
          (ws : List BalanceMonitor)
          → watchers a.id s.monitors ≡ ws
          → ((rest : List (BalanceMonitor × Balances))
              → crossed_from s as' ≡ ok rest
              → All (Crosses s) rest)
          → elim ws [
            | [] ↦ crossed_from s as'
            | w ∷ ws' ↦ or_err (lookup a.id s.original) nil_account >>= λ o.
                balances o >>= λ before. balances a >>= λ after.
                crossed_from s as' >>= λ rest. ok (fire before after (w ∷ ws') ++ rest)
          ]
            ≡ ok rs
          → All (Crosses s) rs
      watched [] own others k = others rs k
      watched (w ∷ ws') own others k =
          >>=-elim (or_err (lookup a.id s.original) nil_account) _ k λ o eo k1.
            >>=-elim (balances o) _ k1 λ before eb k2. >>=-elim (balances a) _ k2 λ after ea k3.
              >>=-elim (crossed_from s as') _ k3 λ rest er k4.
                subst (All (Crosses s)) (ok_unique refl k4) (
                  append-All (Crosses s) (fire before after (w ∷ ws')) rest
                    (fire-Crosses a o before after d.0
                      (or_err-eq-ok nil_account (lookup a.id s.original) eo) eb ea (w ∷ ws')
                      (λ m i. subst (λ (l : List BalanceMonitor). Memᴰ m l) (sym own) i))
                    (others rest er))

dirty_accounts-Listed :
    (s : LedgerState) (m : Accounts)
    → ((x : Uuid × AccountState) → Memᴰ x m → Memᴰ x s.accounts)
    → All (Listed s) (dirty_accounts m)
unfolding dirty_accounts
dirty_accounts-Listed s [] own = tt
dirty_accounts-Listed s ((k, a) ∷ m) own =
    let rest = dirty_accounts-Listed s m (λ x i. own x (Memᴰ.tail i)) in
    elim (Bool-cases (dirty a)) [
      | inl e ↦ rw e ((e, (k, own (k, a) (Memᴰ.head refl))), rest)
      | inr e ↦ rw e rest
    ]

-- In a state whose index has under each account its own monitors, `crossed` reports, as triggered,
-- exactly the monitors of the state's changed accounts whose condition did not hold on the balances of
-- the account before and holds on those after, which are reported.
pub crossed-Crosses :
    (s : LedgerState) {rs : List (BalanceMonitor × Balances)}
    → IsIndexed s.monitors
    → crossed s ≡ ok rs
    → All (Crosses s) rs × ((r : BalanceMonitor × Balances) → Crosses s r → Memᴰ r rs)
unfolding crossed
crossed-Crosses s indexed h = (
  crossed_from-Crosses s indexed (dirty_accounts s.accounts)
      (dirty_accounts-Listed s s.accounts (λ x i. i)) h,
  λ r c.
      crossed_from-reports s (dirty_accounts s.accounts) c
        (dirty_accounts-lists s.accounts c.listed c.changed) h,
)

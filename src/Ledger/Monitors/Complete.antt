-- ===== src/Ledger/Monitors/Complete.antt =====
-- The loops of `crossed` of internal/modules/ledger/state.go, over the monitors that cross.
use mathlib.Core.List.{Memᴰ}
use mathlib.Core.List.Memᴰ
use astrum.Prelude.{
  ◌≡◌, refl, sym, ap, subst, ◌∙◌, Bool, true, false, not, ◌&&◌, some, some_unique, List, [], ◌∷◌,
  ◌++◌, Bool-cases, ◌⊎◌, inl, inr, if◌then◌else◌,
}
use astrum.Prelude.Eq.{nat_eq}
use astrum.Prelude.Map.{lookup}
use astrum.Result.{ok, ◌>>=◌, >>=-elim, ok_unique, nil_account}
use astrum.Ledger.Types.{Uuid, Balances}
use astrum.Ledger.Account.{AccountState, balances, dirty}
use astrum.Ledger.State.{Accounts, or_err}
use astrum.Ledger.State.Commit.{or_err-eq-ok}
use astrum.Ledger.Monitors.{
  BalanceMonitor, LedgerState, watchers, condition_holds, dirty_accounts, fire, crossed_from,
}
use astrum.Ledger.Monitors.Indexed.{Crosses}

pub dirty_accounts-lists :
    (m : Accounts) {k : Uuid} {a : AccountState}
    → Memᴰ (k, a) m
    → dirty a ≡ true
    → Memᴰ a (dirty_accounts m)
unfolding dirty_accounts
dirty_accounts-lists [] i d = absurd (Memᴰ.not-nil i)
dirty_accounts-lists ((j, b) ∷ m) {k} {a} i d = elim (Bool-cases (dirty b)) [
  | inl e ↦ rw e (elim (Memᴰ.cases_cons i) [
    | inl same ↦ Memᴰ.head (ap (λ (x : Uuid × AccountState). x.1) same)
    | inr l ↦ Memᴰ.tail (dirty_accounts-lists m l d)
  ])
  | inr e ↦ rw e (elim (Memᴰ.cases_cons i) [
    | inl same ↦
        let other : a ≡ b = ap (λ (x : Uuid × AccountState). x.1) same in
        let no : dirty b ≡ true = subst (λ x. dirty x ≡ true) other d in absurd (cc)
    | inr l ↦ dirty_accounts-lists m l d
  ])
]

fire-reports :
    (before after : Balances) (ws : List BalanceMonitor) {m : BalanceMonitor}
    → Memᴰ m ws
    → condition_holds m.condition before ≡ false
    → condition_holds m.condition after ≡ true
    → Memᴰ (record m { triggered = true }, after) (fire before after ws)
unfolding fire
fire-reports before after [] i f h = absurd (Memᴰ.not-nil i)
fire-reports before after (w ∷ ws) {m} i f h = elim (Memᴰ.cases_cons i) [
  | inl same ↦
      let f' : condition_holds w.condition before ≡ false =
        subst (λ (x : BalanceMonitor). condition_holds x.condition before ≡ false) same f in
      let h' : condition_holds w.condition after ≡ true =
        subst (λ (x : BalanceMonitor). condition_holds x.condition after ≡ true) same h in
      rw (f', h')
        (Memᴰ.head (ap (λ (x : BalanceMonitor). (record x { triggered = true }, after)) same))
  | inr l ↦
      skipped (not (condition_holds w.condition before) && condition_holds w.condition after)
        (fire-reports before after ws l f h)
]
  where
    skipped :
        (b : Bool)
        → Memᴰ (record m { triggered = true }, after) (fire before after ws)
        → Memᴰ
            (record m { triggered = true }, after)
            (if b
              then (record w { triggered = true }, after) ∷ fire before after ws
              else fire before after ws)
    skipped true l = Memᴰ.tail l
    skipped false l = l

-- the monitor of a crossing, among those of the account that the loop has reached
reached :
    (s : LedgerState) (a : AccountState) (ws : List BalanceMonitor) {r : BalanceMonitor × Balances}
    (c : Crosses s r) {o : AccountState} {before after : Balances}
    → c.account ≡ a
    → watchers a.id s.monitors ≡ ws
    → lookup a.id s.original ≡ some o
    → balances o ≡ ok before
    → balances a ≡ ok after
    → Memᴰ r (fire before after ws)
reached s a ws {r} c {o} {before} {after} same own found was now =
    let watches : Memᴰ c.monitor ws =
      subst (λ (l : List BalanceMonitor). Memᴰ c.monitor l)
        (ap (λ (x : AccountState). watchers x.id s.monitors) same ∙ own) c.watches in
    let original : c.original ≡ o =
      some_unique (sym (ap (λ (x : AccountState). lookup x.id s.original) same) ∙ c.found) found in
    let earlier : c.before ≡ before = ok_unique (sym (ap balances original) ∙ c.was) was in
    let later : r.1 ≡ after = ok_unique (sym (ap balances same) ∙ c.now) now in
    let f : condition_holds c.monitor.condition before ≡ false =
      subst (λ b. condition_holds c.monitor.condition b ≡ false) earlier c.failed in
    let h : condition_holds c.monitor.condition after ≡ true =
      subst (λ b. condition_holds c.monitor.condition b ≡ true) later c.holds in
    let reported : (record c.monitor { triggered = true }, after) ≡ r = cc in
    subst (λ (x : BalanceMonitor × Balances). Memᴰ x (fire before after ws)) reported
      (fire-reports before after ws watches f h)

pub crossed_from-reports :
    (s : LedgerState) (as' : List AccountState) {r : BalanceMonitor × Balances}
    {rs : List (BalanceMonitor × Balances)} (c : Crosses s r)
    → Memᴰ c.account as'
    → crossed_from s as' ≡ ok rs
    → Memᴰ r rs
unfolding crossed_from
crossed_from-reports s [] c i h = absurd (Memᴰ.not-nil i)
crossed_from-reports s (a ∷ as') {r} {rs} c i h =
    watched (watchers a.id s.monitors) refl (Memᴰ.cases_cons i)
      (λ l rest. crossed_from-reports s as' {rs = rest} c l) h
  where
    watched :
        (ws : List BalanceMonitor)
        → watchers a.id s.monitors ≡ ws
        → (c.account ≡ a) ⊎ Memᴰ c.account as'
        → (Memᴰ c.account as'
            → (rest : List (BalanceMonitor × Balances)) → crossed_from s as' ≡ ok rest
            → Memᴰ r rest)
        → elim ws [
          | [] ↦ crossed_from s as'
          | w ∷ ws' ↦ or_err (lookup a.id s.original) nil_account >>= λ o. balances o >>= λ before.
              balances a >>= λ after.
              crossed_from s as' >>= λ rest. ok (fire before after (w ∷ ws') ++ rest)
        ]
          ≡ ok rs
        → Memᴰ r rs
    watched [] own (inl same) others k =
        let none_here : Memᴰ c.monitor [] =
          subst (λ (l : List BalanceMonitor). Memᴰ c.monitor l)
            (ap (λ (x : AccountState). watchers x.id s.monitors) same ∙ own) c.watches in
        absurd (Memᴰ.not-nil none_here)
    watched [] own (inr l) others k = others l rs k
    watched (w ∷ ws') own place others k =
        >>=-elim (or_err (lookup a.id s.original) nil_account) _ k λ o eo k1.
          >>=-elim (balances o) _ k1 λ before eb k2. >>=-elim (balances a) _ k2 λ after ea k3.
            >>=-elim (crossed_from s as') _ k3 λ rest er k4.
              subst (λ (x : List (BalanceMonitor × Balances)). Memᴰ r x) (ok_unique refl k4)
                (elim place [
                  | inl same ↦ Memᴰ.append_left rest (
                      reached s a (w ∷ ws') c same own
                        (or_err-eq-ok nil_account (lookup a.id s.original) eo) eb ea)
                  | inr l ↦ Memᴰ.append_right (fire before after (w ∷ ws')) (others l rest er)
                ])

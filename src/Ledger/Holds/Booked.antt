-- ===== src/Ledger/Holds/Booked.antt =====
-- The accounts of the store after a transition on the locked ones was written: state.go and
-- store_accounts.go of internal/modules/ledger.
pub mod Written
use astrum.Prelude.{
  ◌≡◌, refl, sym, ap, ◌∙◌, subst, false, ◌==◌, none, some, List, [], ◌∷◌, Bool-cases, Option-cases,
  inl, inr, ==_iff, some_unique, arith,
}
use astrum.Prelude.Eq.{nat_eq}
use astrum.Prelude.Map.{lookup, insert, copy, lookup-insert}
use astrum.Result.{ok, >>=-elim, ok_unique}
use astrum.Ledger.Types.{Uuid, Posting}
use astrum.Ledger.Account.{AccountState}
use astrum.Ledger.Account.Sound.{IsSound}
use astrum.Ledger.State.{Accounts, BalanceChange, transition, commit, check_all_funds, bump_all}
use astrum.Ledger.State.Commit.{Committed, commit-Committed}
use astrum.Ledger.State.Refines.{
  AreSound, TotalAmounts, Run, transition-Run, Changed, transition-Changed,
}
use astrum.Ledger.Holds.Kept.{WellKeyed, WellKeyed-id}

-- No key stands twice.
abbrev HaveOneRow : Accounts → Type 0
HaveOneRow [] = Unit
HaveOneRow ((k, a) ∷ m) = (lookup k m ≡ none) × HaveOneRow m

WellKeyed-HaveOneRow : (m : Accounts) → WellKeyed m → HaveOneRow m
WellKeyed-HaveOneRow [] k = tt
WellKeyed-HaveOneRow ((i, a) ∷ m) k = (k.1, WellKeyed-HaveOneRow m k.2)

HaveOneRow-WellKeyed :
    (m : Accounts)
    → HaveOneRow m
    → ((j : Uuid) (a : AccountState) → lookup j m ≡ some a → a.id ≡ j)
    → WellKeyed m
unfolding lookup
HaveOneRow-WellKeyed [] k f = tt
HaveOneRow-WellKeyed ((i, a) ∷ m) k f = (
  f i a (ground arith),
  k.0,
  HaveOneRow-WellKeyed m k.1 (λ j b e. elim (Bool-cases (i == j)) [
    | inl w ↦
        let none_there : none ≡ some b =
          sym (ap (λ z. lookup z m) (sym ((==_iff i j).0 w)) ∙ k.0) ∙ e in
        absurd (cc)
    | inr w ↦ f j b (rw w e)
  ]),
)

insert-HaveOneRow :
    (k : Uuid) (v : AccountState) (m : Accounts) → HaveOneRow m → HaveOneRow (insert k v m)
unfolding insert lookup
insert-HaveOneRow k v [] h = (refl, tt)
insert-HaveOneRow k v ((i, w) ∷ m) h = elim (Bool-cases (i == k)) [
  | inl e ↦ rw e (ap (λ z. lookup z m) (sym ((==_iff i k).0 e)) ∙ h.0, h.1)
  | inr e ↦
      let other : (k == i) ≡ false = ground arith in
      rw e (lookup-insert i k v m ∙ rw other h.0, insert-HaveOneRow k v m h.1)
]

copy-HaveOneRow : (m n : Accounts) → HaveOneRow m → HaveOneRow (copy m n)
unfolding copy
copy-HaveOneRow m [] h = h
copy-HaveOneRow m ((k, v) ∷ n) h = insert-HaveOneRow k v (copy m n) (copy-HaveOneRow m n h)

commit-HaveOneRow :
    (accounts scratch : Accounts) {m : Accounts}
    → HaveOneRow accounts
    → commit accounts scratch ≡ ok m
    → HaveOneRow m
unfolding commit
commit-HaveOneRow accounts scratch k h =
    >>=-elim (check_all_funds accounts scratch) _ h
      λ u e h1. subst HaveOneRow (ok_unique refl h1) (copy-HaveOneRow accounts (bump_all scratch) k)

module _ (c : BalanceChange) (accounts : Accounts) {r : Accounts × Uuid × List Posting}
    (k : WellKeyed accounts) (s : AreSound accounts) (t : TotalAmounts c)
    (h : transition c accounts ≡ ok r) where
  -- an account after the transition was there before, and has changed as the specification says
  pub transition_origin :
      (j : Uuid) (b : AccountState)
      → lookup j r.0 ≡ some b
      → (a : AccountState) × (lookup j accounts ≡ some a) × IsSound b × Changed j c a b
  transition_origin j b e =
      let run = transition-Run c accounts h in
      let committed = commit-Committed accounts run.released.changed run.committing in
      let (a, f) = before run committed in
      let (b', f', sound, changed) = transition-Changed c accounts s t h j a f in
      let same : b' ≡ b = some_unique f' e in
      (a, f, subst IsSound same sound, subst (Changed j c a) same changed)
    where
      before :
          (run : Run c accounts r)
          → Committed accounts run.released.changed r.0
          → (a : AccountState) × (lookup j accounts ≡ some a)
      before run committed = elim (Option-cases (lookup j run.released.changed)) [
        | inl n ↦ (b, sym (committed.after j ∙ rw n refl) ∙ e)
        | inr (x, ex) ↦ let (a, f, _) = committed.tested j x ex in (a, f)
      ]

  pub transition-WellKeyed : WellKeyed r.0
  transition-WellKeyed =
      let run = transition-Run c accounts h in
      HaveOneRow-WellKeyed r.0
        (commit-HaveOneRow accounts run.released.changed (WellKeyed-HaveOneRow accounts k)
          run.committing)
        (λ j b e.
          let (a, f, _, changed) = transition_origin j b e in
          changed.id ∙ WellKeyed-id j accounts k f)

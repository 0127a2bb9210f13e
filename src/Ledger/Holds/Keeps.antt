-- ===== src/Ledger/Holds/Keeps.antt =====
-- `createHold` and `voidHold` keep what is held on each account the sum of its pending holds.
use astrum.Prelude.{
  is_some, ◌≡◌, refl, sym, ap, ◌∙◌, subst, Bool, true, false, Option, none, some, [], ◌∷◌, ◌++◌,
  if◌then◌else◌,
}
use astrum.Prelude.Eq.{nat_eq, text_eq}
use astrum.Prelude.Map.{lookup, insert}
use astrum.Result.{
  Result, ok, err, >>=-elim, passed, internal, ok_unique, not_found, nil_account,
  idempotency_conflict,
}
use astrum.Money.Amount.{Amount}
use astrum.Money.Amount.Totals.{IsTotal}
use astrum.Ledger.Account.{AccountState}
use astrum.Ledger.State.Refines.{AreSound}
use astrum.Ledger.Types.{Uuid, Time}
use astrum.Ledger.State.{reserve, release, or_err}
use astrum.Ledger.Requests.{truncate}
use astrum.Ledger.Store.{
  Store, Hold, HoldStatus, voided, pending, captured, expired, lock_accounts, write_accounts, emit,
  hold_by_id, hold_by_key, replace_hold, resolve_hold, hold_created, hold_voided,
}
use astrum.Ledger.Holds.{
  CreateHoldInput, new_hold, place_hold, create_keyed, create_hold, hold_matches, void_now, void_in,
  void_hold,
}
use astrum.Ledger.Holds.Kept.{
  IsKept, HaveUniqueIds, HaveUniqueIds-append, HaveUniqueIds-replace, EachTotal-hold_by_id,
}
use astrum.Ledger.Holds.Moves.{Moves, Moves-IsKept, Moves-AreSound, written_row}
use astrum.Ledger.Holds.Moves.Both.{reserve_row, release_row, write_row, create-Moves, void-Moves}

-- What the store `s` has become keeps all that the operations on holds rely on.
pub record Keeping (s s' : Store) : Type 0 where
  pub kept : IsKept s'
  pub sound : AreSound s.accounts → AreSound s'.accounts
  pub unique : HaveUniqueIds s.holds → HaveUniqueIds s'.holds

Keeping-refl : (s : Store) → IsKept s → Keeping s s
Keeping-refl s k = record { kept = k; sound = λ t. t; unique = λ u. u }

Moves-Keeping :
    (id : Uuid) (x : Amount) (s s' : Store) {a : AccountState}
    → IsKept s
    → lookup id s.accounts ≡ some a
    → s'.accounts ≡ insert id (written_row a x) s.accounts
    → Moves id x s.holds s'.holds
    → (HaveUniqueIds s.holds → HaveUniqueIds s'.holds)
    → Keeping s s'
Moves-Keeping id x s s' k e w m u = record {
  kept = Moves-IsKept id x s s' k e w m;
  sound = λ t. Moves-AreSound id x s s' t e w m;
  unique = u;
}

is_some-none : (o : Option Hold) → is_some o ≡ false → o ≡ none
is_some-none none e = refl
is_some-none (some h) e = absurd (cc)

module _ (new_id : Result Uuid) (now : Time) (i : CreateHoldInput) (s : Store) where
  place_hold-Keeping :
      {r : Store × Hold}
      → IsKept s
      → IsTotal i.amount
      → place_hold new_id now i s ≡ ok r
      → Keeping s r.0
  unfolding place_hold emit
  place_hold-Keeping {r} k t h =
      let state = lock_accounts (i.account_id ∷ []) s in
      >>=-elim (reserve i.account_id i.currency i.amount state.accounts) _ h λ m em h1.
        >>=-elim new_id _ h1 λ id eid h2.
          >>=-elim (or_err (lookup i.account_id m) nil_account) _ h2 λ b eb h3.
            let hold = new_hold id now b.currency i in
            let s1 = record s { holds = s.holds ++ hold ∷ [] } in
            let (unused, h4) = passed (is_some (hold_by_id id s.holds)) internal h3 in
            >>=-elim (write_accounts (record state { accounts = m }) s1) _ h4 λ s' es h5.
              let (a, x, e, f, w) = reserve_row i.account_id i.currency i.amount s k.keyed em in
              let written = write_row i.account_id state s1 x k.keyed e w es in
              subst (λ (y : Store × Hold). Keeping s y.0) (ok_unique refl h5)
                (Moves-Keeping i.account_id x s (emit (hold_created hold) s') k e written.accounts
                  (subst (Moves i.account_id x s.holds) (sym written.holds)
                    (create-Moves s hold x k e t refl f))
                  (λ u. subst HaveUniqueIds (sym written.holds) (
                    HaveUniqueIds-append s.holds hold (is_some-none (hold_by_id id s.holds) unused)
                      u)))

  create_keyed-Keeping :
      (o : Option Hold) {r : Store × Hold}
      → IsKept s
      → IsTotal i.amount
      → create_keyed new_id now i s o ≡ ok r
      → Keeping s r.0
  unfolding create_keyed
  create_keyed-Keeping (some g) {r} k t h = replayed_hold (hold_matches g i) h
    where
      replayed_hold :
          (c : Bool) → (if c then ok (s, g) else err idempotency_conflict) ≡ ok r → Keeping s r.0
      replayed_hold true w =
          subst (λ (y : Store × Hold). Keeping s y.0) (ok_unique refl w) (Keeping-refl s k)
      replayed_hold false w = absurd (cc)
  create_keyed-Keeping none k t h = place_hold-Keeping k t h

pub create_hold-Keeping :
    (new_id : Result Uuid) (now : Time) (i : CreateHoldInput) (s : Store) {r : Store × Hold}
    → IsKept s
    → IsTotal i.amount
    → create_hold new_id now i s ≡ ok r
    → Keeping s r.0
unfolding create_hold
create_hold-Keeping new_id now i s k t h =
    create_keyed-Keeping new_id now (record i { expires_at = truncate i.expires_at }) s
      (hold_by_key i.idempotency_key s.holds) k t h

-- `createHold` for an amount that is a total, where it succeeds, keeps what is held on each account
-- the sum of its pending holds, on keyed accounts with amounts that are totals.
pub create_hold-IsKept :
    (new_id : Result Uuid) (now : Time) (i : CreateHoldInput) (s : Store) {r : Store × Hold}
    → IsKept s
    → IsTotal i.amount
    → create_hold new_id now i s ≡ ok r
    → IsKept r.0
create_hold-IsKept new_id now i s k t h = (create_hold-Keeping new_id now i s k t h).kept

module _ (now : Time) (h : Hold) (s : Store) where
  void_now-Keeping :
      {r : Store × Hold}
      → IsKept s
      → hold_by_id h.id s.holds ≡ some h
      → h.status ≡ pending
      → void_now now h s ≡ ok r
      → Keeping s r.0
  unfolding void_now emit resolve_hold
  void_now-Keeping {r} k f p g =
      let state = lock_accounts (h.account_id ∷ []) s in
      >>=-elim (release h.account_id h.amount state.accounts) _ g λ m em g1.
        >>=-elim (write_accounts (record state { accounts = m }) s) _ g1 λ s' es g2.
          let (a, x, e, q, w) = release_row h.account_id h.amount s k.keyed em in
          let written = write_row h.account_id state s x k.keyed e w es in
          let h' = resolve_hold now voided none none h in
          let s2 = emit (hold_voided h') (record s' { holds = replace_hold h' s'.holds }) in
          subst (λ (y : Store × Hold). Keeping s y.0) (ok_unique refl g2)
            (Moves-Keeping h.account_id x s s2 k e written.accounts
              (subst (λ z. Moves h.account_id x s.holds (replace_hold h' z)) (sym written.holds)
                (void-Moves s h h' x k e f p refl refl q))
              (λ u.
                subst (λ z. HaveUniqueIds (replace_hold h' z)) (sym written.holds)
                  (HaveUniqueIds-replace s.holds h' u)))

  void_in-Keeping :
      (c : HoldStatus) {r : Store × Hold}
      → IsKept s
      → hold_by_id h.id s.holds ≡ some h
      → h.status ≡ c
      → void_in now h s c ≡ ok r
      → Keeping s r.0
  unfolding void_in
  void_in-Keeping voided k f p g =
      subst (λ (y : Store × Hold). Keeping s y.0) (ok_unique refl g) (Keeping-refl s k)
  void_in-Keeping pending k f p g = void_now-Keeping k f p g
  void_in-Keeping captured k f p g = absurd (cc)
  void_in-Keeping expired k f p g = absurd (cc)

pub void_hold-Keeping :
    (now : Time) (id : Uuid) (s : Store) {r : Store × Hold}
    → IsKept s
    → void_hold now id s ≡ ok r
    → Keeping s r.0
unfolding void_hold
void_hold-Keeping now id s k g = >>=-elim (or_err (hold_by_id id s.holds) not_found) _ g λ h eh g1.
    let found : hold_by_id id s.holds ≡ some h = hold_of (hold_by_id id s.holds) eh in
    let (_, i) = EachTotal-hold_by_id id s.holds k.amounts found in
    void_in-Keeping now h s h.status k (ap (λ z. hold_by_id z s.holds) i ∙ found) refl g1
  where
    hold_of : (o : Option Hold) {x : Hold} → or_err o not_found ≡ ok x → o ≡ some x
    hold_of none e = absurd (cc)
    hold_of (some y) e = ap some (ok_unique refl e)

-- `voidHold`, where it succeeds, keeps what is held on each account the sum of its pending holds, on
-- keyed accounts with amounts that are totals.
pub void_hold-IsKept :
    (now : Time) (id : Uuid) (s : Store) {r : Store × Hold}
    → IsKept s
    → void_hold now id s ≡ ok r
    → IsKept r.0
void_hold-IsKept now id s k g = (void_hold-Keeping now id s k g).kept

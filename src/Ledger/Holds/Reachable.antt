-- ===== src/Ledger/Holds/Reachable.antt =====
-- The step relation of internal/modules/ledger/holds.go: holds are created, captured, voided and
-- expired.
use astrum.Prelude.{
  ℕ, zero, suc, ◌≤◌, ◌<◌, ◌≡◌, refl, sym, ap, subst, length, take, List, [], ◌∷◌, map, arith,
}
use astrum.Result.{Result, ok, >>=-elim, ok_unique}
use astrum.Money.Words.{word}
use astrum.Money.Amount.Totals.{IsTotal}
use astrum.Ledger.Types.{Uuid, Time}
use astrum.Ledger.State.Refines.{AreSound}
use astrum.Ledger.Store.{Store, Hold, lock_accounts, write_accounts}
use astrum.Ledger.Holds.{
  CreateHoldInput, CaptureInput, create_hold, capture_hold, void_hold, expire_holds, expire_due,
  release_holds, expire_rows, due_holds,
}
use astrum.Ledger.Holds.Kept.{held_on, EachTotal, HaveUniqueIds}
use astrum.Ledger.Holds.Keeps.{create_hold-Keeping, void_hold-Keeping}
use astrum.Ledger.Holds.Captured.Kept.{IsKeptSound, capture_hold-IsKeptSound}
use astrum.Ledger.Holds.Released.Written.{written-FreesAll}
use astrum.Ledger.Holds.Expired.Rows.{Selects, due-Selects}

length-take : (n : ℕ) (hs : List Hold) → length (take n hs) ≤ n
length-take zero hs = omega arith
length-take (suc n) [] = omega arith
length-take (suc n) (h ∷ hs) = let rest = length-take n hs in omega (arith, rest)

expire_due-IsKeptSound :
    (now : Time) (hs : List Hold) (s : Store) {out : Store × ℕ}
    → length hs < word
    → IsKeptSound s
    → Selects now hs s.holds
    → expire_due now hs s ≡ ok out
    → IsKeptSound out.0
unfolding expire_due
expire_due-IsKeptSound now [] s few k sel e =
    subst (λ (x : Store × ℕ). IsKeptSound x.0) (ok_unique refl e) k
expire_due-IsKeptSound now (h ∷ hs) s few k sel e =
    let state = lock_accounts (map (λ x. x.account_id) (h ∷ hs)) s in
    >>=-elim (release_holds (h ∷ hs) state.accounts) _ e λ m e1 h1.
      >>=-elim (write_accounts (record state { accounts = m }) s) _ h1 λ s' e2 h2.
        let frees = written-FreesAll (h ∷ hs) s k.0.keyed k.1 sel.totals few e1 state e2 in
        let rows = (expire_rows now (map (λ x. x.id) (h ∷ hs)) s'.holds).1 in
        let same : (expire_rows now (map (λ x. x.id) (h ∷ hs)) s.holds).1 ≡ rows =
          ap (λ z. (expire_rows now (map (λ x. x.id) (h ∷ hs)) z).1) (sym frees.holds) in
        let sound : AreSound s'.accounts = λ j b f. (frees.each j b f).2.sound in
        subst (λ (x : Store × ℕ). IsKeptSound x.0) (ok_unique refl h2)
          (
            record {
              keyed = frees.keyed;
              amounts = subst EachTotal same sel.rows_total;
              total = λ j b f. (sound j b f).held;
              kept = λ j b f.
                  let (a, ea, one) = frees.each j b f in
                  let before = k.0.kept j a ea in
                  let taken = sel.taken j in
                  let freed = one.held in
                  let now_held : held_on j (expire_rows now (map (λ x. x.id) (h ∷ hs)) s.holds).1
                      ≡ held_on j rows =
                    ap (held_on j) same in
                  omega (arith, before, taken, freed, now_held);
            },
            sound,
            subst HaveUniqueIds same sel.rows_unique,
          )

expire_holds-IsKeptSound :
    (now : Time) (limit : ℕ) (s : Store) {out : Store × ℕ}
    → limit < word
    → IsKeptSound s
    → expire_holds now limit s ≡ ok out
    → IsKeptSound out.0
unfolding expire_holds
expire_holds-IsKeptSound now limit s few k e =
    let hs = take limit (due_holds now s.holds) in
    let short = length-take limit (due_holds now s.holds) in
    expire_due-IsKeptSound now hs s (omega (arith, few, short)) k
      (due-Selects now limit s.holds k.2 k.0.amounts) e

-- One operation that succeeds. The amounts that the service is given are totals, and a limit is an int.
pub data Step (s : Store) (s' : Store) : Type 0 where
  create_step :
      (new_id : Result Uuid) (now : Time) (i : CreateHoldInput) (h : Hold)
      → IsTotal i.amount
      → create_hold new_id now i s ≡ ok (s', h)
      → Step s s'
  capture_step :
      (new_id : ℕ → Result Uuid) (clock now : Time) (id : Uuid) (i : CaptureInput) (h : Hold)
      → IsTotal i.amount
      → capture_hold new_id clock now id i s ≡ ok (s', h)
      → Step s s'
  void_step : (now : Time) (id : Uuid) (h : Hold) → void_hold now id s ≡ ok (s', h) → Step s s'
  expire_step :
      (now : Time) (limit count : ℕ)
      → limit < word
      → expire_holds now limit s ≡ ok (s', count)
      → Step s s'

pub data Reach (s : Store) : Store → Type 0 where
  here : Reach s s
  next : {t u : Store} → Reach s t → Step t u → Reach s u

Step-IsKeptSound : {s s' : Store} → Step s s' → IsKeptSound s → IsKeptSound s'
Step-IsKeptSound {s} (create_step new_id now i h t e) k =
    let keeping = create_hold-Keeping new_id now i s k.0 t e in
    (keeping.kept, keeping.sound k.1, keeping.unique k.2)
Step-IsKeptSound {s} (capture_step new_id clock now id i h t e) k =
    capture_hold-IsKeptSound new_id clock now id i s k t e
Step-IsKeptSound {s} (void_step now id h e) k =
    let keeping = void_hold-Keeping now id s k.0 e in
    (keeping.kept, keeping.sound k.1, keeping.unique k.2)
Step-IsKeptSound {s} (expire_step now limit count few e) k =
    expire_holds-IsKeptSound now limit s few k e

-- From a store whose accounts are keyed and sound, whose holds have different ids and amounts that are
-- totals, and where what is held on each account is the sum of its pending holds, every sequence of
-- creations, captures, voids and expiries of holds reaches only such stores.
pub Reach-IsKeptSound : {s s' : Store} → Reach s s' → IsKeptSound s → IsKeptSound s'
Reach-IsKeptSound here k = k
Reach-IsKeptSound (next r q) k = Step-IsKeptSound q (Reach-IsKeptSound r k)

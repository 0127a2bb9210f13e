-- ===== src/Ledger/Holds/Captured/Kept.antt =====
-- `captureHold` of internal/modules/ledger/holds.go keeps what is held on each account the sum of its pending holds.
use astrum.Prelude.{
  ℕ, ◌≡◌, refl, sym, ap, ◌∙◌, subst, Bool, true, false, ◌==◌, none, some, List, [], ◌∷◌, Bool-cases,
  inl, inr, ==_iff, arith,
}
use astrum.Prelude.Eq.{nat_eq, text_eq}
use astrum.Prelude.Map.{lookup}
use astrum.Result.{
  Result, ok, >>=-elim, ok_unique, passed, not_found, invalid, internal, hold_not_pending,
  idempotency_conflict,
}
use astrum.Money.Amount.Totals.{size, IsTotal}
use astrum.Ledger.Types.{Uuid, Time, Side}
use astrum.Ledger.Account.{AccountState}
use astrum.Ledger.State.{BalanceChange, or_err}
use astrum.Ledger.State.Commit.{or_err-eq-ok}
use astrum.Ledger.State.Tally.{tally}
use astrum.Ledger.State.Refines.{AreSound, TotalAmounts}
use astrum.Ledger.Requests.{PostInput, PostingRequest}
use astrum.Ledger.Store.{
  Store, Hold, HoldStatus, pending, captured, voided, expired, lock_accounts, hold_by_id,
  replace_hold, resolve_hold, emit, hold_captured, select_transaction, is_among,
}
use astrum.Ledger.Engine.{
  PostingResult, created, replayed, failed, unresolved, request_accounts, change_of,
  truncate_request, truncated, apply_requests,
}
use astrum.Ledger.Engine.Applied.{added, apply_requests-Applies}
use astrum.Ledger.Holds.{
  CaptureInput, capture_request, capture_again, captured_by, capture_now, capture_in, capture_hold,
  is_pending_hold,
}
use astrum.Ledger.Holds.Kept.{
  IsKept, HaveUniqueIds, WellKeyed, part, held_on, held_on-replace, EachTotal, EachTotal-replace,
  EachTotal-hold_by_id, HaveUniqueIds, HaveUniqueIds-replace,
}
use astrum.Ledger.Holds.Moves.Both.{new_part}
use astrum.Ledger.Holds.Booked.Written.{Books, written-Books}
use astrum.Ledger.Holds.Captured.{ReleasesOne, freed_away, freed_here}

-- What is held is kept, the accounts are sound, and no two holds have one id.
abbrev pub IsKeptSound : Store → Type 0
IsKeptSound s = IsKept s × AreSound s.accounts × HaveUniqueIds s.holds

-- A pending hold that is no longer pending, of the same amount.
record Resolves (h h' : Hold) : Type 0 where
  was : h.status ≡ pending
  is : is_pending_hold h'.status ≡ false
  amount : h'.amount ≡ h.amount

module _ (ids : List Uuid) (c : BalanceChange) (h h' : Hold) (s s' : Store) (kept : IsKeptSound s)
    (books : Books ids c s s') (r : ReleasesOne c h.account_id h.amount)
    (among : is_among h.account_id ids ≡ true) (found : hold_by_id h'.id s.holds ≡ some h)
    (resolves : Resolves h h') where
  resolved_kept :
      (j : Uuid) (b : AccountState)
      → lookup j s'.accounts ≡ some b
      → size b.held ≡ held_on j (replace_hold h' s.holds)
  resolved_kept j b e =
      let (a, ea, reb) = books.each j b e in
      let before = kept.0.kept j a ea in
      let replaced = held_on-replace j s.holds h h' found in
      let gone : part j h' ≡ 0 = rw (resolves.is) refl in
      elim (Bool-cases (h.account_id == j)) [
        | inl w ↦
            let here : is_among j ids ≡ true =
              ap (λ z. is_among z ids) (sym ((==_iff h.account_id j).0 w)) ∙ among in
            let (within, left) =
              freed_here c h.account_id j h.amount (tally a) r w (reb.locked here) in
            let own : part j h ≡ size h.amount = new_part j h resolves.was ∙ rw w refl in
            omega (arith, before, replaced, gone, within, left, own)
        | inr w ↦
            let own : part j h ≡ 0 = new_part j h resolves.was ∙ rw w refl in
            let same : size b.held ≡ size a.held = elim (Bool-cases (is_among j ids)) [
              | inl i ↦ freed_away c h.account_id j h.amount (tally a) r w (reb.locked i)
              | inr i ↦ ap (λ x. size x.held) (reb.others i)
            ] in
            omega (arith, before, replaced, gone, same, own)
      ]

  resolved-IsKeptSound :
      (s2 : Store) → s2.accounts ≡ s'.accounts → s2.holds ≡ replace_hold h' s.holds → IsKeptSound s2
  resolved-IsKeptSound s2 same held =
      let (t, _) = EachTotal-hold_by_id h'.id s.holds kept.0.amounts found in
      let sound : AreSound s'.accounts = λ j b e. (books.each j b e).2.sound in
      (
        record {
          keyed = subst WellKeyed (sym same) books.keyed;
          amounts =
              subst EachTotal (sym held) (
                EachTotal-replace s.holds h' kept.0.amounts
                  (subst IsTotal (sym resolves.amount) t));
          total = λ j b e. (sound j b (ap (lookup j) (sym same) ∙ e)).held;
          kept =
              λ j b e. resolved_kept j b (ap (lookup j) (sym same) ∙ e) ∙ ap (held_on j) (sym held);
        },
        subst AreSound (sym same) sound,
        subst HaveUniqueIds (sym held) (HaveUniqueIds-replace s.holds h' kept.2),
      )

abbrev capture_of : Side → Hold → CaptureInput → PostingRequest
capture_of side h i = record {
  in_put = capture_request side h i;
  reverses = none;
  releases = (h.account_id, h.amount) ∷ [];
}

capture_never :
    (side : Side) (h : Hold) (i : CaptureInput)
    → (capture_of side h i).in_put.archive_on_lock_failure ≡ false
unfolding capture_request
capture_never side h i = refl

capture-TotalAmounts :
    (side : Side) (h : Hold) (i : CaptureInput)
    → IsTotal i.amount
    → IsTotal h.amount
    → TotalAmounts (change_of (truncate_request (capture_of side h i)))
unfolding capture_request truncated
capture-TotalAmounts side h i t u = record {
  unpended = tt;
  added = (t, (t, tt));
  released = (u, tt);
}

capture-ReleasesOne :
    (side : Side) (h : Hold) (i : CaptureInput)
    → ReleasesOne (change_of (truncate_request (capture_of side h i))) h.account_id h.amount
capture-ReleasesOne side h i = record { unpends = refl; releases = refl }

capture_among :
    (side : Side) (h : Hold) (i : CaptureInput)
    → is_among h.account_id (request_accounts (capture_of side h i ∷ [])) ≡ true
unfolding request_accounts capture_request is_among
capture_among side h i = ground (arith, ==_iff h.account_id h.account_id)

module _ (new_id : ℕ → Result Uuid) (clock now : Time) (side : Side) (h : Hold) (i : CaptureInput)
    (s : Store) (k : IsKeptSound s) (t : IsTotal i.amount) where
  captured_by-IsKeptSound :
      (s2 : Store) (rs : List PostingResult) (aborted : Bool) {out : Store × Hold}
      → hold_by_id h.id s.holds ≡ some h
      → h.status ≡ pending
      → apply_requests new_id now true (capture_of side h i ∷ []) s ≡ ok (s2, rs, aborted)
      → captured_by now h i s2 rs ≡ ok out
      → IsKeptSound out.0
  unfolding captured_by resolve_hold emit
  captured_by-IsKeptSound s2 [] aborted f p e g = absurd (cc)
  captured_by-IsKeptSound s2 (failed x ∷ rs) aborted f p e g = absurd (cc)
  captured_by-IsKeptSound s2 (replayed x ∷ rs) aborted f p e g = absurd (cc)
  captured_by-IsKeptSound s2 (unresolved ∷ rs) aborted f p e g = absurd (cc)
  captured_by-IsKeptSound s2 (created x ∷ rs) aborted {out} f p e g =
      let req = capture_of side h i in
      let c = change_of (truncate_request req) in
      let ids = request_accounts (req ∷ []) in
      let (r, moved, written) =
        apply_requests-Applies new_id now req s (capture_never side h i) e in
      let (u, _) = EachTotal-hold_by_id h.id s.holds k.0.amounts f in
      let books =
        written-Books ids c s k.0.keyed k.1 (capture-TotalAmounts side h i t u) moved
          (lock_accounts ids s) (added x s) refl refl written in
      let h' = resolve_hold now captured (some i.amount) (some x.id) h in
      let s3 = emit (hold_captured h') (record s2 { holds = replace_hold h' s2.holds }) in
      subst (λ (y : Store × Hold). IsKeptSound y.0) (ok_unique refl g)
        (resolved-IsKeptSound ids c h h' s s2 k books (capture-ReleasesOne side h i)
          (capture_among side h i) f (record { was = p; is = refl; amount = refl }) s3 refl
          (ap (replace_hold h') books.holds))

  capture_now-IsKeptSound :
      {out : Store × Hold}
      → hold_by_id h.id s.holds ≡ some h
      → h.status ≡ pending
      → capture_now new_id clock now (capture_request side h i) h i s ≡ ok out
      → IsKeptSound out.0
  unfolding capture_now
  capture_now-IsKeptSound f p g =
      >>=-elim (apply_requests new_id now true (capture_of side h i ∷ []) s) _
        (passed _ hold_not_pending (passed _ invalid g).1).1
        λ r e g1. captured_by-IsKeptSound r.0 r.1 r.2 f p e g1

  capture_again-same :
      (post : PostInput) {out : Store × Hold}
      → capture_again post h i s ≡ ok out
      → IsKeptSound out.0
  unfolding capture_again
  capture_again-same post g = >>=-elim (or_err h.capture_transaction_id internal) _ g λ id e1 g1.
      >>=-elim (or_err (select_transaction id s.transactions) not_found) _ g1 λ txn e2 g2.
        >>=-elim (or_err h.captured_amount internal) _ (passed _ hold_not_pending g2).1
          λ amount e3 g3.
            subst (λ (y : Store × Hold). IsKeptSound y.0)
              (ok_unique refl (passed _ idempotency_conflict g3).1) k

  capture_in-IsKeptSound :
      (c : HoldStatus) {out : Store × Hold}
      → hold_by_id h.id s.holds ≡ some h
      → h.status ≡ c
      → capture_in new_id clock now (capture_request side h i) h i s c ≡ ok out
      → IsKeptSound out.0
  unfolding capture_in
  capture_in-IsKeptSound captured f p g = capture_again-same (capture_request side h i) g
  capture_in-IsKeptSound pending f p g = capture_now-IsKeptSound f p g
  capture_in-IsKeptSound voided f p g = absurd (cc)
  capture_in-IsKeptSound expired f p g = absurd (cc)

pub capture_hold-IsKeptSound :
    (new_id : ℕ → Result Uuid) (clock now : Time) (id : Uuid) (i : CaptureInput) (s : Store)
    {out : Store × Hold}
    → IsKeptSound s
    → IsTotal i.amount
    → capture_hold new_id clock now id i s ≡ ok out
    → IsKeptSound out.0
unfolding capture_hold
capture_hold-IsKeptSound new_id clock now id i s k t g =
    >>=-elim (or_err (hold_by_id id s.holds) not_found) _ g λ h eh g1.
      >>=-elim (or_err (lookup h.account_id s.accounts) internal) _ g1 λ a ea g2.
        let found = or_err-eq-ok not_found (hold_by_id id s.holds) eh in
        let (_, same) = EachTotal-hold_by_id id s.holds k.0.amounts found in
        capture_in-IsKeptSound new_id clock now a.normal_side h i s k t h.status
          (ap (λ z. hold_by_id z s.holds) same ∙ found) refl g2

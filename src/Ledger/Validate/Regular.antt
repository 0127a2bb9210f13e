-- ===== src/Ledger/Validate/Regular.antt =====
-- What the checks of internal/modules/ledger/validate.go give to the engine.
use astrum.Prelude.{
  ℕ, ◌≡◌, ◌<◌, ◌≤◌, refl, arith, Bool, true, false, not, ◌&&◌, ◌||◌, ◌==◌, ltb, List, [], ◌∷◌, none,
  length,
}
use astrum.Prelude.Int.{ℤ, pos, negsuc, leb_ℤ, pos_part, neg_part}
use astrum.Prelude.Eq.{Text}
use astrum.Result.{ok, >>=-elim, passed, invalid}
use astrum.Money.Amount.{sign}
use astrum.Money.Amount.Value.{value, IsValid, IsValid-Fits, sign-value, compare_ℤ}
use astrum.Money.Amount.Totals.{IsTotal, size}
use astrum.Ledger.Types.{Posting, valid, nil_id}
use astrum.Ledger.State.Loops.{TotalEntries}
use astrum.Ledger.State.Balanced.{ValidSides}
use astrum.Ledger.State.Entries.{All}
use astrum.Ledger.Requests.{PostInput, PostingRequest}
use astrum.Ledger.Engine.Sound.{IsRegular}
use astrum.Ledger.Validate.{
  validate_entry, validate_each, validate_entries, validate_post, validate_key_and_text, is_unset,
  is_pending_or_posted, bad_time,
}
use astrum.Ledger.Validate.Strings.{storable_text}

positive :
    (z : ℤ) → leb_ℤ (compare_ℤ z (pos 0)) (pos 0) ≡ false → (neg_part z ≡ 0) × (0 < pos_part z)
positive (pos n) h = ground arith
positive (negsuc n) h = ground arith

-- An entry that the checks admit has a side, and an amount that is a total and not 0.
pub record IsSound (p : Posting) : Type 0 where
  pub side : valid p.side ≡ true
  pub total : IsTotal p.amount
  pub above : 0 < size p.amount

abbrev pub HasValidAmount : Posting → Type 0
HasValidAmount p = IsValid p.amount

double_not : (b : Bool) → not b ≡ false → b ≡ true
double_not true h = refl
double_not false h = cc

validate_entry-IsSound : (p : Posting) → HasValidAmount p → validate_entry p ≡ ok tt → IsSound p
unfolding validate_entry
validate_entry-IsSound p v h =
    let (e1, h1) = passed (p.account_id == nil_id) invalid h in
    let (e2, h2) = passed (not (valid p.side)) invalid h1 in
    let (e3, h3) = passed (leb_ℤ (sign p.amount) (pos 0)) invalid h2 in
    let (low, high) = positive (value p.amount) (rw (sign-value p.amount (IsValid-Fits v)) at e3) in
    record {
      side = double_not (valid p.side) e2;
      total = record { fits = IsValid-Fits v; nonneg = low; upper = v.upper };
      above = high;
    }

validate_each-IsSound :
    (ps : List Posting) → All HasValidAmount ps → validate_each ps ≡ ok tt → All IsSound ps
unfolding validate_each
validate_each-IsSound [] v h = tt
validate_each-IsSound (p ∷ ps) v h =
    >>=-elim (validate_entry p) _ h
      λ u e1 h1. (validate_entry-IsSound p v.0 e1, validate_each-IsSound ps v.1 h1)

IsSound-TotalEntries : (ps : List Posting) → All IsSound ps → TotalEntries ps
IsSound-TotalEntries [] s = tt
IsSound-TotalEntries (p ∷ ps) s = (s.0.total, IsSound-TotalEntries ps s.1)

IsSound-ValidSides : (ps : List Posting) → All IsSound ps → ValidSides ps
IsSound-ValidSides [] s = tt
IsSound-ValidSides (p ∷ ps) s = (s.0.side, IsSound-ValidSides ps s.1)

-- `service.post`, `postBatch` and the batcher make this of a request.
unfoldable pub request_for : PostInput → PostingRequest
request_for i = record { in_put = i; reverses = none; releases = [] }

-- What a list of entries is after the checks: between 2 and 1000 entries, each of them sound.
pub record AreAdmitted (ps : List Posting) : Type 0 where
  pub enough : 2 ≤ length ps
  pub few : length ps ≤ 1000
  pub sound : All IsSound ps

pub validate_entries-AreAdmitted :
    (ps : List Posting) → All HasValidAmount ps → validate_entries ps ≡ ok tt → AreAdmitted ps
unfolding validate_entries
validate_entries-AreAdmitted ps v h =
    let (counted, h1) = passed (ltb (length ps) 2 || ltb 1000 (length ps)) invalid h in
    let (enough, few) = in_range (length ps) counted in
    record { enough = enough; few = few; sound = validate_each-IsSound ps v h1 }
  where
    in_range : (n : ℕ) → (ltb n 2 || ltb 1000 n) ≡ false → (2 ≤ n) × (n ≤ 1000)
    in_range n c = ground arith

module _ (reads_object : Text → Bool) (raw : Text) (i : PostInput) where
  pub validate_post-AreAdmitted :
      All HasValidAmount i.postings
      → validate_post reads_object raw i ≡ ok tt
      → AreAdmitted i.postings
  unfolding validate_post
  validate_post-AreAdmitted v h =
      >>=-elim (validate_key_and_text reads_object i.idempotency_key i.description raw) _ h
        λ u e1 h1.
          let (e2, h2) =
            passed (not (is_unset i.status_given) && not (is_pending_or_posted i.status_given))
              invalid h1 in
          let (e3, h3) = passed (ltb 255 (length i.external_id)) invalid h2 in
          let (e4, h4) = passed (not (storable_text i.external_id)) invalid h3 in
          let (e5, h5) = passed (bad_time i.effective_at) invalid h4 in
          validate_entries-AreAdmitted i.postings v h5

  pub validate_post-IsRegular :
      All HasValidAmount i.postings
      → validate_post reads_object raw i ≡ ok tt
      → IsRegular (request_for i)
  unfolding request_for
  validate_post-IsRegular v h =
      let admitted = validate_post-AreAdmitted v h in
      record {
        entries = IsSound-TotalEntries i.postings admitted.sound;
        sides = IsSound-ValidSides i.postings admitted.sound;
        releases = tt;
      }

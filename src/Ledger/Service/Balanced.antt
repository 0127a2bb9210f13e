-- ===== src/Ledger/Service/Balanced.antt =====
-- The transactions that `postBatch` of internal/modules/ledger/service.go posts.
use astrum.Prelude.{
  ℕ, ◌≡◌, refl, sym, ap, subst, inl, inr, Bool, false, ◌||◌, ◌==◌, ltb, Bool-cases, List, [], ◌∷◌,
  length,
}
use astrum.Prelude.Eq.{Text}
use astrum.Result.{Result, ok, err, ok_unique, invalid}
use astrum.Ledger.Types.{Uuid, Time, is_archived}
use astrum.Ledger.Requests.{PostInput, PostingRequest}
use astrum.Ledger.Store.{Store}
use astrum.Ledger.State.Entries.{All}
use astrum.Ledger.Engine.{PostingResult, unresolved, created, replayed, failed, run_requests}
use astrum.Ledger.Engine.Sound.{IsRegular, IsProper, Balanced}
use astrum.Ledger.Engine.Outcomes.{AllSound, run_requests-IsProper}
use astrum.Ledger.Validate.{validate_post}
use astrum.Ledger.Validate.Regular.{request_for, HasValidAmount, validate_post-IsRegular}
use astrum.Ledger.Service.Batches.{
  BatchResult, succeeded, result_of, Collected, collect, fill, fill_from, run_collected,
  run_checked, post_batch,
}
use astrum.Ledger.Service.Batched.{
  interleave, take_outcome, admitted, admit, Collects, collect-Collects,
}

-- The entries of a transaction that was posted are balanced, unless it was archived at once.
abbrev pub IsSettled : BatchResult → Type 0
IsSettled (succeeded t) = (is_archived t.status ≡ false) → Balanced t.postings
IsSettled _ = Unit

-- The amounts of the entries are ones that the decoder of amounts admits.
abbrev pub HasValidAmounts : Text × PostInput → Type 0
HasValidAmounts x = All HasValidAmount x.1.postings

result_of-IsSettled : (o : PostingResult) → IsProper o → IsSettled (result_of o)
result_of-IsSettled (created t) p = p
result_of-IsSettled (replayed t) p = tt
result_of-IsSettled (failed e) p = tt
result_of-IsSettled unresolved p = tt

admit-IsRegular :
    (i : PostInput) (r : Result (Unit {0})) (rest : List PostingRequest)
    → (r ≡ ok tt → IsRegular (request_for i))
    → All IsRegular rest
    → All IsRegular (admit r i rest)
admit-IsRegular i (err e) rest k g = g
admit-IsRegular i (ok tt) rest k g = (k refl, g)

take_outcome-IsSettled :
    (r : Result (Unit {0})) (f : List PostingResult → List BatchResult) (os : List PostingResult)
    → ((os' : List PostingResult) → All IsProper os' → All IsSettled (f os'))
    → All IsProper os
    → All IsSettled (take_outcome r f os)
take_outcome-IsSettled (err e) f os k p = (tt, k os p)
take_outcome-IsSettled (ok u) f [] k p = (tt, k [] p)
take_outcome-IsSettled (ok u) f (o ∷ os) k p = (result_of-IsSettled o p.0, k os p.1)

module _ (reads_object : Text → Bool) where
  admitted-IsRegular :
      (ins : List (Text × PostInput))
      → All HasValidAmounts ins
      → All IsRegular (admitted reads_object ins)
  unfolding admitted
  admitted-IsRegular [] v = tt
  admitted-IsRegular ((raw, i) ∷ ins) v =
      admit-IsRegular i (validate_post reads_object raw i) (admitted reads_object ins)
        (validate_post-IsRegular reads_object raw i v.0) (admitted-IsRegular ins v.1)

  interleave-IsSettled :
      (ins : List (Text × PostInput)) (os : List PostingResult)
      → All IsProper os
      → All IsSettled (interleave reads_object ins os)
  unfolding interleave
  interleave-IsSettled [] os p = tt
  interleave-IsSettled ((raw, i) ∷ ins) os p =
      take_outcome-IsSettled (validate_post reads_object raw i) (interleave reads_object ins) os
        (λ os' p'. interleave-IsSettled ins os' p') p

  -- what the outcomes of the requests fill in
  filled-IsSettled :
      (ins : List (Text × PostInput)) (c : Collected)
      → Collects 0 c (interleave reads_object ins) (admitted reads_object ins)
      → (os : List PostingResult) → All IsProper os
      → All IsSettled (fill c.positions os c.results)
  filled-IsSettled ins c k os p =
      subst (All IsSettled) (sym (k.filled [] os refl)) (interleave-IsSettled ins os p)

  module _ (new_id : ℕ → Result Uuid) (now : Time) (atomic : Bool) (ins : List (Text × PostInput))
      (s : Store) (sound : AllSound s.accounts) (amounts : All HasValidAmounts ins) {s' : Store}
      {rs : List BatchResult} where
    run_collected-IsSettled :
        (reqs : List PostingRequest) (results : List BatchResult) (ps : List ℕ)
        → All IsRegular reqs
        → ((os : List PostingResult) → All IsProper os → All IsSettled (fill ps os results))
        → run_collected reads_object new_id now atomic
            (record { results = results; reqs = reqs; positions = ps })
            s
          ≡ (s', ok rs)
        → All IsSettled rs
    unfolding fill
    run_collected-IsSettled [] results ps g k h =
        subst (All IsSettled)
          (ok_unique refl (ap (λ (x : Store × Result (List BatchResult)). x.1) h))
          (subst (All IsSettled) (nothing ps) (k [] tt))
      where
        nothing : (ns : List ℕ) → fill ns [] results ≡ results
        nothing [] = refl
        nothing (m ∷ ns) = refl
    run_collected-IsSettled (r ∷ rs') results ps g k h =
        outcomes (run_requests new_id now atomic (r ∷ rs') s) refl h
      where
        outcomes :
            (o : Store × Result (List PostingResult))
            → run_requests new_id now atomic (r ∷ rs') s ≡ o
            → fill_from reads_object
                (record { results = results; reqs = r ∷ rs'; positions = ps })
                o
              ≡ (s', ok rs)
            → All IsSettled rs
        outcomes (t, err e) q f =
            let never : err e ≡ ok rs = ap (λ (x : Store × Result (List BatchResult)). x.1) f in
            absurd (cc)
        outcomes (t, ok os) q f =
            subst (All IsSettled)
              (ok_unique refl (ap (λ (x : Store × Result (List BatchResult)). x.1) f))
              (k os (run_requests-IsProper new_id now atomic (r ∷ rs') s sound g q))

    checked-IsSettled :
        (r : Result Collected)
        → collect reads_object atomic 0 ins ≡ r
        → run_checked reads_object new_id now atomic s r ≡ (s', ok rs)
        → All IsSettled rs
    checked-IsSettled (err e) q h =
        let never : err e ≡ ok rs = ap (λ (x : Store × Result (List BatchResult)). x.1) h in
        absurd (cc)
    checked-IsSettled (ok c) q h =
        let k = collect-Collects reads_object atomic 0 ins q in
        run_collected-IsSettled c.reqs c.results c.positions
          (subst (All IsRegular) (sym k.same_reqs) (admitted-IsRegular ins amounts))
          (filled-IsSettled ins c k) h

    -- Over accounts whose totals are sound, with amounts that the decoder of amounts admits, each
    -- transaction that `post_batch` posts, unless it is archived at once, has entries whose debits and
    -- credits are equal in every currency.
    pub post_batch-IsSettled :
        post_batch reads_object new_id now atomic ins s ≡ (s', ok rs) → All IsSettled rs
    unfolding post_batch
    post_batch-IsSettled h = elim (Bool-cases ((length ins == 0) || ltb 1000 (length ins))) [
      | inl e ↦
          let never : err invalid ≡ ok rs =
            ap (λ (x : Store × Result (List BatchResult)). x.1) (rw e at h) in
          absurd (cc)
      | inr e ↦ checked-IsSettled (collect reads_object atomic 0 ins) refl (rw e at h)
    ]

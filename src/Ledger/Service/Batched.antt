-- ===== src/Ledger/Service/Batched.antt =====
-- What `postBatch` of internal/modules/ledger/service.go answers.
use astrum.Prelude.{
  ℕ, suc, ◌≡◌, refl, sym, ap, ◌∙◌, subst, arith, Bool, true, false, ◌||◌, ◌==◌, ltb, List, [], ◌∷◌,
  ◌++◌, length, length-append,
}
use astrum.Prelude.Eq.{Text}
use astrum.Result.{Error, Result, ok, err, >>=-elim, ok_unique}
use astrum.Ledger.Types.{Uuid, Time}
use astrum.Ledger.Requests.{PostInput, PostingRequest}
use astrum.Ledger.Store.{Store}
use astrum.Ledger.Engine.{PostingResult, run_requests}
use astrum.Ledger.Validate.{validate_post}
use astrum.Ledger.Validate.Regular.{request_for}
use astrum.Ledger.Service.Batches.{
  BatchResult, absent, refused, result_of, set_at, fill, Collected, add_request, add_refusal,
  collect_one, collect, fill_from, run_collected, post_batch,
}

set_at-append :
    (pre : List BatchResult) (x y : BatchResult) (post : List BatchResult)
    → set_at (length pre) y (pre ++ x ∷ post) ≡ pre ++ y ∷ post
unfolding set_at
set_at-append [] x y post = refl
set_at-append (p ∷ pre) x y post = ap (λ rs. p ∷ rs) (set_at-append pre x y post)

append_one :
    (pre : List BatchResult) (x : BatchResult) (post : List BatchResult)
    → (pre ++ x ∷ []) ++ post ≡ pre ++ x ∷ post
append_one [] x post = refl
append_one (p ∷ pre) x post = ap (λ rs. p ∷ rs) (append_one pre x post)

-- by the check of one input; `rest` is for the inputs that follow
abbrev pub take_outcome :
    Result (Unit {0})
    → (List PostingResult → List BatchResult)
    → List PostingResult
    → List BatchResult
take_outcome (err e) rest os = refused e ∷ rest os
take_outcome (ok u) rest [] = absent ∷ rest []
take_outcome (ok u) rest (o ∷ os) = result_of o ∷ rest os

abbrev pub admit : Result (Unit {0}) → PostInput → List PostingRequest → List PostingRequest
admit (err e) i rest = rest
admit (ok u) i rest = request_for i ∷ rest

-- What `collect` makes: the outcomes fill it in to `expected`, after the results `pre`, and its
-- requests are `reqs`.
pub record Collects (n : ℕ) (c : Collected) (expected : List PostingResult → List BatchResult)
    (reqs : List PostingRequest) : Type 0 where
  pub filled :
      (pre : List BatchResult) (os : List PostingResult)
      → length pre ≡ n
      → fill c.positions os (pre ++ c.results) ≡ pre ++ expected os
  pub same_reqs : c.reqs ≡ reqs

longer :
    (pre : List BatchResult) (x : BatchResult) {n : ℕ}
    → length pre ≡ n
    → length (pre ++ x ∷ []) ≡ suc n
longer pre x e = omega (arith, length-append pre (x ∷ []))

add_refusal-Collects :
    (n : ℕ) (e : Error) (c : Collected) (f : List PostingResult → List BatchResult)
    (rs : List PostingRequest)
    → Collects (suc n) c f rs
    → Collects n (add_refusal e c) (λ os. refused e ∷ f os) rs
add_refusal-Collects n e c f rs k = record {
  filled = λ pre os l.
      subst (λ xs. fill c.positions os xs ≡ pre ++ refused e ∷ f os)
        (append_one pre (refused e) c.results)
        (k.filled (pre ++ refused e ∷ []) os (longer pre (refused e) l)
          ∙ append_one pre (refused e) (f os));
  same_reqs = k.same_reqs;
}

add_request-Collects :
    (n : ℕ) (i : PostInput) (c : Collected) (f : List PostingResult → List BatchResult)
    (rs : List PostingRequest)
    → Collects (suc n) c f rs
    → Collects n (add_request n i c) (take_outcome (ok tt) f) (request_for i ∷ rs)
unfolding fill
add_request-Collects n i c f rs k = record {
  filled = λ pre os l. by_outcomes pre os l;
  same_reqs = ap (λ xs. request_for i ∷ xs) k.same_reqs;
}
  where
    moved :
        (pre : List BatchResult) (x : BatchResult) (os : List PostingResult)
        → length pre ≡ n
        → fill c.positions os (pre ++ x ∷ c.results) ≡ pre ++ x ∷ f os
    moved pre x os l =
        subst (λ xs. fill c.positions os xs ≡ pre ++ x ∷ f os) (append_one pre x c.results)
          (k.filled (pre ++ x ∷ []) os (longer pre x l) ∙ append_one pre x (f os))

    nothing : (ns : List ℕ) (xs : List BatchResult) → fill ns [] xs ≡ xs
    nothing [] xs = refl
    nothing (m ∷ ns) xs = refl

    by_outcomes :
        (pre : List BatchResult) (os : List PostingResult)
        → length pre ≡ n
        → fill (n ∷ c.positions) os (pre ++ absent ∷ c.results) ≡ pre ++ take_outcome (ok tt) f os
    by_outcomes pre [] l = sym (nothing c.positions _) ∙ moved pre absent [] l
    by_outcomes pre (o ∷ os) l =
        ap (fill c.positions os) (
          subst
            (λ m.
              set_at m (result_of o) (pre ++ absent ∷ c.results) ≡ pre ++ result_of o ∷ c.results)
            l (set_at-append pre absent (result_of o) c.results))
        ∙ moved pre (result_of o) os l

collect_one-Collects :
    (atomic : Bool) (n : ℕ) (i : PostInput) (v : Result (Unit {0})) (rest : Result Collected)
    (f : List PostingResult → List BatchResult) (rs : List PostingRequest) {c : Collected}
    → collect_one atomic n i v rest ≡ ok c
    → ((c' : Collected) → rest ≡ ok c' → Collects (suc n) c' f rs)
    → Collects n c (take_outcome v f) (admit v i rs)
collect_one-Collects atomic n i (ok u) rest f rs {c} h k = >>=-elim rest _ h λ c' e h1.
    subst (λ x. Collects n x (take_outcome (ok tt) f) (request_for i ∷ rs)) (ok_unique refl h1)
      (add_request-Collects n i c' f rs (k c' e))
collect_one-Collects true n i (err e) rest f rs h k = absurd (cc)
collect_one-Collects false n i (err e) rest f rs {c} h k = >>=-elim rest _ h λ c' e' h1.
    subst (λ x. Collects n x (λ os. refused e ∷ f os) rs) (ok_unique refl h1)
      (add_refusal-Collects n e c' f rs (k c' e'))

module _ (reads_object : Text → Bool) where
  -- The results in the order of the inputs: an input that the checks refuse has their error, and the
  -- others take the outcomes one after the other.
  unfoldable pub interleave : List (Text × PostInput) → List PostingResult → List BatchResult
  interleave [] os = []
  interleave ((raw, i) ∷ ins) os =
      take_outcome (validate_post reads_object raw i) (interleave ins) os

  -- the requests of the inputs that the checks admit, in order
  unfoldable pub admitted : List (Text × PostInput) → List PostingRequest
  admitted [] = []
  admitted ((raw, i) ∷ ins) = admit (validate_post reads_object raw i) i (admitted ins)

  pub collect-Collects :
      (atomic : Bool) (n : ℕ) (ins : List (Text × PostInput)) {c : Collected}
      → collect reads_object atomic n ins ≡ ok c
      → Collects n c (interleave ins) (admitted ins)
  unfolding collect interleave admitted fill
  collect-Collects atomic n [] {c} h =
      subst (λ x. Collects n x (λ os. []) []) (ok_unique refl h)
        (record { filled = λ pre os l. refl; same_reqs = refl })
  collect-Collects atomic n ((raw, i) ∷ ins) h =
      collect_one-Collects atomic n i (validate_post reads_object raw i)
        (collect reads_object atomic (suc n) ins) (interleave ins) (admitted ins) h
        (λ c' e. collect-Collects atomic (suc n) ins e)

  collected :
      (n : ℕ) (ins : List (Text × PostInput))
      → (c : Collected) × (collect reads_object false n ins ≡ ok c)
  unfolding collect
  collected n [] = (record { results = []; reqs = []; positions = [] }, refl)
  collected n ((raw, i) ∷ ins) = one (validate_post reads_object raw i) (collected (suc n) ins)
    where
      one :
          (v : Result (Unit {0}))
          → ((c : Collected) × (collect reads_object false (suc n) ins ≡ ok c))
          → (c : Collected) × (collect_one false n i v (collect reads_object false (suc n) ins)
              ≡ ok c)
      one (ok u) (c, e) = (add_request n i c, rw e refl)
      one (err x) (c, e) = (add_refusal x c, rw e refl)

-- the requests that are left, if there are any
abbrev pub run_admitted :
    (ℕ → Result Uuid) → Time → List PostingRequest → Store → Store × Result (List PostingResult)
run_admitted new_id now [] s = (s, ok [])
run_admitted new_id now (r ∷ rs) s = run_requests new_id now false (r ∷ rs) s

abbrev pub placed :
    (List PostingResult → List BatchResult)
    → Store × Result (List PostingResult)
    → Store × Result (List BatchResult)
placed f (s, err e) = (s, err e)
placed f (s, ok os) = (s, ok (f os))

module _ (reads_object : Text → Bool) where
  run_collected-placed :
      (new_id : ℕ → Result Uuid) (now : Time) (s : Store)
      (f : List PostingResult → List BatchResult) (ps : List ℕ) (results : List BatchResult)
      (reqs : List PostingRequest)
      → ((os : List PostingResult) → fill ps os results ≡ f os)
      → run_collected reads_object new_id now false
          (record { results = results; reqs = reqs; positions = ps })
          s
        ≡ placed f (run_admitted new_id now reqs s)
  unfolding fill
  run_collected-placed new_id now s f ps results [] k =
      ap (λ rs. (s, ok rs)) (sym (nothing ps) ∙ k [])
    where
      nothing : (ns : List ℕ) → fill ns [] results ≡ results
      nothing [] = refl
      nothing (m ∷ ns) = refl
  run_collected-placed new_id now s f ps results (r ∷ rs) k =
      outcomes (run_requests new_id now false (r ∷ rs) s)
    where
      outcomes :
          (o : Store × Result (List PostingResult))
          → fill_from reads_object (record { results = results; reqs = r ∷ rs; positions = ps }) o
            ≡ placed f o
      outcomes (s', err e) = refl
      outcomes (s', ok os) = ap (λ xs. (s', ok xs)) (k os)

  -- A batch of 1 to 1000 inputs that is not atomic answers what its inputs say one by one, in their
  -- order: those that the checks refuse have the error of the check, and the others have the outcomes
  -- that `run_requests` gives for them alone, with its changes of the store.
  pub post_batch-interleave :
      (new_id : ℕ → Result Uuid) (now : Time) (ins : List (Text × PostInput)) (s : Store)
      → ((length ins == 0) || ltb 1000 (length ins)) ≡ false
      → post_batch reads_object new_id now false ins s
        ≡ placed
            (interleave reads_object ins)
            (run_admitted new_id now (admitted reads_object ins) s)
  unfolding post_batch
  post_batch-interleave new_id now ins s size =
      let (c, e) = collected reads_object 0 ins in
      let k = collect-Collects reads_object false 0 ins e in
      rw (size, e, ← k.same_reqs)
        (run_collected-placed new_id now s (interleave reads_object ins) c.positions c.results
          c.reqs (λ os. k.filled [] os refl))

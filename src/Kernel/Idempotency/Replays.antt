-- ===== src/Kernel/Idempotency/Replays.antt =====
-- What a request that comes again is answered by internal/kernel/idempotency/idempotency.go.
use astrum.Prelude.{
  arith, ℕ, ◌≡◌, refl, sym, ap, ◌∙◌, subst, inl, inr, Bool, true, false, not, ◌==◌, ==_iff, leb,
  Bool-cases, some, if◌then◌else◌,
}
use astrum.Prelude.Eq.{Text, text_eq, text_beq_iff, ◌=?◌, =?_refl}
use astrum.Prelude.Map.{lookup, lookup-insert}
use astrum.Kernel.Idempotency.{
  Response, processing, completed, Row, Keys, is_processing, is_stale, claim_existing, claim,
  problem, replayed, idempotency_reuse, resolve_existing, Recorded, kept_response, finish,
}
use astrum.Kernel.Idempotency.Kept.{
  is_active, World, IsFresh, after_claim, after_finish, Step, claims, finishes, Reach, here, next,
  HasResponse, claim_existing-lookup_other, finish-lookup_other, finish-lookup_same, active_differs,
  without-inactive, without-same,
}

module _ {key hash : Text} {response : Response} {w : World}
    (h : HasResponse key hash response w) where
  settled : is_processing h.row.status ≡ false
  settled = rw h.status refl

  -- the key is not claimed again
  claim-completed :
      (now : ℕ) (given : Text) (token : ℕ) → claim now key given token w.keys ≡ (w.keys, false)
  unfolding claim claim_existing is_stale
  claim-completed now given token = rw (h.stored, settled) refl

  claim-lookup :
      (now : ℕ) (k given : Text) (token : ℕ)
      → lookup key (claim now k given token w.keys).0 ≡ lookup key w.keys
  unfolding claim
  claim-lookup now k given token = elim (Bool-cases (k =? key)) [
    | inl e ↦
        subst (λ x. lookup key (claim now x given token w.keys).0 ≡ lookup key w.keys)
          (sym ((text_beq_iff k key).0 e))
          (ap (λ (p : Keys × Bool). lookup key p.0) (claim-completed now given token))
    | inr e ↦ claim_existing-lookup_other now key k given token w.keys (lookup k w.keys) e
  ]

  finish-lookup :
      (done_problem k : Text) (token : ℕ) (rec : Recorded)
      → is_active token w.active ≡ true
      → lookup key (finish done_problem k token rec w.keys) ≡ lookup key w.keys
  finish-lookup done_problem k token rec a = elim (Bool-cases (k =? key)) [
    | inl e ↦
        subst (λ x. lookup key (finish done_problem x token rec w.keys) ≡ lookup key w.keys)
          (sym ((text_beq_iff k key).0 e))
          (ap (lookup key) (
            finish-lookup_same done_problem key token rec w.keys h.row h.stored
              (active_differs h.row.lock_token token w.active h.finished a)))
    | inr e ↦ finish-lookup_other done_problem key k token rec w.keys e
  ]

  stays :
      (w' : World)
      → lookup key w'.keys ≡ lookup key w.keys
      → is_active h.row.lock_token w'.active ≡ false
      → HasResponse key hash response w'
  stays w' e a = record {
    row = h.row;
    stored = e ∙ h.stored;
    status = h.status;
    request_hash = h.request_hash;
    finished = a;
  }

  after_claim-stays :
      (t : ℕ) (r : Keys × Bool)
      → IsFresh t w
      → lookup key r.0 ≡ lookup key w.keys
      → HasResponse key hash response (after_claim t w r)
  after_claim-stays t (m, false) f e = stays _ e h.finished
  after_claim-stays t (m, true) f e =
      let other' : (h.row.lock_token == t) ≡ false = f.unstored key h.row h.stored in
      let other : (t == h.row.lock_token) ≡ false = ground (arith, other') in
      stays _ e (rw other h.finished)

  Step-HasResponse : {w' : World} → Step w w' → HasResponse key hash response w'
  Step-HasResponse (claims now k given token f e) =
      subst (HasResponse key hash response) (sym e) (
        after_claim-stays token (claim now k given token w.keys) f (claim-lookup now k given token))
  Step-HasResponse (finishes done_problem k token rec a e) =
      subst (HasResponse key hash response) (sym e) (
        stays _ (finish-lookup done_problem k token rec a)
          (without-inactive h.row.lock_token token w.active h.finished))

-- A response that is kept for a key stays the row's, unchanged, while requests claim keys and finish.
pub Reach-HasResponse :
    {key hash : Text} {response : Response} {w w' : World}
    → Reach w w'
    → HasResponse key hash response w
    → HasResponse key hash response w'
Reach-HasResponse here h = h
Reach-HasResponse (next r s) h = Step-HasResponse (Reach-HasResponse r h) s

-- The request holds the key: its row is processing, with the request's token and hash.
pub record Holds (key hash : Text) (token : ℕ) (w : World) : Type 0 where
  pub row : Row
  pub stored : lookup key w.keys ≡ some row
  pub status : row.status ≡ processing
  pub request_hash : row.request_hash ≡ hash
  pub lock_token : row.lock_token ≡ token

finish-HasResponse :
    (done_problem key hash : Text) (token : ℕ) (rec : Recorded) (w : World)
    → Holds key hash token w
    → leb 500 rec.response.status ≡ false
    → HasResponse key hash
        (kept_response done_problem rec)
        (after_finish token w (finish done_problem key token rec w.keys))
unfolding finish
finish-HasResponse done_problem key hash token rec w h fine =
    let held : (h.row.lock_token == token) ≡ true =
      (==_iff h.row.lock_token token).1 h.lock_token in
    let working : is_processing h.row.status ≡ true = rw h.status refl in
    let done : Row = record h.row { status = completed (kept_response done_problem rec) } in
    record {
      row = done;
      stored =
          rw (fine, h.stored, held, working)
            (lookup-insert key key done w.keys ∙ (rw (=?_refl key) refl));
      status = refl;
      request_hash = h.request_hash;
      finished = rw h.lock_token (without-same token w.active);
    }

-- Suppose that a request that holds its key finishes with a status below 500. Whatever requests claim
-- and finish after it, one that comes with the key is not given the key; it is answered the response
-- that was kept, if its hash is the same, and the problem 422 if its hash is another.
pub finish-replayed :
    (done_problem key hash : Text) (token : ℕ) (rec : Recorded) (w w' : World) (now : ℕ)
    (given : Text) (token' : ℕ)
    → Holds key hash token w
    → leb 500 rec.response.status ≡ false
    → Reach (after_finish token w (finish done_problem key token rec w.keys)) w'
    → (claim now key given token' w'.keys ≡ (w'.keys, false))
      × (resolve_existing key given w'.keys ≡ (
          if hash =? given
          then replayed (kept_response done_problem rec)
          else problem 422 idempotency_reuse))
unfolding resolve_existing
finish-replayed done_problem key hash token rec w w' now given token' h fine r =
    let kept = Reach-HasResponse r (finish-HasResponse done_problem key hash token rec w h fine) in
    (
      claim-completed kept now given token',
      rw (kept.stored, kept.request_hash, kept.status) (flip (hash =? given)),
    )
  where
    flip :
        (b : Bool)
        → (if not b
            then problem 422 idempotency_reuse
            else replayed (kept_response done_problem rec))
          ≡ (if b then replayed (kept_response done_problem rec) else problem 422 idempotency_reuse)
    flip true = refl
    flip false = refl

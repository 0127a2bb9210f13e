-- ===== src/Kernel/Idempotency/Kept.antt =====
-- What the table of internal/kernel/idempotency/idempotency.go keeps while requests claim keys and
-- finish, in any order, and what a request that comes again is answered.
use astrum.Prelude.{
  ℕ, ◌≡◌, refl, ◌∙◌, arith, inl, inr, Bool, true, false, ◌&&◌, ◌||◌, ◌==◌, leb, Bool-cases, Option,
  none, some, List, [], ◌∷◌, if◌then◌else◌,
}
use astrum.Prelude.Eq.{Text, text_eq, text_beq_iff, text_beq, ◌=?◌}
use astrum.Prelude.Map.{lookup, insert, lookup-insert}
use astrum.Kernel.Idempotency.{
  Response, completed, Row, Keys, is_processing, is_stale, claim_existing, claim, delete, Recorded,
  kept_response, release_row, complete_row, finish,
}

abbrev pub is_active : ℕ → List ℕ → Bool
is_active t [] = false
is_active t (u ∷ us) = (u == t) || is_active t us

-- the tokens but `t`
abbrev pub without : ℕ → List ℕ → List ℕ
without t [] = []
without t (u ∷ us) = let rest = without t us in if u == t then rest else u ∷ rest

-- The table, and the tokens of the requests that have claimed a key and have not finished.
pub record World : Type 0 where
  pub keys : Keys
  pub active : List ℕ

-- `uuid.New` answers a token that no row and no request has.
pub record IsFresh (t : ℕ) (w : World) : Type 0 where
  pub unstored : (k : Text) (r : Row) → lookup k w.keys ≡ some r → (r.lock_token == t) ≡ false
  pub unheld : is_active t w.active ≡ false

abbrev pub after_claim : ℕ → World → Keys × Bool → World
after_claim t w (m, true) = record { keys = m; active = t ∷ w.active }
after_claim t w (m, false) = record { keys = m; active = w.active }

abbrev pub after_finish : ℕ → World → Keys → World
after_finish t w m = record { keys = m; active = without t w.active }

-- A step of the middleware for any request: it claims a key, or it finishes, once, after a claim.
pub data Step (w : World) (w' : World) : Type 0 where
  claims :
      (now : ℕ) (key hash : Text) (token : ℕ)
      → IsFresh token w
      → w' ≡ after_claim token w (claim now key hash token w.keys)
      → Step w w'
  finishes :
      (done_problem key : Text) (token : ℕ) (rec : Recorded)
      → is_active token w.active ≡ true
      → w' ≡ after_finish token w (finish done_problem key token rec w.keys)
      → Step w w'

pub data Reach (w : World) : World → Type 0 where
  here : Reach w w
  next : {w' w'' : World} → Reach w w' → Step w' w'' → Reach w w''

-- The key has a row that is completed with the response, for the request of the hash, and the request
-- that completed it has finished.
pub record HasResponse (key hash : Text) (response : Response) (w : World) : Type 0 where
  pub row : Row
  pub stored : lookup key w.keys ≡ some row
  pub status : row.status ≡ completed response
  pub request_hash : row.request_hash ≡ hash
  pub finished : is_active row.lock_token w.active ≡ false

lookup-delete_other :
    (j k : Text) (m : Keys) → (k =? j) ≡ false → lookup j (delete k m) ≡ lookup j m
unfolding lookup delete
lookup-delete_other j k [] d = refl
lookup-delete_other j k ((i, r) ∷ m) d = elim (Bool-cases (text_beq i k)) [
  | inl e ↦ rw (e, (text_beq_iff i k).0 e, d) (lookup-delete_other j k m d)
  | inr e ↦ elim (Bool-cases (text_beq i j)) [
    | inl f ↦ rw (e, f) refl
    | inr f ↦ rw (e, f) (lookup-delete_other j k m d)
  ]
]

lookup-insert_other :
    (j k : Text) (r : Row) (m : Keys) → (k =? j) ≡ false → lookup j (insert k r m) ≡ lookup j m
lookup-insert_other j k r m d = lookup-insert j k r m ∙ (rw d refl)

pub claim_existing-lookup_other :
    (now : ℕ) (j k hash : Text) (token : ℕ) (m : Keys) (o : Option Row)
    → (k =? j) ≡ false
    → lookup j (claim_existing now k hash token m o).0 ≡ lookup j m
unfolding claim_existing
claim_existing-lookup_other now j k hash token m none d = lookup-insert_other j k _ m d
claim_existing-lookup_other now j k hash token m (some r) d =
    elim (Bool-cases (is_stale now hash r)) [
      | inl e ↦ rw e (lookup-insert_other j k _ m d)
      | inr e ↦ rw e refl
    ]

release_row-lookup_other :
    (j k : Text) (token : ℕ) (m : Keys) (o : Option Row)
    → (k =? j) ≡ false
    → lookup j (release_row k token m o) ≡ lookup j m
release_row-lookup_other j k token m none d = refl
release_row-lookup_other j k token m (some r) d = elim (Bool-cases (r.lock_token == token)) [
  | inl e ↦ rw e (lookup-delete_other j k m d)
  | inr e ↦ rw e refl
]

complete_row-lookup_other :
    (j k : Text) (token : ℕ) (p : Response) (m : Keys) (o : Option Row)
    → (k =? j) ≡ false
    → lookup j (complete_row k token p m o) ≡ lookup j m
complete_row-lookup_other j k token p m none d = refl
complete_row-lookup_other j k token p m (some r) d =
    elim (Bool-cases ((r.lock_token == token) && is_processing r.status)) [
      | inl e ↦ rw e (lookup-insert_other j k _ m d)
      | inr e ↦ rw e refl
    ]

pub finish-lookup_other :
    (done_problem j k : Text) (token : ℕ) (rec : Recorded) (m : Keys)
    → (k =? j) ≡ false
    → lookup j (finish done_problem k token rec m) ≡ lookup j m
unfolding finish
finish-lookup_other done_problem j k token rec m d =
    elim (Bool-cases (leb 500 rec.response.status)) [
      | inl e ↦ rw e (release_row-lookup_other j k token m (lookup k m) d)
      | inr e ↦
          rw e
            (complete_row-lookup_other j k token (kept_response done_problem rec) m (lookup k m) d)
    ]

-- a finish by another token than the row's leaves the row
pub finish-lookup_same :
    (done_problem k : Text) (token : ℕ) (rec : Recorded) (m : Keys) (r : Row)
    → lookup k m ≡ some r
    → (r.lock_token == token) ≡ false
    → finish done_problem k token rec m ≡ m
unfolding finish
finish-lookup_same done_problem k token rec m r e d =
    elim (Bool-cases (leb 500 rec.response.status)) [
      | inl f ↦ rw (f, e, d) refl
      | inr f ↦ rw (f, e, d) refl
    ]

pub active_differs :
    (t u : ℕ) (us : List ℕ) → is_active t us ≡ false → is_active u us ≡ true → (t == u) ≡ false
active_differs t u [] h k = absurd (cc)
active_differs t u (v ∷ us) h k = elim (Bool-cases (v == u)) [
  | inl e ↦ ground (arith, h)
  | inr e ↦
      active_differs t u us (right (v == t) (is_active t us) h) (rest (v == u) (is_active u us) e k)
]
  where
    right : (a b : Bool) → (a || b) ≡ false → b ≡ false
    right false b p = p
    right true b p = absurd (cc)

    rest : (a b : Bool) → a ≡ false → (a || b) ≡ true → b ≡ true
    rest false b p q = q
    rest true b p q = absurd (cc)

pub without-inactive :
    (t u : ℕ) (us : List ℕ) → is_active t us ≡ false → is_active t (without u us) ≡ false
without-inactive t u [] h = refl
without-inactive t u (v ∷ us) h = ground (arith, without-inactive t u us)

pub without-same : (t : ℕ) (us : List ℕ) → is_active t (without t us) ≡ false
without-same t [] = refl
without-same t (v ∷ us) = ground (arith, without-same t us)

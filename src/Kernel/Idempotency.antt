-- ===== src/Kernel/Idempotency.antt =====
-- internal/kernel/idempotency/idempotency.go: the keys of HTTP requests and the responses that are
-- kept for them. Each statement on the table idempotency_keys is a function on a map. A time is a
-- number of microseconds, and logging is left out.
pub mod Kept
pub mod Replays
use astrum.Prelude.{
  ℕ, ◌+◌, Bool, true, false, not, ◌&&◌, ◌||◌, ◌==◌, ltb, leb, Option, none, some, [], ◌∷◌, ◌++◌,
  length, if◌then◌else◌,
}
use astrum.Prelude.Eq.{Text, text_eq, ◌=?◌}
use astrum.Prelude.Map.{Map, lookup, insert}
use astrum.Ledger.Validate.Strings.{valid_utf8}
use astrum.Ledger.State.{is_empty}

pub record Response : Type 0 where
  pub status : ℕ
  -- an absent Content-Type is the empty text
  pub content_type : Text
  pub body : Text

-- A row. `completed` has the response; a row that is `processing` has none.
pub data KeyStatus : Type 0 where
  processing : KeyStatus
  completed : Response → KeyStatus

pub record Row : Type 0 where
  pub request_hash : Text
  pub status : KeyStatus
  pub lock_token : ℕ
  pub locked_at : ℕ
  pub created_at : ℕ

abbrev pub Keys : Type 0
Keys = Map Text Row

-- `lockTimeout` and `retention`
abbrev pub lock_timeout : ℕ
lock_timeout = 60_000_000

abbrev pub retention : ℕ
retention = 86_400_000_000

abbrev pub is_processing : KeyStatus → Bool
is_processing processing = true
is_processing (completed r) = false

-- the WHERE of the conflict: `locked_at < now() - timeout`
unfoldable pub is_stale : ℕ → Text → Row → Bool
is_stale now hash r =
    is_processing r.status && (r.request_hash =? hash) && ltb (r.locked_at + lock_timeout) now

-- by the row that has the key
unfoldable pub claim_existing : ℕ → Text → Text → ℕ → Keys → Option Row → Keys × Bool
unfolding is_stale insert
claim_existing now key hash token m none = (
  insert key
      (record {
        request_hash = hash;
        status = processing;
        lock_token = token;
        locked_at = now;
        created_at = now;
      })
      m,
  true,
)
claim_existing now key hash token m (some r) =
    if is_stale now hash r
    then (insert key (record r { locked_at = now; lock_token = token }) m, true)
    else (m, false)

-- `claim`
unfoldable pub claim : ℕ → Text → Text → ℕ → Keys → Keys × Bool
unfolding claim_existing
claim now key hash token m = claim_existing now key hash token m (lookup key m)

-- What the client is answered. A problem has a status and a code.
pub data Code : Type 0 where
  invalid_request request_too_large internal idempotency_busy idempotency_reuse : Code

pub data Reply : Type 0 where
  problem : ℕ → Code → Reply
  replayed : Response → Reply
  served : Response → Reply

abbrev pub resolve_status : KeyStatus → Reply
resolve_status processing = problem 409 idempotency_busy
resolve_status (completed r) = replayed r

abbrev pub resolve_row : Text → Option Row → Reply
resolve_row hash none = problem 409 idempotency_busy
resolve_row hash (some r) =
    if not (r.request_hash =? hash) then problem 422 idempotency_reuse else resolve_status r.status

-- `resolveExisting`
unfoldable pub resolve_existing : Text → Text → Keys → Reply
resolve_existing key hash m = resolve_row hash (lookup key m)

unfoldable pub delete : Text → Keys → Keys
delete key [] = []
delete key ((k, r) ∷ m) = let rest = delete key m in if k =? key then rest else (k, r) ∷ rest

-- What the handler wrote, as the recorder has it; `no_store` is whether Cache-Control says so.
pub record Recorded : Type 0 where
  pub response : Response
  pub no_store : Bool

-- the response that is kept: one that must not be stored is replaced by a problem, whose text
-- `json.Marshal` writes
abbrev pub kept_response : Text → Recorded → Response
kept_response done_problem rec =
    if rec.no_store
    then record { status = 409; content_type = problem_json; body = done_problem ++ 10 ∷ [] }
    else rec.response
  where
    -- "application/problem+json"
    problem_json : Text
    problem_json =
        97 ∷ 112 ∷ 112 ∷ 108 ∷ 105 ∷ 99 ∷ 97 ∷ 116 ∷ 105 ∷ 111 ∷ 110 ∷ 47 ∷ 112 ∷ 114 ∷ 111 ∷ 98
        ∷ 108 ∷ 101 ∷ 109 ∷ 43 ∷ 106 ∷ 115 ∷ 111 ∷ 110 ∷ []

abbrev pub release_row : Text → ℕ → Keys → Option Row → Keys
release_row key token m none = m
release_row key token m (some r) = if r.lock_token == token then delete key m else m

abbrev pub complete_row : Text → ℕ → Response → Keys → Option Row → Keys
complete_row key token response m none = m
complete_row key token response m (some r) =
    if (r.lock_token == token) && is_processing r.status
    then insert key (record r { status = completed response }) m
    else m

-- `finish`
unfoldable pub finish : Text → Text → ℕ → Recorded → Keys → Keys
unfolding delete insert
finish done_problem key token rec m =
    if leb 500 rec.response.status
    then release_row key token m (lookup key m)
    else complete_row key token (kept_response done_problem rec) m (lookup key m)

-- `Prune`
unfoldable pub prune : ℕ → Keys → Keys
prune now [] = []
prune now ((k, r) ∷ m) =
    let rest = prune now m in
    if not (is_processing r.status) && ltb (r.created_at + retention) now
    then rest
    else (k, r) ∷ rest

pub data Method : Type 0 where
  get_method head_method post_method put_method patch_method delete_method other_method : Method

unfoldable pub mutating : Method → Bool
mutating post_method = true
mutating put_method = true
mutating patch_method = true
mutating delete_method = true
mutating _ = false

-- How the reading of a request's body ends.
pub data Body : Type 0 where
  read : Text → Body
  too_large broken : Body

-- What the middleware reads of a request. `scope` is what `Scope` answers, empty where it is nil.
pub record HttpRequest : Type 0 where
  pub key : Text
  pub method : Method
  pub target : Text
  pub body : Body
  pub scope : Text

-- The end of the middleware up to the handler: the request is passed on as it is, is refused, or
-- asks for the key, with its hash.
pub data Gate : Type 0 where
  pass : Gate
  refuse : Reply → Gate
  ask : Text → Text → Gate

abbrev pub scoped_key : Text → Text → Text
scoped_key scope key = if is_empty scope then key else scope ++ 58 ∷ key

module _ (hash : Method → Text → Text → Text) where
  abbrev pub gate_body : HttpRequest → Body → Gate
  gate_body r too_large = refuse (problem 413 request_too_large)
  gate_body r broken = refuse (problem 400 invalid_request)
  gate_body r (read text) = ask (scoped_key r.scope r.key) (hash r.method r.target text)

  -- the checks of `Middleware`; `hash` is `requestHash`, with SHA-256
  unfoldable pub gate : HttpRequest → Gate
  unfolding mutating
  gate r =
      if is_empty r.key || not (mutating r.method)
      then pass
      else if ltb 255 (length r.key)
      then refuse (problem 400 invalid_request)
      else if not (valid_utf8 r.key)
      then refuse (problem 400 invalid_request)
      else gate_body r r.body

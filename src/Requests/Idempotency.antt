-- ===== src/Requests/Idempotency.antt =====
-- backend/src/common/middlewares/idempotency.middleware.ts: one answer for each key of a user. The cache
-- and the check of a token are the packages cache-manager and jsonwebtoken, which are parameters. Texts
-- are lists of UTF-16 code units; moments and times to live are milliseconds. The source awaits the cache
-- for the look-up of a key and again for the mark that it is in flight: these are two steps, with any
-- steps of other requests between them. The cache answers every call.
use hub_assist.Common.{
  ℕ, ◌+◌, ◌≤◌, ◌<◌, ◌≡◌, ◌≢◌, Bool, true, ◌&&◌, Option, none, some, List, [], ◌∷◌, ◌++◌, leb, ltb,
  ◌==◌, if◌then◌else◌, length, ok, err, Result, or_throw, throw_if, ◌>>=◌, ◌>>◌, not, count,
  text_eq,
}

abbrev pub Text : Type 0
Text = List ℕ

abbrev pub idempotency_ttl_ms : ℕ
idempotency_ttl_ms = 300000

pub record CachedResponse : Type 0 where
  pub status_code : ℕ
  pub body : Text

-- What the cache holds for a key: the sentinel of a request in flight, or its response.
pub data Entry : Type 0 where
  in_flight : Entry
  completed : CachedResponse → Entry

-- The cache: its state, and what `get`, `set` with a time to live, and `del` do at a moment.
pub record Cache (S : Type 0) : Type 0 where
  pub get : S → ℕ → Text → Option Entry
  pub set : S → ℕ → Text → Entry → ℕ → S
  pub del : S → Text → S

-- What the middleware relies on: an entry stays until its time to live has passed, and a key is not
-- changed by what is done with another one.
pub record CacheLaws (S : Type 0) (cache : Cache S) : Type 0 where
  pub get-set :
      (s : S) (now later ttl : ℕ) (k : Text) (e : Entry)
      → now ≤ later
      → later < now + ttl
      → cache.get (cache.set s now k e ttl) later k ≡ some e
  pub get-set_other :
      (s : S) (now later ttl : ℕ) (k other : Text) (e : Entry)
      → other ≢ k
      → cache.get (cache.set s now k e ttl) later other ≡ cache.get s later other
  pub get-del_other :
      (s : S) (later : ℕ) (k other : Text)
      → other ≢ k
      → cache.get (cache.del s k) later other ≡ cache.get s later other

pub record Request : Type 0 where
  pub idempotency_key : Option Text
  pub authorization : Option Text

pub data Refusal : Type 0 where
  key_required key_malformed token_required : Refusal

pub data Outcome : Type 0 where
  refused : Refusal → Outcome
  already_processing : Outcome
  replayed : CachedResponse → Outcome
  handed_on : Text → Outcome

-- A string that a test like `!rawKey` lets pass.
abbrev pub non_empty : Option Text → Option Text
non_empty none = none
non_empty (some []) = none
non_empty (some (c ∷ cs)) = some (c ∷ cs)

abbrev all_printable : Text → Bool
all_printable [] = true
all_printable (c ∷ cs) = leb 33 c && leb c 126 && all_printable cs

-- `/^[\x21-\x7E]{1,128}$/.test(rawKey)`.
unfoldable pub matches_key_pattern : Text → Bool
matches_key_pattern key = leb 1 (length key) && leb (length key) 128 && all_printable key

-- "Bearer "
abbrev pub bearer : Text
bearer = 66 ∷ 101 ∷ 97 ∷ 114 ∷ 101 ∷ 114 ∷ 32 ∷ []

-- What follows a prefix, if the text starts with it.
abbrev after_prefix : Text → Text → Option Text
after_prefix [] text = some text
after_prefix (p ∷ ps) [] = none
after_prefix (p ∷ ps) (c ∷ cs) = let rest = after_prefix ps cs in if p == c then rest else none

-- "idempotency:"
abbrev pub cache_prefix : Text
cache_prefix = 105 ∷ 100 ∷ 101 ∷ 109 ∷ 112 ∷ 111 ∷ 116 ∷ 101 ∷ 110 ∷ 99 ∷ 121 ∷ 58 ∷ []

unfoldable pub cache_key : Text → Text → Text
cache_key user_id raw_key = cache_prefix ++ user_id ++ 58 ∷ raw_key

-- Whether a status is one of 2xx.
abbrev pub is_success : CachedResponse → Bool
is_success r = leb 200 r.status_code && ltb r.status_code 300

-- The secret, and `jwt.verify(token, secret)` with the payload's `sub`; none where it throws or there
-- is no `sub`.
pub record TokenCheck : Type 0 where
  pub secret : Option Text
  pub verified_sub : Text → Text → Option Text

unfoldable pub extract_user_id_from_token : TokenCheck → Request → Option Text
extract_user_id_from_token check req = elim (req.authorization) [
  | none ↦ none
  | some header ↦ elim (after_prefix bearer header) [
    | none ↦ none
    | some token ↦ elim (non_empty check.secret) [
      | none ↦ none
      | some secret ↦ check.verified_sub token secret
    ]
  ]
]

-- The checks of `use` before the cache is read, and the cache's key.
unfoldable pub request_key : TokenCheck → Request → Result Refusal Text
unfolding matches_key_pattern extract_user_id_from_token cache_key
request_key check req = do
  raw_key ← or_throw (non_empty req.idempotency_key) key_required
  throw_if (not (matches_key_pattern raw_key)) key_malformed
  user_id ← or_throw (non_empty (extract_user_id_from_token check req)) token_required
  ok (cache_key user_id raw_key)

-- A request that looks its key up, one that found nothing and sets the mark of its key, and the response
-- that a handler gives for a key.
pub data Event : Type 0 where
  looks_up : Request → Event
  marks : Text → Event
  answers : Text → CachedResponse → Event

-- The cache's state, and the keys of the requests that have found nothing and not set their mark yet.
pub record Server (S : Type 0) : Type 0 where
  pub cache_state : S
  pub waiting : List Text

abbrev pub waiting_for : Text → List Text → ℕ
waiting_for key keys = count (λ k. text_eq k key) keys

-- The keys without one that is the given one.
unfoldable pub remove_key : Text → List Text → List Text
remove_key key [] = []
remove_key key (k ∷ ks) = let rest = remove_key key ks in if text_eq k key then ks else k ∷ rest

-- A request that is to be handed on waits for its mark first.
abbrev pub awaiting : Outcome → List Text → List Text
awaiting (refused e) keys = keys
awaiting already_processing keys = keys
awaiting (replayed r) keys = keys
awaiting (handed_on key) keys = key ∷ keys

-- What `use` makes of what it finds for the key.
unfoldable pub settle : Text → Option Entry → Outcome
settle key none = handed_on key
settle key (some in_flight) = already_processing
settle key (some (completed r)) = replayed r

module _ {S : Type 0} (cache : Cache S) (check : TokenCheck) where
  unfoldable pub look_up_key : S → ℕ → Result Refusal Text → Outcome
  unfolding settle
  look_up_key s now (err e) = refused e
  look_up_key s now (ok key) = settle key (cache.get s now key)

  -- `use`, from the checks to the answer or, for a request that is to be handed on, up to its mark.
  unfoldable pub look_up : S → ℕ → Request → Outcome
  unfolding look_up_key
  look_up s now req = look_up_key s now (request_key check req)

  -- `use`, the mark before the call of `next`.
  unfoldable pub mark_in_flight : S → ℕ → Text → S
  mark_in_flight s now key = cache.set s now key in_flight idempotency_ttl_ms

  -- What the wrapped `res.json` does with the handler's response.
  unfoldable pub respond : S → ℕ → Text → CachedResponse → S
  respond s now key r =
      if is_success r then cache.set s now key (completed r) idempotency_ttl_ms else cache.del s key

  unfoldable pub step : Server S → ℕ → Event → Server S
  unfolding look_up mark_in_flight respond remove_key
  step server now (looks_up req) = record server {
    waiting = awaiting (look_up server.cache_state now req) server.waiting;
  }
  step server now (marks key) =
      if leb 1 (waiting_for key server.waiting)
      then record {
        cache_state = mark_in_flight server.cache_state now key;
        waiting = remove_key key server.waiting;
      }
      else server
  step server now (answers key r) = record server {
    cache_state = respond server.cache_state now key r;
  }

  -- What the server does over time: the steps of its requests, in any order.
  unfoldable pub run : Server S → List (ℕ × Event) → Server S
  unfolding step
  run server [] = server
  run server ((now, e) ∷ later) = run (step server now e) later

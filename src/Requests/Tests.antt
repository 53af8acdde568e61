-- ===== src/Requests/Tests.antt =====
-- The middleware of backend/src/common/middlewares/idempotency.middleware.ts on one user's key, with a
-- cache that keeps every write in a list.
use hub_assist.Common.{
  text_eq, text_eq→eq, text_eq_refl, ℕ, ◌+◌, ◌≡◌, ◌≢◌, refl, Option, none, some, List, [], ◌∷◌, ltb,
  if◌then◌else◌, ok, arith, Bool-cases, inl, inr,
}
use hub_assist.Requests.Idempotency.{
  Text, Entry, in_flight, CachedResponse, Cache, CacheLaws, Request, Server, replayed, handed_on,
  TokenCheck, cache_key, request_key, settle, look_up_key, look_up, waiting_for, Event, looks_up,
  marks, answers, step, run, matches_key_pattern, extract_user_id_from_token,
}
use hub_assist.Requests.IdempotencyLaws.{latest, shown, look_up_once}

-- What was written for a key, last write first: none for a deletion, an entry with its end otherwise.
abbrev Writes : Type 0
Writes = List (Text × Option (Entry × ℕ))

abbrev alive : ℕ → Option (Entry × ℕ) → Option Entry
alive now none = none
alive now (some (e, end)) = if ltb now end then some e else none

abbrev get_write : Writes → ℕ → Text → Option Entry
get_write [] now key = none
get_write ((k, w) ∷ later) now key =
    let rest = get_write later now key in if text_eq key k then alive now w else rest

abbrev list_cache : Cache Writes
list_cache = record {
  get = get_write;
  set = λ s now key e ttl. (key, some (e, now + ttl)) ∷ s;
  del = λ s key. (key, none) ∷ s;
}

get_write_other :
    (s : Writes) (now : ℕ) (k other : Text) (w : Option (Entry × ℕ))
    → other ≢ k
    → get_write ((k, w) ∷ s) now other ≡ get_write s now other
get_write_other s now k other w apart = elim (Bool-cases (text_eq other k)) [
  | inl same ↦ absurd (apart (text_eq→eq other k same))
  | inr differs ↦ rw differs refl
]

list_cache-CacheLaws : CacheLaws Writes list_cache
list_cache-CacheLaws = record {
  get-set = λ s now later ttl k e after before. rw (text_eq_refl k) (ground arith);
  get-set_other = λ s now later ttl k other e apart.
      get_write_other s later k other (some (e, now + ttl)) apart;
  get-del_other = λ s later k other apart. get_write_other s later k other none apart;
}

-- Any token is valid, and its user is its own text.
abbrev trusting : TokenCheck
trusting = record { secret = some (115 ∷ []); verified_sub = λ token secret. some token }

-- The key `k1` with the token `u`.
abbrev post : Request
post = record {
  idempotency_key = some (107 ∷ 49 ∷ []);
  authorization = some (66 ∷ 101 ∷ 97 ∷ 114 ∷ 101 ∷ 114 ∷ 32 ∷ 117 ∷ []);
}

abbrev created : CachedResponse
created = record { status_code = 201; body = 123 ∷ 125 ∷ [] }

abbrev post_key : Text
post_key = cache_key (117 ∷ []) (107 ∷ 49 ∷ [])

-- The same request again, which comes before the handler has answered.
abbrev history : List (ℕ × Event)
history = (1100, looks_up post) ∷ (1500, answers post_key created) ∷ []

keyed : request_key trusting post ≡ ok post_key
unfolding request_key matches_key_pattern extract_user_id_from_token
keyed = refl

abbrev empty_server : Server Writes
empty_server = record { cache_state = []; waiting = [] }

-- The server after the look-up of the first request, which is about to set its mark.
abbrev looked_up : Server Writes
looked_up = record { cache_state = []; waiting = post_key ∷ [] }

first_looks_up : step list_cache trusting empty_server 1000 (looks_up post) ≡ looked_up
unfolding step look_up look_up_key settle request_key matches_key_pattern extract_user_id_from_token
first_looks_up = refl

-- Two requests that look the key up before one of them has set its mark are both to be handed on.
both_handed_on :
    (look_up list_cache trusting empty_server.cache_state 1000 post ≡ handed_on post_key)
    × (look_up list_cache trusting looked_up.cache_state 1001 post ≡ handed_on post_key)
unfolding look_up look_up_key settle request_key matches_key_pattern extract_user_id_from_token
both_handed_on = (refl, refl)

one_waits : waiting_for post_key looked_up.waiting ≡ 1
unfolding cache_key
one_waits = refl

-- The handler has answered at 1500; a second after that the answer is given again.
look_up_once_example :
    look_up list_cache trusting
      (run list_cache trusting
        (step list_cache trusting looked_up 1050 (marks post_key))
        history).cache_state
      2500
      post
    ≡ shown (latest post_key in_flight history)
look_up_once_example =
    look_up_once list_cache list_cache-CacheLaws trusting looked_up 1050 2500 post post_key history
      one_waits keyed (omega arith, (omega arith, (λ e. refl), omega arith)) (omega arith)

replays : shown (latest post_key in_flight history) ≡ replayed created
unfolding cache_key
replays = refl

-- ===== src/Requests/IdempotencyLaws.antt =====
-- What backend/src/common/middlewares/idempotency.middleware.ts makes of a key that comes again.
use hub_assist.Common.{
  false, suc, leb, ap, text_eq, text_eq→eq, text_eq-false, ℕ, ◌+◌, ◌≤◌, ◌<◌, ◌≡◌, ◌≢◌, refl, sym,
  ◌∙◌, inl, inr, true, Option, none, some, List, [], ◌∷◌, if◌then◌else◌, ok, err, Result,
  Bool-cases, arith,
}
use mathlib.Core.Path.{subst}
use hub_assist.Requests.Idempotency.{
  Text, Entry, in_flight, completed, CachedResponse, Cache, CacheLaws, Request, Outcome, Server,
  already_processing, replayed, Refusal, TokenCheck, request_key, settle, look_up_key, look_up,
  mark_in_flight, remove_key, waiting_for, awaiting, respond, Event, looks_up, marks, answers, step,
  run, idempotency_ttl_ms, is_success,
}

-- What the last answer to a key leaves in the cache, from what was there before.
abbrev pub latest : Text → Entry → List (ℕ × Event) → Entry
latest key e [] = e
latest key e ((now, looks_up req) ∷ later) = latest key e later
latest key e ((now, marks k) ∷ later) = latest key e later
latest key e ((now, answers k r) ∷ later) =
    if text_eq k key then latest key (completed r) later else latest key e later

-- The response to a request whose key has an entry.
abbrev pub shown : Entry → Outcome
shown in_flight = already_processing
shown (completed r) = replayed r

-- Events in the order of their times, from one moment on and up to another, where each answer to the
-- key is a success.
abbrev pub IsQuiet : Text → ℕ → ℕ → List (ℕ × Event) → Type 0
IsQuiet key from until [] = from ≤ until
IsQuiet key from until ((now, looks_up req) ∷ later) = (from ≤ now) × IsQuiet key now until later
IsQuiet key from until ((now, marks k) ∷ later) = (from ≤ now) × IsQuiet key now until later
IsQuiet key from until ((now, answers k r) ∷ later) =
    (from ≤ now) × (k ≡ key → is_success r ≡ true) × IsQuiet key now until later

IsQuiet-le :
    (key : Text) (from until : ℕ) (es : List (ℕ × Event)) → IsQuiet key from until es → from ≤ until
IsQuiet-le key from until [] q = q
IsQuiet-le key from until ((now, looks_up req) ∷ later) q =
    let ih = IsQuiet-le key now until later q.1 in omega (arith, ih, q.0)
IsQuiet-le key from until ((now, marks k) ∷ later) q =
    let ih = IsQuiet-le key now until later q.1 in omega (arith, ih, q.0)
IsQuiet-le key from until ((now, answers k r) ∷ later) q =
    let ih = IsQuiet-le key now until later q.2 in omega (arith, ih, q.0)

settle-shown : (key : Text) (e : Entry) → settle key (some e) ≡ shown e
unfolding settle
settle-shown key in_flight = refl
settle-shown key (completed r) = refl

shown-awaiting : (e : Entry) (keys : List Text) → awaiting (shown e) keys ≡ keys
shown-awaiting in_flight keys = refl
shown-awaiting (completed r) keys = refl

settle-apart :
    (key k : Text) (found : Option Entry) (keys : List Text)
    → text_eq k key ≡ false
    → waiting_for key keys ≡ 0
    → waiting_for key (awaiting (settle k found) keys) ≡ 0
unfolding settle
settle-apart key k none keys apart h = rw apart (omega (arith, h))
settle-apart key k (some in_flight) keys apart h = h
settle-apart key k (some (completed r)) keys apart h = h

remove_key-none :
    (key k : Text) (keys : List Text)
    → waiting_for key keys ≡ 0
    → waiting_for key (remove_key k keys) ≡ 0
unfolding remove_key
remove_key-none key k [] h = refl
remove_key-none key k (x ∷ xs) h =
    let rest : waiting_for key xs ≡ 0 = ground (arith, h) in
    let ih = remove_key-none key k xs rest in
    let here : text_eq x key ≡ false = ground (arith, h) in
    elim (Bool-cases (text_eq x k)) [
      | inl same ↦ rw same rest
      | inr apart ↦ rw (apart, here) (omega (arith, ih))
    ]

remove_key-one :
    (key : Text) (n : ℕ) (keys : List Text)
    → waiting_for key keys ≡ suc n
    → waiting_for key (remove_key key keys) ≡ n
unfolding remove_key
remove_key-one key n [] h = cc
remove_key-one key n (x ∷ xs) h = elim (Bool-cases (text_eq x key)) [
  | inl same ↦ let rest : waiting_for key xs ≡ n = ground (arith, h, same) in rw same rest
  | inr apart ↦
      let rest : waiting_for key xs ≡ suc n = ground (arith, h, apart) in
      let ih = remove_key-one key n xs rest in rw (apart, apart) (omega (arith, ih))
]

module _ {S : Type 0} (cache : Cache S) (laws : CacheLaws S cache) (check : TokenCheck) where
  -- A key's entry, over a span of time.
  abbrev Holds : S → Text → Entry → ℕ → ℕ → Type 0
  Holds s key e from until = (now : ℕ) → from ≤ now → now < until → cache.get s now key ≡ some e

  Holds-later :
      (s : S) (key : Text) (e : Entry) (from later until : ℕ)
      → from ≤ later
      → Holds s key e from until
      → Holds s key e later until
  Holds-later s key e from later until le h now after before = h now (omega arith) before

  mark-Holds :
      (s : S) (t until : ℕ) (k key : Text) (e : Entry)
      → key ≢ k
      → Holds s key e t until
      → Holds (mark_in_flight cache check s t k) key e t until
  unfolding mark_in_flight
  mark-Holds s t until k key e other h now after before =
      laws.get-set_other s t now idempotency_ttl_ms k key in_flight other ∙ h now after before

  respond-Holds :
      (s : S) (t until : ℕ) (k : Text) (r : CachedResponse) (key : Text) (e : Entry)
      → key ≢ k
      → Holds s key e t until
      → Holds (respond cache check s t k r) key e t until
  unfolding respond
  respond-Holds s t until k r key e other h now after before = elim (Bool-cases (is_success r)) [
    | inl good ↦ rw good (
        laws.get-set_other s t now idempotency_ttl_ms k key (completed r) other
        ∙ h now after before)
    | inr bad ↦ rw bad (laws.get-del_other s now k key other ∙ h now after before)
  ]

  respond_same-Holds :
      (s : S) (t until : ℕ) (key : Text) (r : CachedResponse)
      → until ≤ t + idempotency_ttl_ms
      → is_success r ≡ true
      → Holds (respond cache check s t key r) key (completed r) t until
  unfolding respond
  respond_same-Holds s t until key r le good now after before =
      rw good (
        laws.get-set s t now idempotency_ttl_ms key (completed r) after (omega (arith, le, before)))

  -- A key has an entry over a span of time, and no request with it waits for its mark.
  abbrev IsHeld : Server S → Text → Entry → ℕ → ℕ → Type 0
  IsHeld server key e from until =
      Holds server.cache_state key e from until × (waiting_for key server.waiting ≡ 0)

  look_up-IsHeld :
      (server : Server S) (t until : ℕ) (req : Request) (key : Text) (e : Entry)
      → t < until
      → IsHeld server key e t until
      → IsHeld (step cache check server t (looks_up req)) key e t until
  unfolding step look_up look_up_key
  look_up-IsHeld server t until req key e lt h = (h.0, of_key (request_key check req))
    where
      of_key :
          (k : Result Refusal Text)
          → waiting_for key
              (awaiting (look_up_key cache check server.cache_state t k) server.waiting)
            ≡ 0
      of_key (err x) = h.1
      of_key (ok k) = elim (Bool-cases (text_eq k key)) [
        | inl same ↦
            subst
              (λ x.
                waiting_for key
                  (awaiting (settle x (cache.get server.cache_state t x)) server.waiting)
                ≡ 0)
              (sym (text_eq→eq k key same))
              (rw (h.0 t (omega arith) lt, settle-shown key e)
                (ap (waiting_for key) (shown-awaiting e server.waiting) ∙ h.1))
        | inr apart ↦ settle-apart key k (cache.get server.cache_state t k) server.waiting apart h.1
      ]

  marks-IsHeld :
      (server : Server S) (t until : ℕ) (k key : Text) (e : Entry)
      → IsHeld server key e t until
      → IsHeld (step cache check server t (marks k)) key e t until
  unfolding step
  marks-IsHeld server t until k key e h = elim (Bool-cases (leb 1 (waiting_for k server.waiting))) [
    | inr none_waits ↦ rw none_waits h
    | inl waits ↦
        let apart : key ≢ k = λ same.
          let none_left = subst (λ x. waiting_for x server.waiting ≡ 0) same h.1 in
          absurd (ground (arith, none_left, waits)) in
        rw waits (
          mark-Holds server.cache_state t until k key e apart h.0,
          remove_key-none key k server.waiting h.1,
        )
  ]

  run-Holds :
      (key : Text) (e : Entry) (from until last : ℕ) (events : List (ℕ × Event)) (server : Server S)
      → until ≤ from + idempotency_ttl_ms
      → last < until
      → IsQuiet key from last events
      → IsHeld server key e from until
      → cache.get (run cache check server events).cache_state last key ≡ some (latest key e events)
  unfolding run
  run-Holds key e from until last [] server ttl lt q h = h.0 last q lt
  run-Holds key e from until last ((now, looks_up req) ∷ later) server ttl lt q h =
      run-Holds key e now until last later _ (omega arith) lt q.1 (
        look_up-IsHeld server now until req key e
          (omega (arith, IsQuiet-le key now last later q.1, lt))
          (Holds-later server.cache_state key e from now until q.0 h.0, h.1))
  run-Holds key e from until last ((now, marks k) ∷ later) server ttl lt q h =
      run-Holds key e now until last later _ (omega arith) lt q.1 (
        marks-IsHeld server now until k key e
          (Holds-later server.cache_state key e from now until q.0 h.0, h.1))
  run-Holds key e from until last ((now, answers k r) ∷ later) server ttl lt q h =
      let kept = Holds-later server.cache_state key e from now until q.0 h.0 in
      elim (Bool-cases (text_eq k key)) [
        | inl same ↦
            let eq = text_eq→eq k key same in
            rw same (
              run-Holds key (completed r) now until last later _ (omega arith) lt q.2 (
                subst
                  (λ x.
                    IsHeld (step cache check server now (answers x r)) key (completed r) now until)
                  (sym eq)
                  (unfold step in
                    (
                      respond_same-Holds server.cache_state now until key r (omega arith) (q.1 eq),
                      h.1,
                    ))))
        | inr other ↦ rw other (
            run-Holds key e now until last later _ (omega arith) lt q.2 (
              unfold step in
              (
                respond-Holds server.cache_state now until k r key e
                    (λ x. text_eq-false k key other (sym x)) kept,
                h.1,
              )))
      ]

  -- Let one request with a key, and no other with the same key, have found nothing for it and be about
  -- to set the mark that it is in flight. Once it has set the mark, no request with the key whose
  -- look-up comes in the next five minutes is handed on: while no answer to the key has come it is told
  -- that the first is being processed, and then it gets the last answer again, as it was, whatever
  -- steps of other requests come between. This is where the cache keeps an entry for its time to live
  -- and keeps keys apart, each answer to the key is a success (2xx), and the steps come in the order of
  -- their times. Of two requests that look the key up before either has set its mark nothing is said.
  pub look_up_once :
      (server : Server S) (now last : ℕ) (again : Request) (key : Text) (events : List (ℕ × Event))
      → waiting_for key server.waiting ≡ 1
      → request_key check again ≡ ok key
      → IsQuiet key now last events
      → last < now + idempotency_ttl_ms
      → look_up cache check
          (run cache check (step cache check server now (marks key)) events).cache_state
          last
          again
        ≡ shown (latest key in_flight events)
  unfolding look_up look_up_key
  look_up_once server now last again key events alone same quiet lt =
      let some_waits : leb 1 (waiting_for key server.waiting) ≡ true = ground (arith, alone) in
      let marked : IsHeld (step cache check server now (marks key)) key in_flight now
          (now + idempotency_ttl_ms) =
        unfold step mark_in_flight in
        rw some_waits (
          (λ t after before.
              laws.get-set server.cache_state now t idempotency_ttl_ms key in_flight after before),
          remove_key-one key 0 server.waiting alone,
        ) in
      let held =
        run-Holds key in_flight now (now + idempotency_ttl_ms) last events
          (step cache check server now (marks key)) (omega arith) lt quiet marked in
      rw (same, held) (settle-shown key (latest key in_flight events))

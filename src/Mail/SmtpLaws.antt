-- ===== src/Mail/SmtpLaws.antt =====
-- What backend/src/email makes of a mail server that fails: the retries and the circuit breaker of
-- `sendTemplate`.
use hub_assist.Common.{
  ℕ, zero, suc, ◌+◌, ◌≤◌, ◌<◌, ◌≡◌, refl, sym, ◌∙◌, inl, inr, Bool, true, false, Option, none, some,
  List, [], ◌∷◌, ltb, Result, ok, err, arith, Bool-cases, length, ap,
}
use mathlib.Core.Path.{subst}
use hub_assist.Mail.Smtp.{
  MailError, Breaker, record_failure, is_open, is_retryable_error, go_on_after, retry_from, Post,
  internal_error, caught, answered, send_once, let_pass, delay_after, breaker_error, send_template,
  send_all, reset_timeout,
}

-- An outcome after which the decorator does not try again.
abbrev IsFinal : Result MailError (Unit {0}) × Post → Type 0
IsFinal (ok done, s) = Unit
IsFinal (err e, s) = is_retryable_error e ≡ false

go_on_after-IsFinal :
    (method : Post → Result MailError (Unit {0}) × Post)
    (later : Post → Result MailError (Unit {0}) × Post) (delay : ℕ)
    (r : Result MailError (Unit {0}) × Post)
    → IsFinal r
    → go_on_after method let_pass later delay r ≡ r
go_on_after-IsFinal method later delay (ok done, s) f = refl
go_on_after-IsFinal method later delay (err e, s) f = rw f refl

retry_from-IsFinal :
    (method : Post → Result MailError (Unit {0}) × Post) (backoff_ms : List ℕ) (left attempt : ℕ)
    (s : Post)
    → IsFinal (method s)
    → retry_from method let_pass backoff_ms left attempt s ≡ method s
unfolding retry_from
retry_from-IsFinal method backoff_ms zero attempt s f = refl
retry_from-IsFinal method backoff_ms (suc left) attempt s f =
    go_on_after-IsFinal method (retry_from method let_pass backoff_ms left (attempt + 1))
      (delay_after backoff_ms attempt) (method s) f

module _ (send_mail : ℕ → Option MailError)
    (foreign : (n : ℕ) (e : MailError) → send_mail n ≡ some e → e.is_internal ≡ false) where
  internal-IsFinal : is_retryable_error internal_error ≡ false
  unfolding is_retryable_error
  internal-IsFinal = refl

  answered-IsFinal :
      (o : Option MailError) (s : Post)
      → ((e : MailError) → o ≡ some e → e.is_internal ≡ false)
      → IsFinal (answered send_mail o s)
  unfolding answered caught
  answered-IsFinal none s h = tt
  answered-IsFinal (some e) s h = rw (h e refl) internal-IsFinal

  send_once-IsFinal : (has_context : Bool) (s : Post) → IsFinal (send_once send_mail has_context s)
  unfolding send_once caught
  send_once-IsFinal false s = internal-IsFinal
  send_once-IsFinal true s = elim (Bool-cases (is_open s.now s.breaker)) [
    | inl shut ↦ rw shut internal-IsFinal
    | inr passes ↦
        rw passes (
          answered-IsFinal (send_mail s.calls) (record s { calls = s.calls + 1 }) (foreign s.calls))
  ]

  answered-calls : (o : Option MailError) (s : Post) → (answered send_mail o s).1.calls ≡ s.calls
  unfolding answered caught
  answered-calls none s = refl
  answered-calls (some e) s = refl

  send_once-calls :
      (has_context : Bool) (s : Post) → (send_once send_mail has_context s).1.calls ≤ s.calls + 1
  unfolding send_once caught
  send_once-calls false s = omega arith
  send_once-calls true s = elim (Bool-cases (is_open s.now s.breaker)) [
    | inl shut ↦ rw shut (omega arith)
    | inr passes ↦
        let same = answered-calls (send_mail s.calls) (record s { calls = s.calls + 1 }) in
        rw passes (omega (arith, same))
  ]

  -- The retries of `sendTemplate` never come to pass: where the mail server throws no
  -- `InternalServerErrorException` of its own, the decorated call does what a single attempt does,
  -- whatever the server's answer, and calls the server at most once.
  pub send_template_once :
      (has_context : Bool) (s : Post)
      → (send_template send_mail has_context s ≡ send_once send_mail has_context s)
        × ((send_template send_mail has_context s).1.calls ≤ s.calls + 1)
  unfolding send_template
  send_template_once has_context s =
      let once : send_template send_mail has_context s ≡ send_once send_mail has_context s =
        retry_from-IsFinal (send_once send_mail has_context) (120000 ∷ 240000 ∷ 480000 ∷ []) 2 1 s
          (send_once-IsFinal has_context s) in
      (once, subst (λ r. r.1.calls ≤ s.calls + 1) (sym once) (send_once-calls has_context s))

-- Failures that are recorded one after another.
abbrev pub record_failures : List ℕ → Breaker → Breaker
record_failures [] b = b
record_failures (now ∷ later) b = record_failures later (record_failure now b)

-- Moments each less than a minute after the one before, from the first to the last.
abbrev pub IsClose : ℕ → List ℕ → ℕ → Type 0
IsClose first [] last = first ≡ last
IsClose first (now ∷ later) last = (first ≤ now) × (now < first + 60000) × IsClose now later last

record_failures-open :
    (n first last : ℕ) (times : List ℕ) (b : Breaker)
    → n ≤ b.failures
    → b.failures_until ≡ first + 60000
    → (5 ≤ n → b.open_until ≡ first + reset_timeout)
    → IsClose first times last
    → 5 ≤ n + length times
    → (record_failures times b).open_until ≡ last + reset_timeout
unfolding record_failure
record_failures-open n first last [] b few until opened close five =
    opened (omega arith) ∙ ap (λ t. t + reset_timeout) close
record_failures-open n first last (now ∷ later) b few until opened close five =
    let soon : ltb now b.failures_until ≡ true = ground arith in
    record_failures-open (n + 1) now last later (record_failure now b) (ground (arith, soon)) refl
      (λ h. ground (arith, soon)) close.2 (omega arith)

is_open_until : (now : ℕ) (b : Breaker) → now < b.open_until → is_open now b ≡ true
unfolding is_open
is_open_until now b h = ground arith

first_failure : (now : ℕ) (b : Breaker) → 1 ≤ (record_failure now b).failures
unfolding record_failure
first_failure now b = omega arith

-- Sends that fall into a span of time.
abbrev pub AllWithin : ℕ → ℕ → List (ℕ × Bool) → Type 0
AllWithin from until [] = Unit
AllWithin from until ((now, has_context) ∷ later) =
    (from ≤ now) × (now < until) × AllWithin from until later

module _ (send_mail : ℕ → Option MailError)
    (foreign : (n : ℕ) (e : MailError) → send_mail n ≡ some e → e.is_internal ≡ false) where
  caught-open :
      (e : MailError) (from : ℕ) (s : Post)
      → from ≤ s.now
      → from + reset_timeout ≤ s.breaker.open_until
      → let r = (caught send_mail e s).1 in
        (r.calls ≡ s.calls) × (from + reset_timeout ≤ r.breaker.open_until)
  unfolding caught record_failure
  caught-open e from s after shutting = (refl, ground arith)

  send_once-open :
      (has_context : Bool) (from : ℕ) (s : Post)
      → from ≤ s.now
      → s.now < from + reset_timeout
      → from + reset_timeout ≤ s.breaker.open_until
      → let r = (send_once send_mail has_context s).1 in
        (r.calls ≡ s.calls) × (from + reset_timeout ≤ r.breaker.open_until)
  unfolding send_once
  send_once-open false from s after before shutting =
      caught-open internal_error from s after shutting
  send_once-open true from s after before shutting =
      let shut : is_open s.now s.breaker ≡ true =
        is_open_until s.now s.breaker (omega (arith, before, shutting)) in
      rw shut (caught-open breaker_error from s after shutting)

  send_all-open :
      (from : ℕ) (sends : List (ℕ × Bool)) (s : Post)
      → from + reset_timeout ≤ s.breaker.open_until
      → AllWithin from (from + reset_timeout) sends
      → (send_all send_mail sends s).calls ≡ s.calls
  unfolding send_all
  send_all-open from [] s shutting h = refl
  send_all-open from ((now, has_context) ∷ later) s shutting h =
      let s' : Post = record s { now = now } in
      let once = (send_template_once send_mail foreign has_context s').0 in
      let kept = send_once-open has_context from s' h.0 h.1 shutting in
      subst (λ r. (send_all send_mail later r.1).calls ≡ s.calls) (sym once)
        (send_all-open from later (send_once send_mail has_context s').1 kept.1 h.2 ∙ kept.0)

  -- Once five failures or more are recorded, each less than a minute after the one before, the mail server
  -- is not called for half an hour after the last of them, whatever is to be sent: where the server
  -- throws no `InternalServerErrorException` of its own.
  pub send_all-shut :
      (b : Breaker) (first last : ℕ) (times : List ℕ) (sends : List (ℕ × Bool)) (s : Post)
      → s.breaker ≡ record_failures (first ∷ times) b
      → 4 ≤ length times
      → IsClose first times last
      → AllWithin last (last + reset_timeout) sends
      → (send_all send_mail sends s).calls ≡ s.calls
  unfolding record_failure
  send_all-shut b first last times sends s same five close within =
      send_all-open last sends s
        (rw same (
          let o =
            record_failures-open 1 first last times (record_failure first b) (first_failure first b)
              refl (λ h. absurd (omega arith)) close (omega arith) in
          omega (arith, o)))
        within

-- ===== src/Mail/Tests.antt =====
-- The sending of backend/src/email with a mail server that is busy: it answers each call with 421.
use hub_assist.Common.{ℕ, ◌≤◌, ◌≡◌, refl, sym, ap, true, false, Option, none, some, [], ◌∷◌, arith}
use mathlib.Core.Option.{get_or}
use hub_assist.Mail.Smtp.{
  MailError, Breaker, Post, is_retryable_error, send_once, send_template, send_all,
}
use hub_assist.Mail.SmtpLaws.{record_failures, send_template_once, send_all-shut}

abbrev busy_error : MailError
busy_error = record { is_internal = false; response_code = some 421; code = none }

abbrev busy : ℕ → Option MailError
busy n = some busy_error

busy-foreign : (n : ℕ) (e : MailError) → busy n ≡ some e → e.is_internal ≡ false
busy-foreign n e h = sym (ap (λ o. (get_or o busy_error).is_internal) h)

abbrev closed : Breaker
closed = record { failures = 0; failures_until = 0; open_until = 0 }

abbrev idle : Post
idle = record { now = 1000; breaker = closed; calls = 0 }

-- The server's own error is one that the decorator would retry.
busy_retryable : is_retryable_error busy_error ≡ true
unfolding is_retryable_error
busy_retryable = refl

send_template_once_example :
    (send_template busy true idle ≡ send_once busy true idle)
    × ((send_template busy true idle).1.calls ≤ 1)
send_template_once_example = send_template_once busy busy-foreign true idle

-- Five failures, ten seconds apart.
abbrev tripped : Post
tripped = record {
  now = 50000;
  breaker = record_failures (10000 ∷ 20000 ∷ 30000 ∷ 40000 ∷ 50000 ∷ []) closed;
  calls = 5;
}

send_all-shut_example :
    (send_all busy ((60000, true) ∷ (1800000, true) ∷ (1849999, false) ∷ []) tripped).calls ≡ 5
send_all-shut_example =
    send_all-shut busy busy-foreign closed 10000 50000 (20000 ∷ 30000 ∷ 40000 ∷ 50000 ∷ [])
      ((60000, true) ∷ (1800000, true) ∷ (1849999, false) ∷ []) tripped refl (omega arith)
      (
        omega arith,
        omega arith,
        (omega arith, omega arith, (omega arith, omega arith, (omega arith, omega arith, refl))),
      )
      (omega arith, omega arith, (omega arith, omega arith, (omega arith, omega arith, tt)))

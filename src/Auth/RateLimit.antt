-- ===== src/Auth/RateLimit.antt =====
-- backend/src/auth/otp-rate-limit.service.ts: the sliding window of an email's resends. The cached value
-- is the list of its timestamps (`JSON.parse` of `JSON.stringify` gives it back); an entry that is
-- gone, by its time to live or by a cleared window, is the empty list. Each call of the cache may throw.
use hub_assist.Common.{
  ℕ, ◌+◌, ◌-◌, ◌/◌, min, Bool, true, false, Option, none, some, List, [], ◌∷◌, ◌++◌, ltb, leb,
  if◌then◌else◌, filter, length,
}

abbrev pub otp_resend_limit : ℕ
otp_resend_limit = 3

abbrev pub otp_resend_window_ms : ℕ
otp_resend_window_ms = 300000

pub record ResendCheckResult : Type 0 where
  pub allowed : Bool
  pub remaining : ℕ
  pub retry_after_seconds : ℕ
  pub redis_unavailable : Bool

-- `ts > now - OTP_RESEND_WINDOW_MS`, where the difference may be negative.
abbrev pub in_window : ℕ → ℕ → Bool
in_window now ts = ltb now (ts + otp_resend_window_ms)

-- `Math.min(...timestamps)` of a list that is not empty.
unfoldable pub oldest : ℕ → List ℕ → ℕ
oldest ts [] = ts
oldest ts (x ∷ xs) = oldest (min ts x) xs

-- `Math.ceil(retryAfterMs / 1000)`.
unfoldable pub retry_after : ℕ → List ℕ → ℕ
unfolding oldest
retry_after now [] = 0
retry_after now (ts ∷ rest) = (oldest ts rest + otp_resend_window_ms - now + 999) / 1000

-- Whether the cache answers a call of it or throws.
pub data Answer : Type 0 where
  answers throws : Answer

-- `loadTimestamps`: the list is empty where the cache throws.
unfoldable pub load_timestamps : Answer → List ℕ → List ℕ
load_timestamps answers stored = stored
load_timestamps throws stored = []

-- `saveTimestamps`: nothing is written where the cache throws.
unfoldable pub save_timestamps : Answer → List ℕ → List ℕ → List ℕ
save_timestamps answers timestamps stored = timestamps
save_timestamps throws timestamps stored = stored

-- `clearResendWindow`, which `verifyOtp` calls on success.
unfoldable pub clear_resend_window : Answer → List ℕ → List ℕ
clear_resend_window answers stored = []
clear_resend_window throws stored = stored

-- `checkAndRecordResend` with a cache and its answers to the two calls: the result, and the timestamps that
-- it leaves. A blocked call saves nothing.
unfoldable pub check_and_record : Answer → Answer → ℕ → List ℕ → ResendCheckResult × List ℕ
unfolding retry_after load_timestamps save_timestamps
check_and_record on_load on_save now stored =
    let timestamps = filter (in_window now) (load_timestamps on_load stored) in
    if leb otp_resend_limit (length timestamps)
    then (
      record {
        allowed = false;
        remaining = 0;
        retry_after_seconds = retry_after now timestamps;
        redis_unavailable = false;
      },
      stored,
    )
    else (
      record {
        allowed = true;
        remaining = otp_resend_limit - length (timestamps ++ now ∷ []);
        retry_after_seconds = 0;
        redis_unavailable = false;
      },
      save_timestamps on_save (timestamps ++ now ∷ []) stored,
    )

-- With no cache every call is allowed, and the caller is told to use its own counter.
unfoldable pub check_and_record_resend :
    Answer → Answer → ℕ → Option (List ℕ) → ResendCheckResult × Option (List ℕ)
check_and_record_resend on_load on_save now none = (
  record {
    allowed = true;
    remaining = otp_resend_limit - 1;
    retry_after_seconds = 0;
    redis_unavailable = true;
  },
  none,
)
check_and_record_resend on_load on_save now (some stored) =
    let (result, kept) = check_and_record on_load on_save now stored in (result, some kept)

-- What happens to the window of an email: a resend, with the cache's answers to its load and its save, and
-- a verification that clears the window.
pub data Event : Type 0 where
  resends : (on_load on_save : Answer) (now : ℕ) → Event
  clears : (on_delete : Answer) → Event

-- Events one after the other; the times of the resends that were allowed, the last first.
unfoldable pub run_resends : List Event → List ℕ → List ℕ → List ℕ
run_resends [] stored log = log
run_resends (resends on_load on_save now ∷ later) stored log =
    let (result, kept) = check_and_record on_load on_save now stored in
    run_resends later kept (if result.allowed then now ∷ log else log)
run_resends (clears on_delete ∷ later) stored log =
    run_resends later (clear_resend_window on_delete stored) log

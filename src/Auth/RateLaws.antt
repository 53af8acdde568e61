-- ===== src/Auth/RateLaws.antt =====
-- The sliding window of backend/src/auth/otp-rate-limit.service.ts: how many resends five minutes
-- see at most.
use hub_assist.Common.{
  ℕ, ◌+◌, ◌*◌, ◌≤◌, ◌≡◌, refl, Bool, false, ◌&&◌, List, [], ◌∷◌, ◌++◌, arith, leb, filter, length,
  count, count-append, All, Bool-cases, inl, inr,
}
use hub_assist.Auth.RateLimit.{
  in_window, Answer, answers, throws, load_timestamps, save_timestamps, clear_resend_window,
  check_and_record, Event, resends, clears, run_resends, otp_resend_limit,
}

-- The resends of a log in the window that ends at `t`.
abbrev pub within : ℕ → ℕ → Bool
within t ts = in_window t ts && leb ts t

abbrev UpTo : ℕ → List ℕ → Type 0
UpTo t log = All (λ ts. ts ≤ t) log

UpTo-mono : (a b : ℕ) (log : List ℕ) → a ≤ b → UpTo a log → UpTo b log
UpTo-mono a b [] h k = tt
UpTo-mono a b (x ∷ xs) h k = (omega arith, UpTo-mono a b xs h k.1)

-- A log, the last resend first: at each of its resends the window that ends there has so many at most.
abbrev IsLimited : ℕ → List ℕ → Type 0
IsLimited m [] = Unit
IsLimited m (now ∷ log) = (count (within now) (now ∷ log) ≤ m) × UpTo now log × IsLimited m log

count-within_le :
    (n t : ℕ) (log : List ℕ) → n ≤ t → UpTo n log → count (within t) log ≤ count (within n) log
count-within_le n t [] h k = omega arith
count-within_le n t (x ∷ xs) h k =
    let ih = count-within_le n t xs h k.1 in let le = k.0 in ground arith

IsLimited-within : (m t : ℕ) (log : List ℕ) → IsLimited m log → count (within t) log ≤ m
IsLimited-within m t [] h = omega arith
IsLimited-within m t (now ∷ log) h =
    let ih = IsLimited-within m t log h.2 in
    let le = h.0 in
    elim (Bool-cases (leb now t)) [
      | inl by ↦
          let le' = count-within_le now t (now ∷ log) (ground arith) (omega arith, h.1) in
          omega (arith, le', le)
      | inr later ↦ ground arith
    ]

-- An event after which the stored timestamps may know less than they should: the window is cleared, or the
-- cache throws.
abbrev pub is_loss : Event → ℕ
is_loss (resends answers answers now) = 0
is_loss (resends answers throws now) = 1
is_loss (resends throws on_save now) = 1
is_loss (clears on_delete) = 1

abbrev pub losses : List Event → ℕ
losses [] = 0
losses (e ∷ es) = is_loss e + losses es

-- What the stored timestamps know of the log: in every window from now on they have three at most, and the
-- log has at most three more for each loss.
abbrev Knows : ℕ → ℕ → List ℕ → List ℕ → Type 0
Knows lost now stored log =
    (t : ℕ)
    → now ≤ t
    → (count (in_window t) log ≤ count (in_window t) stored + 3 * lost)
      × (count (in_window t) stored ≤ 3)

count-filter_window :
    (now t : ℕ) (xs : List ℕ)
    → now ≤ t
    → count (in_window t) (filter (in_window now) xs) ≡ count (in_window t) xs
count-filter_window now t [] h = refl
count-filter_window now t (x ∷ xs) h = let ih = count-filter_window now t xs h in ground arith

length-filter :
    (now : ℕ) (xs : List ℕ) → length (filter (in_window now) xs) ≡ count (in_window now) xs
length-filter now [] = refl
length-filter now (x ∷ xs) = let ih = length-filter now xs in ground arith

count-within_window : (t : ℕ) (log : List ℕ) → count (within t) log ≤ count (in_window t) log
count-within_window t [] = omega arith
count-within_window t (x ∷ xs) = let ih = count-within_window t xs in ground arith

length-filter_window : (now t : ℕ) (xs : List ℕ) → count (in_window t) xs ≤ length xs
length-filter_window now t [] = omega arith
length-filter_window now t (x ∷ xs) = let ih = length-filter_window now t xs in ground arith

-- Resends at times that do not fall.
abbrev pub IsOrdered : ℕ → List Event → Type 0
IsOrdered last [] = Unit
IsOrdered last (resends on_load on_save now ∷ later) = (last ≤ now) × IsOrdered now later
IsOrdered last (clears on_delete ∷ later) = IsOrdered last later

allowed-Knows :
    (on_load on_save : Answer) (lost last now : ℕ) (stored log : List ℕ)
    → last ≤ now
    → leb 3 (length (filter (in_window now) (load_timestamps on_load stored))) ≡ false
    → Knows lost last stored log
    → Knows
        (is_loss (resends on_load on_save now) + lost)
        now
        (save_timestamps on_save
          (filter (in_window now) (load_timestamps on_load stored) ++ now ∷ [])
          stored)
        (now ∷ log)
unfolding load_timestamps save_timestamps
allowed-Knows answers answers lost last now stored log le room k t h =
    let c = count-filter_window now t stored h in
    let d = count-append (in_window t) (filter (in_window now) stored) (now ∷ []) in
    let few = length-filter_window now t (filter (in_window now) stored) in
    let (e, three) = k t (omega (arith, le)) in (ground (arith, c, d, e), ground (arith, c, d, few))
allowed-Knows answers throws lost last now stored log le room k t h =
    let (e, three) = k t (omega (arith, le)) in (ground (arith, e), three)
allowed-Knows throws answers lost last now stored log le room k t h =
    let (e, three) = k t (omega (arith, le)) in (ground (arith, e, three), ground arith)
allowed-Knows throws throws lost last now stored log le room k t h =
    let (e, three) = k t (omega (arith, le)) in (ground (arith, e), three)

refused-Knows :
    (extra lost last now : ℕ) (stored log : List ℕ)
    → last ≤ now
    → Knows lost last stored log
    → Knows (extra + lost) now stored log
refused-Knows extra lost last now stored log le k t h =
    let (e, three) = k t (omega (arith, le)) in (omega (arith, e), three)

cleared-Knows :
    (on_delete : Answer) (lost last : ℕ) (stored log : List ℕ)
    → Knows lost last stored log
    → Knows (1 + lost) last (clear_resend_window on_delete stored) log
unfolding clear_resend_window
cleared-Knows answers lost last stored log k t h =
    let (e, three) = k t h in (omega (arith, e, three), omega arith)
cleared-Knows throws lost last stored log k t h =
    let (e, three) = k t h in (omega (arith, e), three)

run_resends-IsLimited :
    (m lost last : ℕ) (events : List Event) (stored log : List ℕ)
    → 3 * (1 + (lost + losses events)) ≤ m
    → IsOrdered last events
    → UpTo last log
    → Knows lost last stored log
    → IsLimited m log
    → IsLimited m (run_resends events stored log)
unfolding run_resends check_and_record
run_resends-IsLimited m lost last [] stored log most o u k l = l
run_resends-IsLimited m lost last (clears on_delete ∷ later) stored log most o u k l =
    run_resends-IsLimited m (1 + lost) last later (clear_resend_window on_delete stored) log
      (omega (arith, most)) o u (cleared-Knows on_delete lost last stored log k) l
run_resends-IsLimited m lost last (resends on_load on_save now ∷ later) stored log most o u k l =
    let loss : ℕ = is_loss (resends on_load on_save now) in
    elim (Bool-cases (leb 3 (length (filter (in_window now) (load_timestamps on_load stored))))) [
      | inl full ↦ rw full (
          run_resends-IsLimited m (loss + lost) now later stored log (omega (arith, most)) o.1
            (UpTo-mono last now log o.0 u) (refused-Knows loss lost last now stored log o.0 k) l)
      | inr room ↦
          let known = allowed-Knows on_load on_save lost last now stored log o.0 room k in
          let seen = count-within_window now (now ∷ log) in
          let here = known now (omega arith) in
          rw room (
            run_resends-IsLimited m (loss + lost) now later _ (now ∷ log) (omega (arith, most)) o.1
              (omega arith, UpTo-mono last now log o.0 u) known
              (omega (arith, seen, here.0, here.1, most), UpTo-mono last now log o.0 u, l))
    ]

-- Where the service has a cache, for resends that follow one another, each after the one before has
-- returned, at whatever times, as long as the clock does not run backwards: in every window of five minutes at most three resends are allowed, and at most three more for each time that a verification
-- clears the window or a resend's call of the cache throws. Where neither happens it is three.
pub run_resends_limit :
    (events : List Event) (t : ℕ)
    → IsOrdered 0 events
    → count (within t) (run_resends events [] []) ≤ otp_resend_limit * (1 + losses events)
run_resends_limit events t o =
    IsLimited-within (3 * (1 + losses events)) t (run_resends events [] []) (
      run_resends-IsLimited (3 * (1 + losses events)) 0 0 events [] [] (omega arith) o tt
        (λ t h. (omega arith, omega arith)) tt)

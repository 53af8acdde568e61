-- ===== src/Attendance/SummaryLaws.antt =====
-- The buckets of the summary in backend/src/attendance/attendance.service.ts account for its sessions.
use hub_assist.Common.{
  ℕ, ◌+◌, ◌≡◌, refl, ◌∙◌, Bool, List, [], ◌∷◌, ◌==◌, if◌then◌else◌, length, filter, arith,
  Bool-cases, inl, inr,
}
use hub_assist.Pricing.Rules.{present}
use hub_assist.Attendance.Clock.{Attendance}
use hub_assist.Attendance.Summary.{
  SessionSummary, BucketEntry, counted, new_bucket, add_to_bucket, with_average, sum_durations,
  bucket_all, insert_bucket, finish_buckets, summarise, get_attendance_summary, summaries, pair_all,
}

-- A count of a bucket, added up.
abbrev pub total : (BucketEntry → ℕ) → List BucketEntry → ℕ
total f [] = 0
total f (b ∷ bs) = f b + total f bs

abbrev pub flagged : List SessionSummary → ℕ
flagged ss = length (filter (λ s. present s.anomaly) ss)

abbrev flag : SessionSummary → ℕ
flag s = if present s.anomaly then 1 else 0

abbrev anomalies_of : BucketEntry → ℕ
anomalies_of b = b.short_anomalies + b.long_anomalies

counted-anomalies :
    (s : SessionSummary) (b : BucketEntry) → anomalies_of (counted s b) ≡ anomalies_of b + flag s
counted-anomalies s b = ground arith

-- A count that a session adds to its bucket is added to the total.
total-add_to_bucket :
    (f : BucketEntry → ℕ) (more : SessionSummary → ℕ)
    → ((s : SessionSummary) (b : BucketEntry) → f (counted s b) ≡ f b + more s)
    → ((key : ℕ) → f (new_bucket key) ≡ 0)
    → (key : ℕ) (s : SessionSummary) (bs : List BucketEntry)
    → total f (add_to_bucket key s bs) ≡ total f bs + more s
unfolding add_to_bucket
total-add_to_bucket f more step fresh key s [] =
    let here = step s (new_bucket key) in let none_yet = fresh key in omega (arith, here, none_yet)
total-add_to_bucket f more step fresh key s (b ∷ bs) =
    let ih = total-add_to_bucket f more step fresh key s bs in
    let here = step s b in
    elim (Bool-cases (b.bucket == key)) [
      | inl own ↦ rw own (omega (arith, here))
      | inr other ↦ rw other (omega (arith, ih))
    ]

abbrev sum_of : (SessionSummary → ℕ) → List SessionSummary → ℕ
sum_of more [] = 0
sum_of more (s ∷ ss) = more s + sum_of more ss

module _ (local_hour : ℕ → ℕ) (to_bucket_key : ℕ → ℕ) (key_before : ℕ → ℕ → Bool) where
  total-bucket_all :
      (f : BucketEntry → ℕ) (more : SessionSummary → ℕ)
      → ((s : SessionSummary) (b : BucketEntry) → f (counted s b) ≡ f b + more s)
      → ((key : ℕ) → f (new_bucket key) ≡ 0)
      → (ss : List SessionSummary) (bs : List BucketEntry)
      → total f (bucket_all local_hour to_bucket_key key_before ss bs) ≡ total f bs + sum_of more ss
  unfolding bucket_all
  total-bucket_all f more step fresh [] bs = omega arith
  total-bucket_all f more step fresh (s ∷ ss) bs =
      let ih =
        total-bucket_all f more step fresh ss (add_to_bucket (to_bucket_key s.clock_in_utc) s bs) in
      let here = total-add_to_bucket f more step fresh (to_bucket_key s.clock_in_utc) s bs in
      omega (arith, ih, here)

  total-insert_bucket :
      (f : BucketEntry → ℕ) (b : BucketEntry) (bs : List BucketEntry)
      → total f (insert_bucket local_hour to_bucket_key key_before b bs) ≡ f b + total f bs
  unfolding insert_bucket
  total-insert_bucket f b [] = refl
  total-insert_bucket f b (x ∷ xs) =
      let ih = total-insert_bucket f b xs in
      elim (Bool-cases (key_before b.bucket x.bucket)) [
        | inl first ↦ rw first refl
        | inr later ↦ rw later (omega (arith, ih))
      ]

  total-finish_buckets :
      (f : BucketEntry → ℕ)
      → ((b : BucketEntry) → f (with_average b) ≡ f b)
      → (bs : List BucketEntry)
      → total f (finish_buckets local_hour to_bucket_key key_before bs) ≡ total f bs
  unfolding finish_buckets
  total-finish_buckets f keeps [] = refl
  total-finish_buckets f keeps (b ∷ bs) =
      let ih = total-finish_buckets f keeps bs in
      let here = keeps b in
      let put =
        total-insert_bucket f (with_average b)
          (finish_buckets local_hour to_bucket_key key_before bs) in
      omega (arith, ih, here, put)

  total-buckets :
      (f : BucketEntry → ℕ) (more : SessionSummary → ℕ)
      → ((s : SessionSummary) (b : BucketEntry) → f (counted s b) ≡ f b + more s)
      → ((key : ℕ) → f (new_bucket key) ≡ 0)
      → ((b : BucketEntry) → f (with_average b) ≡ f b)
      → (ss : List SessionSummary)
      → total f (summarise local_hour to_bucket_key key_before ss).buckets ≡ sum_of more ss
  unfolding summarise
  total-buckets f more step fresh keeps ss =
      let made = total-bucket_all f more step fresh ss [] in
      let done =
        total-finish_buckets f keeps (bucket_all local_hour to_bucket_key key_before ss []) in
      omega (arith, made, done)

  sum_of-one : (ss : List SessionSummary) → sum_of (λ s. 1) ss ≡ length ss
  sum_of-one [] = refl
  sum_of-one (s ∷ ss) = let ih = sum_of-one ss in omega (arith, ih)

  sum_of-durations :
      (ss : List SessionSummary) → sum_of (λ s. s.duration_seconds) ss ≡ sum_durations ss
  unfolding sum_durations
  sum_of-durations [] = refl
  sum_of-durations (s ∷ ss) = let ih = sum_of-durations ss in omega (arith, ih)

  sum_of-flags :
      (ss : List SessionSummary) → sum_of flag ss ≡ length (filter (λ s. present s.anomaly) ss)
  sum_of-flags [] = refl
  sum_of-flags (s ∷ ss) = let ih = sum_of-flags ss in ground arith

  -- The buckets of a summary account for it, whatever the calendar: their sessions, their seconds and
  -- their anomalies add up to the summary's number of sessions, its total duration and the number of its
  -- anomalies.
  pub get_attendance_summary-total :
      (window_start window_end : ℕ) (records : List Attendance)
      → let r =
          get_attendance_summary local_hour to_bucket_key key_before window_start window_end
            records in
        (total (λ b. b.sessions) r.buckets ≡ r.total_sessions)
        × (total (λ b. b.total_duration_seconds) r.buckets ≡ r.total_duration_seconds)
        × (total (λ b. b.short_anomalies + b.long_anomalies) r.buckets ≡ length r.anomalies)
  unfolding get_attendance_summary summarise with_average
  get_attendance_summary-total window_start window_end records =
      let ss = summaries window_start window_end (pair_all records []) in
      (
        total-buckets (λ b. b.sessions) (λ s. 1) (λ s b. refl) (λ key. refl) (λ b. refl) ss
            ∙ sum_of-one ss,
        total-buckets (λ b. b.total_duration_seconds) (λ s. s.duration_seconds) (λ s b. refl)
              (λ key. refl) (λ b. refl) ss
            ∙ sum_of-durations ss,
        total-buckets anomalies_of flag (λ s b. counted-anomalies s b) (λ key. refl) (λ b. refl) ss
            ∙ sum_of-flags ss,
      )

-- ===== src/Statistics/Totals.antt =====
-- statistics.rs: the breakdowns add up to the counters.
use millipede.Prelude.{
  ℕ, zero, suc, ◌+◌, ◌≤◌, ◌<◌, ◌≡◌, refl, Bool, List, [], ◌∷◌, Option, none, some, arith, Text,
  text_discrete, ℕ_discrete, sum_by, length,
}
use millipede.Prelude.Words.{u64_max, u64_inc_exact}
use millipede.Statistics.{
  State, default, bump, count_at, record_duration, record_terminal_retry_count, prune_window,
  count_status, record_finished, record_failed, record_retry, mark_run_started, mark_run_stopped,
  normalize_error_key,
}

-- All counts together.
abbrev pub sum : List ℕ → ℕ
sum = sum_by (λ n. n)

abbrev pub sum_counts {ℓ} : {K : Type ℓ} → List (K × ℕ) → ℕ
sum_counts = sum_by (λ e. e.1)

sum-bump {ℓ} :
    {K : Type ℓ} (dec : Discrete K) (k : K) (m : List (K × ℕ))
    → sum_counts m < u64_max
    → sum_counts (bump dec k m) ≡ sum_counts m + 1
unfolding bump
sum-bump dec k [] h = omega arith
sum-bump dec k ((j, n) ∷ m) h =
    ground (arith, sum-bump dec k m (omega arith), u64_inc_exact n (omega arith))

sum-count_at : (i : ℕ) (l : List ℕ) → sum l < u64_max → sum (count_at i l) ≡ sum l + 1
unfolding count_at
sum-count_at zero [] h = omega arith
sum-count_at zero (n ∷ l) h = omega (arith, u64_inc_exact n (omega arith))
sum-count_at (suc i) [] h = omega (arith, sum-count_at i [] (omega arith))
sum-count_at (suc i) (n ∷ l) h = omega (arith, sum-count_at i l (omega arith))

-- Each finished or failed request stands once in the histogram of retries, each failed one under one
-- error, each retry under one error; the least duration is not above the greatest.
pub record AddsUp (s : State) : Type 0 where
  pub histogram : sum s.retry_histogram ≡ s.requests_finished + s.requests_failed
  pub errors : sum_counts s.errors ≡ s.requests_failed
  pub retries : sum_counts s.retry_errors ≡ s.requests_retries
  pub statuses : sum_counts s.status_codes ≤ s.requests_finished
  pub durations : s.request_min_duration ≤ s.request_max_duration

count_status-le :
    (status : Option ℕ) (m : List (ℕ × ℕ))
    → sum_counts m < u64_max
    → sum_counts (count_status status m) ≤ sum_counts m + 1
count_status-le none m h = omega arith
count_status-le (some status) m h = omega (arith, sum-bump ℕ_discrete status m h)

-- One call of the handle.
pub data Event : Type 0 where
  finishes : ℕ → Option ℕ → ℕ → Event
  fails : ℕ → Text → ℕ → Event
  retries : Text → Event
  starts stops : Event

module _ (is_whitespace : ℕ → Bool) (window : ℕ) where
  unfoldable pub note_event : State → Event → ℕ → State
  note_event s (finishes duration status retry_count) now =
      record_finished s duration status retry_count now window
  note_event s (fails duration error_key retry_count) now =
      record_failed is_whitespace s duration error_key retry_count now window
  note_event s (retries error_key) now = record_retry is_whitespace s error_key now window
  note_event s starts now = mark_run_started s now
  note_event s stops now = mark_run_stopped s now

  unfoldable pub note_events : State → List (Event × ℕ) → State
  note_events s [] = s
  note_events s ((e, now) ∷ events) = note_events (note_event s e now) events

  note_event-AddsUp :
      (s : State) (e : Event) (now : ℕ)
      → s.requests_finished + s.requests_failed < u64_max
      → s.requests_retries < u64_max
      → AddsUp s
      → AddsUp (note_event s e now)
  unfolding note_event record_finished record_failed record_retry prune_window
      record_terminal_retry_count record_duration mark_run_started mark_run_stopped
  note_event-AddsUp s (finishes duration status retry_count) now h r v = record {
    histogram = omega (
      arith,
      v.histogram,
      sum-count_at retry_count s.retry_histogram (omega (arith, v.histogram)),
      u64_inc_exact s.requests_finished (omega arith),
    );
    errors = v.errors;
    retries = v.retries;
    statuses = omega (
      arith,
      v.statuses,
      count_status-le status s.status_codes (omega (arith, v.statuses)),
      u64_inc_exact s.requests_finished (omega arith),
    );
    durations = ground (arith, v.durations);
  }
  note_event-AddsUp s (fails duration error_key retry_count) now h r v = record {
    histogram = omega (
      arith,
      v.histogram,
      sum-count_at retry_count s.retry_histogram (omega (arith, v.histogram)),
      u64_inc_exact s.requests_failed (omega arith),
    );
    errors = omega (
      arith,
      v.errors,
      sum-bump text_discrete (normalize_error_key is_whitespace error_key) s.errors
          (omega (arith, v.errors)),
      u64_inc_exact s.requests_failed (omega arith),
    );
    retries = v.retries;
    statuses = v.statuses;
    durations = ground (arith, v.durations);
  }
  note_event-AddsUp s (retries error_key) now h r v = record {
    histogram = v.histogram;
    errors = v.errors;
    retries = omega (
      arith,
      v.retries,
      sum-bump text_discrete (normalize_error_key is_whitespace error_key) s.retry_errors
          (omega (arith, v.retries)),
      u64_inc_exact s.requests_retries r,
    );
    statuses = v.statuses;
    durations = v.durations;
  }
  note_event-AddsUp s starts now h r v = ground (arith, v)
  note_event-AddsUp s stops now h r v = ground (arith, v)

  -- An event counts once at most.
  note_event-counts :
      (s : State) (e : Event) (now : ℕ)
      → s.requests_finished + s.requests_failed < u64_max
      → s.requests_retries < u64_max
      → let t = note_event s e now in
        t.requests_finished + t.requests_failed + t.requests_retries
        ≤ s.requests_finished + s.requests_failed + s.requests_retries + 1
  unfolding note_event record_finished record_failed record_retry prune_window
      record_terminal_retry_count record_duration mark_run_started mark_run_stopped
  note_event-counts s (finishes duration status retry_count) now h r =
      omega (arith, u64_inc_exact s.requests_finished (omega arith))
  note_event-counts s (fails duration error_key retry_count) now h r =
      omega (arith, u64_inc_exact s.requests_failed (omega arith))
  note_event-counts s (retries error_key) now h r =
      omega (arith, u64_inc_exact s.requests_retries r)
  note_event-counts s starts now h r = ground arith
  note_event-counts s stops now h r = ground arith

  -- After any calls, in any order, as long as the counters stay below the end of their `u64`: the histogram of
  -- retries adds up to the finished and failed requests, the errors to the failed ones, the retry
  -- errors to the retries, the status codes to at most the finished ones, and the least duration is not
  -- above the greatest.
  pub note_events-AddsUp :
      (s : State) (events : List (Event × ℕ))
      → s.requests_finished + s.requests_failed + s.requests_retries + length events ≤ u64_max
      → AddsUp s
      → AddsUp (note_events s events)
  unfolding note_events
  note_events-AddsUp s [] h v = v
  note_events-AddsUp s ((e, now) ∷ events) h v =
      note_events-AddsUp (note_event s e now) events
        (omega (arith, note_event-counts s e now (omega arith) (omega arith)))
        (note_event-AddsUp s e now (omega arith) (omega arith) v)

pub default-AddsUp : AddsUp default
unfolding default
default-AddsUp = record {
  histogram = refl;
  errors = refl;
  retries = refl;
  statuses = omega arith;
  durations = omega arith;
}

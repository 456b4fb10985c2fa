-- ===== src/Statistics.antt =====
-- crates/millipede-core/src/statistics.rs: the counters of a crawl. Every method holds the mutex, so it is a
-- function of the state; the clock is an argument. Durations are unbounded here. `is_whitespace` is
-- `char::is_whitespace` of the standard library. Snapshots are sent to subscribers after each change.
pub mod Totals
use millipede.Prelude.{
  ℕ, zero, suc, ◌+◌, ◌-◌, ◌≤◌, Bool, true, false, ◌&&◌, ◌||◌, List, [], ◌∷◌, ◌++◌, Option, none,
  some, Text, text_discrete, ℕ_discrete, ltb, leb, ◌==◌, if◌then◌else◌, take, codes, length,
}
use millipede.Prelude.Table.{Table, get, insert}
use millipede.Prelude.Words.{u64_inc}

abbrev pub error_key_max_chars : ℕ
error_key_max_chars = 200

pub record State : Type 0 where
  pub requests_finished : ℕ
  pub requests_failed : ℕ
  pub requests_retries : ℕ
  pub request_duration_sum : ℕ
  pub request_min_duration : ℕ
  pub request_max_duration : ℕ
  pub status_codes : Table ℕ ℕ
  pub retry_histogram : List ℕ
  pub errors : Table Text ℕ
  pub retry_errors : Table Text ℕ
  pub accumulated_runtime : ℕ
  pub started_at : Option ℕ
  pub recent_events : List (ℕ × Bool)

unfoldable pub default : State
default = record {
  requests_finished = 0;
  requests_failed = 0;
  requests_retries = 0;
  request_duration_sum = 0;
  request_min_duration = 0;
  request_max_duration = 0;
  status_codes = [];
  retry_histogram = [];
  errors = [];
  retry_errors = [];
  accumulated_runtime = 0;
  started_at = none;
  recent_events = [];
}

-- `*entry(key).or_default() += 1`
unfoldable pub bump {ℓ} : {K : Type ℓ} → Discrete K → K → List (K × ℕ) → List (K × ℕ)
bump dec k [] = (k, 1) ∷ []
bump dec k ((j, n) ∷ m) =
    let rest = bump dec k m in elim (dec j k) [ yes p ↦ (j, u64_inc n) ∷ m | no p ↦ (j, n) ∷ rest ]

-- `resize(index + 1, 0)` where it is shorter, then `[index] += 1`
unfoldable pub count_at : ℕ → List ℕ → List ℕ
count_at zero [] = 1 ∷ []
count_at zero (n ∷ l) = u64_inc n ∷ l
count_at (suc i) [] = 0 ∷ count_at i []
count_at (suc i) (n ∷ l) = n ∷ count_at i l

unfoldable pub record_duration : State → ℕ → State
record_duration s duration =
    let first = s.requests_finished + s.requests_failed == 1 in
    record s {
      request_duration_sum = s.request_duration_sum + duration;
      request_min_duration =
          if first || ltb duration s.request_min_duration then duration else s.request_min_duration;
      request_max_duration =
          if first || ltb s.request_max_duration duration then duration else s.request_max_duration;
    }

unfoldable pub record_terminal_retry_count : State → ℕ → State
record_terminal_retry_count s retry_count = record s {
  retry_histogram = count_at retry_count s.retry_histogram;
}

abbrev drop_old : ℕ → ℕ → List (ℕ × Bool) → List (ℕ × Bool)
drop_old now window [] = []
drop_old now window ((recorded_at, succeeded) ∷ events) =
    let rest = drop_old now window events in
    if ltb window (now - recorded_at) then rest else (recorded_at, succeeded) ∷ events

unfoldable pub prune_window : State → ℕ → ℕ → State
prune_window s now window = record s { recent_events = drop_old now window s.recent_events }

abbrev pub count_status : Option ℕ → Table ℕ ℕ → Table ℕ ℕ
count_status none codes = codes
count_status (some status) codes = bump ℕ_discrete status codes

unfoldable pub record_finished : State → ℕ → Option ℕ → ℕ → ℕ → ℕ → State
record_finished s duration status_code retry_count now window =
    let counted = record s { requests_finished = u64_inc s.requests_finished } in
    let t = record_terminal_retry_count (record_duration counted duration) retry_count in
    prune_window
      (record t {
        status_codes = count_status status_code t.status_codes;
        recent_events = t.recent_events ++ (now, true) ∷ [];
      })
      now window

-- The first line, without its end.
abbrev pub first_line : Text → Text
first_line [] = []
first_line (c ∷ text) =
    let rest = first_line text in
    if c == 10
    then []
    else elim text [ [] ↦ c ∷ [] | d ∷ more ↦ if c == 13 && d == 10 then [] else c ∷ rest ]

abbrev is_digit : ℕ → Bool
is_digit c = leb b'0' c && leb c b'9'

abbrev is_hex : ℕ → Bool
is_hex c = is_digit c || (leb b'a' c && leb c b'f' || leb b'A' c && leb c b'F')

abbrev starts_with : Text → Text → Bool
starts_with [] text = true
starts_with (c ∷ p) [] = false
starts_with (c ∷ p) (d ∷ text) = c == d && starts_with p text

-- Hexadecimal runs of the given lengths, parted by `-`.
unfoldable pub is_uuid_from : ℕ → List ℕ → Text → Bool
is_uuid_from zero [] [] = true
is_uuid_from zero [] (c ∷ text) = false
is_uuid_from zero (n ∷ lengths) [] = false
is_uuid_from zero (n ∷ lengths) (c ∷ text) = c == b'-' && is_uuid_from n lengths text
is_uuid_from (suc n) lengths [] = false
is_uuid_from (suc n) lengths (c ∷ text) = is_hex c && is_uuid_from n lengths text

unfoldable pub is_uuid_token : Text → Bool
is_uuid_token token = is_uuid_from 8 (4 ∷ 4 ∷ 4 ∷ 12 ∷ []) token

-- Each run of digits becomes one `#`.
unfoldable pub collapse_digits : Bool → Text → Text
collapse_digits previous_was_digit [] = []
collapse_digits true (c ∷ text) =
    let after_digit = collapse_digits true text in
    let after_other = collapse_digits false text in
    if is_digit c then after_digit else c ∷ after_other
collapse_digits false (c ∷ text) =
    let after_digit = collapse_digits true text in
    let after_other = collapse_digits false text in
    if is_digit c then b'#' ∷ after_digit else c ∷ after_other

unfoldable pub normalize_token : Text → Text
normalize_token token =
    if starts_with (codes "http://") token || starts_with (codes "https://") token
    then codes "<url>"
    else if is_uuid_token token
    then codes "<uuid>"
    else collapse_digits false token

abbrev push_word : Text → List Text → List Text
push_word [] words = words
push_word (c ∷ word) words = (c ∷ word) ∷ words

abbrev join_tokens : List Text → Text
join_tokens [] = []
join_tokens (token ∷ []) = token
join_tokens (token ∷ other ∷ tokens) = token ++ b' ' ∷ join_tokens (other ∷ tokens)

module _ (is_whitespace : ℕ → Bool) where
  -- The word in progress, and the words after it.
  abbrev split_from : Text → Text × List Text
  split_from [] = ([], [])
  split_from (c ∷ text) =
      let (word, words) = split_from text in
      if is_whitespace c then ([], push_word word words) else (c ∷ word, words)

  unfoldable pub split_whitespace : Text → List Text
  split_whitespace text = let (word, words) = split_from text in push_word word words

  abbrev normalize_all : List Text → List Text
  normalize_all [] = []
  normalize_all (token ∷ tokens) = normalize_token token ∷ normalize_all tokens

  unfoldable pub normalize_error_key : Text → Text
  normalize_error_key error_key =
      take error_key_max_chars
        (join_tokens (normalize_all (split_whitespace (first_line error_key))))

  unfoldable pub record_failed : State → ℕ → Text → ℕ → ℕ → ℕ → State
  record_failed s duration error_key retry_count now window =
      let counted = record s { requests_failed = u64_inc s.requests_failed } in
      let t = record_terminal_retry_count (record_duration counted duration) retry_count in
      prune_window
        (record t {
          errors = bump text_discrete (normalize_error_key error_key) t.errors;
          recent_events = t.recent_events ++ (now, false) ∷ [];
        })
        now window

  unfoldable pub record_retry : State → Text → ℕ → ℕ → State
  record_retry s error_key now window =
      prune_window
        (record s {
          requests_retries = u64_inc s.requests_retries;
          retry_errors = bump text_discrete (normalize_error_key error_key) s.retry_errors;
        })
        now window

unfoldable pub mark_run_started : State → ℕ → State
mark_run_started s now = elim s.started_at [
  | none ↦ record s { started_at = some now }
  | some started ↦ s
]

unfoldable pub mark_run_stopped : State → ℕ → State
mark_run_stopped s now = elim s.started_at [
  | none ↦ s
  | some started ↦ record s {
    accumulated_runtime = s.accumulated_runtime + (now - started);
    started_at = none;
  }
]

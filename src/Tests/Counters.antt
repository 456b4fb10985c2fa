-- ===== src/Tests/Counters.antt =====
-- A short crawl's statistics.
use millipede.Prelude.{ℕ, ◌≡◌, refl, Bool, List, [], ◌∷◌, some, arith, codes, ◌==◌}
use millipede.Statistics.{default, normalize_error_key}
use millipede.Statistics.Totals.{
  AddsUp, Event, starts, finishes, fails, retries, note_events, note_events-AddsUp, default-AddsUp,
}

abbrev is_blank : ℕ → Bool
is_blank c = c == 32

abbrev crawl : List (Event × ℕ)
crawl =
    (starts, 1)
    ∷ (finishes 10 (some 200) 0, 2)
    ∷ (retries (codes "flaky 12"), 3)
    ∷ (fails 40 (codes "boom") 2, 4)
    ∷ []

note_events-AddsUp_example : AddsUp (note_events is_blank 60 default crawl)
unfolding default
note_events-AddsUp_example =
    note_events-AddsUp is_blank 60 default crawl (omega arith) default-AddsUp

normalized :
    normalize_error_key is_blank (codes "at  http://x took 120ms") ≡ codes "at <url> took #ms"
unfolding normalize_error_key millipede.Statistics.split_whitespace
    millipede.Statistics.normalize_token millipede.Statistics.is_uuid_token
    millipede.Statistics.is_uuid_from millipede.Statistics.collapse_digits
normalized = refl

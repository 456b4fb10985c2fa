-- ===== src/Errors.antt =====
-- crates/millipede-core/src/errors.rs: the classes of errors and what they mean for a retry. An
-- `anyhow::Error` is what the code reads of it: its message, and for each link of its chain the
-- `HttpStatusError` that the link is, if it is one. `Method` is a type of the `http` crate.
use millipede.Prelude.{ℕ, Bool, true, false, List, [], ◌∷◌, Option, none, some, Text}

-- crates/millipede-core/src/http_client.rs
pub record HttpStatusError : Type 0 where
  pub status : ℕ
  pub retry_after : Option ℕ

pub record AnyError : Type 0 where
  pub message : Text
  pub chain : List (Option HttpStatusError)

pub data AntiBotTech : Type 0 where
  cloudflare data_dome perimeter_x kasada imperva akamai unknown : AntiBotTech
  custom : Text → AntiBotTech

pub data CrawlError : Type 0 where
  retry session force_retry non_retryable critical : AnyError → CrawlError
  -- the label, and the name of the method
  missing_route : Option Text → Text → CrawlError
  anti_bot_detected : AntiBotTech → AnyError → CrawlError

pub data CrawlResult {ℓ} (A : Type ℓ) : Type ℓ where
  ok : A → CrawlResult A
  err : CrawlError → CrawlResult A

abbrev source : CrawlError → Option AnyError
source (retry e) = some e
source (session e) = some e
source (force_retry e) = some e
source (non_retryable e) = some e
source (critical e) = some e
source (missing_route label method) = none
source (anti_bot_detected tech e) = some e

abbrev first_status : List (Option HttpStatusError) → Option ℕ
first_status [] = none
first_status (none ∷ links) = first_status links
first_status (some e ∷ links) = some e.status

-- A link without the header does not end the search.
abbrev first_retry_after : List (Option HttpStatusError) → Option ℕ
first_retry_after [] = none
first_retry_after (none ∷ links) = first_retry_after links
first_retry_after (some e ∷ links) = elim e.retry_after [
  | none ↦ first_retry_after links
  | some after ↦ some after
]

unfoldable pub http_status : CrawlError → Option ℕ
http_status e = elim (source e) [ none ↦ none | some error ↦ first_status error.chain ]

unfoldable pub retry_after : CrawlError → Option ℕ
retry_after e = elim (source e) [ none ↦ none | some error ↦ first_retry_after error.chain ]

unfoldable pub is_retryable : CrawlError → Bool
is_retryable (retry e) = true
is_retryable (session e) = true
is_retryable (force_retry e) = true
is_retryable (anti_bot_detected tech e) = true
is_retryable _ = false

unfoldable pub rotates_session : CrawlError → Bool
rotates_session (session e) = true
rotates_session (anti_bot_detected tech e) = true
rotates_session _ = false

unfoldable pub ignores_max_retries : CrawlError → Bool
ignores_max_retries (force_retry e) = true
ignores_max_retries _ = false

unfoldable pub is_critical : CrawlError → Bool
is_critical (critical e) = true
is_critical _ = false

unfoldable pub counts_against_retries : CrawlError → Bool
counts_against_retries (retry e) = true
counts_against_retries _ = false

-- ===== src/Engine/Retry.antt =====
-- engine.rs, `handle_completion`: whether a failed attempt is tried again.
pub mod Disabled
use millipede.Prelude.{
  ℕ, Bool, true, false, not, ◌&&◌, ◌||◌, List, [], ◌∷◌, Option, none, some, Text, text_discrete,
  ltb, if◌then◌else◌,
}
use millipede.Prelude.Table.{Table, insert}
use millipede.Errors.{
  CrawlError, AntiBotTech, anti_bot_detected, rotates_session, is_retryable, ignores_max_retries,
  http_status,
}
use millipede.Request.{Request}
use millipede.Engine.{
  Proxy, AttemptOverrides, RetryDirective, AttemptObservation, AttemptOutcome, RetryStrategy,
  EngineOptions, SessionRetryAction, keep, rotate, retire,
}

abbrev pub unwrap_or {ℓ} : {A : Type ℓ} → Option A → A → A
unwrap_or none d = d
unwrap_or (some a) d = a

abbrev pub or_else {ℓ} : {A : Type ℓ} → Option A → Option A → Option A
or_else none o = o
or_else (some a) o = some a

abbrev is_some {ℓ} : {A : Type ℓ} → Option A → Bool
is_some none = false
is_some (some a) = true

abbrev anti_bot_of : CrawlError → Option AntiBotTech
anti_bot_of (anti_bot_detected tech e) = some tech
anti_bot_of _ = none

abbrev changes_session : SessionRetryAction → Bool
changes_session keep = false
changes_session rotate = true
changes_session retire = true

module _ {proxy : Proxy} where
  abbrev overrides_of :
      Bool
      → RetryDirective proxy
      → Text
      → Table Text (AttemptOverrides proxy)
      → Table Text (AttemptOverrides proxy)
  overrides_of eligible directive key overrides =
      if eligible
        && (is_some directive.proxy_kind
            || (is_some directive.user_agent_profile || is_some directive.backoff))
      then insert text_discrete key
          (record {
            proxy_kind = directive.proxy_kind;
            user_agent_profile = directive.user_agent_profile;
            backoff = directive.backoff;
          })
          overrides
      else overrides

module _ (proxy : Proxy) where
  -- Whether to retry, whether that rotates the session, and the overrides of the next attempt.
  pub record Decision : Type 0 where
    pub eligible : Bool
    pub rotates : Bool
    pub overrides : Table Text (AttemptOverrides proxy)

module _ {proxy : Proxy} {Url Payload : Type 0} where
  -- The two limits.
  abbrev below_limit : EngineOptions proxy Url Payload → Request Url Payload → Bool → ℕ → Bool
  below_limit opts r rotates cap =
      if rotates
      then ltb r.session_rotation_count opts.max_session_rotations
      else ltb r.retry_count cap

  abbrev outcome_of :
      Request Url Payload
      → CrawlError
      → AttemptObservation proxy Url Payload
      → AttemptOutcome proxy Url Payload
  outcome_of r error observation = record {
    request = r;
    attempt = r.retry_count;
    status = or_else observation.status (http_status error);
    error = some error;
    anti_bot = anti_bot_of error;
    proxy_info = observation.proxy_info;
    session_id = observation.session_id;
    response_bytes = observation.response_bytes;
  }

  unfoldable pub by_strategy :
      EngineOptions proxy Url Payload
      → RetryStrategy proxy Url Payload
      → Request Url Payload
      → CrawlError
      → AttemptObservation proxy Url Payload
      → Table Text (AttemptOverrides proxy)
      → Decision proxy
  by_strategy opts strategy r error observation overrides =
      if r.no_retry
      then record { eligible = false; rotates = rotates_session error; overrides = overrides }
      else (let directive = strategy.on_retry (outcome_of r error observation) in
          let rotates = rotates_session error || changes_session directive.session_action in
          let cap = unwrap_or r.max_retries strategy.max_retries in
          let eligible =
            directive.should_retry
            && (ignores_max_retries error || below_limit opts r rotates cap) in
          record {
            eligible = eligible;
            rotates = rotates;
            overrides = overrides_of eligible directive r.unique_key overrides;
          })

  unfoldable pub by_default :
      EngineOptions proxy Url Payload
      → Request Url Payload
      → CrawlError
      → Table Text (AttemptOverrides proxy)
      → Decision proxy
  by_default opts r error overrides = record {
    eligible =
        ignores_max_retries error
        || (is_retryable error
            && (not r.no_retry
                && below_limit opts r (rotates_session error)
                    (unwrap_or r.max_retries opts.max_request_retries)));
    rotates = rotates_session error;
    overrides = overrides;
  }

  unfoldable pub decide :
      EngineOptions proxy Url Payload
      → Request Url Payload
      → CrawlError
      → AttemptObservation proxy Url Payload
      → Table Text (AttemptOverrides proxy)
      → Decision proxy
  decide opts r error observation overrides = elim opts.retry_strategy [
    | some strategy ↦ by_strategy opts strategy r error observation overrides
    | none ↦ by_default opts r error overrides
  ]

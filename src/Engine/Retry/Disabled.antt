-- ===== src/Engine/Retry/Disabled.antt =====
-- engine.rs, `handle_completion`: requests with `no_retry`.
use millipede.Prelude.{◌≡◌, Bool, true, false, Option, none, some, Text, arith}
use millipede.Prelude.Table.{Table}
use millipede.Errors.{CrawlError, ignores_max_retries}
use millipede.Request.{Request}
use millipede.Engine.{Proxy, EngineOptions, AttemptObservation, AttemptOverrides, RetryStrategy}
use millipede.Engine.Retry.{decide, by_strategy, by_default}

module _ {proxy : Proxy} {Url Payload : Type 0} where
  -- What is left to decide for a request with `no_retry`.
  abbrev pub forced_without : Option (RetryStrategy proxy Url Payload) → CrawlError → Bool
  forced_without none e = ignores_max_retries e
  forced_without (some strategy) e = false

  -- A request with `no_retry` is retried exactly when there is no retry strategy and the error is a
  -- `ForceRetry`; with a strategy it never is, and its overrides are left alone.
  pub decide-no_retry :
      (opts : EngineOptions proxy Url Payload) (r : Request Url Payload) (e : CrawlError)
      (observation : AttemptObservation proxy Url Payload)
      (overrides : Table Text (AttemptOverrides proxy))
      → r.no_retry ≡ true
      → ((decide opts r e observation overrides).eligible ≡ forced_without opts.retry_strategy e)
        × ((decide opts r e observation overrides).overrides ≡ overrides)
  unfolding decide by_strategy by_default
  decide-no_retry opts r e observation overrides h = ground arith

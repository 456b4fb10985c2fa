-- ===== src/Engine.antt =====
-- crates/millipede-core/src/crawler/engine.rs, with retry_strategy.rs, `AttemptObservation` of
-- crawler/mod.rs and `HandledRequest` of events.rs: what the engine keeps of an attempt. A retry strategy
-- is the user's code: a record of its two functions. `handle_completion` calls each at most once, so for one
-- attempt the record stands for a strategy with a state of its own too; over several attempts with the same
-- options it stands for one whose answers depend on their arguments only. Times are nanoseconds.
pub mod Retry
pub mod Completion
pub mod Dispatch
use millipede.Prelude.{ℕ, Bool, true, false, List, Option, none, some, Text}
use millipede.Prelude.Table.{Table}
use millipede.Errors.{CrawlError, AntiBotTech}
use millipede.Request.{Request}
use millipede.Storage.{Lease}

pub data SessionRetryAction : Type 0 where
  keep rotate retire : SessionRetryAction

pub data RequestFinalState : Type 0 where
  succeeded failed skipped : RequestFinalState

-- `Proxy` holds the types of proxy.rs that the engine only passes on.
pub record Proxy : Type 1 where
  pub ProxyKind : Type 0
  pub ProxyInfo : Type 0

pub data AttemptOutcomeKind : Type 0 where
  success setback : AttemptOutcomeKind

module _ (proxy : Proxy) where
  open proxy use {ProxyKind, ProxyInfo}

  pub record AttemptOverrides : Type 0 where
    pub proxy_kind : Option ProxyKind
    pub user_agent_profile : Option Text
    pub backoff : Option ℕ

  pub record RetryDirective : Type 0 where
    pub should_retry : Bool
    pub backoff : Option ℕ
    pub proxy_kind : Option ProxyKind
    pub user_agent_profile : Option Text
    pub session_action : SessionRetryAction

module _ (proxy : Proxy) (Url Payload : Type 0) where
  open proxy use {ProxyKind, ProxyInfo}

  pub record AttemptObservation : Type 0 where
    pub status : Option ℕ
    pub loaded_url : Option Url
    pub session_id : Option Text
    pub proxy_info : Option ProxyInfo
    pub response_bytes : Option ℕ

  pub record AttemptOutcome : Type 0 where
    pub request : Request Url Payload
    pub attempt : ℕ
    pub status : Option ℕ
    pub error : Option CrawlError
    pub anti_bot : Option AntiBotTech
    pub proxy_info : Option ProxyInfo
    pub session_id : Option Text
    pub response_bytes : Option ℕ

  pub record RetryStrategy : Type 0 where
    pub max_retries : ℕ
    pub on_retry : AttemptOutcome → RetryDirective proxy

  -- What the end of an attempt reads of the engine: three options, and whether it has a failure handler.
  pub record EngineOptions : Type 0 where
    pub failed_handler : Bool
    pub max_request_retries : ℕ
    pub max_session_rotations : ℕ
    pub retry_strategy : Option RetryStrategy

module _ {proxy : Proxy} {Url Payload : Type 0} where
  abbrev pub no_observation : AttemptObservation proxy Url Payload
  no_observation = record {
    status = none;
    loaded_url = none;
    session_id = none;
    proxy_info = none;
    response_bytes = none;
  }

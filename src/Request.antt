-- ===== src/Request.antt =====
-- crates/millipede-core/src/request.rs: a request and its processing state. `Url` is the type of the
-- `url` crate. `Payload` stands for the method, headers, body and user data, whose types are those of
-- the `http` and `serde_json` crates: no operation modelled here reads them. Times are numbers.
use millipede.Prelude.{ℕ, Bool, List, Option, Text}

-- A `RequestId` is its text.
abbrev pub RequestId : Type 0
RequestId = Text

pub data RequestState : Type 0 where
  unprocessed before_nav after_nav request_handler done error_handler error skipped : RequestState

pub record Request (Url Payload : Type 0) : Type 0 where
  pub id : RequestId
  pub url : Url
  pub loaded_url : Option Url
  pub unique_key : Text
  pub payload : Payload
  pub label : Option Text
  pub retry_count : ℕ
  pub session_rotation_count : ℕ
  pub max_retries : Option ℕ
  pub no_retry : Bool
  pub error_messages : List Text
  pub handled_at : Option ℕ
  pub state : RequestState
  pub crawl_depth : ℕ
  pub skip_navigation : Bool

-- ===== src/Engine/Completion.antt =====
-- engine.rs, `handle_completion`: what the engine does when the task of an attempt has ended. The calls it
-- makes of the queue, the pool, the statistics, the listeners and the failure handler are listed in
-- order; the queue's answer is an argument, since no path makes more than one call that waits for it.
-- The failure handler's own result is only logged. `to_string` and `storage_text` are the `Display`
-- implementations that the `thiserror` macro generates. Durations are not bounded here;
-- `utc` is the date of the call and `now` its `Instant`.
pub mod Once
pub mod Slots
pub mod Retries
use millipede.Prelude.{
  ℕ, ◌+◌, ◌-◌, Bool, true, false, List, [], ◌∷◌, ◌++◌, Option, none, some, Text, codes,
  text_discrete, ℕ_discrete, if◌then◌else◌, take, not,
}
use millipede.Prelude.Table.{Table, get, insert, remove}
use millipede.Prelude.Words.{u32_inc}
use millipede.Errors.{
  AnyError, CrawlError, retry, critical, is_critical, http_status, retry_after, CrawlResult,
}
use millipede.Errors
use millipede.Request.{Request, done, error}
use millipede.Storage
use millipede.Storage.{Lease, ReclaimOptions, StorageError, StorageResult}
use millipede.Engine.{
  Proxy, AttemptOverrides, AttemptObservation, EngineOptions, AttemptOutcomeKind, success, setback,
  RequestFinalState, succeeded, failed, no_observation,
}
use millipede.Engine.Retry.{Decision, decide, unwrap_or, or_else}

module _ (Url Payload : Type 0) where
  pub record HandledRequest : Type 0 where
    pub request : Request Url Payload
    pub loaded_url : Option Url
    pub outcome : RequestFinalState
    pub response_status : Option ℕ
    pub retry_count : ℕ
    pub duration : ℕ

  pub record SlotState : Type 0 where
    pub lease : Lease Url Payload
    pub started : ℕ

  -- One call of another part.
  pub data Call : Type 0 where
    record_outcome : AttemptOutcomeKind → Call
    note_response : Text → Option ℕ → Option ℕ → Call
    mark_handled : Lease Url Payload → Call
    reclaim : Lease Url Payload → ReclaimOptions → Call
    abandon : Lease Url Payload → Call
    record_finished : ℕ → Option ℕ → ℕ → Call
    record_failed : ℕ → Text → ℕ → Call
    record_retry : Text → Call
    emit_finished : HandledRequest → Call
    emit_failed : Request Url Payload → Text → Call
    handle_failed : Request Url Payload → CrawlError → ℕ → Call
    send_result : HandledRequest → Call

-- `Result<(), Arc<CrawlError>>`
pub data AttemptResult : Type 0 where
  finished : AttemptResult
  broke : CrawlError → AttemptResult

module _ (proxy : Proxy) (Url Payload : Type 0) where
  pub record AttemptOutput : Type 0 where
    pub result : AttemptResult
    pub duration : ℕ
    pub request : Request Url Payload
    pub observation : AttemptObservation proxy Url Payload

  -- How the task ended.
  pub data Joined : Type 0 where
    cancelled : Joined
    panicked : Text → Joined
    returned : AttemptOutput → Joined

  -- The tables of the dispatch loop that the end of an attempt changes.
  pub record Attempts : Type 0 where
    pub slots : Table ℕ (SlotState Url Payload)
    pub accumulated : Table Text ℕ
    pub overrides : Table Text (AttemptOverrides proxy)

  pub record Settled : Type 0 where
    pub attempts : Attempts
    pub calls : List (Call Url Payload)
    pub result : CrawlResult (Unit {0})

-- `anyhow::anyhow!(message)`
abbrev pub anyhow : Text → AnyError
anyhow message = record { message = message; chain = none ∷ [] }

abbrev pub storage_failure : (StorageError → Text) → StorageError → CrawlError
storage_failure storage_text e = critical (anyhow (storage_text e))

module _ {Url Payload : Type 0} where
  -- The request that the attempt gives back, with the counts of the one that was leased.
  unfoldable pub returned_lease : Lease Url Payload → Request Url Payload → Lease Url Payload
  returned_lease lease r = record lease {
    request = record r {
      retry_count = lease.request.retry_count;
      session_rotation_count = lease.request.session_rotation_count;
    };
  }

  unfoldable pub push_error : Request Url Payload → Text → Request Url Payload
  push_error r message = record r { error_messages = r.error_messages ++ take 200 message ∷ [] }

module _ {proxy : Proxy} {Url Payload : Type 0} (host_str : Url → Option Text)
    (to_string : CrawlError → Text) (storage_text : StorageError → Text) where
  -- A call of the queue with `?`: the rest only follows an answer without an error.
  abbrev pub through_queue :
      Attempts proxy Url Payload
      → List (Call Url Payload)
      → StorageResult (Unit {0})
      → List (Call Url Payload)
      → Settled proxy Url Payload
  through_queue st before (Storage.ok x) after = record {
    attempts = st;
    calls = before ++ after;
    result = Errors.ok tt;
  }
  through_queue st before (Storage.err e) after = record {
    attempts = st;
    calls = before;
    result = Errors.err (storage_failure storage_text e);
  }

  abbrev forget :
      Text
      → Table Text (AttemptOverrides proxy)
      → Attempts proxy Url Payload
      → Attempts proxy Url Payload
  forget key overrides st = record st {
    accumulated = remove text_discrete key st.accumulated;
    overrides = remove text_discrete key overrides;
  }

  unfoldable pub settle_success :
      Attempts proxy Url Payload
      → Lease Url Payload
      → ℕ
      → AttemptObservation proxy Url Payload
      → StorageResult (Unit {0})
      → ℕ
      → Settled proxy Url Payload
  settle_success st lease total observation answer utc =
      let r = record lease.request {
        loaded_url = observation.loaded_url;
        state = done;
        handled_at = some utc;
      } in
      let handled : HandledRequest Url Payload = record {
        request = r;
        loaded_url = observation.loaded_url;
        outcome = succeeded;
        response_status = observation.status;
        retry_count = r.retry_count;
        duration = total;
      } in
      through_queue (forget r.unique_key st.overrides st)
        (mark_handled (record lease { request = r }) ∷ []) answer
        (record_finished total observation.status r.retry_count
          ∷ emit_finished handled
          ∷ send_result handled
          ∷ [])

  -- The queue's answer is only logged.
  unfoldable pub settle_critical :
      Attempts proxy Url Payload → Lease Url Payload → CrawlError → Settled proxy Url Payload
  settle_critical st lease e = record {
    attempts = forget lease.request.unique_key st.overrides st;
    calls = abandon (record lease { request = push_error lease.request (to_string e) }) ∷ [];
    result = Errors.err (critical (anyhow (to_string e)));
  }

  unfoldable pub settle_retry :
      Attempts proxy Url Payload
      → Lease Url Payload
      → ℕ
      → CrawlError
      → Decision proxy
      → StorageResult (Unit {0})
      → Settled proxy Url Payload
  settle_retry st lease total e decision answer =
      let r = push_error lease.request (to_string e) in
      let rotated = record r {
        session_rotation_count =
            if decision.rotates then u32_inc r.session_rotation_count else r.session_rotation_count;
      } in
      through_queue
        (record st {
          accumulated = insert text_discrete lease.request.unique_key total st.accumulated;
          overrides = decision.overrides;
        })
        (record_retry (to_string e)
          ∷ reclaim (record lease { request = rotated })
              (record { forefront = false; increment_retry = not decision.rotates })
          ∷ [])
        answer []

  unfoldable pub settle_failure :
      Bool
      → Attempts proxy Url Payload
      → Lease Url Payload
      → ℕ
      → AttemptObservation proxy Url Payload
      → CrawlError
      → Decision proxy
      → StorageResult (Unit {0})
      → ℕ
      → Settled proxy Url Payload
  settle_failure has_handler st lease total observation e decision answer utc =
      let r = record (push_error lease.request (to_string e)) {
        state = error;
        handled_at = some utc;
      } in
      let marked = mark_handled (record lease { request = r }) ∷ [] in
      through_queue (forget r.unique_key decision.overrides st)
        (if has_handler then handle_failed r e r.retry_count ∷ marked else marked) answer
        (record_failed total (to_string e) r.retry_count
          ∷ emit_failed r (to_string e)
          ∷ send_result (record {
            request = r;
            loaded_url = observation.loaded_url;
            outcome = failed;
            response_status = or_else observation.status (http_status e);
            retry_count = r.retry_count;
            duration = total;
          })
          ∷ [])

  -- The three branches of a failed attempt.
  unfoldable pub settle_error :
      EngineOptions proxy Url Payload
      → Attempts proxy Url Payload
      → Lease Url Payload
      → ℕ
      → AttemptObservation proxy Url Payload
      → CrawlError
      → StorageResult (Unit {0})
      → ℕ
      → Settled proxy Url Payload
  settle_error opts st lease total observation e answer utc =
      let decision = decide opts lease.request e observation st.overrides in
      if is_critical e
      then settle_critical st lease e
      else (if decision.eligible
          then settle_retry st lease total e decision answer
          else settle_failure opts.failed_handler st lease total observation e decision answer utc)

  unfoldable pub settle :
      EngineOptions proxy Url Payload
      → Attempts proxy Url Payload
      → Lease Url Payload
      → ℕ
      → AttemptObservation proxy Url Payload
      → AttemptResult
      → StorageResult (Unit {0})
      → ℕ
      → Settled proxy Url Payload
  settle opts st lease total observation finished answer utc =
      settle_success st lease total observation answer utc
  settle opts st lease total observation (broke e) answer utc =
      settle_error opts st lease total observation e answer utc

  abbrev outcome_calls :
      Option Text → AttemptObservation proxy Url Payload → AttemptResult → List (Call Url Payload)
  outcome_calls none observation finished = record_outcome success ∷ []
  outcome_calls (some host) observation finished =
      record_outcome success ∷ note_response host observation.status none ∷ []
  outcome_calls none observation (broke e) = record_outcome setback ∷ []
  outcome_calls (some host) observation (broke e) =
      record_outcome setback
      ∷ note_response host (or_else observation.status (http_status e)) (retry_after e)
      ∷ []

  -- An attempt that ran to an end, whose request was for `host` when it was leased.
  unfoldable pub conclude :
      EngineOptions proxy Url Payload
      → Attempts proxy Url Payload
      → Option Text
      → Lease Url Payload
      → AttemptResult
      → ℕ
      → AttemptObservation proxy Url Payload
      → StorageResult (Unit {0})
      → ℕ
      → Settled proxy Url Payload
  conclude opts st host lease result duration observation answer utc =
      let total =
        unwrap_or (get text_discrete lease.request.unique_key st.accumulated) 0 + duration in
      let rest = settle opts st lease total observation result answer utc in
      record rest { calls = outcome_calls host observation result ++ rest.calls }

  unfoldable pub complete :
      EngineOptions proxy Url Payload
      → Attempts proxy Url Payload
      → SlotState Url Payload
      → Joined proxy Url Payload
      → StorageResult (Unit {0})
      → ℕ
      → ℕ
      → Settled proxy Url Payload
  complete opts st s cancelled answer now utc = through_queue st (abandon s.lease ∷ []) answer []
  complete opts st s (panicked message) answer now utc =
      conclude opts st (host_str s.lease.request.url) s.lease
        (broke (retry (anyhow (codes "request handler panicked: " ++ message)))) (now - s.started)
        no_observation answer utc
  complete opts st s (returned output) answer now utc =
      conclude opts st (host_str s.lease.request.url) (returned_lease s.lease output.request)
        output.result output.duration output.observation answer utc

  -- `none` is the panic on a slot that is not in the table.
  unfoldable pub handle_completion :
      EngineOptions proxy Url Payload
      → Attempts proxy Url Payload
      → ℕ
      → Joined proxy Url Payload
      → StorageResult (Unit {0})
      → ℕ
      → ℕ
      → Option (Settled proxy Url Payload)
  handle_completion opts st slot joined answer now utc = elim (get ℕ_discrete slot st.slots) [
    | none ↦ none
    | some s ↦ some (
        complete opts (record st { slots = remove ℕ_discrete slot st.slots }) s joined answer now
          utc)
  ]

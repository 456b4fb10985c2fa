-- ===== src/Tests/Attempts.antt =====
-- The end of an attempt, on a request that fails once with a retryable error.
use millipede.Prelude.{
  ℕ, ◌+◌, ◌≤◌, ◌≡◌, refl, true, false, List, [], ◌∷◌, Option, none, some, arith, Text, codes,
  ℕ_discrete,
}
use millipede.Prelude.Table.{get}
use millipede.Errors.{CrawlError, AnyError, retry, force_retry}
use millipede.Engine.Retry.{decide}
use millipede.Engine.Retry.Disabled.{forced_without, decide-no_retry}
use millipede.Request.{Request, unprocessed}
use millipede.Storage
use millipede.Storage.{Lease, StorageError, StorageResult}
use millipede.Engine.{Proxy, EngineOptions, no_observation}
use millipede.Engine.Completion.{
  SlotState, Attempts, Joined, returned, AttemptOutput, broke, Settled, handle_completion, anyhow,
}
use millipede.Engine.Completion.Once.{Ends, stops, handle_completion-Ends}
use millipede.Engine.Completion.Retries.{Retried, not_yet, again, Retried-bounded}

abbrev pub plain : Proxy
plain = record { ProxyKind = Unit {0}; ProxyInfo = Unit {0} }

abbrev pub host_str : Text → Option Text
host_str url = some url

abbrev pub to_string : CrawlError → Text
to_string e = codes "failed"

abbrev pub storage_text : StorageError → Text
storage_text e = codes "storage"

abbrev pub tried : ℕ → List Text → Request Text (Unit {0})
tried retries messages = record {
  id = codes "k1";
  url = codes "a";
  loaded_url = none;
  unique_key = codes "k1";
  payload = tt;
  label = none;
  retry_count = retries;
  session_rotation_count = 0;
  max_retries = none;
  no_retry = false;
  error_messages = messages;
  handled_at = none;
  state = unprocessed;
  crawl_depth = 0;
  skip_navigation = false;
}

abbrev slot_state : SlotState Text (Unit {0})
slot_state = record {
  lease = record { request = tried 0 []; lease_id = 7; expires_at = 100 };
  started = 3;
}

abbrev attempts : Attempts plain Text (Unit {0})
attempts = record { slots = (5, slot_state) ∷ []; accumulated = []; overrides = [] }

abbrev pub options : EngineOptions plain Text (Unit {0})
options = record {
  failed_handler = false;
  max_request_retries = 3;
  max_session_rotations = 10;
  retry_strategy = none;
}

abbrev pub failed_attempt : Joined plain Text (Unit {0})
failed_attempt = returned (record {
  result = broke (retry (anyhow (codes "timeout")));
  duration = 11;
  request = tried 0 [];
  observation = no_observation;
})

abbrev pub accepted : StorageResult (Unit {0})
accepted = Storage.ok tt

handle_completion-Ends_example :
    (settled : Settled plain Text (Unit {0})) × (handle_completion host_str to_string storage_text
        options attempts 5 failed_attempt accepted 20 21
      ≡ some settled)
    × Ends host_str to_string storage_text 7 (stops failed_attempt) accepted settled
unfolding get ℕ_discrete
handle_completion-Ends_example =
    handle_completion-Ends host_str to_string storage_text options attempts 5 slot_state
      failed_attempt accepted 20 21 refl

once_retried :
    Retried host_str to_string storage_text options 3 (tried 0 []) 1 (tried 1 (codes "failed" ∷ []))
unfolding get ℕ_discrete handle_completion millipede.Errors.ignores_max_retries
    millipede.Engine.Completion.Retries.limit millipede.Engine.Completion.Retries.cap_of
    millipede.Engine.Completion.returned_lease millipede.Engine.Completion.Retries.put_back
    millipede.Engine.Completion.complete millipede.Engine.Completion.conclude
    millipede.Engine.Completion.settle millipede.Engine.Completion.settle_error
    millipede.Errors.is_critical millipede.Engine.Retry.decide millipede.Engine.Retry.by_default
    millipede.Errors.is_retryable millipede.Errors.rotates_session
    millipede.Engine.Completion.settle_retry millipede.Engine.Completion.push_error
once_retried =
    again not_yet attempts 5 slot_state failed_attempt accepted 20 21 refl refl refl (omega arith)
      refl refl

Retried-bounded_example :
    (1
      ≡ (tried 1 (codes "failed" ∷ [])).retry_count
        + (tried 1 (codes "failed" ∷ [])).session_rotation_count)
    × ((tried 1 (codes "failed" ∷ [])).retry_count ≤ 3)
    × ((tried 1 (codes "failed" ∷ [])).session_rotation_count ≤ options.max_session_rotations)
Retried-bounded_example =
    Retried-bounded host_str to_string storage_text options 3 (tried 0 []) 1
      (tried 1 (codes "failed" ∷ [])) refl refl (omega arith) (omega arith) once_retried

abbrev once_only : Request Text (Unit {0})
once_only = record (tried 0 []) { no_retry = true }

abbrev forced_error : CrawlError
forced_error = force_retry (anyhow (codes "again"))

decide-no_retry_example :
    ((decide options once_only forced_error no_observation []).eligible
      ≡ forced_without options.retry_strategy forced_error)
    × ((decide options once_only forced_error no_observation []).overrides ≡ [])
decide-no_retry_example = decide-no_retry options once_only forced_error no_observation [] refl

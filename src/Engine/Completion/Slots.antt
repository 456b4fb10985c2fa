-- ===== src/Engine/Completion/Slots.antt =====
-- engine.rs, `handle_completion`: the end of an attempt frees its own slot and no other.
use millipede.Prelude.{
  ℕ, ◌≡◌, refl, sym, ◌∙◌, ap, Bool, true, false, Option, some, arith, Text, ℕ_discrete,
  if◌then◌else◌,
}
use millipede.Prelude.Table.{get, remove}
use millipede.Errors.{CrawlError, is_critical}
use millipede.Storage
use millipede.Storage.{StorageError, StorageResult, Lease}
use millipede.Engine.{Proxy, EngineOptions, AttemptObservation}
use millipede.Engine.Retry.{Decision, decide}
use millipede.Engine.Completion.{
  Attempts, AttemptResult, finished, broke, SlotState, Joined, cancelled, panicked, returned,
  Settled, handle_completion, complete, conclude, settle, settle_error, settle_success,
  settle_critical, settle_retry, settle_failure,
}

module _ {proxy : Proxy} {Url Payload : Type 0} (host_str : Url → Option Text)
    (to_string : CrawlError → Text) (storage_text : StorageError → Text) where
  settle_error-slots :
      (opts : EngineOptions proxy Url Payload) (st : Attempts proxy Url Payload)
      (lease : Lease Url Payload) (total : ℕ) (observation : AttemptObservation proxy Url Payload)
      (e : CrawlError) (answer : StorageResult (Unit {0})) (utc : ℕ)
      → (settle_error host_str to_string storage_text opts st lease total observation e answer
          utc).attempts.slots
        ≡ st.slots
  unfolding settle_error settle_critical settle_retry settle_failure
  settle_error-slots opts st lease total observation e answer utc =
      from (is_critical e) (decide opts lease.request e observation st.overrides) answer
    where
      from :
          (b : Bool) (d : Decision proxy) (a : StorageResult (Unit {0}))
          → (if b
              then settle_critical host_str to_string storage_text st lease e
              else (if d.eligible
                  then settle_retry host_str to_string storage_text st lease total e d a
                  else settle_failure host_str to_string storage_text opts.failed_handler st lease
                      total observation e d a utc)).attempts.slots
            ≡ st.slots
      from true d a = refl
      from false d (Storage.ok x) = ground arith
      from false d (Storage.err x) = ground arith

  settle-slots :
      (opts : EngineOptions proxy Url Payload) (st : Attempts proxy Url Payload)
      (lease : Lease Url Payload) (total : ℕ) (observation : AttemptObservation proxy Url Payload)
      (result : AttemptResult) (answer : StorageResult (Unit {0})) (utc : ℕ)
      → (settle host_str to_string storage_text opts st lease total observation result answer
          utc).attempts.slots
        ≡ st.slots
  unfolding settle settle_success
  settle-slots opts st lease total observation finished (Storage.ok x) utc = refl
  settle-slots opts st lease total observation finished (Storage.err x) utc = refl
  settle-slots opts st lease total observation (broke e) answer utc =
      settle_error-slots opts st lease total observation e answer utc

  complete-slots :
      (opts : EngineOptions proxy Url Payload) (st : Attempts proxy Url Payload)
      (s : SlotState Url Payload) (joined : Joined proxy Url Payload)
      (answer : StorageResult (Unit {0})) (now utc : ℕ)
      → (complete host_str to_string storage_text opts st s joined answer now utc).attempts.slots
        ≡ st.slots
  unfolding complete conclude
  complete-slots opts st s cancelled (Storage.ok x) now utc = refl
  complete-slots opts st s cancelled (Storage.err x) now utc = refl
  complete-slots opts st s (panicked message) answer now utc =
      settle-slots opts st _ _ _ _ answer utc
  complete-slots opts st s (returned output) answer now utc =
      settle-slots opts st _ _ _ output.result answer utc

  pub handle_completion-slots :
      (opts : EngineOptions proxy Url Payload) (st : Attempts proxy Url Payload) (slot : ℕ)
      (s : SlotState Url Payload) (joined : Joined proxy Url Payload)
      (answer : StorageResult (Unit {0})) (now utc : ℕ) (settled : Settled proxy Url Payload)
      → get ℕ_discrete slot st.slots ≡ some s
      → handle_completion host_str to_string storage_text opts st slot joined answer now utc
        ≡ some settled
      → settled.attempts.slots ≡ remove ℕ_discrete slot st.slots
  unfolding handle_completion
  handle_completion-slots opts st slot s joined answer now utc settled e h =
      let rest : Attempts proxy Url Payload = record st {
        slots = remove ℕ_discrete slot st.slots;
      } in
      let done : some (complete host_str to_string storage_text opts rest s joined answer now utc)
          ≡ some settled =
        rw (e, handle_completion) at h in
      let same : complete host_str to_string storage_text opts rest s joined answer now utc
          ≡ settled =
        cc in
      ap (λ x. x.attempts.slots) (sym same) ∙ complete-slots opts rest s joined answer now utc

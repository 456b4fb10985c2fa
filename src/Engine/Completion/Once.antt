-- ===== src/Engine/Completion/Once.antt =====
-- engine.rs, `handle_completion`: every attempt gives its lease back once, and is counted once.
use millipede.Prelude.{
  ℕ, ◌+◌, ◌≡◌, refl, sym, ◌∙◌, ◌↔◌, inl, inr, Bool, true, false, List, [], ◌∷◌, ◌++◌, Option, none,
  some, Text, ℕ_discrete, Bool-cases, if◌then◌else◌,
}
use millipede.Prelude.Table.{get, remove}
use millipede.Errors
use millipede.Errors.{CrawlError, is_critical}
use millipede.Storage
use millipede.Storage.{StorageError, StorageResult, Lease}
use millipede.Engine.{Proxy, EngineOptions, AttemptObservation}
use millipede.Engine.Retry.{Decision, decide}
use millipede.Engine.Completion.{
  Call, mark_handled, reclaim, abandon, record_finished, record_failed, Attempts, AttemptResult,
  finished, broke, SlotState, Joined, cancelled, panicked, returned, Settled, handle_completion,
  complete, conclude, settle, settle_error, settle_success, settle_critical, settle_retry,
  settle_failure, returned_lease, outcome_calls,
}

module _ {Url Payload : Type 0} where
  -- The leases that the calls give back.
  unfoldable pub consumed : List (Call Url Payload) → List ℕ
  consumed [] = []
  consumed (mark_handled lease ∷ calls) = lease.lease_id ∷ consumed calls
  consumed (reclaim lease opts ∷ calls) = lease.lease_id ∷ consumed calls
  consumed (abandon lease ∷ calls) = lease.lease_id ∷ consumed calls
  consumed (_ ∷ calls) = consumed calls

  -- How many requests the calls count as finished or failed, and how many they mark as handled.
  unfoldable pub ended : List (Call Url Payload) → ℕ
  ended [] = 0
  ended (record_finished duration status retries ∷ calls) = ended calls + 1
  ended (record_failed duration error retries ∷ calls) = ended calls + 1
  ended (_ ∷ calls) = ended calls

  unfoldable pub marked : List (Call Url Payload) → ℕ
  marked [] = 0
  marked (mark_handled lease ∷ calls) = marked calls + 1
  marked (_ ∷ calls) = marked calls

-- Whether the result is a critical error.
abbrev pub breaks : AttemptResult → Bool
breaks finished = false
breaks (broke e) = is_critical e

abbrev pub stops : {proxy : Proxy} {Url Payload : Type 0} → Joined proxy Url Payload → Bool
stops cancelled = false
stops (panicked message) = false
stops (returned output) = breaks output.result

module _ {proxy : Proxy} {Url Payload : Type 0} (host_str : Url → Option Text)
    (to_string : CrawlError → Text) (storage_text : StorageError → Text) where
  -- What the end of an attempt with a lease amounts to.
  pub record Ends (id : ℕ) (critical : Bool) (answer : StorageResult (Unit {0}))
      (settled : Settled proxy Url Payload) : Type 0 where
    pub once : consumed settled.calls ≡ id ∷ []
    pub counted : answer ≡ Storage.ok tt → ended settled.calls ≡ marked settled.calls
    pub uncounted : (e : StorageError) → answer ≡ Storage.err e → ended settled.calls ≡ 0
    pub goes_on : (settled.result ≡ Errors.ok tt) ↔ ((critical ≡ false) × (answer ≡ Storage.ok tt))

  accepted-Ends :
      {id : ℕ} {x : Unit {0}} {settled : Settled proxy Url Payload}
      → consumed settled.calls ≡ id ∷ []
      → ended settled.calls ≡ marked settled.calls
      → settled.result ≡ Errors.ok tt
      → Ends id false (Storage.ok x) settled
  accepted-Ends c e r = record {
    once = c;
    counted = λ h. e;
    uncounted = λ f h. cc;
    goes_on = (λ h. (refl, refl), λ h. r);
  }

  refused-Ends :
      {id : ℕ} {f : StorageError} {g : CrawlError} {settled : Settled proxy Url Payload}
      → consumed settled.calls ≡ id ∷ []
      → ended settled.calls ≡ 0
      → settled.result ≡ Errors.err g
      → Ends id false (Storage.err f) settled
  refused-Ends c e r = record {
    once = c;
    counted = λ h. cc;
    uncounted = λ k h. e;
    goes_on = (λ h. cc, λ (a, b). cc);
  }

  settle_success-Ends :
      (st : Attempts proxy Url Payload) (lease : Lease Url Payload) (total : ℕ)
      (observation : AttemptObservation proxy Url Payload) (answer : StorageResult (Unit {0}))
      (utc : ℕ)
      → Ends lease.lease_id false answer
          (settle_success host_str to_string storage_text st lease total observation answer utc)
  unfolding settle_success consumed ended marked
  settle_success-Ends st lease total observation (Storage.ok x) utc = accepted-Ends refl refl refl
  settle_success-Ends st lease total observation (Storage.err f) utc = refused-Ends refl refl refl

  settle_critical-Ends :
      (st : Attempts proxy Url Payload) (lease : Lease Url Payload) (e : CrawlError)
      (answer : StorageResult (Unit {0}))
      → Ends lease.lease_id true answer (settle_critical host_str to_string storage_text st lease e)
  unfolding settle_critical consumed ended marked
  settle_critical-Ends st lease e answer = record {
    once = refl;
    counted = λ h. refl;
    uncounted = λ f h. refl;
    goes_on = (λ h. cc, λ (a, b). cc);
  }

  settle_retry-Ends :
      (st : Attempts proxy Url Payload) (lease : Lease Url Payload) (total : ℕ) (e : CrawlError)
      (decision : Decision proxy) (answer : StorageResult (Unit {0}))
      → Ends lease.lease_id false answer
          (settle_retry host_str to_string storage_text st lease total e decision answer)
  unfolding settle_retry consumed ended marked
  settle_retry-Ends st lease total e decision (Storage.ok x) = accepted-Ends refl refl refl
  settle_retry-Ends st lease total e decision (Storage.err f) = refused-Ends refl refl refl

  settle_failure-Ends :
      (has_handler : Bool) (st : Attempts proxy Url Payload) (lease : Lease Url Payload) (total : ℕ)
      (observation : AttemptObservation proxy Url Payload) (e : CrawlError)
      (decision : Decision proxy) (answer : StorageResult (Unit {0})) (utc : ℕ)
      → Ends lease.lease_id false answer (
          settle_failure host_str to_string storage_text has_handler st lease total observation e
            decision answer utc)
  unfolding settle_failure consumed ended marked
  settle_failure-Ends true st lease total observation e decision (Storage.ok x) utc =
      accepted-Ends refl refl refl
  settle_failure-Ends true st lease total observation e decision (Storage.err f) utc =
      refused-Ends refl refl refl
  settle_failure-Ends false st lease total observation e decision (Storage.ok x) utc =
      accepted-Ends refl refl refl
  settle_failure-Ends false st lease total observation e decision (Storage.err f) utc =
      refused-Ends refl refl refl

  if-Ends :
      {id : ℕ} {critical : Bool} {answer : StorageResult (Unit {0})}
      {x y : Settled proxy Url Payload} (b : Bool)
      → Ends id critical answer x
      → Ends id critical answer y
      → Ends id critical answer (if b then x else y)
  if-Ends true h k = h
  if-Ends false h k = k

  settle_error-Ends :
      (opts : EngineOptions proxy Url Payload) (st : Attempts proxy Url Payload)
      (lease : Lease Url Payload) (total : ℕ) (observation : AttemptObservation proxy Url Payload)
      (e : CrawlError) (answer : StorageResult (Unit {0})) (utc : ℕ)
      → Ends lease.lease_id (is_critical e) answer (
          settle_error host_str to_string storage_text opts st lease total observation e answer utc)
  unfolding settle_error
  settle_error-Ends opts st lease total observation e answer utc =
      let decision = decide opts lease.request e observation st.overrides in
      elim (Bool-cases (is_critical e)) [
        | inl c ↦ rw c (settle_critical-Ends st lease e answer)
        | inr c ↦ rw c (
            if-Ends decision.eligible (settle_retry-Ends st lease total e decision answer) (
              settle_failure-Ends opts.failed_handler st lease total observation e decision answer
                utc))
      ]

  -- The calls that tell the pool about an outcome give no lease back and count nothing.
  outcome_calls-quiet :
      (host : Option Text) (observation : AttemptObservation proxy Url Payload)
      (result : AttemptResult) (calls : List (Call Url Payload))
      → let all = outcome_calls host_str to_string storage_text host observation result ++ calls in
        (consumed all ≡ consumed calls) × (ended all ≡ ended calls) × (marked all ≡ marked calls)
  unfolding consumed ended marked
  outcome_calls-quiet none observation finished calls = (refl, refl, refl)
  outcome_calls-quiet (some host) observation finished calls = (refl, refl, refl)
  outcome_calls-quiet none observation (broke e) calls = (refl, refl, refl)
  outcome_calls-quiet (some host) observation (broke e) calls = (refl, refl, refl)

  settle-Ends :
      (opts : EngineOptions proxy Url Payload) (st : Attempts proxy Url Payload)
      (lease : Lease Url Payload) (total : ℕ) (observation : AttemptObservation proxy Url Payload)
      (result : AttemptResult) (answer : StorageResult (Unit {0})) (utc : ℕ)
      → Ends lease.lease_id
          (breaks result)
          answer
          (settle host_str to_string storage_text opts st lease total observation result answer utc)
  unfolding settle
  settle-Ends opts st lease total observation finished answer utc =
      settle_success-Ends st lease total observation answer utc
  settle-Ends opts st lease total observation (broke e) answer utc =
      settle_error-Ends opts st lease total observation e answer utc

  conclude-Ends :
      (opts : EngineOptions proxy Url Payload) (st : Attempts proxy Url Payload)
      (host : Option Text) (lease : Lease Url Payload) (result : AttemptResult) (duration : ℕ)
      (observation : AttemptObservation proxy Url Payload) (answer : StorageResult (Unit {0}))
      (utc : ℕ)
      → Ends lease.lease_id (breaks result) answer (
          conclude host_str to_string storage_text opts st host lease result duration observation
            answer utc)
  unfolding conclude
  conclude-Ends opts st host lease result duration observation answer utc =
      let (c, d, m) = outcome_calls-quiet host observation result _ in
      let rest = settle-Ends opts st lease _ observation result answer utc in
      record {
        once = c ∙ rest.once;
        counted = λ h. d ∙ rest.counted h ∙ sym m;
        uncounted = λ e h. d ∙ rest.uncounted e h;
        goes_on = rest.goes_on;
      }

  complete-Ends :
      (opts : EngineOptions proxy Url Payload) (st : Attempts proxy Url Payload)
      (s : SlotState Url Payload) (joined : Joined proxy Url Payload)
      (answer : StorageResult (Unit {0})) (now utc : ℕ)
      → Ends s.lease.lease_id
          (stops joined)
          answer
          (complete host_str to_string storage_text opts st s joined answer now utc)
  unfolding complete consumed ended marked returned_lease is_critical
  complete-Ends opts st s cancelled (Storage.ok x) now utc = accepted-Ends refl refl refl
  complete-Ends opts st s cancelled (Storage.err f) now utc = refused-Ends refl refl refl
  complete-Ends opts st s (panicked message) answer now utc =
      conclude-Ends opts st _ s.lease _ _ _ answer utc
  complete-Ends opts st s (returned output) answer now utc =
      conclude-Ends opts st _ (returned_lease s.lease output.request) output.result _ _ answer utc

  -- However the task of an occupied slot ends (returned, panicked or cancelled), and whatever the
  -- queue answers, the completion is handled without a panic, and exactly one call gives a lease
  -- back, namely the slot's. If the queue accepts it, the statistics count one request as finished or
  -- failed when the call was `mark_handled`, and none otherwise; if the queue refuses, they count none. The
  -- engine goes on exactly when the error was not critical and the queue accepted.
  pub handle_completion-Ends :
      (opts : EngineOptions proxy Url Payload) (st : Attempts proxy Url Payload) (slot : ℕ)
      (s : SlotState Url Payload) (joined : Joined proxy Url Payload)
      (answer : StorageResult (Unit {0})) (now utc : ℕ)
      → get ℕ_discrete slot st.slots ≡ some s
      → (settled : Settled proxy Url Payload) × (handle_completion host_str to_string storage_text
            opts st slot joined answer now utc
          ≡ some settled)
        × Ends s.lease.lease_id (stops joined) answer settled
  unfolding handle_completion
  handle_completion-Ends opts st slot s joined answer now utc e =
      let rest : Attempts proxy Url Payload = record st {
        slots = remove ℕ_discrete slot st.slots;
      } in
      (
        complete host_str to_string storage_text opts rest s joined answer now utc,
        rw (e, handle_completion),
        complete-Ends opts rest s joined answer now utc,
      )

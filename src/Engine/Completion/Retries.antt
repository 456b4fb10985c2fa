-- ===== src/Engine/Completion/Retries.antt =====
-- engine.rs, `handle_completion`: a request is not retried for ever.
use millipede.Prelude.{
  ℕ, suc, ◌+◌, ◌≤◌, ◌<◌, ◌≡◌, refl, ◌⊎◌, inl, inr, Bool, true, false, List, [], ◌∷◌, ◌++◌, Option,
  none, some, arith, Text, Bool-cases, if◌then◌else◌, sym, ◌∙◌, ℕ_discrete,
}
use millipede.Prelude.Table.{Table, get, remove}
use millipede.Prelude.Words.{u32_max, u32_inc, u32_inc_exact}
use millipede.Errors.{CrawlError, is_critical, ignores_max_retries}
use millipede.Request.{Request}
use millipede.Storage
use millipede.Storage.{StorageError, StorageResult, Lease}
use millipede.MemoryQueue.{counted}
use millipede.Engine.{Proxy, EngineOptions, AttemptObservation, AttemptOverrides}
use millipede.Engine.Retry.{Decision, decide, by_strategy, by_default, unwrap_or}
use millipede.Engine.Completion.{
  Call, reclaim, Attempts, AttemptResult, finished, broke, SlotState, Joined, cancelled, panicked,
  returned, Settled, handle_completion, complete, conclude, settle, settle_error, settle_success,
  settle_critical, settle_retry, settle_failure, returned_lease, outcome_calls, push_error,
}

-- Whether the result is a `ForceRetry` error.
abbrev pub forced : AttemptResult → Bool
forced finished = false
forced (broke e) = ignores_max_retries e

module _ {Url Payload : Type 0} where
  -- The request that the queue holds after the calls put one back.
  unfoldable pub put_back : List (Call Url Payload) → Option (Request Url Payload)
  put_back [] = none
  put_back (reclaim lease opts ∷ calls) = some (counted opts lease.request)
  put_back (_ ∷ calls) = put_back calls

module _ {proxy : Proxy} {Url Payload : Type 0} where
  -- The limit on the retries of a request.
  unfoldable pub cap_of : EngineOptions proxy Url Payload → Request Url Payload → ℕ
  cap_of opts r = elim opts.retry_strategy [
    | none ↦ unwrap_or r.max_retries opts.max_request_retries
    | some strategy ↦ unwrap_or r.max_retries strategy.max_retries
  ]

  -- The limit that applies to the attempt of a slot: the attempt may give its request back changed.
  unfoldable pub limit :
      EngineOptions proxy Url Payload → SlotState Url Payload → Joined proxy Url Payload → ℕ
  limit opts s cancelled = cap_of opts s.lease.request
  limit opts s (panicked message) = cap_of opts s.lease.request
  limit opts s (returned output) = cap_of opts (returned_lease s.lease output.request).request

  abbrev pub forces : Joined proxy Url Payload → Bool
  forces cancelled = false
  forces (panicked message) = false
  forces (returned output) = forced output.result

  decide-below :
      (opts : EngineOptions proxy Url Payload) (r : Request Url Payload) (e : CrawlError)
      (observation : AttemptObservation proxy Url Payload)
      (overrides : Table Text (AttemptOverrides proxy)) (d : Decision proxy)
      → decide opts r e observation overrides ≡ d
      → d.eligible ≡ true
      → ignores_max_retries e ≡ false
      → ((d.rotates ≡ true) × (r.session_rotation_count < opts.max_session_rotations))
        ⊎ ((d.rotates ≡ false) × (r.retry_count < cap_of opts r))
  unfolding decide by_strategy by_default cap_of
  decide-below opts r e observation overrides d h el ig = ground arith

  -- The retry that takes `r` to `r'` uses up one of the two limits.
  abbrev pub Advances :
      EngineOptions proxy Url Payload → ℕ → Request Url Payload → Request Url Payload → Type 0
  Advances opts cap r r' =
      ((r'.session_rotation_count ≡ r.session_rotation_count + 1)
        × (r'.retry_count ≡ r.retry_count)
        × (r.session_rotation_count < opts.max_session_rotations))
      ⊎ ((r'.session_rotation_count ≡ r.session_rotation_count)
          × (r'.retry_count ≡ r.retry_count + 1)
          × (r.retry_count < cap))

module _ {proxy : Proxy} {Url Payload : Type 0} (host_str : Url → Option Text)
    (to_string : CrawlError → Text) (storage_text : StorageError → Text) where
  -- What settle_retry puts back, whether or not the queue accepts it.
  settle_retry-put_back :
      (st : Attempts proxy Url Payload) (lease : Lease Url Payload) (total : ℕ) (e : CrawlError)
      (d : Decision proxy) (answer : StorageResult (Unit {0})) (r' : Request Url Payload)
      → put_back (settle_retry host_str to_string storage_text st lease total e d answer).calls
        ≡ some r'
      → (r'.session_rotation_count ≡ (
          if d.rotates
          then u32_inc lease.request.session_rotation_count
          else lease.request.session_rotation_count))
        × (r'.retry_count
            ≡ (if d.rotates then lease.request.retry_count else u32_inc lease.request.retry_count))
  unfolding settle_retry put_back push_error
  settle_retry-put_back st lease total e d (Storage.ok x) r' h = ground arith
  settle_retry-put_back st lease total e d (Storage.err x) r' h = ground arith

  settle_failure-put_back :
      (has_handler : Bool) (st : Attempts proxy Url Payload) (lease : Lease Url Payload) (total : ℕ)
      (observation : AttemptObservation proxy Url Payload) (e : CrawlError) (d : Decision proxy)
      (answer : StorageResult (Unit {0})) (utc : ℕ)
      → put_back
          (settle_failure host_str to_string storage_text has_handler st lease total observation e d
            answer utc).calls
        ≡ none
  unfolding settle_failure put_back
  settle_failure-put_back true st lease total observation e d (Storage.ok x) utc = refl
  settle_failure-put_back true st lease total observation e d (Storage.err x) utc = refl
  settle_failure-put_back false st lease total observation e d (Storage.ok x) utc = refl
  settle_failure-put_back false st lease total observation e d (Storage.err x) utc = refl

  settle_success-put_back :
      (st : Attempts proxy Url Payload) (lease : Lease Url Payload) (total : ℕ)
      (observation : AttemptObservation proxy Url Payload) (answer : StorageResult (Unit {0}))
      (utc : ℕ)
      → put_back
          (settle_success host_str to_string storage_text st lease total observation answer
            utc).calls
        ≡ none
  unfolding settle_success put_back
  settle_success-put_back st lease total observation (Storage.ok x) utc = refl
  settle_success-put_back st lease total observation (Storage.err x) utc = refl

  decided-Advances :
      (opts : EngineOptions proxy Url Payload) (st : Attempts proxy Url Payload)
      (lease : Lease Url Payload) (total : ℕ) (observation : AttemptObservation proxy Url Payload)
      (e : CrawlError) (answer : StorageResult (Unit {0})) (utc : ℕ) (r' : Request Url Payload)
      (d : Decision proxy)
      → decide opts lease.request e observation st.overrides ≡ d
      → opts.max_session_rotations ≤ u32_max
      → cap_of opts lease.request ≤ u32_max
      → ignores_max_retries e ≡ false
      → put_back
          (if d.eligible
            then settle_retry host_str to_string storage_text st lease total e d answer
            else settle_failure host_str to_string storage_text opts.failed_handler st lease total
                observation e d answer utc).calls
        ≡ some r'
      → Advances opts (cap_of opts lease.request) lease.request r'
  decided-Advances opts st lease total observation e answer utc r' d p rotations retries ig h =
      ground (
        arith,
        decide-below opts lease.request e observation st.overrides d p,
        settle_failure-put_back opts.failed_handler st lease total observation e d answer utc,
        settle_retry-put_back st lease total e d answer r',
        u32_inc_exact lease.request.session_rotation_count,
        u32_inc_exact lease.request.retry_count,
      )

  settle_error-Advances :
      (opts : EngineOptions proxy Url Payload) (st : Attempts proxy Url Payload)
      (lease : Lease Url Payload) (total : ℕ) (observation : AttemptObservation proxy Url Payload)
      (e : CrawlError) (answer : StorageResult (Unit {0})) (utc : ℕ) (r' : Request Url Payload)
      → opts.max_session_rotations ≤ u32_max
      → cap_of opts lease.request ≤ u32_max
      → ignores_max_retries e ≡ false
      → put_back
          (settle_error host_str to_string storage_text opts st lease total observation e answer
            utc).calls
        ≡ some r'
      → Advances opts (cap_of opts lease.request) lease.request r'
  unfolding settle_error settle_critical put_back
  settle_error-Advances opts st lease total observation e answer utc r' rotations retries ig h =
      elim (Bool-cases (is_critical e)) [
        | inl c ↦ absurd (let h' = rw c at h in cc)
        | inr c ↦
            decided-Advances opts st lease total observation e answer utc r'
              (decide opts lease.request e observation st.overrides) refl rotations retries ig
              (rw c at h)
      ]

  outcome_calls-put_back :
      (host : Option Text) (observation : AttemptObservation proxy Url Payload)
      (result : AttemptResult) (calls : List (Call Url Payload))
      → put_back (outcome_calls host_str to_string storage_text host observation result ++ calls)
        ≡ put_back calls
  unfolding put_back
  outcome_calls-put_back none observation finished calls = refl
  outcome_calls-put_back (some host) observation finished calls = refl
  outcome_calls-put_back none observation (broke e) calls = refl
  outcome_calls-put_back (some host) observation (broke e) calls = refl

  conclude-Advances :
      (opts : EngineOptions proxy Url Payload) (st : Attempts proxy Url Payload)
      (host : Option Text) (lease : Lease Url Payload) (result : AttemptResult) (duration : ℕ)
      (observation : AttemptObservation proxy Url Payload) (answer : StorageResult (Unit {0}))
      (utc : ℕ) (r' : Request Url Payload)
      → opts.max_session_rotations ≤ u32_max
      → cap_of opts lease.request ≤ u32_max
      → forced result ≡ false
      → put_back
          (conclude host_str to_string storage_text opts st host lease result duration observation
            answer utc).calls
        ≡ some r'
      → Advances opts (cap_of opts lease.request) lease.request r'
  unfolding conclude settle
  conclude-Advances opts st host lease finished duration observation answer utc r' rotations retries
        f h =
      absurd (
        let e : none ≡ some r' =
          sym (
            outcome_calls-put_back host observation finished _
            ∙ settle_success-put_back st lease _ observation answer utc)
          ∙ h in
        cc)
  conclude-Advances opts st host lease (broke e) duration observation answer utc r' rotations
        retries f h =
      settle_error-Advances opts st lease _ observation e answer utc r' rotations retries f
        (sym (outcome_calls-put_back host observation (broke e) _) ∙ h)

  complete-Advances :
      (opts : EngineOptions proxy Url Payload) (st : Attempts proxy Url Payload)
      (s : SlotState Url Payload) (joined : Joined proxy Url Payload)
      (answer : StorageResult (Unit {0})) (now utc : ℕ) (r' : Request Url Payload)
      → opts.max_session_rotations ≤ u32_max
      → limit opts s joined ≤ u32_max
      → forces joined ≡ false
      → put_back (complete host_str to_string storage_text opts st s joined answer now utc).calls
        ≡ some r'
      → Advances opts (limit opts s joined) s.lease.request r'
  unfolding complete returned_lease put_back limit ignores_max_retries
  complete-Advances opts st s cancelled (Storage.ok x) now utc r' rotations retries f h =
      absurd (cc)
  complete-Advances opts st s cancelled (Storage.err x) now utc r' rotations retries f h =
      absurd (cc)
  complete-Advances opts st s (panicked message) answer now utc r' rotations retries f h =
      conclude-Advances opts st _ s.lease _ _ _ answer utc r' rotations retries refl h
  complete-Advances opts st s (returned output) answer now utc r' rotations retries f h =
      conclude-Advances opts st _ (returned_lease s.lease output.request) output.result _ _ answer
        utc r' rotations retries f h

  -- `n` retries of a request that was `first` lead to `r`: each is a completion of an attempt with the
  -- request as the queue held it, that put it back. None ended in a `ForceRetry` error, and the
  -- limit that applied was at most `cap`.
  pub data Retried (opts : EngineOptions proxy Url Payload) (cap : ℕ) (first : Request Url Payload)
      : ℕ → Request Url Payload → Type 0 where
    not_yet : Retried opts cap first 0 first
    again :
        {n : ℕ} {r r' : Request Url Payload} {settled : Settled proxy Url Payload}
        → Retried opts cap first n r
        → (st : Attempts proxy Url Payload) (slot : ℕ) (s : SlotState Url Payload)
          (joined : Joined proxy Url Payload) (answer : StorageResult (Unit {0})) (now utc : ℕ)
        → get ℕ_discrete slot st.slots ≡ some s
        → s.lease.request ≡ r
        → forces joined ≡ false
        → limit opts s joined ≤ cap
        → handle_completion host_str to_string storage_text opts st slot joined answer now utc
          ≡ some settled
        → put_back settled.calls ≡ some r'
        → Retried opts cap first (suc n) r'

  handle_completion-Advances :
      (opts : EngineOptions proxy Url Payload) (st : Attempts proxy Url Payload) (slot : ℕ)
      (s : SlotState Url Payload) (joined : Joined proxy Url Payload)
      (answer : StorageResult (Unit {0})) (now utc : ℕ) (settled : Settled proxy Url Payload)
      (r' : Request Url Payload)
      → opts.max_session_rotations ≤ u32_max
      → limit opts s joined ≤ u32_max
      → get ℕ_discrete slot st.slots ≡ some s
      → forces joined ≡ false
      → handle_completion host_str to_string storage_text opts st slot joined answer now utc
        ≡ some settled
      → put_back settled.calls ≡ some r'
      → Advances opts (limit opts s joined) s.lease.request r'
  unfolding handle_completion
  handle_completion-Advances opts st slot s joined answer now utc settled r' rotations retries e f h
        p =
      let rest : Attempts proxy Url Payload = record st {
        slots = remove ℕ_discrete slot st.slots;
      } in
      let same : some (complete host_str to_string storage_text opts rest s joined answer now utc)
          ≡ some settled =
        rw (e, handle_completion) at h in
      complete-Advances opts rest s joined answer now utc r' rotations retries f (
        let same' : complete host_str to_string storage_text opts rest s joined answer now utc
            ≡ settled =
          cc in
        rw same' p)

  -- Without `ForceRetry` errors, and under any retry strategy that answers by its arguments alone, a new
  -- request is retried at most as often as its retry limit and the limit on session rotations together: `n` retries split into
  -- the two counts of the request, neither of which passes its limit. The limits are `u32`s.
  pub Retried-bounded :
      (opts : EngineOptions proxy Url Payload) (cap : ℕ) (first : Request Url Payload) (n : ℕ)
      (r : Request Url Payload)
      → first.retry_count ≡ 0
      → first.session_rotation_count ≡ 0
      → cap ≤ u32_max
      → opts.max_session_rotations ≤ u32_max
      → Retried opts cap first n r
      → (n ≡ r.retry_count + r.session_rotation_count)
        × (r.retry_count ≤ cap)
        × (r.session_rotation_count ≤ opts.max_session_rotations)
  Retried-bounded opts cap first n r a b c m not_yet = omega arith
  Retried-bounded opts cap first n r a b c m
        (again {n = k} {r = q} {settled = settled} rest st slot s joined answer now utc e same f l h
          p) =
      ground (
        arith,
        same,
        Retried-bounded opts cap first k q a b c m rest,
        handle_completion-Advances opts st slot s joined answer now utc settled r m (omega arith) e
            f h p,
      )

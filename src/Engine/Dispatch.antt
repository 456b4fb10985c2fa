-- ===== src/Engine/Dispatch.antt =====
-- engine.rs, `dispatch_loop`: which leases are held, deferred or running. The loop is one task, so its state
-- changes between its awaits only by its own steps, which are the functions below: one round of the loop
-- that starts deferred leases, one fetch, the drain checks, and the end of an attempt. What the pool, the
-- queue and the clock answer is an argument of the step. A `BinaryHeap` of `Reverse` pairs, whose
-- sequence numbers differ, is a sorted list. `none` is a panic of an `expect`.
pub mod Sequences
pub mod Invariant
pub mod Rounds
pub mod Renewal
pub mod Reachable
pub mod NoPanic
use millipede.Prelude.{
  ℕ, ◌+◌, ◌-◌, ◌%◌, Bool, true, false, ◌||◌, ◌&&◌, not, map, List, [], ◌∷◌, ◌++◌, Option, none,
  some, Text, text_discrete, ℕ_discrete, if◌then◌else◌, ltb, leb, length, min, max,
}
use millipede.Prelude.Table.{Table, get, insert, remove}
use millipede.Prelude.Words.{u64_inc, u64_saturating_add}
use millipede.Errors.{CrawlError}
use millipede.Request.{Request}
use millipede.Storage.{Lease, StorageError, StorageResult}
use millipede.Engine.{Proxy, AttemptOverrides, EngineOptions}
use millipede.Engine.Retry.{unwrap_or}
use millipede.Engine.Completion.{
  SlotState, Attempts, Joined, Settled, Call, record_finished, handle_completion,
}

abbrev pub min_deferred_capacity : ℕ
min_deferred_capacity = 32

abbrev pub deferred_lease_renewal_margin : ℕ
deferred_lease_renewal_margin = 30_000_000_000

-- `deferred_cap`
abbrev pub deferred_cap_of : ℕ → ℕ
deferred_cap_of max_concurrency = max max_concurrency min_deferred_capacity

-- `BinaryHeap::push` on `Reverse` pairs: the least pair comes first.
unfoldable pub push : ℕ → ℕ → List (ℕ × ℕ) → List (ℕ × ℕ)
push ready_at sequence [] = (ready_at, sequence) ∷ []
push ready_at sequence ((t, s) ∷ heap) =
    let rest = push ready_at sequence heap in
    if ltb ready_at t || (leb ready_at t && leb sequence s)
    then (ready_at, sequence) ∷ (t, s) ∷ heap
    else (t, s) ∷ rest

module _ (proxy : Proxy) (Url Payload : Type 0) where
  pub record DeferredStart : Type 0 where
    pub lease : Lease Url Payload
    pub carried : AttemptOverrides proxy
    pub domain_reserved : Bool
    pub renew_at : ℕ

  -- The variables of the loop, and the count of finished requests that it reads from the statistics.
  pub record Dispatch : Type 0 where
    pub in_flight : List ℕ
    pub attempts : Attempts proxy Url Payload
    pub deferred : List (ℕ × ℕ)
    pub deferred_entries : Table ℕ DeferredStart
    pub next_slot : ℕ
    pub next_deferred : ℕ
    pub draining : Bool
    pub requests_finished : ℕ

  -- How a round of the inner loop ends: `break`, or on to the next one.
  pub data Round : Type 0 where
    round_over round_again : Dispatch → Round

-- The task that has ended leaves `in_flight`.
unfoldable pub without : ℕ → List ℕ → List ℕ
without slot [] = []
without slot (s ∷ slots) =
    let rest = without slot slots in elim (ℕ_discrete s slot) [ yes p ↦ slots | no n ↦ s ∷ rest ]

unfoldable pub finished_in : {Url Payload : Type 0} → List (Call Url Payload) → ℕ
finished_in [] = 0
finished_in (record_finished duration status retries ∷ calls) = finished_in calls + 1
finished_in (_ ∷ calls) = finished_in calls

module _ {proxy : Proxy} {Url Payload : Type 0} where
  -- The variables before the first round.
  unfoldable pub start : ℕ → Dispatch proxy Url Payload
  start requests_finished = record {
    in_flight = [];
    attempts = record { slots = []; accumulated = []; overrides = [] };
    deferred = [];
    deferred_entries = [];
    next_slot = 0;
    next_deferred = 0;
    draining = false;
    requests_finished = requests_finished;
  }

  unfoldable pub defer :
      Dispatch proxy Url Payload
      → ℕ
      → ℕ
      → DeferredStart proxy Url Payload
      → Dispatch proxy Url Payload
  defer d ready_at sequence entry = record d {
    deferred = push ready_at sequence d.deferred;
    deferred_entries = insert ℕ_discrete sequence entry d.deferred_entries;
  }

  unfoldable pub spawn :
      Dispatch proxy Url Payload → DeferredStart proxy Url Payload → ℕ → Dispatch proxy Url Payload
  spawn d entry started = record d {
    in_flight = d.next_slot ∷ d.in_flight;
    next_slot = u64_inc d.next_slot;
    attempts = record d.attempts {
      slots =
          insert ℕ_discrete d.next_slot (record { lease = entry.lease; started = started })
            d.attempts.slots;
    };
  }

module _ {proxy : Proxy} {Url Payload : Type 0} (host_str : Url → Option Text) where
  -- The wait for the host of an entry that has not asked for it before.
  abbrev pub domain_wait_of : (Text → ℕ) → DeferredStart proxy Url Payload → ℕ
  domain_wait_of domain_slot_wait entry =
      if entry.domain_reserved
      then 0
      else elim (host_str entry.lease.request.url) [ none ↦ 0 | some host ↦ domain_slot_wait host ]

  -- A ready entry, already taken from the heap and the table.
  unfoldable pub start_ready :
      Dispatch proxy Url Payload
      → ℕ
      → DeferredStart proxy Url Payload
      → (Text → ℕ)
      → Option ℕ
      → ℕ
      → ℕ
      → Round proxy Url Payload
  start_ready d sequence entry domain_slot_wait task_token_wait now started =
      let asked = record entry { domain_reserved = true } in
      let wait = domain_wait_of domain_slot_wait entry in
      if ltb 0 wait
      then round_again (defer d (now + wait) sequence asked)
      else elim task_token_wait [
        | some token_wait ↦ round_over (defer d (now + token_wait) sequence asked)
        | none ↦ round_again (spawn d asked started)
      ]

  -- One round of `while in_flight.len() < desired`.
  unfoldable pub pump :
      Dispatch proxy Url Payload
      → ℕ
      → (Text → ℕ)
      → Option ℕ
      → ℕ
      → ℕ
      → Option (Round proxy Url Payload)
  pump d desired domain_slot_wait task_token_wait now started = elim d.deferred [
    | [] ↦ some (round_over d)
    | (ready_at, sequence) ∷ heap ↦
        if ltb now ready_at || leb desired (length d.in_flight)
        then some (round_over d)
        else elim (get ℕ_discrete sequence d.deferred_entries) [
          | none ↦ none
          | some entry ↦ some (
              start_ready
                (record d {
                  deferred = heap;
                  deferred_entries = remove ℕ_discrete sequence d.deferred_entries;
                })
                sequence entry domain_slot_wait task_token_wait now started)
        ]
  ]

  -- The end of an attempt that is in flight; the statistics count each `record_finished`.
  unfoldable pub finish_attempt :
      (CrawlError → Text)
      → (StorageError → Text)
      → EngineOptions proxy Url Payload
      → Dispatch proxy Url Payload
      → ℕ
      → Joined proxy Url Payload
      → StorageResult (Unit {0})
      → ℕ
      → ℕ
      → Option (Dispatch proxy Url Payload)
  finish_attempt to_string storage_text opts d slot joined answer now utc =
      elim (handle_completion host_str to_string storage_text opts d.attempts slot joined answer now
        utc) [
          | none ↦ none
          | some settled ↦ some (record d {
            in_flight = without slot d.in_flight;
            attempts = settled.attempts;
            requests_finished = d.requests_finished + finished_in settled.calls;
          })
        ]

module _ {proxy : Proxy} where
  abbrev no_overrides : AttemptOverrides proxy
  no_overrides = record { proxy_kind = none; user_agent_profile = none; backoff = none }

module _ {proxy : Proxy} {Url Payload : Type 0} where
  -- `requests_finished + in_flight + deferred_entries >= limit`, where there is a limit.
  unfoldable pub request_limit_reserved : Option ℕ → Dispatch proxy Url Payload → Bool
  request_limit_reserved none d = false
  request_limit_reserved (some limit) d = leb limit (
      u64_saturating_add (u64_saturating_add d.requests_finished (length d.in_flight))
        (length d.deferred_entries))

  -- The guard before a fetch.
  unfoldable pub may_fetch : Option ℕ → ℕ → ℕ → Dispatch proxy Url Payload → Bool
  may_fetch limit desired deferred_cap d = not (
      d.draining
      || (request_limit_reserved limit d
          || (leb desired (length d.in_flight) || leb deferred_cap (length d.deferred_entries))))

  -- A lease that `fetch_next` returned at `now`.
  unfoldable pub hold :
      Dispatch proxy Url Payload → Lease Url Payload → ℕ → Dispatch proxy Url Payload
  hold d lease now =
      let key = lease.request.unique_key in
      let carried = unwrap_or (get text_discrete key d.attempts.overrides) no_overrides in
      let d' = record d {
        attempts = record d.attempts { overrides = remove text_discrete key d.attempts.overrides };
        next_deferred = u64_inc d.next_deferred;
      } in
      defer d' (now + unwrap_or carried.backoff 0) d.next_deferred (record {
        lease = lease;
        carried = carried;
        domain_reserved = false;
        renew_at = now + ((lease.expires_at - now) - deferred_lease_renewal_margin);
      })

  abbrev reached : Option ℕ → Dispatch proxy Url Payload → Bool
  reached none d = false
  reached (some limit) d = leb limit d.requests_finished

  -- The checks at the head of the loop: a requested stop, or the limit, starts the draining, which
  -- abandons the deferred leases, here the second result.
  unfoldable pub begin_round :
      Bool
      → Option ℕ
      → Dispatch proxy Url Payload
      → Dispatch proxy Url Payload × List (Lease Url Payload)
  begin_round drain_requested limit d =
      if d.draining || (drain_requested || reached limit d)
      then (
        record d { draining = true; deferred = []; deferred_entries = [] },
        map (λ e. e.1.lease) d.deferred_entries,
      )
      else (d, [])

-- ===== src/Engine/Dispatch/NoPanic.antt =====
-- engine.rs, `dispatch_loop`: the calls of `expect` in rounds, renewals and ends of attempts.
use millipede.Prelude.{
  ℕ, ◌+◌, ◌≤◌, ◌<◌, ◌≡◌, inl, inr, true, false, none, Option, some, arith, Text, ℕ_discrete,
  Option-cases, length,
}
use millipede.Prelude.Members.{contains}
use millipede.Prelude.Table
use millipede.Prelude.Table.{Table, get, insert, remove, IsMap}
use millipede.Prelude.Words.{u64_max}
use millipede.Errors.{CrawlError}
use millipede.Storage.{StorageError, StorageResult}
use millipede.Engine.{Proxy, EngineOptions}
use millipede.Engine.Completion.{Joined}
use millipede.Engine.Completion.Once.{handle_completion-Ends}
use millipede.Engine.Dispatch.{
  Dispatch, DeferredStart, Round, without, finished_in, pump, finish_attempt, start,
}
use millipede.Engine.Completion.Slots.{handle_completion-slots}
use millipede.Engine.Dispatch.Sequences.{length-without, contains-without}
use millipede.Engine.Dispatch.Invariant.{IsValid}
use millipede.Engine.Dispatch.Renewal.{
  SameKeys, renew_deferred_leases, renew_deferred_leases-SameKeys,
}
use millipede.Engine.Dispatch.Reachable.{Reach, Reach-IsSafe, start-IsSafe}
use millipede.Engine.Dispatch.Rounds.{pump-IsSafe}

module _ {proxy : Proxy} {Url Payload : Type 0} (host_str : Url → Option Text)
    (to_string : CrawlError → Text) (storage_text : StorageError → Text) where
  finish_attempt-leaves :
      (slot : ℕ) (opts : EngineOptions proxy Url Payload) (d : Dispatch proxy Url Payload)
      (joined : Joined proxy Url Payload) (answer : StorageResult (Unit {0})) (now utc : ℕ)
      → contains ℕ_discrete slot d.in_flight ≡ true
      → IsValid d
      → (d' : Dispatch proxy Url Payload) × (finish_attempt host_str to_string storage_text opts d
            slot joined answer now utc
          ≡ some d')
        × (contains ℕ_discrete slot d'.in_flight ≡ false)
        × (get ℕ_discrete slot d'.attempts.slots ≡ none)
        × (length d'.in_flight + 1 ≡ length d.in_flight)
  unfolding finish_attempt
  finish_attempt-leaves slot opts d joined answer now utc c v =
      elim (Option-cases (get ℕ_discrete slot d.attempts.slots)) [
        | inl e ↦ absurd (ground (arith, c, e, v.running slot))
        | inr (state, e) ↦
            let (settled, h, ends) =
              handle_completion-Ends host_str to_string storage_text opts d.attempts slot state
                joined answer now utc e in
            let freed =
              handle_completion-slots host_str to_string storage_text opts d.attempts slot state
                joined answer now utc settled e h in
            (
              record d {
                in_flight = without slot d.in_flight;
                attempts = settled.attempts;
                requests_finished = d.requests_finished + finished_in settled.calls;
              },
              rw (h, finish_attempt),
              ground (arith, contains-without slot slot d.in_flight v.tasks),
              ground (arith, freed, Table.get-remove ℕ_discrete slot slot d.attempts.slots),
              omega (arith, length-without slot d.in_flight c),
            )
      ]

  -- In every state that steps of the loop reach from its start, with tasks in flight or without, a round that
  -- starts deferred leases returns: the `expect` on the entry of the heap's head does not panic, whatever
  -- the pool and the clock answer. The limit is a `u64`, the start is within it, the pool desires at most
  -- `max_concurrency`, and the numbers of slots and of deferred leases stay below the end of `u64`.
  pub Reach-no_panic :
      {opts : EngineOptions proxy Url Payload} {limit max_concurrency finished : ℕ}
      {d : Dispatch proxy Url Payload}
      → limit ≤ u64_max
      → finished ≤ limit
      → Reach host_str to_string storage_text opts limit max_concurrency (start finished) d
      → (desired now started : ℕ) (domain_slot_wait : Text → ℕ) (task_token_wait : Option ℕ)
      → desired ≤ max_concurrency
      → d.next_slot < u64_max
      → (round : Round proxy Url Payload) × (pump host_str d desired domain_slot_wait
            task_token_wait now started
          ≡ some round)
  Reach-no_panic {limit = limit} {max_concurrency = m} {finished = n} {d = d} word few r desired now
        started domain token le room =
      let safe =
        Reach-IsSafe host_str to_string storage_text word
          (start-IsSafe host_str to_string storage_text limit m n few) r in
      let (round, h, s) =
        pump-IsSafe host_str limit m desired d domain token now started le room safe in
      (round, h)

  -- In every state that steps of the loop reach from its start, the end of any task in flight is handled: the
  -- `expect` on the lease of its slot does not panic, however the attempt ended and whatever the queue
  -- and the clock answer, and the task has left `in_flight`, which has one task less. The limit is a `u64`
  -- and the start is within it, and the numbers of slots and deferred leases stay below its end.
  pub Reach-finishes :
      {opts : EngineOptions proxy Url Payload} {limit max_concurrency finished : ℕ}
      {d : Dispatch proxy Url Payload}
      → limit ≤ u64_max
      → finished ≤ limit
      → Reach host_str to_string storage_text opts limit max_concurrency (start finished) d
      → (slot : ℕ) (joined : Joined proxy Url Payload) (answer : StorageResult (Unit {0}))
        (now utc : ℕ)
      → contains ℕ_discrete slot d.in_flight ≡ true
      → (d' : Dispatch proxy Url Payload) × (finish_attempt host_str to_string storage_text opts d
            slot joined answer now utc
          ≡ some d')
        × (contains ℕ_discrete slot d'.in_flight ≡ false)
        × (get ℕ_discrete slot d'.attempts.slots ≡ none)
        × (length d'.in_flight + 1 ≡ length d.in_flight)
  Reach-finishes {opts = opts} {limit = limit} {max_concurrency = m} {finished = n} {d = d} word few
        r slot joined answer now utc c =
      let safe =
        Reach-IsSafe host_str to_string storage_text word
          (start-IsSafe host_str to_string storage_text limit m n few) r in
      finish_attempt-leaves slot opts d joined answer now utc c safe.valid

  -- In every state that steps of the loop reach from its start, `renew_deferred_leases` returns whatever the
  -- queue answers: its `expect` does not panic, and as many leases are deferred as before, under the same
  -- sequence numbers. The limit is a `u64` and the start is within it, and the
  -- numbers of slots and deferred leases stay below its end. Times are unbounded.
  pub Reach-keeps_deferred :
      {opts : EngineOptions proxy Url Payload} {limit max_concurrency finished : ℕ}
      {d : Dispatch proxy Url Payload}
      → limit ≤ u64_max
      → finished ≤ limit
      → Reach host_str to_string storage_text opts limit max_concurrency (start finished) d
      → (now : ℕ) (renewal : ℕ → StorageResult (Unit {0}))
      → (after : Table ℕ (DeferredStart proxy Url Payload)) × (answer : StorageResult (Unit {0}))
        × (renew_deferred_leases d now renewal
            ≡ some (record d { deferred_entries = after }, answer))
        × SameKeys d.deferred_entries after
  Reach-keeps_deferred {limit = limit} {max_concurrency = m} {finished = n} {d = d} word few r now
        renewal =
      renew_deferred_leases-SameKeys d now renewal
        (Reach-IsSafe host_str to_string storage_text word
          (start-IsSafe host_str to_string storage_text limit m n few) r).valid.entries

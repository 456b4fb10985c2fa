-- ===== src/Tests/Dispatching.antt =====
-- The dispatch loop on one request: it is fetched and started.
use millipede.Prelude.{
  ℕ, ◌≤◌, ◌<◌, ◌≡◌, refl, true, false, List, [], ◌∷◌, Option, none, some, arith, Text, codes,
  ℕ_discrete, length, ◌+◌,
}
use millipede.Prelude.Members.{contains}
use millipede.Prelude.Table.{get, Table}
use millipede.Storage.{Lease, StorageResult}
use millipede.Engine.Dispatch.{
  Dispatch, DeferredStart, Round, round_over, round_again, start, hold, pump, may_fetch, spawn,
  finish_attempt,
}
use millipede.Engine.Dispatch.Rounds.{IsSafe}
use millipede.Engine.Dispatch.Reachable.{
  Reach, here, next, fetches, pumps, Reach-IsSafe, start-IsSafe,
}
use millipede.Engine.Dispatch.NoPanic.{Reach-no_panic, Reach-finishes, Reach-keeps_deferred}
use millipede.Engine.Dispatch.Renewal.{SameKeys, renew_deferred_leases}
use millipede.Tests.Attempts.{
  plain, host_str, to_string, storage_text, options, tried, failed_attempt, accepted,
}

abbrev before : Dispatch plain Text (Unit {0})
before = start 4

abbrev lease : Lease Text (Unit {0})
lease = record { request = tried 0 []; lease_id = 7; expires_at = 180_000_000_000 }

abbrev held : Dispatch plain Text (Unit {0})
held = hold before lease 7

abbrev running : Dispatch plain Text (Unit {0})
running = record {
  in_flight = 0 ∷ [];
  attempts = record {
    slots = (0, record { lease = lease; started = 9 }) ∷ [];
    accumulated = [];
    overrides = [];
  };
  deferred = [];
  deferred_entries = [];
  next_slot = 1;
  next_deferred = 1;
  draining = false;
  requests_finished = 4;
}

pumped : pump host_str held 2 (λ host. 0) none 8 9 ≡ some (round_again running)
unfolding pump hold millipede.Engine.Dispatch.defer millipede.Engine.Dispatch.push start
    millipede.Prelude.Table.get millipede.Prelude.Table.insert ℕ_discrete
    millipede.Engine.Dispatch.start_ready spawn millipede.Prelude.Table.remove
pumped = refl

one_started : Reach host_str to_string storage_text options 5 2 before running
unfolding start may_fetch millipede.Engine.Dispatch.request_limit_reserved hold
    millipede.Engine.Dispatch.defer
one_started =
    next (next here (fetches 2 7 lease (omega arith) refl refl))
      (pumps 2 8 9 (λ host. 0) none (round_again running) (omega arith) (omega arith) pumped refl)

Reach-IsSafe_example : IsSafe 5 2 running
Reach-IsSafe_example =
    Reach-IsSafe host_str to_string storage_text (omega arith)
      (start-IsSafe host_str to_string storage_text 5 2 4 (omega arith)) one_started

Reach-no_panic_example :
    (round : Round plain Text (Unit {0})) × (pump host_str running 2 (λ host. 5) none 10 11
      ≡ some round)
Reach-no_panic_example =
    Reach-no_panic host_str to_string storage_text {limit = 5} {finished = 4} (omega arith)
      (omega arith) one_started 2 10 11 (λ host. 5) none (omega arith) (omega arith)

Reach-finishes_example :
    (d' : Dispatch plain Text (Unit {0})) × (finish_attempt host_str to_string storage_text options
        running 0 failed_attempt accepted 10 12
      ≡ some d')
    × (contains ℕ_discrete 0 d'.in_flight ≡ false)
    × (get ℕ_discrete 0 d'.attempts.slots ≡ none)
    × (length d'.in_flight + 1 ≡ length running.in_flight)
unfolding contains ℕ_discrete
Reach-finishes_example =
    Reach-finishes host_str to_string storage_text {limit = 5} {finished = 4} (omega arith)
      (omega arith) one_started 0 failed_attempt accepted 10 12 refl

-- The request is held, and its lease is due for renewal.
one_held : Reach host_str to_string storage_text options 5 2 before held
unfolding start may_fetch millipede.Engine.Dispatch.request_limit_reserved hold
    millipede.Engine.Dispatch.defer
one_held = next here (fetches 2 7 lease (omega arith) refl refl)

Reach-keeps_deferred_example :
    (after : Table ℕ (DeferredStart plain Text (Unit {0}))) × (answer : StorageResult (Unit {0}))
    × (renew_deferred_leases held 170_000_000_000 (λ l. accepted)
        ≡ some (record held { deferred_entries = after }, answer))
    × SameKeys held.deferred_entries after
Reach-keeps_deferred_example =
    Reach-keeps_deferred host_str to_string storage_text {limit = 5} {finished = 4} (omega arith)
      (omega arith) one_held 170_000_000_000 (λ l. accepted)

abbrev held_entry : DeferredStart plain Text (Unit {0})
held_entry = record {
  lease = lease;
  carried = record { proxy_kind = none; user_agent_profile = none; backoff = none };
  domain_reserved = false;
  renew_at = 150_000_000_000;
}

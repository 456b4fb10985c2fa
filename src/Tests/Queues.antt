-- ===== src/Tests/Queues.antt =====
-- The frontier and the memory queue on three small requests.
use millipede.Prelude.{
  ℕ, ◌+◌, ◌≡◌, ◌↔◌, ◌&&◌, refl, true, false, List, [], ◌∷◌, ◌++◌, Option, none, some, arith, Text,
  codes, ℕ_discrete, text_discrete, length,
}
use millipede.Prelude.Table.{get}
use millipede.Request.{Request, unprocessed}
use millipede.Storage.{Lease, AddOptions, ok}
use millipede.Frontier
use millipede.Frontier.{DomainRoundRobin, Frontier, fifo, domain_round_robin, hosts, push_back, new}
use millipede.Frontier.Rotation.{IsValid}
use millipede.Frontier.Contents.{weigh, Takes, pop_front-Takes, weigh-push_back}
use millipede.Frontier.Fairness.{popped, popped_in_turn}
use millipede.MemoryQueue.{QueueState, with_policy, add, fetch_next, mark_handled, is_finished}
use millipede.MemoryQueue.Invariant
use millipede.MemoryQueue.Invariant.{is_handled, is_known}
use millipede.MemoryQueue.Reachable.{
  Reach, here, next, adds, fetches, with_policy-IsValid, Reach-IsValid,
}
use millipede.MemoryQueue.Dedup.{add_once}
use millipede.MemoryQueue.Leases.{marked, Refuses, consumed_lease-Refuses}
use millipede.MemoryQueue.Completion.{Gets, fetch_next-Gets, is_finished_iff}

-- The URL of a test request is its host.
abbrev host_str : Text → Option Text
host_str url = some url

abbrev request_to : Text → Text → Request Text (Unit {0})
request_to host key = record {
  id = key;
  url = host;
  loaded_url = none;
  unique_key = key;
  payload = tt;
  label = none;
  retry_count = 0;
  session_rotation_count = 0;
  max_retries = none;
  no_retry = false;
  error_messages = [];
  handled_at = none;
  state = unprocessed;
  crawl_depth = 0;
  skip_navigation = false;
}

abbrev first : Request Text (Unit {0})
first = request_to (codes "a") (codes "k1")

abbrev second : Request Text (Unit {0})
second = request_to (codes "A") (codes "k2")

abbrev third : Request Text (Unit {0})
third = request_to (codes "b") (codes "k3")

abbrev at_back : AddOptions
at_back = record { forefront = false }

abbrev empty : QueueState Text (Unit {0})
empty = with_policy domain_round_robin

abbrev one : QueueState Text (Unit {0})
one = (add host_str empty first at_back).0

abbrev two : QueueState Text (Unit {0})
two = (add host_str one second at_back).0

abbrev three : QueueState Text (Unit {0})
three = (add host_str two third at_back).0

empty-IsValid : Invariant.IsValid empty
empty-IsValid = with_policy-IsValid Text (Unit {0}) domain_round_robin

three_added : Reach host_str empty three
three_added =
    next (next (next here (adds first at_back refl)) (adds second at_back refl))
      (adds third at_back refl)

three-IsValid : Invariant.IsValid three
three-IsValid = Reach-IsValid host_str empty-IsValid three_added

Reach-IsValid_example : Invariant.IsValid three
Reach-IsValid_example = Reach-IsValid host_str empty-IsValid three_added

-- The lease of the first request, and the state that holds it.
abbrev lease : Lease Text (Unit {0})
lease = record { request = first; lease_id = 0; expires_at = 180_000_000_007 }

abbrev lent : QueueState Text (Unit {0})
lent = record {
  dedup = three.dedup;
  handled = [];
  pending = hosts (record {
    by_host = (codes "a", second ∷ []) ∷ (codes "b", third ∷ []) ∷ [];
    rotation = codes "b" ∷ codes "a" ∷ [];
  });
  in_flight = (0, record { request = first; expires_at = 180_000_000_007 }) ∷ [];
  handled_count = 0;
  next_lease_id = 1;
}

fetched : fetch_next three 7 ≡ some (lent, ok (some lease))
unfolding fetch_next add with_policy Frontier.pop_front get millipede.Prelude.Table.insert
    text_discrete push_back new Frontier.pop_host Frontier.push_back_host Frontier.host_key
    millipede.Prelude.to_ascii_lowercase
fetched = refl

first_lent : Reach host_str three lent
unfolding add get with_policy millipede.Prelude.Table.insert text_discrete
first_lent = next here (fetches 7 (ok (some lease)) (omega arith) fetched)

lent-IsValid : Invariant.IsValid lent
lent-IsValid = Reach-IsValid host_str three-IsValid first_lent

abbrev marked_state : QueueState Text (Unit {0})
marked_state = (mark_handled lent lease).0

mark_succeeds : mark_handled lent lease ≡ (marked_state, ok tt)
unfolding mark_handled get ℕ_discrete
mark_succeeds = refl

consumed_lease-Refuses_example : Refuses host_str (add host_str marked_state third at_back).0 lease
consumed_lease-Refuses_example =
    consumed_lease-Refuses host_str lease lent-IsValid (marked mark_succeeds)
      (next here (adds third at_back refl)) refl

abbrev again : Request Text (Unit {0})
again = record (request_to (codes "c") (codes "k1")) { id = codes "other" }

add_once_example :
    (id : Text) × ((add host_str empty first at_back).1
      ≡ ok (record {
        request_id = id;
        unique_key = codes "k1";
        was_already_present = is_known (codes "k1") empty;
        was_already_handled = is_known (codes "k1") empty && is_handled (codes "k1") empty;
      }))
    × (add host_str three again at_back ≡ (
      three,
      ok (record {
        request_id = id;
        unique_key = codes "k1";
        was_already_present = true;
        was_already_handled = is_handled (codes "k1") three;
      }),
    ))
add_once_example =
    add_once host_str empty three first again at_back at_back
      (next (next here (adds second at_back refl)) (adds third at_back refl)) refl

fetch_next-Gets_example : Gets three 7
unfolding add get with_policy millipede.Prelude.Table.insert text_discrete
fetch_next-Gets_example = fetch_next-Gets three 7 (omega arith) three-IsValid

is_finished_iff_example :
    (is_finished three ≡ true) ↔ ((k : Text) → is_handled k three ≡ is_known k three)
is_finished_iff_example = is_finished_iff three three-IsValid

-- The frontier of the three requests: host `a` has two of them.
abbrev by_hosts : DomainRoundRobin Text (Unit {0})
by_hosts = record {
  by_host = (codes "a", first ∷ second ∷ []) ∷ (codes "b", third ∷ []) ∷ [];
  rotation = codes "a" ∷ codes "b" ∷ [];
}

by_hosts-IsValid : IsValid by_hosts
unfolding add with_policy get millipede.Prelude.Table.insert text_discrete push_back new
    Frontier.push_back_host Frontier.host_key millipede.Prelude.to_ascii_lowercase
by_hosts-IsValid = three-IsValid.sound

popped_in_turn_example : popped 1 by_hosts ≡ some third
unfolding get text_discrete
popped_in_turn_example =
    popped_in_turn (codes "a" ∷ []) [] (codes "b") third [] by_hosts by_hosts-IsValid refl refl

pop_front-Takes_example : Takes (hosts by_hosts)
pop_front-Takes_example = pop_front-Takes (hosts by_hosts) by_hosts-IsValid

weigh-push_back_example :
    weigh (λ r. 1) (push_back host_str first (hosts by_hosts)) ≡ weigh (λ r. 1) (hosts by_hosts) + 1
weigh-push_back_example = weigh-push_back host_str (λ r. 1) first (hosts by_hosts)

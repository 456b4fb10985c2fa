-- ===== src/Engine/Dispatch/Invariant.antt =====
-- engine.rs, `dispatch_loop`: the limits on requests and concurrency, and the facts that
-- the `expect` calls rest on.
use millipede.Prelude.{
  ℕ, ◌+◌, ◌≤◌, ◌<◌, ◌≡◌, Bool, true, List, ◌∷◌, Option, none, some, arith, ℕ_discrete, length,
}
use millipede.Prelude.Members.{contains, Distinct}
use millipede.Prelude.Table
use millipede.Prelude.Table.{get, insert, remove, IsMap}
use millipede.Prelude.Words.{u64_max, u64_inc_exact}
use millipede.Storage.{Lease}
use millipede.Frontier.Rotation.{is_some}
use millipede.Engine.{Proxy}
use millipede.Engine.Completion.{SlotState}
use millipede.Engine.Dispatch.{
  Dispatch, DeferredStart, defer, spawn, may_fetch, request_limit_reserved, hold, begin_round,
  deferred_cap_of,
}
use millipede.Engine.Dispatch.Sequences.{sequences, contains-push, push-Distinct}

module _ {proxy : Proxy} {Url Payload : Type 0} where
  pub record IsValid (d : Dispatch proxy Url Payload) : Type 0 where
    -- the heap and the table hold the same sequence numbers, each once
    pub queued :
        (i : ℕ)
        → contains ℕ_discrete i (sequences d.deferred)
          ≡ is_some (get ℕ_discrete i d.deferred_entries)
    pub distinct : Distinct ℕ_discrete (sequences d.deferred)
    pub entries : IsMap ℕ_discrete d.deferred_entries
    pub fresh_entries : (i : ℕ) → d.next_deferred ≤ i → get ℕ_discrete i d.deferred_entries ≡ none
    -- each task in flight has a slot, each slot a task
    pub running :
        (i : ℕ) → contains ℕ_discrete i d.in_flight ≡ is_some (get ℕ_discrete i d.attempts.slots)
    pub tasks : Distinct ℕ_discrete d.in_flight
    pub fresh_slots : (i : ℕ) → d.next_slot ≤ i → get ℕ_discrete i d.attempts.slots ≡ none

  -- The finished requests with those that are in flight or deferred stay within the limit.
  pub record Within (limit max_concurrency : ℕ) (d : Dispatch proxy Url Payload) : Type 0 where
    pub total : d.requests_finished + length d.in_flight + length d.deferred_entries ≤ limit
    pub in_flight : length d.in_flight ≤ max_concurrency
    pub deferred : length d.deferred_entries ≤ deferred_cap_of max_concurrency

  pub defer-IsValid :
      (d : Dispatch proxy Url Payload) (ready_at sequence : ℕ)
      (entry : DeferredStart proxy Url Payload)
      → get ℕ_discrete sequence d.deferred_entries ≡ none
      → sequence < d.next_deferred
      → IsValid d
      → IsValid (defer d ready_at sequence entry)
  unfolding defer
  defer-IsValid d ready_at sequence entry free old v = record {
    queued = λ i. ground (
      arith,
      v.queued i,
      contains-push i ready_at sequence d.deferred,
      Table.get-insert ℕ_discrete sequence i entry d.deferred_entries,
    );
    distinct =
        push-Distinct ready_at sequence d.deferred (ground (arith, v.queued sequence)) v.distinct;
    entries = Table.insert-IsMap ℕ_discrete sequence entry d.deferred_entries v.entries;
    fresh_entries = λ i le.
        ground (
          arith,
          v.fresh_entries i,
          Table.get-insert ℕ_discrete sequence i entry d.deferred_entries,
        );
    running = v.running;
    tasks = v.tasks;
    fresh_slots = v.fresh_slots;
  }

  pub spawn-IsValid :
      (d : Dispatch proxy Url Payload) (entry : DeferredStart proxy Url Payload) (started : ℕ)
      → d.next_slot < u64_max
      → IsValid d
      → IsValid (spawn d entry started)
  unfolding spawn contains
  spawn-IsValid d entry started room v =
      let s : SlotState Url Payload = record { lease = entry.lease; started = started } in
      let free : get ℕ_discrete d.next_slot d.attempts.slots ≡ none =
        v.fresh_slots d.next_slot (omega arith) in
      record {
        queued = v.queued;
        distinct = v.distinct;
        entries = v.entries;
        fresh_entries = v.fresh_entries;
        running = λ i.
            ground
              (arith, v.running i, Table.get-insert ℕ_discrete d.next_slot i s d.attempts.slots);
        tasks = (ground (arith, free, v.running d.next_slot), v.tasks);
        fresh_slots = λ i le. ground (
          arith,
          v.fresh_slots i,
          u64_inc_exact d.next_slot room,
          Table.get-insert ℕ_discrete d.next_slot i s d.attempts.slots,
        );
      }

  -- The entry at the head of the heap, taken out.
  abbrev pub taken : Dispatch proxy Url Payload → ℕ → List (ℕ × ℕ) → Dispatch proxy Url Payload
  taken d sequence heap = record d {
    deferred = heap;
    deferred_entries = remove ℕ_discrete sequence d.deferred_entries;
  }

  pub taken-IsValid :
      (d : Dispatch proxy Url Payload) (ready_at sequence : ℕ) (heap : List (ℕ × ℕ))
      → d.deferred ≡ (ready_at, sequence) ∷ heap
      → IsValid d
      → IsValid (taken d sequence heap)
  unfolding contains
  taken-IsValid d ready_at sequence heap e v = record {
    queued = λ i.
        ground (
          arith,
          v.queued i,
          v.distinct,
          Table.get-remove ℕ_discrete sequence i d.deferred_entries,
        );
    distinct = ground (arith, v.distinct);
    entries = Table.remove-IsMap ℕ_discrete sequence d.deferred_entries v.entries;
    fresh_entries = λ i le.
        ground
          (arith, v.fresh_entries i, Table.get-remove ℕ_discrete sequence i d.deferred_entries);
    running = v.running;
    tasks = v.tasks;
    fresh_slots = v.fresh_slots;
  }

  -- `hold` gives the entry the next sequence number.
  pub hold-IsValid :
      (d : Dispatch proxy Url Payload) (lease : Lease Url Payload) (now : ℕ)
      → d.next_deferred < u64_max
      → IsValid d
      → IsValid (hold d lease now)
  unfolding hold
  hold-IsValid d lease now room v =
      defer-IsValid _ _ d.next_deferred _ (v.fresh_entries d.next_deferred (omega arith))
        (omega (arith, u64_inc_exact d.next_deferred room))
        (record {
          queued = v.queued;
          distinct = v.distinct;
          entries = v.entries;
          fresh_entries =
              λ i le. v.fresh_entries i (omega (arith, u64_inc_exact d.next_deferred room));
          running = v.running;
          tasks = v.tasks;
          fresh_slots = v.fresh_slots;
        })

  pub hold-Within :
      (limit desired max_concurrency : ℕ) (d : Dispatch proxy Url Payload)
      (lease : Lease Url Payload) (now : ℕ)
      → limit ≤ u64_max
      → IsValid d
      → may_fetch (some limit) desired (deferred_cap_of max_concurrency) d ≡ true
      → Within limit max_concurrency d
      → Within limit max_concurrency (hold d lease now)
  unfolding hold defer may_fetch request_limit_reserved
  hold-Within limit desired max_concurrency d lease now word v may w =
      let one_more : length (hold d lease now).deferred_entries ≡ length d.deferred_entries + 1 =
        Table.length-insert_absent ℕ_discrete d.next_deferred _ d.deferred_entries
          (v.fresh_entries d.next_deferred (omega arith)) in
      ground (arith, one_more, w)

  pub begin_round-IsValid :
      (drain : Bool) (limit : Option ℕ) (d : Dispatch proxy Url Payload)
      → IsValid d
      → IsValid (begin_round drain limit d).0
  unfolding begin_round contains get
  begin_round-IsValid drain limit d v = ground (arith, v)

  pub begin_round-Within :
      (drain : Bool) (o : Option ℕ) (limit max_concurrency : ℕ) (d : Dispatch proxy Url Payload)
      → Within limit max_concurrency d
      → Within limit max_concurrency (begin_round drain o d).0
  unfolding begin_round
  begin_round-Within drain o limit max_concurrency d w = ground (arith, w)

-- ===== src/Engine/Dispatch/Reachable.antt =====
-- engine.rs, `dispatch_loop`: the states that its steps reach, in any order. The counters are below the
-- end of their `u64`.
use millipede.Prelude.{
  ℕ, ◌+◌, ◌≤◌, ◌<◌, ◌≡◌, refl, sym, ◌∙◌, inl, inr, Bool, true, Option, some, arith, Text,
  ℕ_discrete, Option-cases, length, ap, subst,
}
use millipede.Prelude.Members.{contains}
use millipede.Prelude.Table
use millipede.Prelude.Table.{Table, get, insert, remove, IsMap}
use millipede.Prelude.Words.{u64_max}
use millipede.Errors.{CrawlError}
use millipede.Storage
use millipede.Storage.{Lease, StorageError, StorageResult}
use millipede.Engine.{Proxy, EngineOptions}
use millipede.Engine.Completion.{Attempts, Joined, Settled}
use millipede.Engine.Completion.Once.{Ends, handle_completion-Ends}
use millipede.Engine.Dispatch.{
  Dispatch, DeferredStart, Round, without, finished_in, pump, finish_attempt, may_fetch, hold,
  begin_round, start, deferred_cap_of,
}
use millipede.Engine.Completion.Slots.{handle_completion-slots}
use millipede.Engine.Dispatch.Sequences.{
  length-without, contains-without, without-Distinct, finished_in-le, marked-le,
}
use millipede.Engine.Dispatch.Invariant.{
  hold-IsValid, hold-Within, begin_round-IsValid, begin_round-Within,
}
use millipede.Engine.Dispatch.Renewal.{
  SameKeys, renew_deferred_leases, renew_deferred_leases-SameKeys,
}
use millipede.Engine.Dispatch.Rounds.{IsSafe, after, pump-IsSafe}

module _ {proxy : Proxy} {Url Payload : Type 0} (host_str : Url → Option Text)
    (to_string : CrawlError → Text) (storage_text : StorageError → Text) where
  finished_in-once :
      (id : ℕ) (critical : Bool) (answer : StorageResult (Unit {0}))
      (settled : Settled proxy Url Payload)
      → Ends host_str to_string storage_text id critical answer settled
      → finished_in settled.calls ≤ 1
  finished_in-once id critical (Storage.ok x) settled h = omega (
    arith,
    finished_in-le settled.calls,
    marked-le settled.calls,
    h.counted refl,
    ap length h.once,
  )
  finished_in-once id critical (Storage.err e) settled h =
      omega (arith, finished_in-le settled.calls, h.uncounted e refl)

  left-IsSafe :
      (limit max_concurrency slot : ℕ) (d : Dispatch proxy Url Payload)
      (attempts : Attempts proxy Url Payload) (n : ℕ)
      → contains ℕ_discrete slot d.in_flight ≡ true
      → attempts.slots ≡ remove ℕ_discrete slot d.attempts.slots
      → n ≤ 1
      → IsSafe limit max_concurrency d
      → IsSafe limit max_concurrency (record d {
        in_flight = without slot d.in_flight;
        attempts = attempts;
        requests_finished = d.requests_finished + n;
      })
  left-IsSafe limit max_concurrency slot d attempts n c e one s =
      let one_less = length-without slot d.in_flight c in
      record {
        valid = record {
          queued = s.valid.queued;
          distinct = s.valid.distinct;
          entries = s.valid.entries;
          fresh_entries = s.valid.fresh_entries;
          running = λ i. ground (
            arith,
            e,
            s.valid.running i,
            contains-without slot i d.in_flight s.valid.tasks,
            Table.get-remove ℕ_discrete slot i d.attempts.slots,
          );
          tasks = without-Distinct slot d.in_flight s.valid.tasks;
          fresh_slots = λ i le. ground (
            arith,
            e,
            s.valid.fresh_slots i le,
            Table.get-remove ℕ_discrete slot i d.attempts.slots,
          );
        };
        within = record {
          total = omega (arith, one_less, s.within.total);
          in_flight = omega (arith, one_less, s.within.in_flight);
          deferred = s.within.deferred;
        };
      }

  finish_attempt-IsSafe :
      (limit max_concurrency slot : ℕ) (opts : EngineOptions proxy Url Payload)
      (d : Dispatch proxy Url Payload) (joined : Joined proxy Url Payload)
      (answer : StorageResult (Unit {0})) (now utc : ℕ)
      → contains ℕ_discrete slot d.in_flight ≡ true
      → IsSafe limit max_concurrency d
      → (d' : Dispatch proxy Url Payload) × (finish_attempt host_str to_string storage_text opts d
            slot joined answer now utc
          ≡ some d')
        × IsSafe limit max_concurrency d'
  unfolding finish_attempt
  finish_attempt-IsSafe limit max_concurrency slot opts d joined answer now utc c s =
      elim (Option-cases (get ℕ_discrete slot d.attempts.slots)) [
        | inl e ↦ absurd (ground (arith, c, e, s.valid.running slot))
        | inr (state, e) ↦
            let (settled, h, ends) =
              handle_completion-Ends host_str to_string storage_text opts d.attempts slot state
                joined answer now utc e in
            (
              _,
              rw (h, finish_attempt),
              left-IsSafe limit max_concurrency slot d settled.attempts (finished_in settled.calls)
                  c
                  (handle_completion-slots host_str to_string storage_text opts d.attempts slot
                    state joined answer now utc settled e h)
                  (finished_in-once _ _ answer settled ends) s,
            )
      ]

  renewed-IsSafe :
      (limit max_concurrency : ℕ) (d : Dispatch proxy Url Payload)
      (after : Table ℕ (DeferredStart proxy Url Payload))
      → SameKeys d.deferred_entries after
      → IsSafe limit max_concurrency d
      → IsSafe limit max_concurrency (record d { deferred_entries = after })
  renewed-IsSafe limit max_concurrency d after k s = record {
    valid = record {
      queued = λ i. ground (arith, s.valid.queued i, k.present i);
      distinct = s.valid.distinct;
      entries = k.apart;
      fresh_entries = λ i le. ground (arith, s.valid.fresh_entries i le, k.present i);
      running = s.valid.running;
      tasks = s.valid.tasks;
      fresh_slots = s.valid.fresh_slots;
    };
    within = record {
      total = omega (arith, k.many, s.within.total);
      in_flight = s.within.in_flight;
      deferred = omega (arith, k.many, s.within.deferred);
    };
  }

  -- One step of the loop. The pool's answers, the queue's and the clock's are any; only what the pool
  -- desires is at most `max_concurrency`.
  pub data Step (opts : EngineOptions proxy Url Payload) (limit max_concurrency : ℕ)
      (d d' : Dispatch proxy Url Payload) : Type 0 where
    begins_round :
        (drain_requested : Bool)
        → d' ≡ (begin_round drain_requested (some limit) d).0
        → Step opts limit max_concurrency d d'
    pumps :
        (desired now started : ℕ) (domain_slot_wait : Text → ℕ) (task_token_wait : Option ℕ)
        (round : Round proxy Url Payload)
        → desired ≤ max_concurrency
        → d.next_slot < u64_max
        → pump host_str d desired domain_slot_wait task_token_wait now started ≡ some round
        → d' ≡ after round
        → Step opts limit max_concurrency d d'
    fetches :
        (desired now : ℕ) (lease : Lease Url Payload)
        → d.next_deferred < u64_max
        → may_fetch (some limit) desired (deferred_cap_of max_concurrency) d ≡ true
        → d' ≡ hold d lease now
        → Step opts limit max_concurrency d d'
    renews :
        (now : ℕ) (renewal : ℕ → StorageResult (Unit {0})) (answer : StorageResult (Unit {0}))
        → renew_deferred_leases d now renewal ≡ some (d', answer)
        → Step opts limit max_concurrency d d'
    finishes :
        (slot : ℕ) (joined : Joined proxy Url Payload) (answer : StorageResult (Unit {0}))
        (now utc : ℕ)
        → contains ℕ_discrete slot d.in_flight ≡ true
        → finish_attempt host_str to_string storage_text opts d slot joined answer now utc ≡ some d'
        → Step opts limit max_concurrency d d'

  pub data Reach (opts : EngineOptions proxy Url Payload) (limit max_concurrency : ℕ)
      (d : Dispatch proxy Url Payload) : Dispatch proxy Url Payload → Type 0 where
    here : Reach opts limit max_concurrency d d
    next :
        {e f : Dispatch proxy Url Payload}
        → Reach opts limit max_concurrency d e
        → Step opts limit max_concurrency e f
        → Reach opts limit max_concurrency d f

  Step-IsSafe :
      {opts : EngineOptions proxy Url Payload} {limit max_concurrency : ℕ}
      {d d' : Dispatch proxy Url Payload}
      → limit ≤ u64_max
      → IsSafe limit max_concurrency d
      → Step opts limit max_concurrency d d'
      → IsSafe limit max_concurrency d'
  Step-IsSafe {limit = limit} {max_concurrency = m} {d = d} word s (begins_round drain e) =
      subst (IsSafe limit m) (sym e) (record {
        valid = begin_round-IsValid drain (some limit) d s.valid;
        within = begin_round-Within drain (some limit) limit m d s.within;
      })
  Step-IsSafe {limit = limit} {max_concurrency = m} {d = d} word s
        (pumps desired now started domain token round le room h e) =
      let (round', h', safe) =
        pump-IsSafe host_str limit m desired d domain token now started le room s in
      let same : round' ≡ round = cc in subst (IsSafe limit m) (ap after same ∙ sym e) safe
  Step-IsSafe {limit = limit} {max_concurrency = m} {d = d} word s
        (fetches desired now lease room may e) =
      subst (IsSafe limit m) (sym e) (record {
        valid = hold-IsValid d lease now room s.valid;
        within = hold-Within limit desired m d lease now word s.valid may s.within;
      })
  Step-IsSafe {limit = limit} {max_concurrency = m} {d = d} word s (renews now renewal answer h) =
      let (after, answer', h', same) =
        renew_deferred_leases-SameKeys d now renewal s.valid.entries in
      subst (IsSafe limit m) (cc) (renewed-IsSafe limit m d after same s)
  Step-IsSafe {opts = opts} {limit = limit} {max_concurrency = m} {d = d} word s
        (finishes slot joined answer now utc c h) =
      let (d'', h', safe) = finish_attempt-IsSafe limit m slot opts d joined answer now utc c s in
      subst (IsSafe limit m) (cc) safe

  -- In every state that steps of the dispatch loop lead to from a safe one, the successfully finished
  -- requests together with those in flight and those deferred are at most `max_requests_per_crawl`, at most
  -- `max_concurrency` requests are in flight, and at most the greater of that and 32 are deferred. The
  -- heap and the table of deferred requests agree, as do the tasks and their slots. The limit is a `u64`,
  -- and the pool never desires more than `max_concurrency`.
  pub Reach-IsSafe :
      {opts : EngineOptions proxy Url Payload} {limit max_concurrency : ℕ}
      {d d' : Dispatch proxy Url Payload}
      → limit ≤ u64_max
      → IsSafe limit max_concurrency d
      → Reach opts limit max_concurrency d d'
      → IsSafe limit max_concurrency d'
  Reach-IsSafe word s here = s
  Reach-IsSafe word s (next r st) = Step-IsSafe word (Reach-IsSafe word s r) st

  -- The loop starts empty.
  pub start-IsSafe :
      (limit max_concurrency finished : ℕ)
      → finished ≤ limit
      → IsSafe {proxy = proxy} {Url = Url} {Payload = Payload} limit max_concurrency
          (start finished)
  unfolding start contains get
  start-IsSafe limit max_concurrency finished h = record {
    valid = record {
      queued = λ i. refl;
      distinct = tt;
      entries = tt;
      fresh_entries = λ i le. refl;
      running = λ i. refl;
      tasks = tt;
      fresh_slots = λ i le. refl;
    };
    within = record { total = omega arith; in_flight = omega arith; deferred = omega arith };
  }

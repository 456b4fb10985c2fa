-- ===== src/Engine/Dispatch/Rounds.antt =====
-- engine.rs, `dispatch_loop`: the round that starts a deferred lease finds its entry and keeps the limits.
use millipede.Prelude.{
  ℕ, ◌+◌, ◌≤◌, ◌<◌, ◌≡◌, refl, inl, inr, ◌||◌, List, [], ◌∷◌, Option, none, some, arith, Text,
  ℕ_discrete, Bool-cases, Option-cases, length, ltb, leb, dec_lt,
}
use millipede.Prelude.Members.{contains}
use millipede.Prelude.Table
use millipede.Prelude.Table.{get, insert, remove, IsMap}
use millipede.Prelude.Words.{u64_max}
use millipede.Engine.{Proxy}
use millipede.Engine.Dispatch.{
  Dispatch, DeferredStart, Round, round_over, round_again, defer, spawn, start_ready,
  domain_wait_of, pump, deferred_cap_of,
}
use millipede.Engine.Dispatch.Invariant.{
  IsValid, Within, defer-IsValid, spawn-IsValid, taken, taken-IsValid,
}

module _ {proxy : Proxy} {Url Payload : Type 0} where
  pub record IsSafe (limit max_concurrency : ℕ) (d : Dispatch proxy Url Payload) : Type 0 where
    pub valid : IsValid d
    pub within : Within limit max_concurrency d

  abbrev pub after : Round proxy Url Payload → Dispatch proxy Url Payload
  after (round_over d) = d
  after (round_again d) = d

  -- Room for the entry that was taken out, wherever it goes.
  record HasRoom (limit max_concurrency sequence : ℕ) (d : Dispatch proxy Url Payload)
      : Type 0 where
    valid : IsValid d
    free : get ℕ_discrete sequence d.deferred_entries ≡ none
    old : sequence < d.next_deferred
    total : d.requests_finished + length d.in_flight + length d.deferred_entries < limit
    in_flight : length d.in_flight < max_concurrency
    deferred : length d.deferred_entries < deferred_cap_of max_concurrency

  defer-IsSafe :
      (limit max_concurrency : ℕ) (d : Dispatch proxy Url Payload) (ready_at sequence : ℕ)
      (entry : DeferredStart proxy Url Payload)
      → HasRoom limit max_concurrency sequence d
      → IsSafe limit max_concurrency (defer d ready_at sequence entry)
  defer-IsSafe limit max_concurrency d ready_at sequence entry h = record {
    valid = defer-IsValid d ready_at sequence entry h.free h.old h.valid;
    within =
        unfold defer in
        let one_more =
          Table.length-insert_absent ℕ_discrete sequence entry d.deferred_entries h.free in
        record {
          total = omega (arith, one_more, h.total);
          in_flight = omega (arith, h.in_flight);
          deferred = omega (arith, one_more, h.deferred);
        };
  }

  spawn-IsSafe :
      (limit max_concurrency sequence : ℕ) (d : Dispatch proxy Url Payload)
      (entry : DeferredStart proxy Url Payload) (started : ℕ)
      → d.next_slot < u64_max
      → HasRoom limit max_concurrency sequence d
      → IsSafe limit max_concurrency (spawn d entry started)
  unfolding spawn
  spawn-IsSafe limit max_concurrency sequence d entry started room h = record {
    valid = spawn-IsValid d entry started room h.valid;
    within = record {
      total = omega (arith, h.total);
      in_flight = omega (arith, h.in_flight);
      deferred = omega (arith, h.deferred);
    };
  }

module _ {proxy : Proxy} {Url Payload : Type 0} (host_str : Url → Option Text) where
  start_ready-IsSafe :
      (limit max_concurrency sequence : ℕ) (d : Dispatch proxy Url Payload)
      (entry : DeferredStart proxy Url Payload) (domain_slot_wait : Text → ℕ)
      (task_token_wait : Option ℕ) (now started : ℕ)
      → d.next_slot < u64_max
      → HasRoom limit max_concurrency sequence d
      → IsSafe limit max_concurrency (
          after
            (start_ready host_str d sequence entry domain_slot_wait task_token_wait now started))
  unfolding start_ready
  start_ready-IsSafe limit max_concurrency sequence d entry domain_slot_wait task_token_wait now
        started room h =
      elim (Bool-cases (ltb 0 (domain_wait_of host_str domain_slot_wait entry))) [
        | inl e ↦ rw (e, start_ready) (defer-IsSafe limit max_concurrency d _ sequence _ h)
        | inr e ↦ elim (Option-cases task_token_wait) [
          | inl n ↦
              rw (e, n, start_ready)
                (spawn-IsSafe limit max_concurrency sequence d _ started room h)
          | inr (w, n) ↦
              rw (e, n, start_ready) (defer-IsSafe limit max_concurrency d _ sequence _ h)
        ]
      ]

  -- Room is made by taking an entry out.
  taken-HasRoom :
      (limit max_concurrency desired ready_at sequence : ℕ) (heap : List (ℕ × ℕ))
      (d : Dispatch proxy Url Payload) (entry : DeferredStart proxy Url Payload)
      → desired ≤ max_concurrency
      → length d.in_flight < desired
      → d.deferred ≡ (ready_at, sequence) ∷ heap
      → get ℕ_discrete sequence d.deferred_entries ≡ some entry
      → IsSafe limit max_concurrency d
      → HasRoom limit max_concurrency sequence (taken d sequence heap)
  taken-HasRoom limit max_concurrency desired ready_at sequence heap d entry m l e g s =
      let one_less =
        Table.length-remove_present ℕ_discrete sequence entry d.deferred_entries s.valid.entries
          g in
      record {
        valid = taken-IsValid d ready_at sequence heap e s.valid;
        free = Table.get-remove_self ℕ_discrete sequence d.deferred_entries;
        old = elim (dec_lt sequence d.next_deferred) [
          | yes h ↦ h
          | no h ↦ absurd (ground (arith, g, s.valid.fresh_entries sequence (omega arith)))
        ];
        total = omega (arith, one_less, s.within.total);
        in_flight = omega arith;
        deferred = omega (arith, one_less, s.within.deferred);
      }

  pub pump-IsSafe :
      (limit max_concurrency desired : ℕ) (d : Dispatch proxy Url Payload)
      (domain_slot_wait : Text → ℕ) (task_token_wait : Option ℕ) (now started : ℕ)
      → desired ≤ max_concurrency
      → d.next_slot < u64_max
      → IsSafe limit max_concurrency d
      → (round : Round proxy Url Payload) × (pump host_str d desired domain_slot_wait
            task_token_wait now started
          ≡ some round)
        × IsSafe limit max_concurrency (after round)
  unfolding pump contains
  pump-IsSafe limit max_concurrency desired d domain_slot_wait task_token_wait now started m room
        s =
      from d.deferred refl
    where
      from :
          (l : List (ℕ × ℕ))
          → d.deferred ≡ l
          → (round : Round proxy Url Payload) × (pump host_str d desired domain_slot_wait
                task_token_wait now started
              ≡ some round)
            × IsSafe limit max_concurrency (after round)
      from [] e = (round_over d, ground (arith, e), s)
      from ((ready_at, sequence) ∷ heap) e =
          elim (Bool-cases (ltb now ready_at || leb desired (length d.in_flight))) [
            | inl b ↦ (round_over d, ground (arith, e, b), s)
            | inr b ↦ elim (Option-cases (get ℕ_discrete sequence d.deferred_entries)) [
              | inl g ↦ absurd (ground (arith, g, e, s.valid.queued sequence))
              | inr (entry, g) ↦ (
                start_ready host_str (taken d sequence heap) sequence entry domain_slot_wait
                    task_token_wait now started,
                ground (arith, e, b, g),
                start_ready-IsSafe limit max_concurrency sequence (taken d sequence heap) entry
                    domain_slot_wait task_token_wait now started room
                    (taken-HasRoom limit max_concurrency desired ready_at sequence heap d entry m
                      (ground (arith, b)) e g s),
              )
            ]
          ]

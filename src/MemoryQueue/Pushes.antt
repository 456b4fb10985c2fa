-- ===== src/MemoryQueue/Pushes.antt =====
-- queue.rs (memory): the operations that put a request into the frontier keep account of each key.
use millipede.Prelude.{
  ℕ, ◌+◌, ◌≡◌, inl, inr, Bool, true, false, List, [], ◌∷◌, Option, some, arith, Text, text_discrete,
  ℕ_discrete, Option-cases,
}
use millipede.Prelude.Table
use millipede.Prelude.Table.{get, insert, remove, total, IsMap}
use millipede.Request.{Request}
use millipede.Storage.{Lease, AddOptions, ReclaimOptions, RequestSource}
use millipede.Frontier.Contents.{
  IsSound, push_back-IsSound, push_front-IsSound, weigh-push_back, weigh-push_front,
}
use millipede.MemoryQueue.{LeasedRequest, QueueState, push, add_locked, add_all, reclaim, abandon}
use millipede.MemoryQueue.Invariant.{IsValid, Honest, is_key, leased_key, pending_of}

module _ {Url Payload : Type 0} (host_str : Url → Option Text) where
  push-IsSound :
      (forefront : Bool) (r : Request Url Payload) (s : QueueState Url Payload)
      → IsSound s.pending
      → IsSound (push host_str forefront r s).pending
  push-IsSound true r s h = push_front-IsSound host_str r s.pending h
  push-IsSound false r s h = push_back-IsSound host_str r s.pending h

  pending_of-push :
      (k : Text) (forefront : Bool) (r : Request Url Payload) (s : QueueState Url Payload)
      → pending_of k (push host_str forefront r s) ≡ pending_of k s + is_key k r
  pending_of-push k true r s = weigh-push_front host_str (is_key k) r s.pending
  pending_of-push k false r s = weigh-push_back host_str (is_key k) r s.pending

  pub add_locked-IsValid :
      (s : QueueState Url Payload) (r : Request Url Payload) (opts : AddOptions)
      → IsValid s
      → IsValid (add_locked host_str s r opts).0
  unfolding add_locked is_key
  add_locked-IsValid s r opts v = elim (Option-cases (get text_discrete r.unique_key s.dedup)) [
    | inr (id, e) ↦ rw (e, add_locked) v
    | inl e ↦
        let t : QueueState Url Payload = record s {
          dedup = insert text_discrete r.unique_key r.id s.dedup;
        } in
        rw (e, add_locked)
          (record {
            sound = push-IsSound opts.forefront r t v.sound;
            leases = v.leases;
            fresh = v.fresh;
            placed = λ k. ground (
              arith,
              v.placed k,
              e,
              pending_of-push k opts.forefront r t,
              Table.get-insert text_discrete r.unique_key k r.id s.dedup,
            );
            counted = v.counted;
          })
  ]

  -- A lease that is given back: its request goes to the frontier under the same key.
  return-IsValid :
      (s : QueueState Url Payload) (id : ℕ) (forefront : Bool) (r : Request Url Payload)
      (l : LeasedRequest Url Payload)
      → get ℕ_discrete id s.in_flight ≡ some l
      → r.unique_key ≡ l.request.unique_key
      → IsValid s
      → IsValid
          (push host_str forefront r (record s { in_flight = remove ℕ_discrete id s.in_flight }))
  unfolding is_key
  return-IsValid s id forefront r l e same v =
      let t : QueueState Url Payload = record s { in_flight = remove ℕ_discrete id s.in_flight } in
      record {
        sound = push-IsSound forefront r t v.sound;
        leases = Table.remove-IsMap ℕ_discrete id s.in_flight v.leases;
        fresh = λ i le. ground (arith, v.fresh i, Table.get-remove ℕ_discrete id i s.in_flight);
        placed = λ k. ground (
          arith,
          v.placed k,
          pending_of-push k forefront r t,
          Table.total-remove_present ℕ_discrete (leased_key k) id l s.in_flight v.leases e,
        );
        counted = v.counted;
      }

  pub reclaim-IsValid :
      (s : QueueState Url Payload) (lease : Lease Url Payload) (opts : ReclaimOptions)
      → Honest s lease
      → IsValid s
      → IsValid (reclaim host_str s lease opts).0
  unfolding reclaim
  reclaim-IsValid s lease opts honest v =
      elim (Option-cases (get ℕ_discrete lease.lease_id s.in_flight)) [
        | inl e ↦ rw (e, reclaim) v
        | inr (l, e) ↦
            rw (e, reclaim) (return-IsValid s lease.lease_id opts.forefront _ l e (honest l e) v)
      ]

  pub abandon-IsValid :
      (s : QueueState Url Payload) (lease : Lease Url Payload)
      → Honest s lease
      → IsValid s
      → IsValid (abandon host_str s lease).0
  unfolding abandon
  abandon-IsValid s lease honest v =
      elim (Option-cases (get ℕ_discrete lease.lease_id s.in_flight)) [
        | inl e ↦ rw (e, abandon) v
        | inr (l, e) ↦
            rw (e, abandon) (return-IsValid s lease.lease_id true lease.request l e (honest l e) v)
      ]

  pub add_all-IsValid :
      (s : QueueState Url Payload) (sources : List (RequestSource Url Payload)) (opts : AddOptions)
      → IsValid s
      → IsValid (add_all host_str s sources opts).0
  unfolding add_all
  add_all-IsValid s [] opts v = v
  add_all-IsValid s (RequestSource.request r ∷ sources) opts v =
      add_all-IsValid (add_locked host_str s r opts).0 sources opts (add_locked-IsValid s r opts v)

-- ===== src/MemoryQueue/Completion.antt =====
-- queue.rs (memory): what `fetch_next` hands out, and what `is_finished` means.
use millipede.Prelude.{
  ℕ, ◌+◌, ◌<◌, ◌≡◌, refl, ◌↔◌, true, false, [], ◌∷◌, none, some, arith, Text, ℕ_discrete,
}
use millipede.Prelude.Table
use millipede.Prelude.Table.{Table, get, insert, total}
use millipede.Prelude.Words.{u64_max}
use millipede.Storage.{Lease, ok}
use millipede.Frontier
use millipede.Frontier.{Frontier, is_nil}
use millipede.Frontier.Contents.{weigh-empty, Takes, dry, taken, pop_front-Takes}
use millipede.MemoryQueue.{LeasedRequest, QueueState, fetch_next, lend, is_finished, lease_ttl}
use millipede.MemoryQueue.Invariant.{
  IsValid, Fetches, nothing, lent, is_known, is_handled, is_key, pending_of, leased_of, leased_key,
  fetch_next-Fetches,
}

module _ {Url Payload : Type 0} where
  -- What a worker gets: nothing if nothing is pending, and otherwise a lease of its own.
  pub data Gets (s : QueueState Url Payload) (now : ℕ) : Type 0 where
    nothing_pending :
        Frontier.is_empty s.pending ≡ true → fetch_next s now ≡ some (s, ok none) → Gets s now
    leased :
        (t : QueueState Url Payload) (lease : Lease Url Payload)
        → Frontier.is_empty s.pending ≡ false
        → fetch_next s now ≡ some (t, ok (some lease))
        → get ℕ_discrete lease.lease_id s.in_flight ≡ none
        → get ℕ_discrete lease.lease_id t.in_flight
          ≡ some (record { request = lease.request; expires_at = lease.expires_at })
        → lease.expires_at ≡ now + lease_ttl
        → is_handled lease.request.unique_key t ≡ false
        → pending_of lease.request.unique_key t ≡ 0
        → leased_of lease.request.unique_key s ≡ 0
        → leased_of lease.request.unique_key t ≡ 1
        → Gets s now

  -- On a valid queue, whose next lease identifier is below the end of `u64`, `fetch_next` does not
  -- panic, and it returns nothing exactly when nothing is pending.
  -- Otherwise it returns a lease under an identifier that was free, for 180 seconds, of a request
  -- whose key is not handled, was not leased, is now leased once, and is no longer pending.
  pub fetch_next-Gets :
      (s : QueueState Url Payload) (now : ℕ) → s.next_lease_id < u64_max → IsValid s → Gets s now
  unfolding lend is_key
  fetch_next-Gets s now room v = from (fetch_next-Fetches s now room v)
    where
      from : Fetches s now → Gets s now
      from (nothing e p) = nothing_pending e p
      from (lent r f e p v' m) =
          let l : LeasedRequest Url Payload = record {
            request = r;
            expires_at = now + lease_ttl;
          } in
          let key = r.unique_key in
          let before = v.placed key in
          let after = v'.placed key in
          let moved = m (is_key key) in
          let free = v.fresh s.next_lease_id (omega arith) in
          let added =
            Table.total-insert_absent ℕ_discrete (leased_key key) s.next_lease_id l s.in_flight
              free in
          leased (lend s now (some r) f).0
            (record { request = r; lease_id = s.next_lease_id; expires_at = now + lease_ttl }) e p
            free (Table.get-insert_self ℕ_discrete s.next_lease_id l s.in_flight) refl
            (ground arith) (ground arith) (ground arith) (ground arith)

  no_pending :
      (s : QueueState Url Payload)
      → IsValid s
      → ((k : Text) → is_handled k s ≡ is_known k s)
      → Takes s.pending
      → Frontier.is_empty s.pending ≡ true
  unfolding is_key
  no_pending s v h (dry e p) = e
  no_pending s v h (taken r f e p sound m) =
      absurd (ground (arith, v.placed r.unique_key, h r.unique_key, m (is_key r.unique_key)))

  no_leases :
      (s : QueueState Url Payload) (m : Table ℕ (LeasedRequest Url Payload))
      → s.in_flight ≡ m
      → IsValid s
      → ((k : Text) → is_handled k s ≡ is_known k s)
      → is_nil m ≡ true
  unfolding is_key total
  no_leases s [] e v h = refl
  no_leases s ((i, l) ∷ m) e v h =
      let key = l.request.unique_key in absurd (ground (arith, v.placed key, h key))

  leased_of_nil :
      (k : Text) (s : QueueState Url Payload) → is_nil s.in_flight ≡ true → leased_of k s ≡ 0
  unfolding total
  leased_of_nil k s e = ground arith

  finished_handled :
      (s : QueueState Url Payload)
      → IsValid s
      → is_finished s ≡ true
      → (k : Text) → is_handled k s ≡ is_known k s
  unfolding is_finished
  finished_handled s v done k =
      ground (arith, v.placed k, weigh-empty (is_key k) s.pending, leased_of_nil k s)

  -- On a valid queue `is_finished` answers true exactly when every key that was ever added has been
  -- handled.
  pub is_finished_iff :
      (s : QueueState Url Payload)
      → IsValid s
      → (is_finished s ≡ true) ↔ ((k : Text) → is_handled k s ≡ is_known k s)
  unfolding is_finished
  is_finished_iff s v = (
    finished_handled s v,
    λ h. ground (
      arith,
      no_pending s v h (pop_front-Takes s.pending v.sound),
      no_leases s s.in_flight refl v h,
    ),
  )

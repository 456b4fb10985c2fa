-- ===== src/MemoryQueue/Leases.antt =====
-- queue.rs (memory): what the holder of a lease can rely on.
use millipede.Prelude.{
  ℕ, ◌+◌, ◌<◌, ◌≡◌, refl, subst, inl, inr, List, [], ◌∷◌, Option, none, some, arith, Text,
  ℕ_discrete, Option-cases, dec_lt,
}
use millipede.Prelude.Table
use millipede.Prelude.Table.{get, insert, remove, total}
use millipede.Prelude.Words.{u64_max}
use millipede.Request.{Request}
use millipede.Storage.{
  StorageResult, Lease, AddOptions, ReclaimOptions, RequestSource, ok, err, lease_not_found,
}
use millipede.Frontier
use millipede.Frontier.{Frontier, is_nil}
use millipede.MemoryQueue.{
  LeasedRequest, QueueState, fetch_next, lend, mark_handled, renew, add_locked, add_all, add,
  add_batch, reclaim, abandon, lease_ttl,
}
use millipede.MemoryQueue.Invariant.{IsValid}
use millipede.MemoryQueue.Reachable.{
  Step, adds, adds_batch, fetches, handles, reclaims, renews, abandons, Reach, here, next,
}

module _ {Url Payload : Type 0} (host_str : Url → Option Text) where
  -- Every call that wants the lease is refused, and leaves the queue as it was.
  pub record Refuses (s : QueueState Url Payload) (lease : Lease Url Payload) : Type 0 where
    pub no_mark : mark_handled s lease ≡ (s, err (lease_not_found lease.lease_id))
    pub no_reclaim :
        (opts : ReclaimOptions)
        → reclaim host_str s lease opts ≡ (s, err (lease_not_found lease.lease_id))
    pub no_abandon : abandon host_str s lease ≡ (s, err (lease_not_found lease.lease_id))
    pub no_renew :
        (extend_by : ℕ)
        → renew s lease.lease_id extend_by ≡ (s, err (lease_not_found lease.lease_id))

  absent-Refuses :
      (s : QueueState Url Payload) (lease : Lease Url Payload)
      → get ℕ_discrete lease.lease_id s.in_flight ≡ none
      → Refuses s lease
  unfolding mark_handled reclaim abandon renew
  absent-Refuses s lease e = record {
    no_mark = rw (e, mark_handled);
    no_reclaim = λ opts. rw (e, reclaim);
    no_abandon = rw (e, abandon);
    no_renew = λ extend_by. rw (e, renew);
  }

  -- The identifier was given out, and its lease is gone.
  record Spent (id : ℕ) (s : QueueState Url Payload) : Type 0 where
    issued : id < s.next_lease_id
    gone : get ℕ_discrete id s.in_flight ≡ none

  same-Spent :
      (id : ℕ) (s t : QueueState Url Payload)
      → t.next_lease_id ≡ s.next_lease_id
      → t.in_flight ≡ s.in_flight
      → Spent id s
      → Spent id t
  same-Spent id s t n e h = record { issued = omega arith; gone = rw e h.gone }

  add_locked-leases :
      (s : QueueState Url Payload) (r : Request Url Payload) (opts : AddOptions)
      → ((add_locked host_str s r opts).0.next_lease_id ≡ s.next_lease_id)
        × ((add_locked host_str s r opts).0.in_flight ≡ s.in_flight)
  unfolding add_locked
  add_locked-leases s r opts = ground arith

  add_all-Spent :
      (id : ℕ) (s : QueueState Url Payload) (sources : List (RequestSource Url Payload))
      (opts : AddOptions)
      → Spent id s
      → Spent id (add_all host_str s sources opts).0
  unfolding add_all
  add_all-Spent id s [] opts h = h
  add_all-Spent id s (RequestSource.request r ∷ sources) opts h =
      let (n, e) = add_locked-leases s r opts in
      add_all-Spent id (add_locked host_str s r opts).0 sources opts (same-Spent id s _ n e h)

  lend-Spent :
      (id : ℕ) (s : QueueState Url Payload) (now : ℕ) (r : Option (Request Url Payload))
      (f : Frontier Url Payload)
      → s.next_lease_id < u64_max
      → Spent id s
      → Spent id (lend s now r f).0
  unfolding lend
  lend-Spent id s now none f room h = record { issued = h.issued; gone = h.gone }
  lend-Spent id s now (some r) f room h = record {
    issued = omega (arith, h.issued);
    gone = ground (
      arith,
      h.gone,
      h.issued,
      Table.get-insert ℕ_discrete s.next_lease_id id
          (record { request = r; expires_at = now + lease_ttl }) s.in_flight,
    );
  }

  fetch-Spent :
      (id : ℕ) (s t : QueueState Url Payload) (now : ℕ)
      (res : StorageResult (Option (Lease Url Payload)))
      → s.next_lease_id < u64_max
      → fetch_next s now ≡ some (t, res)
      → Spent id s
      → Spent id t
  unfolding fetch_next
  fetch-Spent id s t now res room e h = from (Frontier.pop_front s.pending) refl
    where
      from :
          (o : Option (Option (Request Url Payload) × Frontier Url Payload))
          → Frontier.pop_front s.pending ≡ o
          → Spent id t
      from none p = absurd (ground arith)
      from (some (r, f)) p =
          let same : (lend s now r f).0 ≡ t = ground arith in
          subst (Spent id) same (lend-Spent id s now r f room h)

  renew-Spent :
      (id : ℕ) (s : QueueState Url Payload) (i extend_by : ℕ)
      → Spent id s
      → Spent id (renew s i extend_by).0
  unfolding renew
  renew-Spent id s i extend_by h = elim (Option-cases (get ℕ_discrete i s.in_flight)) [
    | inl e ↦ rw (e, renew) h
    | inr (l, e) ↦
        rw (e, renew)
          (record {
            issued = h.issued;
            gone = ground (
              arith,
              e,
              h.gone,
              Table.get-insert ℕ_discrete i id (record l { expires_at = l.expires_at + extend_by })
                  s.in_flight,
            );
          })
  ]

  Step-Spent : (id : ℕ) {s t : QueueState Url Payload} → Step host_str s t → Spent id s → Spent id t
  unfolding add add_batch mark_handled reclaim renew abandon
  Step-Spent id {s} (adds r opts e) h =
      let (n, f) = add_locked-leases s r opts in rw e (same-Spent id s _ n f h)
  Step-Spent id {s} (adds_batch sources opts e) h = rw e (add_all-Spent id s sources opts h)
  Step-Spent id {s} {t} (fetches now res room e) h = fetch-Spent id s t now res room e h
  Step-Spent id {s} (handles lease room e) h =
      ground (arith, h, Table.get-remove ℕ_discrete lease.lease_id id s.in_flight)
  Step-Spent id {s} (reclaims lease opts honest e) h =
      ground (arith, h, Table.get-remove ℕ_discrete lease.lease_id id s.in_flight)
  Step-Spent id {s} (renews i extend_by e) h = rw e (renew-Spent id s i extend_by h)
  Step-Spent id {s} (abandons lease honest e) h =
      ground (arith, h, Table.get-remove ℕ_discrete lease.lease_id id s.in_flight)

  Reach-Spent :
      (id : ℕ) {s t : QueueState Url Payload} → Reach host_str s t → Spent id s → Spent id t
  Reach-Spent id here h = h
  Reach-Spent id (next r st) h = Step-Spent id st (Reach-Spent id r h)

  -- A call that consumed the lease.
  pub data Consumes (s : QueueState Url Payload) (lease : Lease Url Payload)
      (t : QueueState Url Payload) : Type 0 where
    marked : mark_handled s lease ≡ (t, ok tt) → Consumes s lease t
    reclaimed :
        (opts : ReclaimOptions) → reclaim host_str s lease opts ≡ (t, ok tt) → Consumes s lease t
    abandoned : abandon host_str s lease ≡ (t, ok tt) → Consumes s lease t

  held-issued :
      (s : QueueState Url Payload) (id : ℕ) (l : LeasedRequest Url Payload)
      → IsValid s
      → get ℕ_discrete id s.in_flight ≡ some l
      → id < s.next_lease_id
  held-issued s id l v e = elim (dec_lt id s.next_lease_id) [
    | yes h ↦ h
    | no h ↦ absurd (ground (arith, e, v.fresh id (omega arith)))
  ]

  freed-Spent :
      (id : ℕ) (s t : QueueState Url Payload) (l : LeasedRequest Url Payload)
      → IsValid s
      → get ℕ_discrete id s.in_flight ≡ some l
      → t.next_lease_id ≡ s.next_lease_id
      → t.in_flight ≡ remove ℕ_discrete id s.in_flight
      → Spent id t
  freed-Spent id s t l v p n e = record {
    issued = omega (arith, held-issued s id l v p);
    gone = rw e (Table.get-remove_self ℕ_discrete id s.in_flight);
  }

  consumed-Spent :
      {s t : QueueState Url Payload} {lease : Lease Url Payload}
      → IsValid s
      → Consumes s lease t
      → Spent lease.lease_id t
  unfolding mark_handled reclaim abandon
  consumed-Spent {s} {t} {lease} v c = from (get ℕ_discrete lease.lease_id s.in_flight) refl c
    where
      open lease use {lease_id}

      from :
          (o : Option (LeasedRequest Url Payload))
          → get ℕ_discrete lease_id s.in_flight ≡ o
          → Consumes s lease t
          → Spent lease_id t
      from none p (marked e) = absurd (ground arith)
      from none p (reclaimed opts e) = absurd (ground arith)
      from none p (abandoned e) = absurd (ground arith)
      from (some l) p (marked e) = freed-Spent lease_id s t l v p (ground arith) (ground arith)
      from (some l) p (reclaimed opts e) =
          freed-Spent lease_id s t l v p (ground arith) (ground arith)
      from (some l) p (abandoned e) = freed-Spent lease_id s t l v p (ground arith) (ground arith)

  -- A lease is good for one of `mark_handled`, `reclaim` and `abandon`. Once one of them has
  -- succeeded, every call with that lease, or with any other value of its identifier, is refused with
  -- `LeaseNotFound` and changes nothing, whatever calls were made in between: identifiers are never
  -- given out again. The queue is valid before, and each step meets the conditions of `Step`: honest
  -- leases, and counters below the end of `u64`.
  pub consumed_lease-Refuses :
      {s t u : QueueState Url Payload} {lease : Lease Url Payload} (lease' : Lease Url Payload)
      → IsValid s
      → Consumes s lease t
      → Reach host_str t u
      → lease'.lease_id ≡ lease.lease_id
      → Refuses u lease'
  consumed_lease-Refuses {s} {t} {u} {lease} lease' v c r same =
      absent-Refuses u lease' (rw same ((Reach-Spent lease.lease_id r (consumed-Spent v c)).gone))

-- ===== src/FsQueue/Once.antt =====
-- queue.rs (file system): a request that is marked as handled is not crawled again, restarts included,
-- under the conditions that the histories state.
use millipede.Prelude.{
  ℕ, ◌+◌, ◌≤◌, ◌<◌, ◌≡◌, ◌≢◌, refl, inl, inr, Bool, Option, none, some, arith, text_discrete,
  ℕ_discrete, length, Option-cases, Bool-cases, leb,
}
use millipede.Prelude.Table
use millipede.Prelude.Table.{get, insert, total}
use millipede.Prelude.Words.{u64_max}
use millipede.Request.{Request, RequestId}
use millipede.Storage.{StorageResult, Result-cases, ok, Lease, AddOptions}
use millipede.FsQueue.{
  StoredRequest, QueueState, FsRequestQueue, take_order, lease_request_id, validate_unique_key,
  replace_stored_request, reclaim_expired, order_of, release,
}
use millipede.FsQueue.Operations.{retried, add_locked, fetch_next, mark_handled, requeue, renew}
use millipede.FsQueue.Scan.{scan_queue}
use millipede.FsQueue.Placed.{IsSynced, leases_of}
use millipede.FsQueue.Moves.{take_order-Taken, leased_order}
use millipede.FsQueue.Fetching.{
  Serves, idle, served, fetch_next-Serves, reclaim_expired-requests, release-requests,
}
use millipede.FsQueue.Synced.{IsNew, lease_request_id_ok}
use millipede.FsQueue.Reachable.{
  Step, added, fetched, handled, requeued, renewed, reclaimed, Step-IsSynced,
}
use millipede.FsQueue.Recovery.{scan_queue-Reopens}

module _ {Url Payload : Type 0} where
  -- The request is stored, without an order.
  pub record IsHandled (id : RequestId) (s : QueueState Url Payload) : Type 0 where
    pub stored : StoredRequest Url Payload
    pub found : get text_discrete id s.requests ≡ some stored
    pub no_order : stored.order_no ≡ none

  module _ (id : RequestId) where
    kept :
        (s t : QueueState Url Payload) → t.requests ≡ s.requests → IsHandled id s → IsHandled id t
    kept s t e h = record {
      stored = h.stored;
      found = ground (arith, e, h.found);
      no_order = h.no_order;
    }

    add_locked-IsHandled :
        (q : FsRequestQueue Url Payload) (r : Request Url Payload) (opts : AddOptions)
        (written : StorageResult (Unit {0}))
        → IsNew q.state r
        → IsSynced q
        → IsHandled id q.state
        → IsHandled id (add_locked q r opts written).0.state
    unfolding add_locked
    add_locked-IsHandled q r opts written new v h =
        elim (Option-cases (get text_discrete r.unique_key q.state.dedup)) [
          | inr (known, e) ↦ rw (add_locked, e) h
          | inl e ↦ elim (Result-cases (take_order opts.forefront q.state)) [
            | inr (x, f) ↦ rw (add_locked, e, f) h
            | inl ((o, s), f) ↦
                let t = take_order-Taken opts.forefront q.state o s f v.valid in
                elim (Result-cases written) [
                  | inr (x, g) ↦ rw (add_locked, e, f, g) (kept q.state s t.requests h)
                  | inl (x, g) ↦
                      rw (add_locked, e, f, g)
                        (record {
                          stored = h.stored;
                          found = ground (
                            arith,
                            h.found,
                            new,
                            e,
                            t.requests,
                            Table.get-insert text_discrete r.id id
                                (record { request = r; order_no = some o }) s.requests,
                          );
                          no_order = h.no_order;
                        })
                ]
          ]
        ]

    mark_handled-IsHandled :
        (q : FsRequestQueue Url Payload) (lease : Lease Url Payload)
        (written : StorageResult (Unit {0}))
        → IsHandled id q.state
        → IsHandled id (mark_handled q lease written).0.state
    unfolding mark_handled replace_stored_request
    mark_handled-IsHandled q lease written h =
        elim (Result-cases (lease_request_id q.state lease.lease_id)) [
          | inr (x, e) ↦ rw (mark_handled, e) h
          | inl (j, e) ↦ elim (Result-cases (validate_unique_key q.state j lease.request)) [
            | inr (x, f) ↦ rw (mark_handled, e, f) h
            | inl (y, f) ↦ elim (Result-cases written) [
              | inr (x, g) ↦ rw (mark_handled, e, f, g) h
              | inl (x, g) ↦
                  let new_stored : StoredRequest Url Payload = record {
                    request = lease.request;
                    order_no = none;
                  } in
                  let at_ = Table.get-insert text_discrete j id new_stored q.state.requests in
                  rw (mark_handled, e, f, g)
                    (elim (text_discrete j id) [
                      | yes p ↦ record {
                        stored = new_stored;
                        found = ground (arith, at_, p);
                        no_order = refl;
                      }
                      | no n ↦ record {
                        stored = h.stored;
                        found = ground (arith, at_, n, h.found);
                        no_order = h.no_order;
                      }
                    ])
            ]
          ]
        ]

    -- A leased request is not handled.
    requeue-IsHandled :
        (q : FsRequestQueue Url Payload) (lease : Lease Url Payload)
        (forefront increment_retry : Bool) (written : StorageResult (Unit {0}))
        → IsSynced q
        → IsHandled id q.state
        → IsHandled id (requeue q lease forefront increment_retry written).0.state
    unfolding requeue replace_stored_request order_of
    requeue-IsHandled q lease forefront increment_retry written v h =
        elim (Result-cases (lease_request_id q.state lease.lease_id)) [
          | inr (x, e) ↦ rw (requeue, e) h
          | inl (j, e) ↦ elim (Result-cases (validate_unique_key q.state j lease.request)) [
            | inr (x, f) ↦ rw (requeue, e, f) h
            | inl (y, f) ↦ elim (Result-cases (take_order forefront q.state)) [
              | inr (x, d) ↦ rw (requeue, e, f, d) h
              | inl ((o, s), d) ↦
                  let t = take_order-Taken forefront q.state o s d v.valid in
                  elim (Result-cases written) [
                    | inr (x, g) ↦ rw (requeue, e, f, d, g) (kept q.state s t.requests h)
                    | inl (x, g) ↦
                        let held = lease_request_id_ok q.state lease.lease_id j e in
                        let other = leased_order lease.lease_id q.state j held.0 held.1 in
                        rw (requeue, e, f, d, g)
                          (elim (text_discrete j id) [
                            | yes p ↦
                                elim (other (ground (arith, p, h.found, h.no_order)) v.valid) [ ]
                            | no n ↦ record {
                              stored = h.stored;
                              found = ground (
                                arith,
                                n,
                                h.found,
                                t.requests,
                                Table.get-insert text_discrete j id
                                    (record {
                                      request = retried increment_retry lease.request;
                                      order_no = some o;
                                    })
                                    s.requests,
                              );
                              no_order = h.no_order;
                            }
                          ])
                  ]
            ]
          ]
        ]

    renew-IsHandled :
        (q : FsRequestQueue Url Payload) (lease_id extend_by now : ℕ)
        → IsHandled id q.state
        → IsHandled id (renew q lease_id extend_by now).0.state
    unfolding renew
    renew-IsHandled q lease_id extend_by now h =
        elim (Option-cases (get ℕ_discrete lease_id q.state.leases)) [
          | inl e ↦ rw (renew, e) h
          | inr ((j, t), e) ↦ elim (Bool-cases (leb t now)) [
            | inl f ↦
                rw (renew, e, f)
                  (kept q.state (release lease_id q.state) (release-requests lease_id q.state) h)
            | inr f ↦
                rw (renew, e, f)
                  (kept q.state
                    (record q.state {
                      leases = insert ℕ_discrete lease_id (j, t + extend_by) q.state.leases;
                    })
                    refl h)
          ]
        ]

    fetch_next-IsHandled :
        (q : FsRequestQueue Url Payload) (now lent_at : ℕ) (t : FsRequestQueue Url Payload)
        (a : StorageResult (Option (Lease Url Payload)))
        → q.state.next_lease_id < u64_max
        → fetch_next q now lent_at ≡ some (t, a)
        → IsSynced q
        → IsHandled id q.state
        → IsHandled id t.state
    fetch_next-IsHandled q now lent_at t a room e v h =
        from (reclaim_expired q.state now) (reclaim_expired-requests q.state now)
          (fetch_next-Serves q now lent_at room v.valid)
      where
        from :
            (s : QueueState Url Payload)
            → s.requests ≡ q.state.requests
            → Serves q now lent_at s
            → IsHandled id t.state
        from s p (idle f g) = kept q.state t.state (ground (arith, e, g, p)) h
        from s p (served o j stored f least g i k w) =
            kept q.state t.state (ground (arith, e, k, p)) h

    Step-IsHandled :
        {q t : FsRequestQueue Url Payload}
        → Step q t
        → IsSynced q
        → IsHandled id q.state
        → IsHandled id t.state
    Step-IsHandled (added r opts written new) v h = add_locked-IsHandled _ r opts written new v h
    Step-IsHandled (fetched now lent_at t a room e) v h =
        fetch_next-IsHandled _ now lent_at t a room e v h
    Step-IsHandled (handled lease written room honest) v h =
        mark_handled-IsHandled _ lease written h
    Step-IsHandled (requeued lease f i written honest) v h =
        requeue-IsHandled _ lease f i written v h
    Step-IsHandled (renewed l by now) v h = renew-IsHandled _ l by now h
    Step-IsHandled (reclaimed now) v h = kept _ _ (reclaim_expired-requests _ now) h

  -- Steps of a process, and ends of processes, each with a new process on the same directory.
  pub data History (q : FsRequestQueue Url Payload) : FsRequestQueue Url Payload → Type 0 where
    start : History q q
    steps : {t u : FsRequestQueue Url Payload} → History q t → Step t u → History q u
    restarts :
        {t : FsRequestQueue Url Payload} (s : QueueState Url Payload)
        → History q t
        → length t.disk ≤ u64_max
        → scan_queue t.disk ≡ ok s
        → History q (record t { state = s })

  -- Memory and disk stay in step, and a handled request stays handled.
  pub record Keeps (id : RequestId) (t : FsRequestQueue Url Payload) : Type 0 where
    pub synced : IsSynced t
    pub handled : IsHandled id t.state

  restart-Keeps :
      (id : RequestId) (t : FsRequestQueue Url Payload) (s : QueueState Url Payload)
      → length t.disk ≤ u64_max
      → scan_queue t.disk ≡ ok s
      → Keeps id t
      → Keeps id (record t { state = s })
  restart-Keeps id t s room e k =
      let (u, r) = scan_queue-Reopens t room k.synced in
      let same : s ≡ u = ground (arith, e, r.answer) in
      rw (same) (record {
        synced = r.synced;
        handled = record {
          stored = k.handled.stored;
          found = ground (arith, r.requests id, k.handled.found);
          no_order = k.handled.no_order;
        };
      })

  History-Keeps :
      (id : RequestId) {q t : FsRequestQueue Url Payload} → History q t → Keeps id q → Keeps id t
  History-Keeps id start k = k
  History-Keeps id (steps h step) k =
      let before = History-Keeps id h k in
      record {
        synced = Step-IsSynced step before.synced;
        handled = Step-IsHandled id step before.synced before.handled;
      }
  History-Keeps id (restarts s h room e) k = restart-Keeps id _ s room e (History-Keeps id h k)

  -- A request that is handled in a queue whose memory and disk are in step stays handled, is never pending and
  -- never leased again, so no `fetch_next` returns it, through any sequence of additions, fetches,
  -- completions, returns, renewals and expiries, with writes that fail or not, and of restarts that scan the
  -- directory (of fewer than 2^64 files). The sequence meets these conditions: a request that is added
  -- under an unknown key has an identifier that is not stored (it does not hold where a leased request was
  -- given back under another key and the old key is added again); a lease is given back with the identifier
  -- that it was given out with; the lease identifiers and the handled count have not reached the end of
  -- `u64`. `reset` is not among the calls.
  pub never_again :
      (id : RequestId) (q t : FsRequestQueue Url Payload)
      → History q t
      → IsSynced q
      → IsHandled id q.state
      → IsHandled id t.state
        × ((o : ℕ) → get ℕ_discrete o t.state.pending ≢ some id)
        × (leases_of id t.state ≡ 0)
  unfolding order_of
  never_again id q t h v k =
      let after = History-Keeps id h (record { synced = v; handled = k }) in
      let d = after.handled in
      (
        d,
        λ o e. ground (arith, e, after.synced.valid.pending_order o id e, d.found, d.no_order),
        ground (arith, after.synced.valid.placed id, d.found, d.no_order),
      )

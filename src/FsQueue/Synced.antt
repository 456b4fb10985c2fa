-- ===== src/FsQueue/Synced.antt =====
-- queue.rs (file system): each operation keeps memory and disk in step.
use millipede.Prelude.{
  ℕ, ◌+◌, ◌<◌, ◌≡◌, refl, inl, inr, Bool, Option, none, some, arith, text_discrete, ℕ_discrete,
  Option-cases, Bool-cases, leb,
}
use millipede.Prelude.Table
use millipede.Prelude.Table.{Table, get, insert, remove, total}
use millipede.Prelude.Words.{u64_max}
use millipede.Request.{Request, RequestId}
use millipede.Storage.{StorageResult, Result-cases, ok, Lease, AddOptions}
use millipede.FsQueue.{
  StoredRequest, QueueState, FsRequestQueue, File, envelope, reclaim_expired, take_order,
  lease_request_id, validate_unique_key, replace_stored_request,
}
use millipede.FsQueue.Operations.{fetch_next, add_locked, mark_handled, requeue, renew, retried}
use millipede.FsQueue.Placed.{IsValid, IsSynced, Filed}
use millipede.FsQueue.Moves.{
  take_order-Taken, release_lem, renewed-IsValid, reclaim_expired-IsValid, lent_state,
}
use millipede.FsQueue.Keys.{added-IsValid}
use millipede.FsQueue.Keeps.{requeued-IsValid, handled-IsValid}
use millipede.FsQueue.Fetching.{
  Serves, idle, served, fetch_next-Serves, reclaim_expired-requests, release-requests,
}

module _ {Url Payload : Type 0} where
  write-Filed :
      (disk : Table RequestId (File Url Payload))
      (requests : Table RequestId (StoredRequest Url Payload)) (id : RequestId)
      (r : StoredRequest Url Payload)
      → r.request.id ≡ id
      → Filed disk requests
      → Filed
          (insert text_discrete r.request.id (envelope r) disk)
          (insert text_discrete id r requests)
  write-Filed disk requests id r e f = record {
    unique = Table.insert-IsMap text_discrete r.request.id (envelope r) disk f.unique;
    named = λ j x. ground (arith, e, f.named j x, Table.get-insert text_discrete id j r requests);
    files = λ j. ground (
      arith,
      e,
      f.files j,
      Table.get-insert text_discrete id j r requests,
      Table.get-insert text_discrete r.request.id j (envelope r) disk,
    );
  }

  -- What the histories assume of the caller: a request with a new key has an identifier that is not stored, as
  -- identifiers are made from keys; a lease carries the identifier that it was given out with.
  abbrev pub IsNew : QueueState Url Payload → Request Url Payload → Type 0
  IsNew s r =
      get text_discrete r.unique_key s.dedup ≡ none → get text_discrete r.id s.requests ≡ none

  abbrev pub Honest : QueueState Url Payload → Lease Url Payload → Type 0
  Honest s lease =
      (id : RequestId) → lease_request_id s lease.lease_id ≡ ok id → lease.request.id ≡ id

  -- Only the order counters move.
  taken-IsSynced :
      (q : FsRequestQueue Url Payload) (f : Bool) (o : ℕ) (s : QueueState Url Payload)
      → take_order f q.state ≡ ok (o, s)
      → IsSynced q
      → IsSynced (record q { state = s })
  taken-IsSynced q f o s e v =
      let t = take_order-Taken f q.state o s e v.valid in
      record { valid = t.fresh.valid; filed = rw (t.requests) v.filed }

  pub lease_request_id_ok :
      (s : QueueState Url Payload) (l : ℕ) (id : RequestId)
      → lease_request_id s l ≡ ok id
      → (t : ℕ) × (get ℕ_discrete l s.leases ≡ some (id, t))
  unfolding lease_request_id
  lease_request_id_ok s l id e = elim (Option-cases (get ℕ_discrete l s.leases)) [
    | inl f ↦ ground (arith, e, f)
    | inr ((j, t), f) ↦ (t, ground (arith, e, f))
  ]

  pub add_locked-IsSynced :
      (q : FsRequestQueue Url Payload) (r : Request Url Payload) (opts : AddOptions)
      (written : StorageResult (Unit {0}))
      → IsNew q.state r
      → IsSynced q
      → IsSynced (add_locked q r opts written).0
  unfolding add_locked
  add_locked-IsSynced q r opts written new v =
      elim (Option-cases (get text_discrete r.unique_key q.state.dedup)) [
        | inr (known, e) ↦ rw (add_locked, e) v
        | inl e ↦ elim (Result-cases (take_order opts.forefront q.state)) [
          | inr (x, f) ↦ rw (add_locked, e, f) v
          | inl ((o, s), f) ↦ elim (Result-cases written) [
            | inr (x, g) ↦ rw (add_locked, e, f, g) (taken-IsSynced q opts.forefront o s f v)
            | inl (x, g) ↦
                let t = take_order-Taken opts.forefront q.state o s f v.valid in
                rw (add_locked, e, f, g)
                  (record {
                    valid =
                        added-IsValid s o r (ground (arith, new, e, t.requests))
                          (ground (arith, e, t.dedup)) t.fresh;
                    filed = rw (t.requests) (
                        write-Filed q.disk q.state.requests r.id
                          (record { request = r; order_no = some o }) refl v.filed);
                  })
          ]
        ]
      ]

  pub mark_handled-IsSynced :
      (q : FsRequestQueue Url Payload) (lease : Lease Url Payload)
      (written : StorageResult (Unit {0}))
      → q.state.handled_count < u64_max
      → Honest q.state lease
      → IsSynced q
      → IsSynced (mark_handled q lease written).0
  unfolding mark_handled replace_stored_request insert
  mark_handled-IsSynced q lease written room honest v =
      elim (Result-cases (lease_request_id q.state lease.lease_id)) [
        | inr (x, e) ↦ rw (mark_handled, e) v
        | inl (id, e) ↦ elim (Result-cases (validate_unique_key q.state id lease.request)) [
          | inr (x, f) ↦ rw (mark_handled, e, f) v
          | inl (y, f) ↦ elim (Result-cases written) [
            | inr (x, g) ↦ rw (mark_handled, e, f, g) v
            | inl (x, g) ↦
                let held = lease_request_id_ok q.state lease.lease_id id e in
                rw (mark_handled, e, f, g)
                  (record {
                    valid =
                        handled-IsValid q.state lease.lease_id id held.0 lease.request y held.1 f
                          room v.valid;
                    filed =
                        write-Filed q.disk q.state.requests id
                          (record { request = lease.request; order_no = none }) (honest id e)
                          v.filed;
                  })
          ]
        ]
      ]

  same_key :
      (s t : QueueState Url Payload) (id : RequestId) (r : Request Url Payload)
      (increment_retry : Bool)
      → t.dedup ≡ s.dedup
      → validate_unique_key t id (retried increment_retry r) ≡ validate_unique_key s id r
  unfolding validate_unique_key
  same_key s t id r increment_retry e = rw (e) refl

  pub requeue-IsSynced :
      (q : FsRequestQueue Url Payload) (lease : Lease Url Payload)
      (forefront increment_retry : Bool) (written : StorageResult (Unit {0}))
      → Honest q.state lease
      → IsSynced q
      → IsSynced (requeue q lease forefront increment_retry written).0
  unfolding requeue replace_stored_request insert
  requeue-IsSynced q lease forefront increment_retry written honest v =
      elim (Result-cases (lease_request_id q.state lease.lease_id)) [
        | inr (x, e) ↦ rw (requeue, e) v
        | inl (id, e) ↦ elim (Result-cases (validate_unique_key q.state id lease.request)) [
          | inr (x, f) ↦ rw (requeue, e, f) v
          | inl (y, f) ↦ elim (Result-cases (take_order forefront q.state)) [
            | inr (x, h) ↦ rw (requeue, e, f, h) v
            | inl ((o, s), h) ↦ elim (Result-cases written) [
              | inr (x, g) ↦ rw (requeue, e, f, h, g) (taken-IsSynced q forefront o s h v)
              | inl (x, g) ↦
                  let held = lease_request_id_ok q.state lease.lease_id id e in
                  let t = take_order-Taken forefront q.state o s h v.valid in
                  let r = retried increment_retry lease.request in
                  rw (requeue, e, f, h, g)
                    (record {
                      valid =
                          requeued-IsValid s lease.lease_id id held.0 o r y
                            (ground (arith, held.1, t.leases))
                            (ground (
                              arith,
                              same_key q.state s id lease.request increment_retry t.dedup,
                              f,
                            ))
                            t.fresh;
                      filed = rw (t.requests) (
                          write-Filed q.disk q.state.requests id
                            (record { request = r; order_no = some o }) (honest id e) v.filed);
                    })
            ]
          ]
        ]
      ]

  pub renew-IsSynced :
      (q : FsRequestQueue Url Payload) (lease_id extend_by now : ℕ)
      → IsSynced q
      → IsSynced (renew q lease_id extend_by now).0
  unfolding renew
  renew-IsSynced q lease_id extend_by now v =
      elim (Option-cases (get ℕ_discrete lease_id q.state.leases)) [
        | inl e ↦ rw (renew, e) v
        | inr ((id, t), e) ↦ elim (Bool-cases (leb t now)) [
          | inl f ↦
              rw (renew, e, f)
                (record {
                  valid = release_lem lease_id q.state v.valid;
                  filed = rw (release-requests lease_id q.state) v.filed;
                })
          | inr f ↦
              rw (renew, e, f)
                (record {
                  valid = renewed-IsValid q.state lease_id id t (t + extend_by) e v.valid;
                  filed = v.filed;
                })
        ]
      ]

  pub fetch_next-IsSynced :
      (q : FsRequestQueue Url Payload) (now lent_at : ℕ) (t : FsRequestQueue Url Payload)
      (a : StorageResult (Option (Lease Url Payload)))
      → q.state.next_lease_id < u64_max
      → fetch_next q now lent_at ≡ some (t, a)
      → IsSynced q
      → IsSynced t
  fetch_next-IsSynced q now lent_at t a room e v =
      from (reclaim_expired q.state now) (reclaim_expired-IsValid q.state now v.valid)
        (reclaim_expired-requests q.state now) (fetch_next-Serves q now lent_at room v.valid)
    where
      from :
          (s : QueueState Url Payload)
          → IsValid s
          → s.requests ≡ q.state.requests
          → Serves q now lent_at s
          → IsSynced t
      from s w p (idle f g) =
          let k : t ≡ record q { state = s } = ground (arith, e, g) in
          rw (k) (record { valid = w; filed = rw (p) v.filed })
      from s w p (served o id stored f least g h i w') =
          let k : t ≡ record q { state = lent_state s o id lent_at } = ground (arith, e, i) in
          rw (k) (record { valid = w'; filed = rw (p) v.filed })

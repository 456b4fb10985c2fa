-- ===== src/FsQueue/Failures.antt =====
-- queue.rs (file system): what an addition, a completion or a return that answers with an error leaves behind.
use millipede.Prelude.{
  ℕ, ◌≡◌, ◌+◌, ◌-◌, refl, inl, inr, Bool, true, false, arith, text_discrete, Option-cases,
}
use millipede.Prelude.Table.{get}
use millipede.Request.{Request}
use millipede.Storage.{StorageResult, StorageError, Result-cases, ok, err, Lease, AddOptions}
use millipede.FsQueue.{
  QueueState, FsRequestQueue, take_order, lease_request_id, validate_unique_key,
}
use millipede.FsQueue.Operations.{add_locked, mark_handled, requeue}
use millipede.FsQueue.Moves.{moved_on, take_order_ok}

-- The calls that write a file.
pub data Write (Url Payload : Type 0) : Type 0 where
  adding : Request Url Payload → AddOptions → Write Url Payload
  completing : Lease Url Payload → Write Url Payload
  returning : Lease Url Payload → Bool → Bool → Write Url Payload

module _ {Url Payload : Type 0} where
  abbrev done :
      {A : Type 0}
      → FsRequestQueue Url Payload × StorageResult A
      → FsRequestQueue Url Payload × StorageResult (Unit {0})
  done answer = (answer.0, elim answer.1 [ ok a ↦ ok tt | err e ↦ err e ])

  abbrev pub run :
      FsRequestQueue Url Payload
      → Write Url Payload
      → StorageResult (Unit {0})
      → FsRequestQueue Url Payload × StorageResult (Unit {0})
  run q (adding r opts) written = done (add_locked q r opts written)
  run q (completing lease) written = done (mark_handled q lease written)
  run q (returning lease f i) written = done (requeue q lease f i written)

  -- All but the order counters.
  pub record Unchanged (q t : FsRequestQueue Url Payload) : Type 0 where
    pub disk : t.disk ≡ q.disk
    pub pending : t.state.pending ≡ q.state.pending
    pub dedup : t.state.dedup ≡ q.state.dedup
    pub leases : t.state.leases ≡ q.state.leases
    pub requests : t.state.requests ≡ q.state.requests
    pub handled_count : t.state.handled_count ≡ q.state.handled_count
    pub next_lease_id : t.state.next_lease_id ≡ q.state.next_lease_id

  only_counters :
      (q : FsRequestQueue Url Payload) (a b : ℕ)
      → Unchanged q
          (record q { state = record q.state { next_order = a; next_forefront_order = b } })
  only_counters q a b = record {
    disk = refl;
    pending = refl;
    dedup = refl;
    leases = refl;
    requests = refl;
    handled_count = refl;
    next_lease_id = refl;
  }

  same : (q : FsRequestQueue Url Payload) → Unchanged q q
  same q = only_counters q q.state.next_order q.state.next_forefront_order

  only_order :
      (q : FsRequestQueue Url Payload) (f : Bool) (o : ℕ) (s : QueueState Url Payload)
      → take_order f q.state ≡ ok (o, s)
      → Unchanged q (record q { state = s })
  only_order q f o s e = rw ((take_order_ok f q.state o s e).1) (by_end f)
    where
      by_end : (f : Bool) → Unchanged q (record q { state = moved_on f q.state })
      by_end true = only_counters q q.state.next_order (q.state.next_forefront_order - 1)
      by_end false = only_counters q (q.state.next_order + 1) q.state.next_forefront_order

  -- If the addition of one request, `mark_handled`, or the return of a leased request (`requeue`, which
  -- `reclaim` and `abandon` call) answers with an error, whatever the cause, then the directory, the pending
  -- requests, the leases, the stored requests, their keys and the handled count are as before; at most an
  -- order number is used up. This is not said of the other calls: a batch keeps what it added before the
  -- error, `renew` ends an expired lease, and `fetch_next` reclaims expired leases first and
  -- loses a request when the lease identifiers are exhausted.
  pub err-Unchanged :
      (q : FsRequestQueue Url Payload) (w : Write Url Payload) (written : StorageResult (Unit {0}))
      (e : StorageError)
      → (run q w written).1 ≡ err e
      → Unchanged q (run q w written).0
  unfolding add_locked mark_handled requeue
  err-Unchanged q (adding r opts) written e p =
      elim (Option-cases (get text_discrete r.unique_key q.state.dedup)) [
        | inr (known, a) ↦ rw (add_locked, a) (same q)
        | inl a ↦ elim (Result-cases (take_order opts.forefront q.state)) [
          | inr (x, b) ↦ rw (add_locked, a, b) (same q)
          | inl ((o, s), b) ↦ elim (Result-cases written) [
            | inr (x, c) ↦ rw (add_locked, a, b, c) (only_order q opts.forefront o s b)
            | inl (x, c) ↦ ground (arith, p, a, b, c)
          ]
        ]
      ]
  err-Unchanged q (completing lease) written e p =
      elim (Result-cases (lease_request_id q.state lease.lease_id)) [
        | inr (x, a) ↦ rw (mark_handled, a) (same q)
        | inl (id, a) ↦ elim (Result-cases (validate_unique_key q.state id lease.request)) [
          | inr (x, b) ↦ rw (mark_handled, a, b) (same q)
          | inl (y, b) ↦ elim (Result-cases written) [
            | inr (x, c) ↦ rw (mark_handled, a, b, c) (same q)
            | inl (x, c) ↦ ground (arith, p, a, b, c)
          ]
        ]
      ]
  err-Unchanged q (returning lease f i) written e p =
      elim (Result-cases (lease_request_id q.state lease.lease_id)) [
        | inr (x, a) ↦ rw (requeue, a) (same q)
        | inl (id, a) ↦ elim (Result-cases (validate_unique_key q.state id lease.request)) [
          | inr (x, b) ↦ rw (requeue, a, b) (same q)
          | inl (y, b) ↦ elim (Result-cases (take_order f q.state)) [
            | inr (x, d) ↦ rw (requeue, a, b, d) (same q)
            | inl ((o, s), d) ↦ elim (Result-cases written) [
              | inr (x, c) ↦ rw (requeue, a, b, d, c) (only_order q f o s d)
              | inl (x, c) ↦ ground (arith, p, a, b, d, c)
            ]
          ]
        ]
      ]

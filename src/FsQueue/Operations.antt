-- ===== src/FsQueue/Operations.antt =====
-- queue.rs (file system): the operations. Each takes the queue and returns it with the answer.
use millipede.Prelude.{
  ℕ, ◌+◌, Bool, true, false, ◌&&◌, List, [], ◌∷◌, Option, none, some, codes, text_discrete,
  ℕ_discrete, if◌then◌else◌, leb, ◌==◌, length,
}
use millipede.Prelude.Table.{Table, get, insert, remove}
use millipede.Prelude.Words.{u32_inc, u64_max, u64_saturating_add}
use millipede.Request.{Request, RequestId}
use millipede.Storage.{
  StorageResult, ok, err, backend, lease_not_found, Lease, AddOptions, ReclaimOptions,
  ProcessedRequest, RequestSource,
}
use millipede.Frontier.{is_nil}
use millipede.FsQueue.{
  QueueState, File, envelope, FsRequestQueue, first_key, empty, take_order, lease_request_id,
  validate_unique_key, replace_stored_request, release, reclaim_expired, lease_ttl,
}

module _ {Url Payload : Type 0} where
  -- The file of a request is replaced as a whole, or stays as it is.
  abbrev pub write_request :
      FsRequestQueue Url Payload
      → Request Url Payload
      → Option ℕ
      → Table RequestId (File Url Payload)
  write_request q r order_no =
      insert text_discrete r.id (envelope (record { request = r; order_no = order_no })) q.disk

  unfoldable pub add_locked :
      FsRequestQueue Url Payload
      → Request Url Payload
      → AddOptions
      → StorageResult (Unit {0})
      → FsRequestQueue Url Payload × StorageResult ProcessedRequest
  add_locked q r opts written = elim (get text_discrete r.unique_key q.state.dedup) [
    | some (id, handled) ↦ (
      q,
      ok (record {
        request_id = id;
        unique_key = r.unique_key;
        was_already_present = true;
        was_already_handled = handled;
      }),
    )
    | none ↦ elim (take_order opts.forefront q.state) [
      | err e ↦ (q, err e)
      | ok (order_no, s) ↦ elim written [
        | err e ↦ (record q { state = s }, err e)
        | ok x ↦ (
          record {
            disk = write_request q r (some order_no);
            state = record s {
              pending = insert ℕ_discrete order_no r.id s.pending;
              dedup = insert text_discrete r.unique_key (r.id, false) s.dedup;
              requests =
                  insert text_discrete r.id (record { request = r; order_no = some order_no })
                    s.requests;
            };
          },
          ok (record {
            request_id = r.id;
            unique_key = r.unique_key;
            was_already_present = false;
            was_already_handled = false;
          }),
        )
      ]
    ]
  ]

  -- A failed write ends the batch; what was added before stays.
  unfoldable pub add_batch :
      FsRequestQueue Url Payload
      → List (RequestSource Url Payload × StorageResult (Unit {0}))
      → AddOptions
      → FsRequestQueue Url Payload × StorageResult (List ProcessedRequest)
  add_batch q [] opts = (q, ok [])
  add_batch q ((RequestSource.request r, written) ∷ sources) opts =
      let (t, info) = add_locked q r opts written in
      let (u, infos) = add_batch t sources opts in
      elim info [
        | err e ↦ (t, err e)
        | ok i ↦ elim infos [ err e ↦ (u, err e) | ok is ↦ (u, ok (i ∷ is)) ]
      ]

  -- After the pop: an exhausted lease counter leaves the request neither pending nor leased.
  unfoldable pub lend :
      QueueState Url Payload
      → RequestId
      → Request Url Payload
      → ℕ
      → QueueState Url Payload × StorageResult (Option (Lease Url Payload))
  lend s id r now =
      if s.next_lease_id == u64_max
      then (s, err (backend (codes "request queue lease identifiers exhausted")))
      else (
        record s {
          next_lease_id = s.next_lease_id + 1;
          leases = insert ℕ_discrete s.next_lease_id (id, now + lease_ttl) s.leases;
        },
        ok (
            some
              (record { request = r; lease_id = s.next_lease_id; expires_at = now + lease_ttl })),
      )

  -- The request with the least order, taken out of the pending ones.
  unfoldable pub pop_lend :
      QueueState Url Payload
      → ℕ
      → Option (QueueState Url Payload × StorageResult (Option (Lease Url Payload)))
  pop_lend s now = elim (first_key s.pending) [
    | none ↦ some (s, ok none)
    | some order_no ↦ elim (get ℕ_discrete order_no s.pending) [
      | none ↦ none
      | some id ↦ elim (get text_discrete id s.requests) [
        | none ↦ none
        | some stored ↦ some (
            lend (record s { pending = remove ℕ_discrete order_no s.pending }) id stored.request
              now)
      ]
    ]
  ]

  -- The clock is read twice: for the expired leases, and for the new one.
  unfoldable pub fetch_next :
      FsRequestQueue Url Payload
      → ℕ
      → ℕ
      → Option (FsRequestQueue Url Payload × StorageResult (Option (Lease Url Payload)))
  fetch_next q now lent_at = elim (pop_lend (reclaim_expired q.state now) lent_at) [
    | none ↦ none
    | some (s, answer) ↦ some (record q { state = s }, answer)
  ]

  unfoldable pub mark_handled :
      FsRequestQueue Url Payload
      → Lease Url Payload
      → StorageResult (Unit {0})
      → FsRequestQueue Url Payload × StorageResult (Unit {0})
  mark_handled q lease written = elim (lease_request_id q.state lease.lease_id) [
    | err e ↦ (q, err e)
    | ok id ↦ elim (validate_unique_key q.state id lease.request) [
      | err e ↦ (q, err e)
      | ok x ↦ elim written [
        | err e ↦ (q, err e)
        | ok y ↦
            let s = record q.state {
              leases = remove ℕ_discrete lease.lease_id q.state.leases;
              handled_count = u64_saturating_add q.state.handled_count 1;
            } in
            (
              record {
                disk = write_request q lease.request none;
                state = replace_stored_request s id lease.request none true;
              },
              ok tt,
            )
      ]
    ]
  ]

  abbrev pub retried : Bool → Request Url Payload → Request Url Payload
  retried increment_retry r = record r {
    retry_count = if increment_retry then u32_inc r.retry_count else r.retry_count;
  }

  unfoldable pub requeue :
      FsRequestQueue Url Payload
      → Lease Url Payload
      → Bool
      → Bool
      → StorageResult (Unit {0})
      → FsRequestQueue Url Payload × StorageResult (Unit {0})
  requeue q lease forefront increment_retry written =
      elim (lease_request_id q.state lease.lease_id) [
        | err e ↦ (q, err e)
        | ok id ↦ elim (validate_unique_key q.state id lease.request) [
          | err e ↦ (q, err e)
          | ok x ↦ elim (take_order forefront q.state) [
            | err e ↦ (q, err e)
            | ok (order_no, s) ↦ elim written [
              | err e ↦ (record q { state = s }, err e)
              | ok y ↦
                  let r = retried increment_retry lease.request in
                  let t = record s {
                    leases = remove ℕ_discrete lease.lease_id s.leases;
                    pending = insert ℕ_discrete order_no id s.pending;
                  } in
                  (
                    record {
                      disk = write_request q r (some order_no);
                      state = replace_stored_request t id r (some order_no) false;
                    },
                    ok tt,
                  )
            ]
          ]
        ]
      ]

  unfoldable pub reclaim :
      FsRequestQueue Url Payload
      → Lease Url Payload
      → ReclaimOptions
      → StorageResult (Unit {0})
      → FsRequestQueue Url Payload × StorageResult (Unit {0})
  unfolding requeue
  reclaim q lease opts written = requeue q lease opts.forefront opts.increment_retry written

  unfoldable pub abandon :
      FsRequestQueue Url Payload
      → Lease Url Payload
      → StorageResult (Unit {0})
      → FsRequestQueue Url Payload × StorageResult (Unit {0})
  unfolding requeue
  abandon q lease written = requeue q lease true false written

  -- An expired lease is not renewed: its request is pending again.
  unfoldable pub renew :
      FsRequestQueue Url Payload → ℕ → ℕ → ℕ → FsRequestQueue Url Payload × StorageResult (Unit {0})
  renew q lease_id extend_by now = elim (get ℕ_discrete lease_id q.state.leases) [
    | none ↦ (q, err (lease_not_found lease_id))
    | some (id, expires_at) ↦
        if leb expires_at now
        then (record q { state = release lease_id q.state }, err (lease_not_found lease_id))
        else (
          record q {
            state = record q.state {
              leases = insert ℕ_discrete lease_id (id, expires_at + extend_by) q.state.leases;
            };
          },
          ok tt,
        )
  ]

  unfoldable pub is_empty : FsRequestQueue Url Payload → Bool
  is_empty q = is_nil q.state.pending

  unfoldable pub is_finished : FsRequestQueue Url Payload → Bool
  is_finished q = is_nil q.state.pending && is_nil q.state.leases

  unfoldable pub handled_count : FsRequestQueue Url Payload → ℕ
  handled_count q = q.state.handled_count

  unfoldable pub pending_count : FsRequestQueue Url Payload → ℕ
  pending_count q = length q.state.pending

  unfoldable pub reset : FsRequestQueue Url Payload → FsRequestQueue Url Payload
  reset q = record q { state = empty }

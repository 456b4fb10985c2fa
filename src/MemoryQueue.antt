-- ===== src/MemoryQueue.antt =====
-- crates/millipede-storage-memory/src/queue.rs: the in-process request queue. Every operation holds the
-- mutex from its first line to its last, so it is a function of the state; `&mut` state is returned.
-- `Instant::now()` is an argument of `fetch_next`. Times are nanoseconds, and unbounded: past the
-- end of `Instant` the addition of `fetch_next` or `renew` panics in the source, with the mutex held, which
-- has no counterpart here. A panic of `fetch_next` through the frontier is `none`.
pub mod Invariant
pub mod Pushes
pub mod Reachable
pub mod Leases
pub mod Dedup
pub mod Completion
use millipede.Prelude.{
  ℕ, ◌+◌, Bool, true, false, ◌&&◌, List, [], ◌∷◌, Option, none, some, Text, text_discrete,
  ℕ_discrete, if◌then◌else◌,
}
use millipede.Prelude.Members
use millipede.Prelude.Members.{contains}
use millipede.Prelude.Table.{Table, get, insert, remove}
use millipede.Prelude.Words.{u32_inc, u64_inc}
use millipede.Request.{Request, RequestId}
use millipede.Storage.{
  StorageResult, ok, err, StorageError, lease_not_found, Lease, AddOptions, ReclaimOptions,
  ProcessedRequest, RequestSource,
}
use millipede.Frontier
use millipede.Frontier.{Frontier, MemoryQueuePolicy, is_nil}

abbrev pub lease_ttl : ℕ
lease_ttl = 180_000_000_000

pub record LeasedRequest (Url Payload : Type 0) : Type 0 where
  pub request : Request Url Payload
  pub expires_at : ℕ

pub record QueueState (Url Payload : Type 0) : Type 0 where
  pub dedup : Table Text RequestId
  pub handled : List Text
  pub pending : Frontier Url Payload
  pub in_flight : Table ℕ (LeasedRequest Url Payload)
  pub handled_count : ℕ
  pub next_lease_id : ℕ

unfoldable pub with_policy : {Url Payload : Type 0} → MemoryQueuePolicy → QueueState Url Payload
with_policy policy = record {
  dedup = [];
  handled = [];
  pending = Frontier.new policy;
  in_flight = [];
  handled_count = 0;
  next_lease_id = 0;
}

module _ {Url Payload : Type 0} where
  -- The request as `reclaim` puts it back.
  abbrev pub counted : ReclaimOptions → Request Url Payload → Request Url Payload
  counted opts r = record r {
    retry_count = if opts.increment_retry then u32_inc r.retry_count else r.retry_count;
  }

  -- The lease with the state that no longer holds it. A miss leaves the map as it was.
  unfoldable pub remove_lease :
      QueueState Url Payload
      → ℕ
      → StorageResult (LeasedRequest Url Payload × QueueState Url Payload)
  remove_lease s id = elim (get ℕ_discrete id s.in_flight) [
    | none ↦ err (lease_not_found id)
    | some leased ↦ ok (leased, record s { in_flight = remove ℕ_discrete id s.in_flight })
  ]

  -- The lease that `fetch_next` makes of a popped request.
  pub lend :
      QueueState Url Payload
      → ℕ
      → Option (Request Url Payload)
      → Frontier Url Payload
      → QueueState Url Payload × StorageResult (Option (Lease Url Payload))
  lend s now none pending = (record s { pending = pending }, ok none)
  lend s now (some request) pending = (
    record s {
      pending = pending;
      next_lease_id = u64_inc s.next_lease_id;
      in_flight =
          insert ℕ_discrete s.next_lease_id
            (record { request = request; expires_at = now + lease_ttl }) s.in_flight;
    },
    ok (
        some
          (record { request = request; lease_id = s.next_lease_id; expires_at = now + lease_ttl })),
  )

  unfoldable pub fetch_next :
      QueueState Url Payload
      → ℕ
      → Option (QueueState Url Payload × StorageResult (Option (Lease Url Payload)))
  unfolding lend
  fetch_next s now = elim (Frontier.pop_front s.pending) [
    | none ↦ none
    | some (r, pending) ↦ some (lend s now r pending)
  ]

  unfoldable pub mark_handled :
      QueueState Url Payload → Lease Url Payload → QueueState Url Payload × StorageResult (Unit {0})
  unfolding remove_lease
  mark_handled s lease = elim (remove_lease s lease.lease_id) [
    | err e ↦ (s, err e)
    | ok (leased, t) ↦ (
      record t {
        handled_count = u64_inc t.handled_count;
        handled = Members.add text_discrete leased.request.unique_key t.handled;
      },
      ok tt,
    )
  ]

  unfoldable pub renew :
      QueueState Url Payload → ℕ → ℕ → QueueState Url Payload × StorageResult (Unit {0})
  renew s id extend_by = elim (get ℕ_discrete id s.in_flight) [
    | none ↦ (s, err (lease_not_found id))
    | some leased ↦ (
      record s {
        in_flight =
            insert ℕ_discrete id (record leased { expires_at = leased.expires_at + extend_by })
              s.in_flight;
      },
      ok tt,
    )
  ]

  unfoldable pub is_empty : QueueState Url Payload → Bool
  is_empty s = Frontier.is_empty s.pending

  unfoldable pub is_finished : QueueState Url Payload → Bool
  is_finished s = Frontier.is_empty s.pending && is_nil s.in_flight

  unfoldable pub handled_count : QueueState Url Payload → ℕ
  handled_count s = s.handled_count

  unfoldable pub pending_count : QueueState Url Payload → ℕ
  pending_count s = Frontier.len s.pending

module _ {Url Payload : Type 0} (host_str : Url → Option Text) where
  abbrev push : Bool → Request Url Payload → QueueState Url Payload → QueueState Url Payload
  push forefront r s = record s {
    pending =
        if forefront
        then Frontier.push_front host_str r s.pending
        else Frontier.push_back host_str r s.pending;
  }

  unfoldable pub add_locked :
      QueueState Url Payload
      → Request Url Payload
      → AddOptions
      → QueueState Url Payload × ProcessedRequest
  add_locked s r opts = elim (get text_discrete r.unique_key s.dedup) [
    | some id ↦ (
      s,
      record {
        request_id = id;
        unique_key = r.unique_key;
        was_already_present = true;
        was_already_handled = contains text_discrete r.unique_key s.handled;
      },
    )
    | none ↦ (
      push opts.forefront r (record s { dedup = insert text_discrete r.unique_key r.id s.dedup }),
      record {
        request_id = r.id;
        unique_key = r.unique_key;
        was_already_present = false;
        was_already_handled = false;
      },
    )
  ]

  unfoldable pub add :
      QueueState Url Payload
      → Request Url Payload
      → AddOptions
      → QueueState Url Payload × StorageResult ProcessedRequest
  unfolding add_locked
  add s r opts = let (t, info) = add_locked s r opts in (t, ok info)

  -- The loop of `add_batch`; the handle that it returns is ready with these results.
  unfoldable pub add_all :
      QueueState Url Payload
      → List (RequestSource Url Payload)
      → AddOptions
      → QueueState Url Payload × List ProcessedRequest
  add_all s [] opts = (s, [])
  add_all s (RequestSource.request r ∷ sources) opts =
      let (t, info) = add_locked s r opts in
      let (u, infos) = add_all t sources opts in (u, info ∷ infos)

  unfoldable pub add_batch :
      QueueState Url Payload
      → List (RequestSource Url Payload)
      → AddOptions
      → QueueState Url Payload × StorageResult (List ProcessedRequest)
  unfolding add_all
  add_batch s sources opts = let (t, infos) = add_all s sources opts in (t, ok infos)

  unfoldable pub reclaim :
      QueueState Url Payload
      → Lease Url Payload
      → ReclaimOptions
      → QueueState Url Payload × StorageResult (Unit {0})
  unfolding remove_lease
  reclaim s lease opts = elim (remove_lease s lease.lease_id) [
    | err e ↦ (s, err e)
    | ok (leased, t) ↦ (push opts.forefront (counted opts lease.request) t, ok tt)
  ]

  unfoldable pub abandon :
      QueueState Url Payload → Lease Url Payload → QueueState Url Payload × StorageResult (Unit {0})
  unfolding remove_lease
  abandon s lease = elim (remove_lease s lease.lease_id) [
    | err e ↦ (s, err e)
    | ok (leased, t) ↦ (push true lease.request t, ok tt)
  ]

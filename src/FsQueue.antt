-- ===== src/FsQueue.antt =====
-- crates/millipede-storage-fs/src/queue.rs: the durable request queue. `state` is the memory of the process and
-- `disk` the directory of request files, one for each identifier. Every operation holds the queue's
-- mutex from its first line to its last. An `i64` order is kept as its distance from `i64::MIN`, so
-- orders compare as numbers and `i64_zero` is 0. The answer of the file system to a write is an
-- argument; the clock too, which `fetch_next` reads twice and the others at most once; a panic is `none`.
-- Times are unbounded; in the source `Instant` plus `Duration` panics past its end. The cache
-- `state.json` is never read back into the state.
pub mod Operations
pub mod Scan
pub mod Placed
pub mod Moves
pub mod Keys
pub mod Keeps
pub mod Fetching
pub mod Synced
pub mod Reachable
pub mod Durable
pub mod Reopening
pub mod Recovery
pub mod Failures
pub mod Once
use millipede.Prelude.{
  ℕ, ◌+◌, ◌-◌, min, Bool, true, false, ◌&&◌, List, [], ◌∷◌, Option, none, some, Text, codes,
  text_discrete, ℕ_discrete, if◌then◌else◌, ltb, leb, ◌==◌, length,
}
use millipede.Prelude.Table.{Table, get, insert, remove}
use millipede.Prelude.Words.{u32_inc, u64_max, u64_saturating_add}
use millipede.Request.{Request, RequestId}
use millipede.Storage.{
  StorageResult, ok, err, StorageError, backend, lease_not_found, Lease, AddOptions, ReclaimOptions,
  ProcessedRequest, RequestSource,
}
use millipede.Frontier.{is_nil}

abbrev pub lease_ttl : ℕ
lease_ttl = 180_000_000_000

abbrev pub i64_zero : ℕ
i64_zero = 0x8000_0000_0000_0000

abbrev pub i64_max : ℕ
i64_max = 0xffff_ffff_ffff_ffff

pub record StoredRequest (Url Payload : Type 0) : Type 0 where
  pub request : Request Url Payload
  pub order_no : Option ℕ

pub record QueueState (Url Payload : Type 0) : Type 0 where
  pub pending : Table ℕ RequestId
  pub dedup : Table Text (RequestId × Bool)
  pub leases : Table ℕ (RequestId × ℕ)
  pub requests : Table RequestId (StoredRequest Url Payload)
  pub handled_count : ℕ
  pub next_order : ℕ
  pub next_forefront_order : ℕ
  pub next_lease_id : ℕ

-- What a request file holds: an envelope of this library (or one of Crawlee, which is read the same way), a
-- request without one, or anything else. The JSON itself is read and written by serde.
pub data File (Url Payload : Type 0) : Type 0 where
  envelope : StoredRequest Url Payload → File Url Payload
  bare : Request Url Payload → File Url Payload
  unreadable : File Url Payload

pub record FsRequestQueue (Url Payload : Type 0) : Type 0 where
  pub state : QueueState Url Payload
  pub disk : Table RequestId (File Url Payload)

-- `BTreeMap`: the least key.
unfoldable pub first_key {ℓ} : {V : Type ℓ} → List (ℕ × V) → Option ℕ
first_key [] = none
first_key ((k, v) ∷ m) = elim (first_key m) [ none ↦ some k | some j ↦ some (min k j) ]

module _ {Url Payload : Type 0} where
  unfoldable pub empty : QueueState Url Payload
  empty = record {
    pending = [];
    dedup = [];
    leases = [];
    requests = [];
    handled_count = 0;
    next_order = i64_zero + 1;
    next_forefront_order = i64_zero - 1;
    next_lease_id = 0;
  }

  unfoldable pub take_order :
      Bool → QueueState Url Payload → StorageResult (ℕ × QueueState Url Payload)
  take_order true s =
      if s.next_forefront_order == 0
      then err (backend (codes "request queue forefront order exhausted"))
      else ok
          (s.next_forefront_order, record s { next_forefront_order = s.next_forefront_order - 1 })
  take_order false s =
      if s.next_order == i64_max
      then err (backend (codes "request queue order exhausted"))
      else ok (s.next_order, record s { next_order = s.next_order + 1 })

  pub order_of : RequestId → QueueState Url Payload → Option ℕ
  order_of id s = elim (get text_discrete id s.requests) [ none ↦ none | some r ↦ r.order_no ]

  unfoldable pub lease_request_id : QueueState Url Payload → ℕ → StorageResult RequestId
  lease_request_id s lease_id = elim (get ℕ_discrete lease_id s.leases) [
    | none ↦ err (lease_not_found lease_id)
    | some (id, expires_at) ↦ ok id
  ]

  unfoldable pub validate_unique_key :
      QueueState Url Payload → RequestId → Request Url Payload → StorageResult (Unit {0})
  validate_unique_key s id r = elim (get text_discrete r.unique_key s.dedup) [
    | none ↦ ok tt
    | some (known, handled) ↦ elim (text_discrete known id) [
      | yes p ↦ ok tt
      | no n ↦ err (backend (codes "request lease changed unique_key to an existing queue key"))
    ]
  ]

  -- The key that the request had before, if it changed, is forgotten.
  pub forget_old_key :
      QueueState Url Payload → RequestId → Request Url Payload → Table Text (RequestId × Bool)
  forget_old_key s id r = elim (get text_discrete id s.requests) [
    | none ↦ s.dedup
    | some previous ↦ elim (text_discrete previous.request.unique_key r.unique_key) [
      | yes p ↦ s.dedup
      | no n ↦ remove text_discrete previous.request.unique_key s.dedup
    ]
  ]

  unfoldable pub replace_stored_request :
      QueueState Url Payload
      → RequestId
      → Request Url Payload
      → Option ℕ
      → Bool
      → QueueState Url Payload
  replace_stored_request s id r order_no handled = record s {
    dedup = insert text_discrete r.unique_key (id, handled) (forget_old_key s id r);
    requests = insert text_discrete id (record { request = r; order_no = order_no }) s.requests;
  }

  -- A lease that ends without the request being handled.
  pub release : ℕ → QueueState Url Payload → QueueState Url Payload
  release lease_id s = elim (get ℕ_discrete lease_id s.leases) [
    | none ↦ s
    | some (id, expires_at) ↦ elim (order_of id s) [
      | none ↦ record s { leases = remove ℕ_discrete lease_id s.leases }
      | some order_no ↦ record s {
        leases = remove ℕ_discrete lease_id s.leases;
        pending = insert ℕ_discrete order_no id s.pending;
      }
    ]
  ]

  abbrev pub release_all : List ℕ → QueueState Url Payload → QueueState Url Payload
  release_all [] s = s
  release_all (lease_id ∷ ids) s = release_all ids (release lease_id s)

abbrev pub expired_in : ℕ → Table ℕ (RequestId × ℕ) → List ℕ
expired_in now [] = []
expired_in now ((lease_id, (id, expires_at)) ∷ leases) =
    let rest = expired_in now leases in if leb expires_at now then lease_id ∷ rest else rest

module _ {Url Payload : Type 0} where
  unfoldable pub reclaim_expired : QueueState Url Payload → ℕ → QueueState Url Payload
  reclaim_expired s now = release_all (expired_in now s.leases) s

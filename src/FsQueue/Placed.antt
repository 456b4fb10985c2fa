-- ===== src/FsQueue/Placed.antt =====
-- queue.rs (file system): where each stored request is, in memory and on disk.
use millipede.Prelude.{
  ℕ, ◌+◌, ◌≤◌, ◌<◌, ◌≡◌, refl, ite, Bool, true, false, not, Option, none, some, arith, Text,
  text_discrete, ℕ_discrete, if◌then◌else◌,
}
use millipede.Prelude.Table
use millipede.Prelude.Table.{Table, get, insert, remove, total, IsMap}
use millipede.Request.{RequestId}
use millipede.Frontier.Rotation.{is_some}
use millipede.MemoryQueue.Invariant.{bit}
use millipede.FsQueue.{
  StoredRequest, QueueState, FsRequestQueue, File, envelope, order_of, i64_zero, i64_max,
}

abbrev pub is_lease_of : RequestId → RequestId × ℕ → ℕ
is_lease_of id e = ite (text_discrete e.0 id) 1 0

abbrev pub at_order : RequestId → Table ℕ RequestId → Option ℕ → ℕ
at_order id pending none = 0
at_order id pending (some o) = elim (get ℕ_discrete o pending) [
  | none ↦ 0
  | some j ↦ ite (text_discrete j id) 1 0
]

abbrev pub at : ℕ → Option ℕ → Bool
at o none = false
at o (some p) = elim (ℕ_discrete o p) [ yes e ↦ true | no n ↦ false ]

pub at_order-insert :
    (j id : RequestId) (o : ℕ) (pending : Table ℕ RequestId) (x : Option ℕ)
    → at_order j (insert ℕ_discrete o id pending) x
      ≡ (if at o x then ite (text_discrete id j) 1 0 else at_order j pending x)
at_order-insert j id o pending none = refl
at_order-insert j id o pending (some p) = ground (arith, Table.get-insert ℕ_discrete o p id pending)

pub at_order-remove :
    (j : RequestId) (o : ℕ) (pending : Table ℕ RequestId) (x : Option ℕ)
    → at_order j (remove ℕ_discrete o pending) x ≡ (if at o x then 0 else at_order j pending x)
at_order-remove j o pending none = refl
at_order-remove j o pending (some p) = ground (arith, Table.get-remove ℕ_discrete o p pending)

module _ {Url Payload : Type 0} where
  abbrev pub key_of : RequestId → QueueState Url Payload → Option Text
  key_of id s = elim (get text_discrete id s.requests) [
    | none ↦ none
    | some r ↦ some r.request.unique_key
  ]

  -- How many leases the request has, and how often it is pending under its own order.
  abbrev pub leases_of : RequestId → QueueState Url Payload → ℕ
  leases_of id s = total ℕ_discrete (is_lease_of id) s.leases

  abbrev pub waits_of : RequestId → QueueState Url Payload → ℕ
  waits_of id s = at_order id s.pending (order_of id s)

  abbrev pub is_done : StoredRequest Url Payload → ℕ
  is_done r = bit (not (is_some r.order_no))

  pub record IsValid (s : QueueState Url Payload) : Type 0 where
    -- what is pending is stored under that order
    pub pending_order :
        (o : ℕ) (id : RequestId) → get ℕ_discrete o s.pending ≡ some id → order_of id s ≡ some o
    -- a request with an order is pending, or leased, once; one without is neither
    pub placed : (id : RequestId) → waits_of id s + leases_of id s ≡ bit (is_some (order_of id s))
    pub orders : (i j : RequestId) (o : ℕ) → order_of i s ≡ some o → order_of j s ≡ some o → i ≡ j
    pub above : (i : RequestId) (o : ℕ) → order_of i s ≡ some o → s.next_forefront_order < o
    pub below : (i : RequestId) (o : ℕ) → order_of i s ≡ some o → o < s.next_order
    pub spans :
        (s.next_forefront_order < i64_zero) × (i64_zero < s.next_order) × (s.next_order ≤ i64_max)
    pub leases : IsMap ℕ_discrete s.leases
    pub fresh : (l : ℕ) → s.next_lease_id ≤ l → get ℕ_discrete l s.leases ≡ none
    -- the key table knows each stored request by its key, and whether it is handled
    pub known :
        (k : Text) (id : RequestId) (h : Bool)
        → get text_discrete k s.dedup ≡ some (id, h)
        → (key_of id s ≡ some k) × (h ≡ not (is_some (order_of id s)))
    pub keyed :
        (k : Text) (id : RequestId)
        → key_of id s ≡ some k
        → get text_discrete k s.dedup ≡ some (id, not (is_some (order_of id s)))
    pub stored : IsMap text_discrete s.requests
    pub counted : s.handled_count ≡ total text_discrete is_done s.requests

  -- Each stored request has its file, under its identifier, and there are no other files.
  pub record Filed (disk : Table RequestId (File Url Payload))
      (requests : Table RequestId (StoredRequest Url Payload)) : Type 0 where
    pub unique : IsMap text_discrete disk
    pub named :
        (id : RequestId) (r : StoredRequest Url Payload)
        → get text_discrete id requests ≡ some r
        → r.request.id ≡ id
    pub files :
        (id : RequestId)
        → get text_discrete id disk
          ≡ elim (get text_discrete id requests) [ none ↦ none | some r ↦ some (envelope r) ]

  pub record IsSynced (q : FsRequestQueue Url Payload) : Type 0 where
    pub valid : IsValid q.state
    pub filed : Filed q.disk q.state.requests

  pub release-IsValid :
      (l : ℕ) (s : QueueState Url Payload) (id : RequestId) (t o : ℕ)
      → get ℕ_discrete l s.leases ≡ some (id, t)
      → order_of id s ≡ some o
      → IsValid s
      → IsValid (record s {
        leases = remove ℕ_discrete l s.leases;
        pending = insert ℕ_discrete o id s.pending;
      })
  unfolding order_of
  release-IsValid l s id t o e p v =
      let gone = λ (j : RequestId).
        Table.total-remove_present ℕ_discrete (is_lease_of j) l (id, t) s.leases v.leases e in
      record {
        pending_order = λ o' j.
            ground (arith, p, v.pending_order o' j, Table.get-insert ℕ_discrete o o' id s.pending);
        placed = λ j. ground (
          arith,
          p,
          v.placed j,
          gone j,
          v.orders j id o,
          at_order-insert j id o s.pending (order_of j s),
        );
        orders = v.orders;
        above = v.above;
        below = v.below;
        spans = v.spans;
        leases = Table.remove-IsMap ℕ_discrete l s.leases v.leases;
        fresh = λ i le. ground (arith, v.fresh i, Table.get-remove ℕ_discrete l i s.leases);
        known = v.known;
        keyed = v.keyed;
        stored = v.stored;
        counted = v.counted;
      }

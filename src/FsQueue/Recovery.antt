-- ===== src/FsQueue/Recovery.antt =====
-- queue.rs (file system), `scan_queue`: after a crash or a restart nothing that was accepted is lost.
use millipede.Prelude.{
  ℕ, ◌≤◌, ◌≡◌, refl, inl, inr, min, max, Bool, true, false, List, [], ◌∷◌, Option, none, some,
  arith, text_discrete, ℕ_discrete, Option-cases, length,
}
use millipede.Prelude.Table
use millipede.Prelude.Table.{Table, get, insert, remove, total, IsMap}
use millipede.Prelude.Words.{u64_max}
use millipede.Request.{Request, RequestId}
use millipede.Storage.{ok}
use millipede.FsQueue.{
  StoredRequest, QueueState, FsRequestQueue, File, envelope, bare, unreadable, order_of, i64_zero,
  empty,
}
use millipede.FsQueue.Scan.{decode_all, sort_files, counters, max_normal, min_forefront, scan_queue}
use millipede.FsQueue.Placed.{IsValid, IsSynced, is_done, at_order}
use millipede.FsQueue.Moves.{wider-IsValid}
use millipede.FsQueue.Durable.{Loading}
use millipede.FsQueue.Reachable.{empty-IsSynced}
use millipede.FsQueue.Reopening.{
  Loads, load_all-Loads, get-sort_files, sort_files-IsMap, length-sort_files,
}

at_once :
    (o : ℕ) (id : RequestId) (pending : Table ℕ RequestId)
    → at_order id pending (some o) ≡ 1
    → get ℕ_discrete o pending ≡ some id
at_once o id pending e = ground (arith, e)

module _ {Url Payload : Type 0} where
  max_normal-cons :
      (x : Request Url Payload) (y : Option ℕ) (b : Bool)
      (d : List (Request Url Payload × Option ℕ × Bool))
      → max_normal ((x, y, b) ∷ d) ≡ elim y [ none ↦ max_normal d | some o ↦ max o (max_normal d) ]
  unfolding max_normal
  max_normal-cons x none b d = refl
  max_normal-cons x (some o) b d = refl

  min_forefront-cons :
      (x : Request Url Payload) (y : Option ℕ) (b : Bool)
      (d : List (Request Url Payload × Option ℕ × Bool))
      → min_forefront ((x, y, b) ∷ d)
        ≡ elim y [ none ↦ min_forefront d | some o ↦ min o (min_forefront d) ]
  unfolding min_forefront
  min_forefront-cons x none b d = refl
  min_forefront-cons x (some o) b d = refl

  -- The orders lie between the two.
  bounded :
      (files : Table RequestId (File Url Payload)) (i : RequestId) (r : StoredRequest Url Payload)
      (o : ℕ)
      → get text_discrete i files ≡ some (envelope r)
      → r.order_no ≡ some o
      → (o ≤ max_normal (decode_all files)) × (min_forefront (decode_all files) ≤ o)
  unfolding decode_all get
  bounded [] i r o e p = ground arith
  bounded ((j, envelope x) ∷ files) i r o e p =
      let d = decode_all files in
      ground (
        arith,
        e,
        p,
        bounded files i r o,
        max_normal-cons x.request x.order_no false d,
        min_forefront-cons x.request x.order_no false d,
      )
  bounded ((j, bare x) ∷ files) i r o e p =
      let d = decode_all files in
      ground (
        arith,
        e,
        p,
        bounded files i r o,
        max_normal-cons x none true d,
        min_forefront-cons x none true d,
      )
  bounded ((j, unreadable) ∷ files) i r o e p = ground (arith, e, bounded files i r o)

  max_normal-ge : (d : List (Request Url Payload × Option ℕ × Bool)) → i64_zero ≤ max_normal d
  unfolding max_normal
  max_normal-ge [] = omega arith
  max_normal-ge ((x, none, b) ∷ d) = max_normal-ge d
  max_normal-ge ((x, some o, b) ∷ d) = let k = max_normal-ge d in omega arith

  counters-IsValid : (d : List (Request Url Payload × Option ℕ × Bool)) → IsValid (counters d)
  unfolding counters empty
  counters-IsValid d =
      let s = counters d in
      wider-IsValid empty s.next_order s.next_forefront_order
        (let k = max_normal-ge d in omega arith) (omega arith) (ground arith) empty-IsSynced.valid

  -- The files of a queue, sorted, are ready to load.
  start :
      (q : FsRequestQueue Url Payload)
      → length q.disk ≤ u64_max
      → IsSynced q
      → Loading q.state (sort_files q.disk) (counters (decode_all (sort_files q.disk)))
  unfolding counters empty order_of get
  start q room v =
      let files = sort_files q.disk in
      let d = decode_all files in
      let at_ = λ (i : RequestId). get-sort_files i q.disk v.filed.unique in
      record {
        valid = counters-IsValid d;
        idle = refl;
        ahead = λ i f e. elim (Option-cases (get text_discrete i q.state.requests)) [
          | inl g ↦ ground (arith, e, g, at_ i, v.filed.files i)
          | inr (x, g) ↦ (x, ground (arith, e, g, at_ i, v.filed.files i), g)
        ];
        loaded = λ i r. ground arith;
        range = λ i o e. elim (Option-cases (get text_discrete i q.state.requests)) [
          | inl g ↦ ground (arith, e, g)
          | inr (x, g) ↦
              let own : x.order_no ≡ some o = ground (arith, e, g) in
              let between = bounded files i x o (ground (arith, g, at_ i, v.filed.files i)) own in
              ground (arith, between, v.valid.below i o, v.valid.above i o, v.valid.spans, e)
        ];
        room = ground (arith, room, length-sort_files q.disk);
      }

  -- The queue that a new process opens on the directory of `q`.
  pub record Reopens (q : FsRequestQueue Url Payload) (t : QueueState Url Payload) : Type 0 where
    pub answer : scan_queue q.disk ≡ ok t
    pub synced : IsSynced (record { state = t; disk = q.disk })
    pub requests :
        (id : RequestId) → get text_discrete id t.requests ≡ get text_discrete id q.state.requests
    pub again :
        (id : RequestId) (o : ℕ)
        → order_of id q.state ≡ some o
        → get ℕ_discrete o t.pending ≡ some id
    pub no_leases : t.leases ≡ []
    pub handled : t.handled_count ≡ q.state.handled_count

  Loads-same :
      (q : FsRequestQueue Url Payload) (t : QueueState Url Payload)
      → IsSynced q
      → Loads q.state (counters (decode_all (sort_files q.disk))) (sort_files q.disk) t
      → (id : RequestId) → get text_discrete id t.requests ≡ get text_discrete id q.state.requests
  Loads-same q t v l id = elim (Option-cases (get text_discrete id q.state.requests)) [
    | inr (x, g) ↦
        ground (arith, g, l.all id x, get-sort_files id q.disk v.filed.unique, v.filed.files id)
    | inl g ↦ elim (Option-cases (get text_discrete id t.requests)) [
      | inl h ↦ ground (arith, g, h)
      | inr (x, h) ↦ ground (arith, g, h, l.end.loaded id x)
    ]
  ]

  Loads-Reopens :
      (q : FsRequestQueue Url Payload) (t : QueueState Url Payload)
      → IsSynced q
      → Loads q.state (counters (decode_all (sort_files q.disk))) (sort_files q.disk) t
      → Reopens q t
  unfolding scan_queue order_of total
  Loads-Reopens q t v l =
      let same = Loads-same q t v l in
      record {
        answer = l.answer;
        synced = record {
          valid = l.end.valid;
          filed = record {
            unique = v.filed.unique;
            named = λ id r e. v.filed.named id r (ground (arith, e, same id));
            files = λ id. ground (arith, same id, v.filed.files id);
          };
        };
        requests = same;
        again = λ id o e.
            at_once o id t.pending (ground (arith, e, same id, l.end.idle, l.end.valid.placed id));
        no_leases = l.end.idle;
        handled = ground (
          arith,
          l.end.valid.counted,
          v.valid.counted,
          Table.total-ext text_discrete is_done t.requests q.state.requests l.end.valid.stored
              v.valid.stored same,
        );
      }

  -- From a queue whose memory and directory are in step, with at most 2^64 - 1 files, a new process
  -- always gets a queue, and memory and directory are in step again. It has the same stored requests with the
  -- same contents and orders. Each request that was pending or leased is pending under its order,
  -- nothing is leased, and the handled requests and their count are as before.
  pub scan_queue-Reopens :
      (q : FsRequestQueue Url Payload)
      → length q.disk ≤ u64_max
      → IsSynced q
      → (t : QueueState Url Payload) × Reopens q t
  scan_queue-Reopens q room v =
      let files = sort_files q.disk in
      let (t, l) =
        load_all-Loads q.state (counters (decode_all files)) files v.valid v.filed.named
          (sort_files-IsMap q.disk v.filed.unique) (start q room v) in
      (t, Loads-Reopens q t v l)

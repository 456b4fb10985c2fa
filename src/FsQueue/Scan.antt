-- ===== src/FsQueue/Scan.antt =====
-- queue.rs (file system), `scan_queue`: the state that a process starts with, from the request files in the
-- order of their names. Errors of reading the directory are not modelled.
use millipede.Prelude.{
  ℕ, ◌+◌, ◌-◌, min, max, Bool, true, false, List, [], ◌∷◌, ◌++◌, codes, Option, none, some, Text,
  text_discrete, ℕ_discrete, if◌then◌else◌, ltb,
}
use millipede.Prelude.Table.{Table, get, insert}
use millipede.Prelude.Words.{u64_saturating_add}
use millipede.Request.{Request, RequestId}
use millipede.Storage.{StorageResult, ok, err}
use millipede.FsQueue.{
  QueueState, File, envelope, bare, unreadable, empty, take_order, i64_zero, i64_max,
}

-- A lower name comes first.
abbrev before : Text → Text → Bool
before [] y = true
before (a ∷ x) [] = false
before (a ∷ x) (b ∷ y) =
    let rest = before x y in if ltb a b then true else if ltb b a then false else rest

abbrev file_name : RequestId → Text
file_name id = id ++ codes ".json"

module _ {Url Payload : Type 0} where
  -- `decode_request`: the request, its order, and whether it came without an envelope.
  abbrev pub decode_request : File Url Payload → Option (Request Url Payload × Option ℕ × Bool)
  decode_request (envelope r) = some (r.request, r.order_no, false)
  decode_request (bare r) = some (r, none, true)
  decode_request unreadable = none

  -- `files.sort_unstable()`, by insertion
  unfoldable pub insert_file :
      RequestId × File Url Payload
      → Table RequestId (File Url Payload)
      → Table RequestId (File Url Payload)
  insert_file f [] = f ∷ []
  insert_file f (g ∷ files) =
      let rest = insert_file f files in
      if before (file_name f.0) (file_name g.0) then f ∷ g ∷ files else g ∷ rest

  unfoldable pub sort_files :
      Table RequestId (File Url Payload) → Table RequestId (File Url Payload)
  sort_files [] = []
  sort_files (f ∷ files) = insert_file f (sort_files files)

  unfoldable pub decode_all :
      Table RequestId (File Url Payload) → List (Request Url Payload × Option ℕ × Bool)
  decode_all [] = []
  decode_all ((id, file) ∷ files) =
      let rest = decode_all files in elim (decode_request file) [ none ↦ rest | some r ↦ r ∷ rest ]

  -- The greatest order above 0, or 0, and the least below it, or 0.
  unfoldable pub max_normal : List (Request Url Payload × Option ℕ × Bool) → ℕ
  max_normal [] = i64_zero
  max_normal ((r, none, b) ∷ decoded) = max_normal decoded
  max_normal ((r, some o, b) ∷ decoded) = max o (max_normal decoded)

  unfoldable pub min_forefront : List (Request Url Payload × Option ℕ × Bool) → ℕ
  min_forefront [] = i64_zero
  min_forefront ((r, none, b) ∷ decoded) = min_forefront decoded
  min_forefront ((r, some o, b) ∷ decoded) = min o (min_forefront decoded)

  unfoldable pub counters : List (Request Url Payload × Option ℕ × Bool) → QueueState Url Payload
  counters decoded = record empty {
    next_order = min (max_normal decoded + 1) i64_max;
    next_forefront_order =
        if ltb (min_forefront decoded) i64_zero then min_forefront decoded - 1 else i64_zero - 1;
  }

  -- The order that a decoded request gets: a bare one, and one whose order is taken, a new one.
  unfoldable pub place :
      QueueState Url Payload → Option ℕ → Bool → StorageResult (Option ℕ × QueueState Url Payload)
  place s disk_order true = elim (take_order false s) [ err e ↦ err e | ok (o, t) ↦ ok (some o, t) ]
  place s none false = ok (none, s)
  place s (some o) false = elim (get ℕ_discrete o s.pending) [
    | none ↦ ok (some o, s)
    | some taken ↦ elim (take_order false s) [ err e ↦ err e | ok (p, t) ↦ ok (some p, t) ]
  ]

  unfoldable pub load :
      QueueState Url Payload → Request Url Payload → Option ℕ → QueueState Url Payload
  load s r none = record s {
    handled_count = u64_saturating_add s.handled_count 1;
    dedup = insert text_discrete r.unique_key (r.id, true) s.dedup;
    requests = insert text_discrete r.id (record { request = r; order_no = none }) s.requests;
  }
  load s r (some o) = record s {
    pending = insert ℕ_discrete o r.id s.pending;
    dedup = insert text_discrete r.unique_key (r.id, false) s.dedup;
    requests = insert text_discrete r.id (record { request = r; order_no = some o }) s.requests;
  }

  unfoldable pub load_all :
      QueueState Url Payload
      → List (Request Url Payload × Option ℕ × Bool)
      → StorageResult (QueueState Url Payload)
  load_all s [] = ok s
  load_all s ((r, disk_order, b) ∷ decoded) = elim (place s disk_order b) [
    | err e ↦ err e
    | ok (order_no, t) ↦ load_all (load t r order_no) decoded
  ]

  unfoldable pub scan_queue :
      Table RequestId (File Url Payload) → StorageResult (QueueState Url Payload)
  scan_queue disk =
      let decoded = decode_all (sort_files disk) in load_all (counters decoded) decoded

-- ===== src/FsQueue/Durable.antt =====
-- queue.rs (file system), `scan_queue`: what one file adds to the state that is being loaded.
use millipede.Prelude.{
  ℕ, ◌+◌, ◌≤◌, ◌<◌, ◌≡◌, ◌≢◌, refl, inl, inr, true, [], ◌∷◌, Option, none, some, arith, Text,
  text_discrete, ℕ_discrete, Option-cases, length,
}
use millipede.Prelude.Table
use millipede.Prelude.Table.{Table, get, insert, remove, total, IsMap}
use millipede.Prelude.Words.{u64_max}
use millipede.Request.{Request, RequestId}
use millipede.FsQueue.{StoredRequest, QueueState, File, envelope, order_of}
use millipede.FsQueue.Scan.{load}
use millipede.FsQueue.Placed.{IsValid, is_done, key_of}
use millipede.FsQueue.Moves.{Fresh}
use millipede.FsQueue.Keys.{added-IsValid}

module _ {Url Payload : Type 0} where
  -- `g` is the state that wrote the files, `files` are those still to load, `s` is loaded so far.
  pub record Loading (g : QueueState Url Payload) (files : Table RequestId (File Url Payload))
      (s : QueueState Url Payload) : Type 0 where
    pub valid : IsValid s
    pub idle : s.leases ≡ []
    pub ahead :
        (id : RequestId) (f : File Url Payload)
        → get text_discrete id files ≡ some f
        → (r : StoredRequest Url Payload) × (f ≡ envelope r)
          × (get text_discrete id g.requests ≡ some r)
    pub loaded :
        (id : RequestId) (r : StoredRequest Url Payload)
        → get text_discrete id s.requests ≡ some r
        → (get text_discrete id g.requests ≡ some r) × (get text_discrete id files ≡ none)
    pub range :
        (id : RequestId) (o : ℕ)
        → order_of id g ≡ some o
        → (s.next_forefront_order < o) × (o < s.next_order)
    pub room : s.handled_count + length files ≤ u64_max

  -- The state once a handled request is loaded.
  loaded_done-IsValid :
      (s : QueueState Url Payload) (r : Request Url Payload)
      → get text_discrete r.id s.requests ≡ none
      → get text_discrete r.unique_key s.dedup ≡ none
      → s.handled_count < u64_max
      → IsValid s
      → IsValid (load s r none)
  unfolding load order_of
  loaded_done-IsValid s r e d room v =
      let sr : StoredRequest Url Payload = record { request = r; order_no = none } in
      let at_ = λ (j : RequestId). Table.get-insert text_discrete r.id j sr s.requests in
      record {
        pending_order = λ o j. ground (arith, v.pending_order o j, at_ j);
        placed = λ j. ground (arith, v.placed j, at_ j);
        orders = λ i j p. ground (arith, v.orders i j p, at_ i, at_ j);
        above = λ i p. ground (arith, v.above i p, at_ i);
        below = λ i p. ground (arith, v.below i p, at_ i);
        spans = v.spans;
        leases = v.leases;
        fresh = v.fresh;
        known = λ k j h. ground (
          arith,
          v.known k j h,
          at_ j,
          Table.get-insert text_discrete r.unique_key k (r.id, true) s.dedup,
        );
        keyed = λ k j. ground (
          arith,
          v.keyed k j,
          at_ j,
          Table.get-insert text_discrete r.unique_key k (r.id, true) s.dedup,
        );
        stored = Table.insert-IsMap text_discrete r.id sr s.requests v.stored;
        counted =
            let a = Table.total-insert_absent text_discrete is_done r.id sr s.requests e in
            ground (arith, a, v.counted, room);
      }

  -- The next file, and what is known of it.
  pub record Next (g s : QueueState Url Payload) (r : StoredRequest Url Payload) : Type 0 where
    pub absent : get text_discrete r.request.id s.requests ≡ none
    pub new_key : get text_discrete r.request.unique_key s.dedup ≡ none
    pub new_order : (o : ℕ) → r.order_no ≡ some o → (i : RequestId) → order_of i s ≢ some o
    pub free : (o : ℕ) → r.order_no ≡ some o → get ℕ_discrete o s.pending ≡ none
    pub between : (o : ℕ) → r.order_no ≡ some o → (s.next_forefront_order < o) × (o < s.next_order)

  -- What is loaded is as it was written, and is no longer ahead.
  loaded_order :
      (g s : QueueState Url Payload) (files : Table RequestId (File Url Payload)) (i : RequestId)
      (o : ℕ)
      → Loading g files s
      → order_of i s ≡ some o
      → (order_of i g ≡ some o) × (get text_discrete i files ≡ none)
  unfolding order_of
  loaded_order g s files i o l e = elim (Option-cases (get text_discrete i s.requests)) [
    | inl f ↦ ground (arith, e, f)
    | inr (x, f) ↦ ground (arith, e, f, l.loaded i x f)
  ]

  loaded_key :
      (g s : QueueState Url Payload) (files : Table RequestId (File Url Payload)) (i : RequestId)
      (k : Text)
      → Loading g files s
      → key_of i s ≡ some k
      → (key_of i g ≡ some k) × (get text_discrete i files ≡ none)
  loaded_key g s files i k l e = elim (Option-cases (get text_discrete i s.requests)) [
    | inl f ↦ ground (arith, e, f)
    | inr (x, f) ↦ ground (arith, e, f, l.loaded i x f)
  ]

  module _ (g s : QueueState Url Payload) (r : StoredRequest Url Payload)
      (files : Table RequestId (File Url Payload)) (w : IsValid g)
      (e : get text_discrete r.request.id g.requests ≡ some r)
      (l : Loading g ((r.request.id, envelope r) ∷ files) s) where
    abbrev ahead_of : Table RequestId (File Url Payload)
    ahead_of = (r.request.id, envelope r) ∷ files

    next_absent : get text_discrete r.request.id s.requests ≡ none
    unfolding get
    next_absent = elim (Option-cases (get text_discrete r.request.id s.requests)) [
      | inl f ↦ f
      | inr (x, f) ↦ ground (arith, l.loaded r.request.id x f)
    ]

    next_key : get text_discrete r.request.unique_key s.dedup ≡ none
    unfolding get
    next_key = elim (Option-cases (get text_discrete r.request.unique_key s.dedup)) [
      | inl f ↦ f
      | inr ((j, h), f) ↦
          let own = w.keyed r.request.unique_key r.request.id (ground (arith, e)) in
          let k =
            loaded_key g s ahead_of j r.request.unique_key l
              (l.valid.known r.request.unique_key j h f).0 in
          ground (arith, own, k, w.keyed r.request.unique_key j k.0)
    ]

    next_order_of : (o : ℕ) → r.order_no ≡ some o → (order_of r.request.id g ≡ some o)
    unfolding order_of
    next_order_of o p = ground (arith, p, e)

    next_order : (o : ℕ) → r.order_no ≡ some o → (i : RequestId) → order_of i s ≢ some o
    unfolding get
    next_order o p i q =
        let k = loaded_order g s ahead_of i o l q in
        ground (arith, k, w.orders i r.request.id o k.0 (next_order_of o p))

    next_free : (o : ℕ) → r.order_no ≡ some o → get ℕ_discrete o s.pending ≡ none
    next_free o p = elim (Option-cases (get ℕ_discrete o s.pending)) [
      | inl f ↦ f
      | inr (i, f) ↦ elim (next_order o p i (l.valid.pending_order o i f)) [ ]
    ]

    pub ahead-Next : Next g s r
    ahead-Next = record {
      absent = next_absent;
      new_key = next_key;
      new_order = next_order;
      free = next_free;
      between = λ o p. l.range r.request.id o (next_order_of o p);
    }

    -- Loading it keeps account.
    pub next_Loading : IsMap text_discrete ahead_of → Loading g files (load s r.request r.order_no)
    unfolding load order_of get
    next_Loading u = with_order r.order_no refl
      where
        with_order : (x : Option ℕ) → r.order_no ≡ x → Loading g files (load s r.request x)
        with_order none p =
            let sr : StoredRequest Url Payload = record { request = r.request; order_no = none } in
            let same : sr ≡ r = ground (arith, p) in
            record {
              valid =
                  loaded_done-IsValid s r.request next_absent next_key
                    (let k = l.room in omega arith) l.valid;
              idle = l.idle;
              ahead = λ i f q. l.ahead i f (ground (arith, u, q));
              loaded = λ i x q. ground (
                arith,
                same,
                e,
                u,
                q,
                Table.get-insert text_discrete r.request.id i sr s.requests,
                l.loaded i x,
              );
              range = l.range;
              room = let k = l.room in ground (arith, k);
            }
        with_order (some o) p =
            let sr : StoredRequest Url Payload = record {
              request = r.request;
              order_no = some o;
            } in
            let same : sr ≡ r = ground (arith, p) in
            let fresh : Fresh s o = record {
              valid = l.valid;
              unused = next_order o p;
              bounds = l.range r.request.id o (next_order_of o p);
            } in
            record {
              valid = added-IsValid s o r.request next_absent next_key fresh;
              idle = l.idle;
              ahead = λ i f q. l.ahead i f (ground (arith, u, q));
              loaded = λ i x q. ground (
                arith,
                same,
                e,
                u,
                q,
                Table.get-insert text_discrete r.request.id i sr s.requests,
                l.loaded i x,
              );
              range = l.range;
              room = let k = l.room in ground (arith, k);
            }

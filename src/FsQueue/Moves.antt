-- ===== src/FsQueue/Moves.antt =====
-- queue.rs (file system): orders and leases. What taking an order, giving a lease back and lending leave valid.
use millipede.Prelude.{
  ℕ, ◌+◌, ◌-◌, ◌≤◌, ◌<◌, ◌≡◌, ◌≢◌, ap, refl, inl, inr, Bool, true, false, List, [], ◌∷◌, none, some,
  arith, ℕ_discrete, Option-cases,
}
use millipede.Prelude.Table
use millipede.Prelude.Table.{Table, get, insert, remove, total, IsMap}
use millipede.Request.{RequestId}
use millipede.Storage.{ok}
use millipede.FsQueue.{
  QueueState, order_of, release, release_all, reclaim_expired, expired_in, take_order, i64_max,
  lease_ttl,
}
use millipede.FsQueue.Placed.{IsValid, is_lease_of, at_order-remove, release-IsValid}

module _ {Url Payload : Type 0} where
  pub leased_order :
      (l : ℕ) (s : QueueState Url Payload) (id : RequestId) (t : ℕ)
      → get ℕ_discrete l s.leases ≡ some (id, t)
      → order_of id s ≡ none
      → IsValid s
      → ⊥
  leased_order l s id t e f v = ground (
    arith,
    v.placed id,
    Table.total-remove_present ℕ_discrete (is_lease_of id) l (id, t) s.leases v.leases e,
  )

  pub release_lem : (l : ℕ) (s : QueueState Url Payload) → IsValid s → IsValid (release l s)
  unfolding release
  release_lem l s v = elim (Option-cases (get ℕ_discrete l s.leases)) [
    | inl e ↦ (rw (release, e) v)
    | inr ((id, t), e) ↦ elim (Option-cases (order_of id s)) [
      | inl f ↦ elim (leased_order l s id t e f v) [ ]
      | inr (o, f) ↦ rw (release, e, f) (release-IsValid l s id t o e f v)
    ]
  ]

  pub release_all-IsValid :
      (ids : List ℕ) (s : QueueState Url Payload) → IsValid s → IsValid (release_all ids s)
  release_all-IsValid [] s v = v
  release_all-IsValid (l ∷ ids) s v = release_all-IsValid ids (release l s) (release_lem l s v)

  pub reclaim_expired-IsValid :
      (s : QueueState Url Payload) (now : ℕ) → IsValid s → IsValid (reclaim_expired s now)
  unfolding reclaim_expired
  reclaim_expired-IsValid s now v = release_all-IsValid (expired_in now s.leases) s v

  -- The state after a request is taken out of the pending ones and lent.
  abbrev pub lent_state : QueueState Url Payload → ℕ → RequestId → ℕ → QueueState Url Payload
  lent_state s o id now = record s {
    pending = remove ℕ_discrete o s.pending;
    next_lease_id = s.next_lease_id + 1;
    leases = insert ℕ_discrete s.next_lease_id (id, now + lease_ttl) s.leases;
  }

  pub lent-IsValid :
      (s : QueueState Url Payload) (o : ℕ) (id : RequestId) (now : ℕ)
      → get ℕ_discrete o s.pending ≡ some id
      → IsValid s
      → IsValid (lent_state s o id now)
  unfolding order_of
  lent-IsValid s o id now e v =
      let n = s.next_lease_id in
      let free = v.fresh n (omega arith) in
      let added = λ (j : RequestId).
        Table.total-insert_absent ℕ_discrete (is_lease_of j) n (id, now + lease_ttl) s.leases
          free in
      record {
        pending_order = λ o' j.
            ground (arith, v.pending_order o' j, Table.get-remove ℕ_discrete o o' s.pending);
        placed = λ j. ground (
          arith,
          e,
          v.pending_order o id e,
          v.placed j,
          added j,
          v.orders j id o,
          at_order-remove j o s.pending (order_of j s),
        );
        orders = v.orders;
        above = v.above;
        below = v.below;
        spans = v.spans;
        leases =
            ground (arith, Table.insert-IsMap ℕ_discrete n (id, now + lease_ttl) s.leases v.leases);
        fresh = λ i le.
            ground
              (arith, v.fresh i, Table.get-insert ℕ_discrete n i (id, now + lease_ttl) s.leases);
        known = v.known;
        keyed = v.keyed;
        stored = v.stored;
        counted = v.counted;
      }

  pub renewed-IsValid :
      (s : QueueState Url Payload) (l : ℕ) (id : RequestId) (t u : ℕ)
      → get ℕ_discrete l s.leases ≡ some (id, t)
      → IsValid s
      → IsValid (record s { leases = insert ℕ_discrete l (id, u) s.leases })
  unfolding order_of
  renewed-IsValid s l id t u e v =
      let kept = λ (j : RequestId).
        Table.total-insert_present ℕ_discrete (is_lease_of j) l (id, u) (id, t) s.leases e in
      record {
        pending_order = v.pending_order;
        placed = λ j. ground (arith, v.placed j, kept j);
        orders = v.orders;
        above = v.above;
        below = v.below;
        spans = v.spans;
        leases = Table.insert-IsMap ℕ_discrete l (id, u) s.leases v.leases;
        fresh =
            λ i le. ground (arith, v.fresh i, e, Table.get-insert ℕ_discrete l i (id, u) s.leases);
        known = v.known;
        keyed = v.keyed;
        stored = v.stored;
        counted = v.counted;
      }

  -- A new order: above all orders so far, or below all of them.
  abbrev pub next_of : Bool → QueueState Url Payload → ℕ
  next_of true s = s.next_forefront_order
  next_of false s = s.next_order

  abbrev pub moved_on : Bool → QueueState Url Payload → QueueState Url Payload
  moved_on true s = record s { next_forefront_order = s.next_forefront_order - 1 }
  moved_on false s = record s { next_order = s.next_order + 1 }

  pub take_order_ok :
      (f : Bool) (s : QueueState Url Payload) (o : ℕ) (t : QueueState Url Payload)
      → take_order f s ≡ ok (o, t)
      → (o ≡ next_of f s) × (t ≡ moved_on f s)
  unfolding take_order
  take_order_ok true s o t e = ground arith
  take_order_ok false s o t e = ground arith

  pub record Fresh (s : QueueState Url Payload) (o : ℕ) : Type 0 where
    pub valid : IsValid s
    pub unused : (i : RequestId) → order_of i s ≢ some o
    pub bounds : (s.next_forefront_order < o) × (o < s.next_order)

  pub wider-IsValid :
      (s : QueueState Url Payload) (a b : ℕ)
      → s.next_order ≤ a
      → a ≤ i64_max
      → b ≤ s.next_forefront_order
      → IsValid s
      → IsValid (record s { next_order = a; next_forefront_order = b })
  unfolding order_of
  wider-IsValid s a b g m h v = record {
    pending_order = v.pending_order;
    placed = v.placed;
    orders = v.orders;
    above = λ i p q. let k = v.above i p q in omega arith;
    below = λ i p q. let k = v.below i p q in omega arith;
    spans = let k = v.spans in (omega arith, omega arith, m);
    leases = v.leases;
    fresh = v.fresh;
    known = v.known;
    keyed = v.keyed;
    stored = v.stored;
    counted = v.counted;
  }

  pub moved_on-Fresh :
      (f : Bool) (s : QueueState Url Payload) (o : ℕ) (t : QueueState Url Payload)
      → take_order f s ≡ ok (o, t)
      → IsValid s
      → Fresh (moved_on f s) (next_of f s)
  unfolding take_order order_of
  moved_on-Fresh true s o t e v = record {
    valid =
        wider-IsValid s s.next_order (s.next_forefront_order - 1) (omega arith)
          (let k = v.spans in omega arith) (omega arith) v;
    unused = λ i q. let k = v.above i s.next_forefront_order q in omega arith;
    bounds = let k = v.spans in ground (arith, e);
  }
  moved_on-Fresh false s o t e v = record {
    valid =
        wider-IsValid s (s.next_order + 1) s.next_forefront_order (omega arith)
          (let k = v.spans in ground (arith, e)) (omega arith) v;
    unused = λ i q. let k = v.below i s.next_order q in omega arith;
    bounds = let k = v.spans in ground (arith, e);
  }

  pub record Taken (s : QueueState Url Payload) (o : ℕ) (t : QueueState Url Payload) : Type 0 where
    pub fresh : Fresh t o
    pub requests : t.requests ≡ s.requests
    pub dedup : t.dedup ≡ s.dedup
    pub leases : t.leases ≡ s.leases
    pub pending : t.pending ≡ s.pending
    pub handled_count : t.handled_count ≡ s.handled_count
    pub next_lease_id : t.next_lease_id ≡ s.next_lease_id

  pub take_order-Taken :
      (f : Bool) (s : QueueState Url Payload) (o : ℕ) (t : QueueState Url Payload)
      → take_order f s ≡ ok (o, t)
      → IsValid s
      → Taken s o t
  take_order-Taken f s o t e v =
      let p = take_order_ok f s o t e in
      rw (p.0, p.1)
        (record {
          fresh = moved_on-Fresh f s o t e v;
          requests = ap (λ x. x.requests) (rest f);
          dedup = ap (λ x. x.dedup) (rest f);
          leases = ap (λ x. x.leases) (rest f);
          pending = ap (λ x. x.pending) (rest f);
          handled_count = ap (λ x. x.handled_count) (rest f);
          next_lease_id = ap (λ x. x.next_lease_id) (rest f);
        })
    where
      rest :
          (f : Bool)
          → moved_on f s ≡ record s {
            next_order = (moved_on f s).next_order;
            next_forefront_order = (moved_on f s).next_forefront_order;
          }
      rest true = refl
      rest false = refl

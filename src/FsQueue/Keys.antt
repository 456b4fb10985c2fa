-- ===== src/FsQueue/Keys.antt =====
-- queue.rs (file system): what adding a request, giving it back and marking it handled write.
use millipede.Prelude.{
  ℕ, ◌≡◌, ite, inl, inr, false, none, some, arith, Text, text_discrete, ℕ_discrete, Option-cases,
}
use millipede.Prelude.Table
use millipede.Prelude.Table.{Table, get, insert, remove, total, IsMap}
use millipede.Request.{Request, RequestId}
use millipede.FsQueue.{StoredRequest, QueueState, order_of, forget_old_key}
use millipede.FsQueue.Placed.{IsValid, waits_of, leases_of, is_lease_of, is_done, at_order-insert}
use millipede.FsQueue.Moves.{Fresh, leased_order}

module _ {Url Payload : Type 0} where
  -- The state after a new request is added under a new order.
  abbrev pub added_state : QueueState Url Payload → ℕ → Request Url Payload → QueueState Url Payload
  added_state s o r = record s {
    pending = insert ℕ_discrete o r.id s.pending;
    dedup = insert text_discrete r.unique_key (r.id, false) s.dedup;
    requests = insert text_discrete r.id (record { request = r; order_no = some o }) s.requests;
  }

  no_leases :
      (id : RequestId) (s : QueueState Url Payload)
      → get text_discrete id s.requests ≡ none
      → IsValid s
      → leases_of id s ≡ 0
  unfolding order_of
  no_leases id s e v = ground (arith, v.placed id)

  pub added-IsValid :
      (s : QueueState Url Payload) (o : ℕ) (r : Request Url Payload)
      → get text_discrete r.id s.requests ≡ none
      → get text_discrete r.unique_key s.dedup ≡ none
      → Fresh s o
      → IsValid (added_state s o r)
  unfolding order_of
  added-IsValid s o r e d f =
      let v = f.valid in
      let sr : StoredRequest Url Payload = record { request = r; order_no = some o } in
      let at_ = λ (j : RequestId). Table.get-insert text_discrete r.id j sr s.requests in
      record {
        pending_order = λ o' j.
            ground
              (arith, v.pending_order o' j, at_ j, Table.get-insert ℕ_discrete o o' r.id s.pending);
        placed = λ j. ground (
          arith,
          v.placed j,
          f.unused j,
          at_ j,
          no_leases r.id s e v,
          at_order-insert j r.id o s.pending (order_of j s),
          at_order-insert j r.id o s.pending (some o),
        );
        orders = λ i j p. ground (arith, v.orders i j p, f.unused i, f.unused j, at_ i, at_ j);
        above = λ i p. ground (arith, v.above i p, f.bounds, at_ i);
        below = λ i p. ground (arith, v.below i p, f.bounds, at_ i);
        spans = v.spans;
        leases = v.leases;
        fresh = v.fresh;
        known = λ k j h. ground (
          arith,
          v.known k j h,
          at_ j,
          Table.get-insert text_discrete r.unique_key k (r.id, false) s.dedup,
        );
        keyed = λ k j. ground (
          arith,
          v.keyed k j,
          at_ j,
          Table.get-insert text_discrete r.unique_key k (r.id, false) s.dedup,
        );
        stored = Table.insert-IsMap text_discrete r.id sr s.requests v.stored;
        counted =
            let a = Table.total-insert_absent text_discrete is_done r.id sr s.requests e in
            ground (arith, a, v.counted);
      }

  pub get-forget_old_key :
      (s : QueueState Url Payload) (id : RequestId) (old : StoredRequest Url Payload)
      (r : Request Url Payload) (k : Text)
      → get text_discrete id s.requests ≡ some old
      → get text_discrete k (forget_old_key s id r)
        ≡ elim (text_discrete old.request.unique_key r.unique_key) [
          | yes p ↦ get text_discrete k s.dedup
          | no n ↦ ite (text_discrete old.request.unique_key k) none (get text_discrete k s.dedup)
        ]
  unfolding forget_old_key
  get-forget_old_key s id old r k e =
      ground (arith, e, Table.get-remove text_discrete old.request.unique_key k s.dedup)

  -- A request that is leased is stored, with an order.
  pub data Held (s : QueueState Url Payload) (l : ℕ) (id : RequestId) : Type 0 where
    held :
        (old : StoredRequest Url Payload) (p : ℕ)
        → get text_discrete id s.requests ≡ some old
        → old.order_no ≡ some p
        → order_of id s ≡ some p
        → waits_of id s ≡ 0
        → leases_of id s ≡ 1
        → Held s l id

  pub leased-Held :
      (s : QueueState Url Payload) (l : ℕ) (id : RequestId) (t : ℕ)
      → get ℕ_discrete l s.leases ≡ some (id, t)
      → IsValid s
      → Held s l id
  unfolding order_of
  leased-Held s l id t e v =
      let out =
        Table.total-remove_present ℕ_discrete (is_lease_of id) l (id, t) s.leases v.leases e in
      let once = v.placed id in
      elim (Option-cases (get text_discrete id s.requests)) [
        | inl f ↦ elim (leased_order l s id t e (ground (arith, f)) v) [ ]
        | inr (old, f) ↦ elim (Option-cases old.order_no) [
          | inl g ↦ elim (leased_order l s id t e (ground (arith, f, g)) v) [ ]
          | inr (p, g) ↦
              held old p f g (ground (arith, f, g)) (ground (arith, f, g, once, out))
                (ground (arith, f, g, once, out))
        ]
      ]

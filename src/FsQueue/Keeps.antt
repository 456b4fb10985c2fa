-- ===== src/FsQueue/Keeps.antt =====
-- queue.rs (file system): the state after a leased request is given back or marked as handled.
use millipede.Prelude.{
  ℕ, ◌<◌, ◌≡◌, Bool, true, false, not, none, some, arith, Text, text_discrete, ℕ_discrete,
}
use millipede.Prelude.Table
use millipede.Prelude.Table.{Table, get, insert, remove, total, IsMap}
use millipede.Prelude.Words.{u64_max, u64_saturating_add}
use millipede.Request.{Request, RequestId}
use millipede.Storage.{ok}
use millipede.Frontier.Rotation.{is_some}
use millipede.FsQueue.{
  StoredRequest, QueueState, order_of, forget_old_key, replace_stored_request, validate_unique_key,
}
use millipede.FsQueue.Placed.{IsValid, is_lease_of, is_done, at_order-insert}
use millipede.FsQueue.Moves.{Fresh}
use millipede.FsQueue.Keys.{Held, held, leased-Held, get-forget_old_key}

module _ {Url Payload : Type 0} where
  abbrev pub requeued_state :
      QueueState Url Payload → ℕ → RequestId → ℕ → Request Url Payload → QueueState Url Payload
  requeued_state s l id o r =
      replace_stored_request
        (record s {
          leases = remove ℕ_discrete l s.leases;
          pending = insert ℕ_discrete o id s.pending;
        })
        id r (some o) false

  -- The key is unknown, or the request's own.
  validate_ok :
      (s : QueueState Url Payload) (id : RequestId) (r : Request Url Payload) (x : Unit {0})
      → validate_unique_key s id r ≡ ok x
      → (j : RequestId) (h : Bool) → get text_discrete r.unique_key s.dedup ≡ some (j, h)
      → j ≡ id
  unfolding validate_unique_key
  validate_ok s id r x e j h g = ground (arith, e, g)

  pub requeued-IsValid :
      (s : QueueState Url Payload) (l : ℕ) (id : RequestId) (t o : ℕ) (r : Request Url Payload)
      (x : Unit {0})
      → get ℕ_discrete l s.leases ≡ some (id, t)
      → validate_unique_key s id r ≡ ok x
      → Fresh s o
      → IsValid (requeued_state s l id o r)
  unfolding order_of replace_stored_request
  requeued-IsValid s l id t o r x e a f = from (leased-Held s l id t e f.valid)
    where
      from : Held s l id → IsValid (requeued_state s l id o r)
      from (held old p hs ho hp hw hl) =
          let v = f.valid in
          let sr : StoredRequest Url Payload = record { request = r; order_no = some o } in
          let at_ = λ (j : RequestId). Table.get-insert text_discrete id j sr s.requests in
          let own = validate_ok s id r x a in
          let gone = λ (j : RequestId).
            Table.total-remove_present ℕ_discrete (is_lease_of j) l (id, t) s.leases v.leases e in
          let m : QueueState Url Payload = record s {
            leases = remove ℕ_discrete l s.leases;
            pending = insert ℕ_discrete o id s.pending;
          } in
          let dd = λ (k : Text).
            Table.get-insert text_discrete r.unique_key k (id, false) (forget_old_key m id r) in
          let fo = λ (k : Text). get-forget_old_key m id old r k hs in
          record {
            pending_order = λ o' j. ground (
              arith,
              v.pending_order o' j,
              at_ j,
              hp,
              hw,
              Table.get-insert ℕ_discrete o o' id s.pending,
            );
            placed = λ j. ground (
              arith,
              v.placed j,
              f.unused j,
              at_ j,
              gone j,
              hw,
              hl,
              at_order-insert j id o s.pending (order_of j s),
              at_order-insert j id o s.pending (some o),
            );
            orders = λ i j p. ground (arith, v.orders i j p, f.unused i, f.unused j, at_ i, at_ j);
            above = λ i p. ground (arith, v.above i p, f.bounds, at_ i);
            below = λ i p. ground (arith, v.below i p, f.bounds, at_ i);
            spans = v.spans;
            leases = Table.remove-IsMap ℕ_discrete l s.leases v.leases;
            fresh = λ i le. ground (arith, v.fresh i, Table.get-remove ℕ_discrete l i s.leases);
            known = λ k j h. ground (arith, v.known k j h, at_ j, dd k, fo k, hs);
            keyed = λ k j. ground (
              arith,
              v.keyed k j,
              v.keyed old.request.unique_key id,
              own j (not (is_some (order_of j s))),
              at_ j,
              dd k,
              fo k,
              hs,
            );
            stored = Table.insert-IsMap text_discrete id sr s.requests v.stored;
            counted =
                let c = Table.total-insert_present text_discrete is_done id sr old s.requests hs in
                ground (arith, c, ho, v.counted);
          }

  abbrev pub handled_state :
      QueueState Url Payload → ℕ → RequestId → Request Url Payload → QueueState Url Payload
  handled_state s l id r =
      replace_stored_request
        (record s {
          leases = remove ℕ_discrete l s.leases;
          handled_count = u64_saturating_add s.handled_count 1;
        })
        id r none true

  pub handled-IsValid :
      (s : QueueState Url Payload) (l : ℕ) (id : RequestId) (t : ℕ) (r : Request Url Payload)
      (x : Unit {0})
      → get ℕ_discrete l s.leases ≡ some (id, t)
      → validate_unique_key s id r ≡ ok x
      → s.handled_count < u64_max
      → IsValid s
      → IsValid (handled_state s l id r)
  unfolding order_of replace_stored_request
  handled-IsValid s l id t r x e a room v = from (leased-Held s l id t e v)
    where
      from : Held s l id → IsValid (handled_state s l id r)
      from (held old p hs ho hp hw hl) =
          let sr : StoredRequest Url Payload = record { request = r; order_no = none } in
          let at_ = λ (j : RequestId). Table.get-insert text_discrete id j sr s.requests in
          let own = validate_ok s id r x a in
          let gone = λ (j : RequestId).
            Table.total-remove_present ℕ_discrete (is_lease_of j) l (id, t) s.leases v.leases e in
          let m : QueueState Url Payload = record s {
            leases = remove ℕ_discrete l s.leases;
            handled_count = u64_saturating_add s.handled_count 1;
          } in
          let dd = λ (k : Text).
            Table.get-insert text_discrete r.unique_key k (id, true) (forget_old_key m id r) in
          let fo = λ (k : Text). get-forget_old_key m id old r k hs in
          record {
            pending_order = λ o' j. ground (arith, v.pending_order o' j, at_ j, hp, hw);
            placed = λ j. ground (arith, v.placed j, at_ j, gone j, hw, hl);
            orders = λ i j p. ground (arith, v.orders i j p, at_ i, at_ j);
            above = λ i p. ground (arith, v.above i p, at_ i);
            below = λ i p. ground (arith, v.below i p, at_ i);
            spans = v.spans;
            leases = Table.remove-IsMap ℕ_discrete l s.leases v.leases;
            fresh = λ i le. ground (arith, v.fresh i, Table.get-remove ℕ_discrete l i s.leases);
            known = λ k j h. ground (arith, v.known k j h, at_ j, dd k, fo k, hs);
            keyed = λ k j. ground (
              arith,
              v.keyed k j,
              v.keyed old.request.unique_key id,
              own j (not (is_some (order_of j s))),
              at_ j,
              dd k,
              fo k,
              hs,
            );
            stored = Table.insert-IsMap text_discrete id sr s.requests v.stored;
            counted =
                let c = Table.total-insert_present text_discrete is_done id sr old s.requests hs in
                ground (arith, c, ho, v.counted, room);
          }

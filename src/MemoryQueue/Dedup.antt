-- ===== src/MemoryQueue/Dedup.antt =====
-- queue.rs (memory): what a producer of requests can rely on.
use millipede.Prelude.{
  ℕ, ◌≡◌, inl, inr, true, ◌&&◌, List, [], ◌∷◌, Option, some, arith, Text, text_discrete,
  Option-cases,
}
use millipede.Prelude.Table
use millipede.Prelude.Table.{get, insert, remove, total}
use millipede.Request.{Request, RequestId}
use millipede.Storage.{StorageResult, Lease, AddOptions, RequestSource, ok}
use millipede.MemoryQueue.{
  QueueState, fetch_next, mark_handled, renew, add_locked, add_all, add, add_batch, reclaim,
  abandon,
}
use millipede.MemoryQueue.Invariant.{is_known, is_handled}
use millipede.MemoryQueue.Reachable.{
  Step, adds, adds_batch, fetches, handles, reclaims, renews, abandons, Reach, here, next,
}

module _ {Url Payload : Type 0} (host_str : Url → Option Text) where
  dedup-add_locked :
      (k : Text) (id : RequestId) (s : QueueState Url Payload) (r : Request Url Payload)
      (opts : AddOptions)
      → get text_discrete k s.dedup ≡ some id
      → get text_discrete k (add_locked host_str s r opts).0.dedup ≡ some id
  unfolding add_locked
  dedup-add_locked k id s r opts e =
      ground (arith, e, Table.get-insert text_discrete r.unique_key k r.id s.dedup)

  dedup-add_all :
      (k : Text) (id : RequestId) (s : QueueState Url Payload)
      (sources : List (RequestSource Url Payload)) (opts : AddOptions)
      → get text_discrete k s.dedup ≡ some id
      → get text_discrete k (add_all host_str s sources opts).0.dedup ≡ some id
  unfolding add_all
  dedup-add_all k id s [] opts e = e
  dedup-add_all k id s (RequestSource.request r ∷ sources) opts e =
      dedup-add_all k id (add_locked host_str s r opts).0 sources opts
        (dedup-add_locked k id s r opts e)

  dedup-fetch :
      (s t : QueueState Url Payload) (now : ℕ) (res : StorageResult (Option (Lease Url Payload)))
      → fetch_next s now ≡ some (t, res)
      → t.dedup ≡ s.dedup
  unfolding fetch_next
  dedup-fetch s t now res e = ground arith

  -- The request identifier that a key was first added with stays in the table.
  Step-dedup :
      (k : Text) (id : RequestId) {s t : QueueState Url Payload}
      → Step host_str s t
      → get text_discrete k s.dedup ≡ some id
      → get text_discrete k t.dedup ≡ some id
  unfolding add add_batch mark_handled reclaim renew abandon
  Step-dedup k id {s} (adds r opts e) h = rw e (dedup-add_locked k id s r opts h)
  Step-dedup k id {s} (adds_batch sources opts e) h = rw e (dedup-add_all k id s sources opts h)
  Step-dedup k id {s} {t} (fetches now res room e) h = rw (dedup-fetch s t now res e) h
  Step-dedup k id (handles lease room e) h = ground arith
  Step-dedup k id (reclaims lease opts honest e) h = ground arith
  Step-dedup k id (renews i extend_by e) h = ground arith
  Step-dedup k id (abandons lease honest e) h = ground arith

  Reach-dedup :
      (k : Text) (id : RequestId) {s t : QueueState Url Payload}
      → Reach host_str s t
      → get text_discrete k s.dedup ≡ some id
      → get text_discrete k t.dedup ≡ some id
  Reach-dedup k id here h = h
  Reach-dedup k id (next r st) h = Step-dedup k id st (Reach-dedup k id r h)

  added_known :
      (s : QueueState Url Payload) (r : Request Url Payload) (opts : AddOptions)
      → (id : RequestId) × (get text_discrete r.unique_key (add host_str s r opts).0.dedup
          ≡ some id)
        × ((add host_str s r opts).1
            ≡ ok (record {
              request_id = id;
              unique_key = r.unique_key;
              was_already_present = is_known r.unique_key s;
              was_already_handled = is_known r.unique_key s && is_handled r.unique_key s;
            }))
  unfolding add add_locked
  added_known s r opts = elim (Option-cases (get text_discrete r.unique_key s.dedup)) [
    | inl e ↦ (
      r.id,
      rw (e, add_locked) (Table.get-insert_self text_discrete r.unique_key r.id s.dedup),
      rw (e, add_locked),
    )
    | inr (id, e) ↦ (id, rw (e, add_locked) e, rw (e, add_locked))
  ]

  -- Once a key has been added, every later addition under it, at any time, changes nothing: it
  -- reports the identifier of the first one, that the request was already present, and whether it
  -- has been handled by then. The first addition reports whether the key was known before it.
  -- The steps in between meet the conditions of `Step`.
  pub add_once :
      (s t : QueueState Url Payload) (r r' : Request Url Payload) (opts opts' : AddOptions)
      → Reach host_str (add host_str s r opts).0 t
      → r'.unique_key ≡ r.unique_key
      → (id : RequestId) × ((add host_str s r opts).1
          ≡ ok (record {
            request_id = id;
            unique_key = r.unique_key;
            was_already_present = is_known r.unique_key s;
            was_already_handled = is_known r.unique_key s && is_handled r.unique_key s;
          }))
        × (add host_str t r' opts' ≡ (
          t,
          ok (record {
            request_id = id;
            unique_key = r.unique_key;
            was_already_present = true;
            was_already_handled = is_handled r.unique_key t;
          }),
        ))
  unfolding add add_locked
  add_once s t r r' opts opts' reach same =
      let (id, known, told) = added_known s r opts in
      (id, told, ground (arith, same, Reach-dedup r.unique_key id reach known))

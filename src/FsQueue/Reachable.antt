-- ===== src/FsQueue/Reachable.antt =====
-- queue.rs (file system): every history of a queue that starts empty keeps memory and disk in step.
use millipede.Prelude.{ℕ, ◌<◌, ◌≡◌, refl, Bool, [], Option, some, arith}
use millipede.Prelude.Table.{get, total}
use millipede.Prelude.Words.{u64_max}
use millipede.Request.{Request}
use millipede.Storage.{StorageResult, Lease, AddOptions}
use millipede.FsQueue.{FsRequestQueue, order_of, reclaim_expired, empty}
use millipede.FsQueue.Operations.{fetch_next, add_locked, mark_handled, requeue, renew}
use millipede.FsQueue.Placed.{IsSynced}
use millipede.FsQueue.Moves.{reclaim_expired-IsValid}
use millipede.FsQueue.Fetching.{reclaim_expired-requests}
use millipede.FsQueue.Synced.{
  IsNew, Honest, add_locked-IsSynced, mark_handled-IsSynced, requeue-IsSynced, renew-IsSynced,
  fetch_next-IsSynced,
}

module _ {Url Payload : Type 0} where
  pub data Step (q : FsRequestQueue Url Payload) : FsRequestQueue Url Payload → Type 0 where
    added :
        (r : Request Url Payload) (opts : AddOptions) (written : StorageResult (Unit {0}))
        → IsNew q.state r
        → Step q (add_locked q r opts written).0
    fetched :
        (now lent_at : ℕ) (t : FsRequestQueue Url Payload)
        (a : StorageResult (Option (Lease Url Payload)))
        → q.state.next_lease_id < u64_max
        → fetch_next q now lent_at ≡ some (t, a)
        → Step q t
    handled :
        (lease : Lease Url Payload) (written : StorageResult (Unit {0}))
        → q.state.handled_count < u64_max
        → Honest q.state lease
        → Step q (mark_handled q lease written).0
    requeued :
        (lease : Lease Url Payload) (forefront increment_retry : Bool)
        (written : StorageResult (Unit {0}))
        → Honest q.state lease
        → Step q (requeue q lease forefront increment_retry written).0
    renewed : (lease_id extend_by now : ℕ) → Step q (renew q lease_id extend_by now).0
    reclaimed : (now : ℕ) → Step q (record q { state = reclaim_expired q.state now })

  -- The states that a queue on an empty directory gets into.
  pub data Reachable : FsRequestQueue Url Payload → Type 0 where
    opened : Reachable (record { state = empty; disk = [] })
    later : {q t : FsRequestQueue Url Payload} → Reachable q → Step q t → Reachable t

  pub Step-IsSynced : {q t : FsRequestQueue Url Payload} → Step q t → IsSynced q → IsSynced t
  Step-IsSynced (added r opts written new) v = add_locked-IsSynced _ r opts written new v
  Step-IsSynced (fetched now lent_at t a room e) v = fetch_next-IsSynced _ now lent_at t a room e v
  Step-IsSynced (handled lease written room honest) v =
      mark_handled-IsSynced _ lease written room honest v
  Step-IsSynced (requeued lease f i written honest) v =
      requeue-IsSynced _ lease f i written honest v
  Step-IsSynced (renewed l by now) v = renew-IsSynced _ l by now v
  Step-IsSynced (reclaimed now) v = record {
    valid = reclaim_expired-IsValid _ now v.valid;
    filed = rw (reclaim_expired-requests _ now) v.filed;
  }

  pub empty-IsSynced :
      IsSynced {Url = Url} {Payload = Payload} (record { state = empty; disk = [] })
  unfolding empty get total order_of
  empty-IsSynced = record {
    valid = record {
      pending_order = λ o id. ground arith;
      placed = λ id. refl;
      orders = λ i j o. ground arith;
      above = λ i o. ground arith;
      below = λ i o. ground arith;
      spans = (ground arith, ground arith, ground arith);
      leases = tt;
      fresh = λ l le. refl;
      known = λ k id h. ground arith;
      keyed = λ k id. ground arith;
      stored = tt;
      counted = refl;
    };
    filed = record { unique = tt; named = λ id r. ground arith; files = λ id. refl };
  }

  -- Whatever adds, fetches, completions, returns, renewals and expiries a queue on an empty directory
  -- has gone through, with writes that succeed or fail: each stored request is pending under its order, or
  -- leased, or handled, exactly one of them; no two requests share an order; the key table
  -- and the handled count agree with the stored requests; and the directory holds for
  -- each stored request, and for no other identifier, the file with its present contents.
  -- The histories assume that a request with an unknown key has an unknown identifier, that a
  -- lease keeps the identifier it was given out with, and that no `u64` counter is at its end.
  pub Reachable-IsSynced : (q : FsRequestQueue Url Payload) → Reachable q → IsSynced q
  Reachable-IsSynced _ opened = empty-IsSynced
  Reachable-IsSynced _ (later r s) = Step-IsSynced s (Reachable-IsSynced _ r)

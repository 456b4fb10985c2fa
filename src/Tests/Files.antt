-- ===== src/Tests/Files.antt =====
-- A queue on disk: two requests, one of them leased, a full disk, and a restart.
use millipede.Prelude.Words.{u64_max}
use millipede.Prelude.{
  ℕ, length, ◌≤◌, ◌+◌, ◌-◌, ◌≡◌, ◌≢◌, ℕ_discrete, refl, true, false, [], none, some, arith, Text,
  codes, text_discrete,
}
use millipede.Prelude.Table.{get, insert, remove}
use millipede.Request.{Request, unprocessed}
use millipede.Storage.{ok, StorageError, err, io}
use millipede.FsQueue.{
  FsRequestQueue, QueueState, empty, reclaim_expired, take_order, first_key, i64_zero, lease_ttl,
  lease_request_id, validate_unique_key,
}
use millipede.FsQueue.Scan.{scan_queue}
use millipede.FsQueue.Operations.{add_locked, mark_handled}
use millipede.FsQueue.Placed.{IsSynced}
use millipede.FsQueue.Placed.{leases_of}
use millipede.FsQueue.Moves.{lent_state}
use millipede.FsQueue.Fetching.{Serves, fetch_next-Serves}
use millipede.FsQueue.Reachable.{
  Reachable, opened, later, added, fetched, handled, Reachable-IsSynced,
}
use millipede.FsQueue.Once.{IsHandled, start, restarts, never_again}
use millipede.FsQueue.Recovery.{Reopens, scan_queue-Reopens}
use millipede.FsQueue.Failures.{Write, completing, run, Unchanged, err-Unchanged}

abbrev request_for : Text → Text → Request Text (Unit {0})
request_for id key = record {
  id = id;
  url = key;
  loaded_url = none;
  unique_key = key;
  payload = tt;
  label = none;
  retry_count = 0;
  session_rotation_count = 0;
  max_retries = none;
  no_retry = false;
  error_messages = [];
  handled_at = none;
  state = unprocessed;
  crawl_depth = 0;
  skip_navigation = false;
}

abbrev home : Request Text (Unit {0})
home = request_for (codes "1") (codes "home")

abbrev about : Request Text (Unit {0})
about = request_for (codes "2") (codes "about")

abbrev opened_queue : FsRequestQueue Text (Unit {0})
opened_queue = record { state = empty; disk = [] }

abbrev one_file : FsRequestQueue Text (Unit {0})
one_file = (add_locked opened_queue home (record { forefront = false }) (ok tt)).0

abbrev two_files : FsRequestQueue Text (Unit {0})
two_files = (add_locked one_file about (record { forefront = true }) (ok tt)).0

two_files-Reachable : Reachable two_files
unfolding empty get insert add_locked take_order text_discrete
two_files-Reachable =
    later (later opened (added home (record { forefront = false }) (ok tt) (λ e. refl)))
      (added about (record { forefront = true }) (ok tt) (λ e. refl))

Reachable-IsSynced_example : IsSynced two_files
Reachable-IsSynced_example = Reachable-IsSynced two_files two_files-Reachable

fetch_next-Serves_example : Serves two_files 4 5 (reclaim_expired two_files.state 4)
unfolding empty insert add_locked take_order
fetch_next-Serves_example =
    fetch_next-Serves two_files 4 5 (ground arith)
      (Reachable-IsSynced two_files two_files-Reachable).valid

scan_queue-Reopens_example : (t : QueueState Text (Unit {0})) × Reopens two_files t
unfolding empty insert add_locked take_order
scan_queue-Reopens_example =
    scan_queue-Reopens two_files (ground arith) (Reachable-IsSynced two_files two_files-Reachable)

-- The second request is leased, and its completion cannot be written.
abbrev leased_queue : FsRequestQueue Text (Unit {0})
leased_queue = record two_files { state = lent_state two_files.state (i64_zero - 1) (codes "2") 5 }

abbrev disk_full : StorageError
disk_full = io (codes "no space left on device")

abbrev completion : Write Text (Unit {0})
completion = completing (record { request = about; lease_id = 0; expires_at = 5 + lease_ttl })

refused : (run leased_queue completion (err disk_full)).1 ≡ err disk_full
unfolding empty get insert remove add_locked take_order mark_handled lease_request_id
    validate_unique_key text_discrete
refused = refl

err-Unchanged_example : Unchanged leased_queue (run leased_queue completion (err disk_full)).0
err-Unchanged_example = err-Unchanged leased_queue completion (err disk_full) disk_full refused

-- A restart gives the leased request back, ahead of the first one.
restarted :
    elim (scan_queue leased_queue.disk) [ ok s ↦ first_key s.pending | err e ↦ none ]
    ≡ some (i64_zero - 1)
unfolding empty scan_queue millipede.FsQueue.Scan.load_all millipede.FsQueue.Scan.decode_all
    millipede.FsQueue.Scan.sort_files add_locked get take_order insert text_discrete
    millipede.FsQueue.Scan.insert_file millipede.FsQueue.Scan.place millipede.FsQueue.Scan.counters
    millipede.FsQueue.Scan.load first_key
restarted = refl

-- The first request is marked as handled.
abbrev handled_queue : FsRequestQueue Text (Unit {0})
handled_queue =
    (mark_handled leased_queue (record { request = about; lease_id = 0; expires_at = 0 }) (ok tt)).0

abbrev reopened : QueueState Text (Unit {0})
reopened = elim (scan_queue handled_queue.disk) [ ok s ↦ s | err e ↦ empty ]

handled_queue-Reachable : Reachable handled_queue
unfolding empty get insert remove add_locked take_order mark_handled lease_request_id
    validate_unique_key text_discrete millipede.FsQueue.Operations.fetch_next
    millipede.FsQueue.Operations.pop_lend first_key reclaim_expired
    millipede.FsQueue.Operations.lend
handled_queue-Reachable =
    later
      (later two_files-Reachable (
        fetched 4 5 leased_queue
          (ok (some (record { request = about; lease_id = 0; expires_at = 5 + lease_ttl })))
          (ground arith) refl))
      (handled (record { request = about; lease_id = 0; expires_at = 0 }) (ok tt) (ground arith)
        (λ id e. ground (arith, e)))

reopened_answer : scan_queue handled_queue.disk ≡ ok reopened
unfolding empty scan_queue millipede.FsQueue.Scan.load_all millipede.FsQueue.Scan.decode_all
    millipede.FsQueue.Scan.sort_files mark_handled lease_request_id get insert add_locked take_order
    text_discrete validate_unique_key millipede.FsQueue.Scan.insert_file
    millipede.FsQueue.Scan.place millipede.FsQueue.Scan.counters
reopened_answer = refl

about-IsHandled : IsHandled (codes "2") handled_queue.state
unfolding empty get mark_handled lease_request_id insert add_locked take_order text_discrete
    validate_unique_key millipede.FsQueue.replace_stored_request
about-IsHandled = record {
  stored = record { request = about; order_no = none };
  found = refl;
  no_order = refl;
}

few_files : length handled_queue.disk ≤ u64_max
unfolding empty get insert remove add_locked take_order mark_handled lease_request_id
    validate_unique_key text_discrete
few_files = ground arith

never_again_example :
    IsHandled (codes "2") reopened
    × ((o : ℕ) → get ℕ_discrete o reopened.pending ≢ some (codes "2"))
    × (leases_of (codes "2") reopened ≡ 0)
never_again_example =
    never_again (codes "2") handled_queue (record handled_queue { state = reopened })
      (restarts reopened start few_files reopened_answer)
      (Reachable-IsSynced handled_queue handled_queue-Reachable) about-IsHandled

-- ===== src/FsQueue/Reopening.antt =====
-- queue.rs (file system), `scan_queue`: the queue that a new process opens on the directory of an old one.
use millipede.Prelude.{
  ℕ, ◌+◌, ◌≡◌, refl, sym, subst, ite, false, [], ◌∷◌, Option, none, some, arith, text_discrete,
  ℕ_discrete, length,
}
use millipede.Prelude.Table
use millipede.Prelude.Table.{Table, get, insert, remove, total, IsMap}
use millipede.Request.{RequestId}
use millipede.Storage.{ok}
use millipede.FsQueue.{StoredRequest, QueueState, File, envelope}
use millipede.FsQueue.Scan.{place, load, load_all, decode_all, insert_file, sort_files}
use millipede.FsQueue.Placed.{IsValid}
use millipede.FsQueue.Durable.{Loading, ahead-Next, next_Loading}

module _ {Url Payload : Type 0} where
  get-insert_file :
      (i : RequestId) (f : RequestId × File Url Payload)
      (files : Table RequestId (File Url Payload))
      → get text_discrete f.0 files ≡ none
      → get text_discrete i (insert_file f files) ≡ get text_discrete i (f ∷ files)
  unfolding insert_file get
  get-insert_file i f [] e = refl
  get-insert_file i f (g ∷ files) e = ground (arith, get-insert_file i f files)

  pub get-sort_files :
      (i : RequestId) (files : Table RequestId (File Url Payload))
      → IsMap text_discrete files
      → get text_discrete i (sort_files files) ≡ get text_discrete i files
  unfolding sort_files get
  get-sort_files i [] u = refl
  get-sort_files i (f ∷ files) u = ground (
    arith,
    get-insert_file i f (sort_files files),
    get-sort_files f.0 files u.1,
    get-sort_files i files u.1,
    u,
  )

  insert_file-IsMap :
      (f : RequestId × File Url Payload) (files : Table RequestId (File Url Payload))
      → get text_discrete f.0 files ≡ none
      → IsMap text_discrete files
      → IsMap text_discrete (insert_file f files)
  unfolding insert_file get
  insert_file-IsMap f [] e u = (refl, tt)
  insert_file-IsMap f (g ∷ files) e u =
      ground (arith, insert_file-IsMap f files, get-insert_file g.0 f files, u, e)

  pub sort_files-IsMap :
      (files : Table RequestId (File Url Payload))
      → IsMap text_discrete files
      → IsMap text_discrete (sort_files files)
  unfolding sort_files
  sort_files-IsMap [] u = tt
  sort_files-IsMap (f ∷ files) u =
      insert_file-IsMap f (sort_files files) (ground (arith, get-sort_files f.0 files u.1, u))
        (sort_files-IsMap files u.1)

  length-insert_file :
      (f : RequestId × File Url Payload) (files : Table RequestId (File Url Payload))
      → length (insert_file f files) ≡ length files + 1
  unfolding insert_file
  length-insert_file f [] = omega arith
  length-insert_file f (g ∷ files) = ground (arith, length-insert_file f files)

  pub length-sort_files :
      (files : Table RequestId (File Url Payload)) → length (sort_files files) ≡ length files
  unfolding sort_files
  length-sort_files [] = refl
  length-sort_files (f ∷ files) =
      ground (arith, length-insert_file f (sort_files files), length-sort_files files)

  -- What the loading ends with.
  pub record Loads (g s : QueueState Url Payload) (files : Table RequestId (File Url Payload))
      (t : QueueState Url Payload) : Type 0 where
    pub answer : load_all s (decode_all files) ≡ ok t
    pub end : Loading g [] t
    pub all :
        (i : RequestId) (r : StoredRequest Url Payload)
        → get text_discrete i files ≡ some (envelope r)
        → get text_discrete i t.requests ≡ some r
    pub kept :
        (i : RequestId) (r : StoredRequest Url Payload)
        → get text_discrete i s.requests ≡ some r
        → get text_discrete i t.requests ≡ some r

  load-kept :
      (s : QueueState Url Payload) (r : StoredRequest Url Payload) (i : RequestId)
      → get text_discrete i (load s r.request r.order_no).requests
        ≡ ite (text_discrete r.request.id i) (some r) (get text_discrete i s.requests)
  unfolding load
  load-kept s r i = with_order r.order_no refl
    where
      with_order :
          (x : Option ℕ)
          → r.order_no ≡ x
          → get text_discrete i (load s r.request x).requests
            ≡ ite (text_discrete r.request.id i) (some r) (get text_discrete i s.requests)
      with_order none p = ground (
        arith,
        p,
        Table.get-insert text_discrete r.request.id i
            (record { request = r.request; order_no = none }) s.requests,
      )
      with_order (some o) p = ground (
        arith,
        p,
        Table.get-insert text_discrete r.request.id i
            (record { request = r.request; order_no = some o }) s.requests,
      )

  -- No order is given anew.
  place_free :
      (s : QueueState Url Payload) (x : Option ℕ)
      → ((o : ℕ) → x ≡ some o → get ℕ_discrete o s.pending ≡ none)
      → place s x false ≡ ok (x, s)
  unfolding place
  place_free s none free = refl
  place_free s (some o) free = ground (arith, free o refl)

  -- What loading the first file does.
  record Head (g s : QueueState Url Payload) (id : RequestId)
      (files : Table RequestId (File Url Payload)) (r : StoredRequest Url Payload) : Type 0 where
    absent : get text_discrete id s.requests ≡ none
    put : place s r.order_no false ≡ ok (r.order_no, s)
    next : Loading g files (load s r.request r.order_no)

  ahead-Head :
      (g s : QueueState Url Payload) (id : RequestId) (file : File Url Payload)
      (files : Table RequestId (File Url Payload)) (r : StoredRequest Url Payload)
      → IsValid g
      → file ≡ envelope r
      → r.request.id ≡ id
      → get text_discrete id g.requests ≡ some r
      → IsMap text_discrete ((id, file) ∷ files)
      → Loading g ((id, file) ∷ files) s
      → Head g s id files r
  ahead-Head g s id file files r w p n e u l =
      let e' : get text_discrete r.request.id g.requests ≡ some r = ground (arith, n, e) in
      let l' : Loading g ((r.request.id, envelope r) ∷ files) s =
        subst (λ i. Loading g ((i, envelope r) ∷ files) s) (sym n)
          (subst (λ f. Loading g ((id, f) ∷ files) s) p l) in
      let now = ahead-Next g s r files w e' l' in
      record {
        absent = ground (arith, n, now.absent);
        put = place_free s r.order_no now.free;
        next = next_Loading g s r files w e' l' (ground (arith, n, u));
      }

  pub load_all-Loads :
      (g s : QueueState Url Payload) (files : Table RequestId (File Url Payload))
      → IsValid g
      → ((id : RequestId) (r : StoredRequest Url Payload)
          → get text_discrete id g.requests ≡ some r
          → r.request.id ≡ id)
      → IsMap text_discrete files
      → Loading g files s
      → (t : QueueState Url Payload) × Loads g s files t
  unfolding get load_all decode_all
  load_all-Loads g s [] w named u l =
      (s, record { answer = refl; end = l; all = λ i r. ground arith; kept = λ i r e. e })
  load_all-Loads g s ((id, file) ∷ files) w named u l =
      let (r, p, e) = l.ahead id file (ground arith) in
      let head = ahead-Head g s id file files r w p (named id r e) e u l in
      let (t, rest) = load_all-Loads g (load s r.request r.order_no) files w named u.1 head.next in
      (t, both id file files r t p (named id r e) u head rest)
    where
      both :
          (id : RequestId) (file : File Url Payload) (files : Table RequestId (File Url Payload))
          (r : StoredRequest Url Payload) (t : QueueState Url Payload)
          → file ≡ envelope r
          → r.request.id ≡ id
          → IsMap text_discrete ((id, file) ∷ files)
          → Head g s id files r
          → Loads g (load s r.request r.order_no) files t
          → Loads g s ((id, file) ∷ files) t
      both id file files r t p n u head rest = record {
        answer = ground (arith, p, head.put, rest.answer);
        end = rest.end;
        all = λ i x q. ground (arith, rest.all i x, rest.kept i x, load-kept s r i, n, p, q);
        kept = λ i x q. ground (arith, rest.kept i x, load-kept s r i, head.absent, n, q);
      }

-- ===== src/Coalesce/Flights.antt =====
-- coalesce.rs: at most one request is in flight for a key.
use millipede.Prelude.{
  ℕ, ◌≤◌, ◌<◌, ◌≡◌, ◌≢◌, inl, inr, ite, true, false, [], ◌||◌, not, none, some, arith, ℕ_discrete,
  Option-cases, Bool-cases,
}
use millipede.Prelude.Table
use millipede.Prelude.Table.{Table, get, insert, remove, total, IsMap}
use millipede.Coalesce.{
  SharedResult, CoalescingClient, InFlightGuard, new, settle, join, drop_guard, is_settled,
  is_current,
}

module _ {Key : Type 0} where
  -- 1 for the caller that makes the request of a cell.
  abbrev pub is_leading : ℕ → InFlightGuard Key → ℕ
  is_leading cell g = elim g.active [ true ↦ ite (ℕ_discrete g.cell cell) 1 0 | false ↦ 0 ]

module _ {Key Response : Type 0} (dec : Discrete Key) where
  pub record IsJoined (s : CoalescingClient Key Response) (callers : Table ℕ (InFlightGuard Key))
      : Type 0 where
    pub apart : IsMap ℕ_discrete callers
    -- a caller whose cell is not settled finds it under its key
    pub joined :
        (t : ℕ) (g : InFlightGuard Key)
        → get ℕ_discrete t callers ≡ some g
        → get ℕ_discrete g.cell s.cells ≡ some none
        → get dec g.key s.in_flight ≡ some g.cell
    pub known :
        (t : ℕ) (g : InFlightGuard Key) → get ℕ_discrete t callers ≡ some g → g.cell < s.next_cell
    pub current : (k : Key) (c : ℕ) → get dec k s.in_flight ≡ some c → c < s.next_cell
    pub leader : (c : ℕ) → total ℕ_discrete (is_leading c) callers ≤ 1

  -- The blocks of the callers. A cell runs one initialiser at a time, and the next one only if the
  -- one before was cancelled: the documented behaviour of `OnceCell::get_or_init`.
  pub data Step (s : CoalescingClient Key Response) (callers : Table ℕ (InFlightGuard Key))
      : CoalescingClient Key Response → Table ℕ (InFlightGuard Key) → Type 0 where
    joins :
        (t : ℕ) (key : Key)
        → get ℕ_discrete t callers ≡ none
        → Step s callers (join dec key s).0 (insert ℕ_discrete t (join dec key s).1 callers)
    leads :
        (t : ℕ) (g : InFlightGuard Key)
        → get ℕ_discrete t callers ≡ some g
        → get ℕ_discrete g.cell s.cells ≡ some none
        → total ℕ_discrete (is_leading g.cell) callers ≡ 0
        → Step s callers s (insert ℕ_discrete t (record g { active = true }) callers)
    settles :
        (t : ℕ) (g : InFlightGuard Key) (r : SharedResult Response)
        → get ℕ_discrete t callers ≡ some g
        → g.active ≡ true
        → Step s callers (settle g.cell r s) callers
    leaves :
        (t : ℕ) (g : InFlightGuard Key)
        → get ℕ_discrete t callers ≡ some g
        → Step s callers (drop_guard dec g s) (remove ℕ_discrete t callers)

  settled_cell :
      (c : ℕ) (s : CoalescingClient Key Response)
      → is_settled c s ≡ true
      → get ℕ_discrete c s.cells ≢ some none
  settled_cell c s e = ground (arith, e)

  current_cell :
      (g : InFlightGuard Key) (s : CoalescingClient Key Response)
      → is_current dec g s ≡ true
      → get dec g.key s.in_flight ≡ some g.cell
  current_cell g s e = ground (arith, e)

  left-IsJoined :
      (s : CoalescingClient Key Response) (callers : Table ℕ (InFlightGuard Key)) (t : ℕ)
      (g : InFlightGuard Key)
      → get ℕ_discrete t callers ≡ some g
      → IsJoined s callers
      → IsJoined s (remove ℕ_discrete t callers)
  left-IsJoined s callers t g n v =
      let on = λ (u : ℕ). Table.get-remove ℕ_discrete t u callers in
      record {
        apart = Table.remove-IsMap ℕ_discrete t callers v.apart;
        joined = λ u x. ground (arith, on u, v.joined u x);
        known = λ u x. ground (arith, on u, v.known u x);
        current = v.current;
        leader = λ c. ground (
          arith,
          v.leader c,
          Table.total-remove_present ℕ_discrete (is_leading c) t g callers v.apart n,
        );
      }

  -- A key whose cell is settled is forgotten.
  forgotten-IsJoined :
      (s : CoalescingClient Key Response) (callers : Table ℕ (InFlightGuard Key))
      (g : InFlightGuard Key)
      → is_settled g.cell s ≡ true
      → is_current dec g s ≡ true
      → IsJoined s callers
      → IsJoined (record s { in_flight = remove dec g.key s.in_flight }) callers
  forgotten-IsJoined s callers g e f v = record {
    apart = v.apart;
    joined = λ u x. ground (
      arith,
      v.joined u x,
      settled_cell g.cell s e,
      current_cell g s f,
      Table.get-remove dec g.key x.key s.in_flight,
    );
    known = v.known;
    current = λ k c. ground (arith, v.current k c, Table.get-remove dec g.key k s.in_flight);
    leader = v.leader;
  }

  Step-IsJoined :
      (s s' : CoalescingClient Key Response) (callers callers' : Table ℕ (InFlightGuard Key))
      → Step s callers s' callers'
      → IsJoined s callers
      → IsJoined s' callers'
  unfolding settle join insert drop_guard
  Step-IsJoined s _ callers _ (joins t key n) v = elim (Option-cases (get dec key s.in_flight)) [
    | inr (cell, e) ↦
        let g : InFlightGuard Key = record { key = key; cell = cell; active = false } in
        let on = λ (u : ℕ). Table.get-insert ℕ_discrete t u g callers in
        rw (join, e)
          (record {
            apart = Table.insert-IsMap ℕ_discrete t g callers v.apart;
            joined = λ u x. ground (arith, e, on u, v.joined u x);
            known = λ u x. ground (arith, e, on u, v.known u x, v.current key cell e);
            current = v.current;
            leader = λ c. ground (
              arith,
              v.leader c,
              Table.total-insert_absent ℕ_discrete (is_leading c) t g callers n,
            );
          })
    | inl e ↦
        let cell = s.next_cell in
        let g : InFlightGuard Key = record { key = key; cell = cell; active = false } in
        let on = λ (u : ℕ). Table.get-insert ℕ_discrete t u g callers in
        rw (join, e)
          (record {
            apart = Table.insert-IsMap ℕ_discrete t g callers v.apart;
            joined = λ u x. ground (
              arith,
              e,
              on u,
              v.joined u x,
              v.known u x,
              Table.get-insert ℕ_discrete cell x.cell none s.cells,
              Table.get-insert dec key x.key cell s.in_flight,
            );
            known = λ u x. ground (arith, e, on u, v.known u x);
            current =
                λ k c. ground (arith, v.current k c, Table.get-insert dec key k cell s.in_flight);
            leader = λ c. ground (
              arith,
              v.leader c,
              Table.total-insert_absent ℕ_discrete (is_leading c) t g callers n,
            );
          })
  ]
  Step-IsJoined s _ callers _ (leads t g n o z) v =
      let h : InFlightGuard Key = record g { active = true } in
      let on = λ (u : ℕ). Table.get-insert ℕ_discrete t u h callers in
      record {
        apart = Table.insert-IsMap ℕ_discrete t h callers v.apart;
        joined = λ u x. ground (arith, n, on u, v.joined u x, v.joined t g n);
        known = λ u x. ground (arith, n, on u, v.known u x, v.known t g n);
        current = v.current;
        leader = λ c. ground (
          arith,
          z,
          v.leader c,
          Table.total-insert_present ℕ_discrete (is_leading c) t h g callers n,
        );
      }
  Step-IsJoined s _ callers _ (settles t g r n a) v = record {
    apart = v.apart;
    joined = λ u x.
        ground (arith, v.joined u x, Table.get-insert ℕ_discrete g.cell x.cell (some r) s.cells);
    known = v.known;
    current = v.current;
    leader = v.leader;
  }
  Step-IsJoined s _ callers _ (leaves t g n) v =
      let rest = left-IsJoined s callers t g n v in
      elim (Bool-cases (not g.active || not (is_settled g.cell s))) [
        | inl e ↦ rw (drop_guard, e) rest
        | inr e ↦ elim (Bool-cases (is_current dec g s)) [
          | inr f ↦ rw (drop_guard, e, f) rest
          | inl f ↦
              rw (drop_guard, e, f)
                (forgotten-IsJoined s (remove ℕ_discrete t callers) g (ground (arith, e)) f rest)
        ]
      ]

  pub data Reachable : CoalescingClient Key Response → Table ℕ (InFlightGuard Key) → Type 0 where
    created : Reachable new []
    later :
        {s s' : CoalescingClient Key Response} {callers callers' : Table ℕ (InFlightGuard Key)}
        → Reachable s callers
        → Step s callers s' callers'
        → Reachable s' callers'

  Reachable-IsJoined :
      (s : CoalescingClient Key Response) (callers : Table ℕ (InFlightGuard Key))
      → Reachable s callers
      → IsJoined s callers
  unfolding new get total
  Reachable-IsJoined _ _ created = record {
    apart = tt;
    joined = λ t g. ground arith;
    known = λ t g. ground arith;
    current = λ k c. ground arith;
    leader = λ c. omega arith;
  }
  Reachable-IsJoined _ _
        (later {s = s} {s' = s'} {callers = callers} {callers' = callers'} r step) =
      Step-IsJoined s s' callers callers' step (Reachable-IsJoined s callers r)

  -- Whatever callers come, go, are cancelled and take over from each other: two callers of the same key whose
  -- cells are both not settled yet share one cell, so they get the result of the same request.
  pub one_cell :
      (s : CoalescingClient Key Response) (callers : Table ℕ (InFlightGuard Key)) (t u : ℕ)
      (g h : InFlightGuard Key)
      → Reachable s callers
      → get ℕ_discrete t callers ≡ some g
      → get ℕ_discrete u callers ≡ some h
      → g.key ≡ h.key
      → get ℕ_discrete g.cell s.cells ≡ some none
      → get ℕ_discrete h.cell s.cells ≡ some none
      → g.cell ≡ h.cell
  one_cell s callers t u g h r n m k e f =
      let v = Reachable-IsJoined s callers r in
      ground (arith, k, v.joined t g n e, v.joined u h m f)

  -- If moreover both of them make the request, they are the same caller: for one key there is at
  -- most one request in flight.
  pub one_flight :
      (s : CoalescingClient Key Response) (callers : Table ℕ (InFlightGuard Key)) (t u : ℕ)
      (g h : InFlightGuard Key)
      → Reachable s callers
      → get ℕ_discrete t callers ≡ some g
      → get ℕ_discrete u callers ≡ some h
      → g.key ≡ h.key
      → get ℕ_discrete g.cell s.cells ≡ some none
      → get ℕ_discrete h.cell s.cells ≡ some none
      → g.active ≡ true
      → h.active ≡ true
      → t ≡ u
  one_flight s callers t u g h r n m k e f a b = elim (ℕ_discrete t u) [
    | yes p ↦ p
    | no d ↦
        let v = Reachable-IsJoined s callers r in
        let c = g.cell in
        let rest = remove ℕ_discrete t callers in
        let apart = Table.remove-IsMap ℕ_discrete t callers v.apart in
        let mine = Table.total-remove_present ℕ_discrete (is_leading c) t g callers v.apart n in
        let there : get ℕ_discrete u rest ≡ some h =
          ground (arith, m, Table.get-remove_ne ℕ_discrete t u callers d) in
        let other = Table.total-remove_present ℕ_discrete (is_leading c) u h rest apart there in
        ground (arith, mine, other, v.leader c, a, b, one_cell s callers t u g h r n m k e f)
  ]

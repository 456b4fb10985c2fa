-- ===== src/BrowserPool/Registering.antt =====
-- pool.rs: registering a page and giving a reservation back keep account.
use millipede.Prelude.{ℕ, ◌-◌, ◌≤◌, ◌≡◌, refl, Bool, true, false, none, some, arith, ℕ_discrete}
use millipede.Prelude.Table
use millipede.Prelude.Table.{Table, get, insert, remove, total, IsMap}
use millipede.BrowserPool.{
  PageId, BrowserPoolOptions, BrowserSlot, PageEntry, PoolState, is_live, take_if, unreserve,
  is_over,
}
use millipede.BrowserPool.Accounts.{
  IsAccounted, SlotOk, Task, reserved, closes, is_reserved, is_launching, is_closing, is_page_of,
  pages_of,
}

module _ {Browser Proxy : Type 0} where
  pub taken_live :
      (now : Bool) (slot : BrowserSlot Browser Proxy) → is_live (take_if now slot).0 ≤ is_live slot
  taken_live true slot = ground arith
  taken_live false slot = omega arith

module _ {Browser Proxy : Type 0} (opts : BrowserPoolOptions) where
  -- A slot that gives its browser away only when it has no pages.
  pub taken_ok :
      (now : Bool) (slot : BrowserSlot Browser Proxy) (pages reservations launches : ℕ)
      → (now ≡ true → slot.open_pages ≡ 0)
      → SlotOk opts slot pages reservations launches
      → SlotOk opts (take_if now slot).0 pages reservations launches
  taken_ok true slot pages reservations launches h o = ground (arith, h refl, o)
  taken_ok false slot pages reservations launches h o = o

module _ {Browser Proxy Page : Type 0} (opts : BrowserPoolOptions) where
  pub registered-IsAccounted :
      (s : PoolState Browser Proxy Page) (tasks : Table ℕ Task) (t id : ℕ) (p : PageId)
      (page : Page) (slot : BrowserSlot Browser Proxy)
      → get ℕ_discrete t tasks ≡ some (reserved id)
      → get ℕ_discrete id s.browsers ≡ some slot
      → get ℕ_discrete p s.pages ≡ none
      → IsAccounted opts s tasks
      → IsAccounted opts
          (record s {
            browsers =
                insert ℕ_discrete id
                  (record slot { in_flight_pages = slot.in_flight_pages - 1 })
                  s.browsers;
            pages =
                insert ℕ_discrete p
                  (record { page = page; browser_id = id; closing = false })
                  s.pages;
          })
          (remove ℕ_discrete t tasks)
  registered-IsAccounted s tasks t id p page slot n e f v =
      let task = reserved id in
      let new_slot : BrowserSlot Browser Proxy = record slot {
        in_flight_pages = slot.in_flight_pages - 1;
      } in
      let entry : PageEntry Page = record { page = page; browser_id = id; closing = false } in
      let r = λ (b : ℕ).
        Table.total-remove_present ℕ_discrete (is_reserved b) t task tasks v.tasks_apart n in
      let l = λ (b : ℕ).
        Table.total-remove_present ℕ_discrete (is_launching b) t task tasks v.tasks_apart n in
      let c = λ (q : ℕ).
        Table.total-remove_present ℕ_discrete (is_closing q) t task tasks v.tasks_apart n in
      let at_ = λ (b : ℕ). Table.get-insert ℕ_discrete id b new_slot s.browsers in
      let lv = Table.total-insert_present ℕ_discrete is_live id new_slot slot s.browsers e in
      let pg = λ (b : ℕ). Table.total-insert_absent ℕ_discrete (is_page_of b) p entry s.pages f in
      let on = λ (q : ℕ). Table.get-insert ℕ_discrete p q entry s.pages in
      record {
        slots = Table.insert-IsMap ℕ_discrete id new_slot s.browsers v.slots;
        pages = Table.insert-IsMap ℕ_discrete p entry s.pages v.pages;
        tasks_apart = Table.remove-IsMap ℕ_discrete t tasks v.tasks_apart;
        present =
            λ b x. ground (arith, e, v.present b x, v.present id slot e, at_ b, r b, l b, pg b);
        absent = λ b. ground (arith, e, v.absent b, at_ b, r b, l b, pg b);
        live = ground (arith, v.live, lv);
        fresh = λ b h. ground (arith, e, v.fresh b h, at_ b);
        closing = λ q. ground (arith, f, c q, v.closing q, on q);
        closer = λ u q b x. ground (
          arith,
          f,
          v.closer u q b x,
          on q,
          Table.get-remove ℕ_discrete t u tasks,
          Table.total-remove_present ℕ_discrete (is_closing q) u (closes q b) tasks v.tasks_apart,
          v.closing q,
        );
      }

  pub rolled_back-IsAccounted :
      (s : PoolState Browser Proxy Page) (tasks : Table ℕ Task) (t id : ℕ)
      (slot : BrowserSlot Browser Proxy)
      → get ℕ_discrete t tasks ≡ some (reserved id)
      → get ℕ_discrete id s.browsers ≡ some slot
      → IsAccounted opts s tasks
      → IsAccounted opts
          (record s {
            browsers =
                insert ℕ_discrete id
                  (take_if (is_over s.shut_down (unreserve opts slot)) (unreserve opts slot)).0
                  s.browsers;
          })
          (remove ℕ_discrete t tasks)
  rolled_back-IsAccounted s tasks t id slot n e v =
      let task = reserved id in
      let left = unreserve opts slot in
      let now = is_over s.shut_down left in
      let new_slot : BrowserSlot Browser Proxy = (take_if now left).0 in
      let r = λ (b : ℕ).
        Table.total-remove_present ℕ_discrete (is_reserved b) t task tasks v.tasks_apart n in
      let l = λ (b : ℕ).
        Table.total-remove_present ℕ_discrete (is_launching b) t task tasks v.tasks_apart n in
      let c = λ (q : ℕ).
        Table.total-remove_present ℕ_discrete (is_closing q) t task tasks v.tasks_apart n in
      let at_ = λ (b : ℕ). Table.get-insert ℕ_discrete id b new_slot s.browsers in
      let lv = Table.total-insert_present ℕ_discrete is_live id new_slot slot s.browsers e in
      let rest = remove ℕ_discrete t tasks in
      let own : SlotOk opts left (pages_of id s.pages) (total ℕ_discrete (is_reserved id) rest)
          (total ℕ_discrete (is_launching id) rest) =
        ground (arith, v.present id slot e, r id, l id) in
      let after =
        taken_ok opts now left (pages_of id s.pages) (total ℕ_discrete (is_reserved id) rest)
          (total ℕ_discrete (is_launching id) rest) (ground arith) own in
      record {
        slots = Table.insert-IsMap ℕ_discrete id new_slot s.browsers v.slots;
        pages = v.pages;
        tasks_apart = Table.remove-IsMap ℕ_discrete t tasks v.tasks_apart;
        present = λ b x. ground (arith, e, v.present b x, after, at_ b, r b, l b);
        absent = λ b. ground (arith, e, v.absent b, at_ b, r b, l b);
        live = ground (arith, v.live, lv, taken_live now left);
        fresh = λ b h. ground (arith, e, v.fresh b h, at_ b);
        closing = λ q. ground (arith, c q, v.closing q);
        closer = λ u q b x. ground (arith, v.closer u q b x, Table.get-remove ℕ_discrete t u tasks);
      }

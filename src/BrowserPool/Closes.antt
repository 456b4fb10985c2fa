-- ===== src/BrowserPool/Closes.antt =====
-- pool.rs: closing a page, and giving that up, keep account.
use millipede.Prelude.{ℕ, ◌≡◌, true, false, none, some, arith, ℕ_discrete}
use millipede.Prelude.Table
use millipede.Prelude.Table.{Table, get, insert, remove, total, IsMap}
use millipede.BrowserPool.{
  PageId, BrowserPoolOptions, BrowserSlot, PageEntry, PoolState, is_live, take_if, is_over,
  one_less,
}
use millipede.BrowserPool.Accounts.{
  IsAccounted, SlotOk, Task, closes, is_reserved, is_launching, is_closing, is_page_of, pages_of,
}
use millipede.BrowserPool.Registering.{taken_ok, taken_live}

module _ {Browser Proxy Page : Type 0} (opts : BrowserPoolOptions) where
  pub begun-IsAccounted :
      (s : PoolState Browser Proxy Page) (tasks : Table ℕ Task) (t : ℕ) (p : PageId)
      (entry : PageEntry Page)
      → get ℕ_discrete t tasks ≡ none
      → get ℕ_discrete p s.pages ≡ some entry
      → entry.closing ≡ false
      → IsAccounted opts s tasks
      → IsAccounted opts
          (record s { pages = insert ℕ_discrete p (record entry { closing = true }) s.pages })
          (insert ℕ_discrete t (closes p entry.browser_id) tasks)
  begun-IsAccounted s tasks t p entry n e o v =
      let task = closes p entry.browser_id in
      let marked_entry : PageEntry Page = record entry { closing = true } in
      let r = λ (b : ℕ). Table.total-insert_absent ℕ_discrete (is_reserved b) t task tasks n in
      let l = λ (b : ℕ). Table.total-insert_absent ℕ_discrete (is_launching b) t task tasks n in
      let c = λ (q : ℕ). Table.total-insert_absent ℕ_discrete (is_closing q) t task tasks n in
      let pg = λ (b : ℕ).
        Table.total-insert_present ℕ_discrete (is_page_of b) p marked_entry entry s.pages e in
      let on = λ (q : ℕ). Table.get-insert ℕ_discrete p q marked_entry s.pages in
      record {
        slots = v.slots;
        pages = Table.insert-IsMap ℕ_discrete p marked_entry s.pages v.pages;
        tasks_apart = Table.insert-IsMap ℕ_discrete t task tasks v.tasks_apart;
        present = λ b x. ground (arith, v.present b x, r b, l b, pg b);
        absent = λ b. ground (arith, v.absent b, r b, l b, pg b);
        live = v.live;
        fresh = v.fresh;
        closing = λ q. ground (arith, e, o, c q, v.closing q, on q);
        closer = λ u q b x. ground (
          arith,
          e,
          v.closer u q b x,
          v.closer u q b entry,
          on q,
          Table.get-insert ℕ_discrete t u task tasks,
        );
      }

  pub cancelled-IsAccounted :
      (s : PoolState Browser Proxy Page) (tasks : Table ℕ Task) (t : ℕ) (p : PageId) (id : ℕ)
      (entry : PageEntry Page)
      → get ℕ_discrete t tasks ≡ some (closes p id)
      → get ℕ_discrete p s.pages ≡ some entry
      → IsAccounted opts s tasks
      → IsAccounted opts
          (record s { pages = insert ℕ_discrete p (record entry { closing = false }) s.pages })
          (remove ℕ_discrete t tasks)
  cancelled-IsAccounted s tasks t p id entry n e v =
      let task = closes p id in
      let unmarked : PageEntry Page = record entry { closing = false } in
      let r = λ (b : ℕ).
        Table.total-remove_present ℕ_discrete (is_reserved b) t task tasks v.tasks_apart n in
      let l = λ (b : ℕ).
        Table.total-remove_present ℕ_discrete (is_launching b) t task tasks v.tasks_apart n in
      let c = λ (q : ℕ).
        Table.total-remove_present ℕ_discrete (is_closing q) t task tasks v.tasks_apart n in
      let pg = λ (b : ℕ).
        Table.total-insert_present ℕ_discrete (is_page_of b) p unmarked entry s.pages e in
      let on = λ (q : ℕ). Table.get-insert ℕ_discrete p q unmarked s.pages in
      record {
        slots = v.slots;
        pages = Table.insert-IsMap ℕ_discrete p unmarked s.pages v.pages;
        tasks_apart = Table.remove-IsMap ℕ_discrete t tasks v.tasks_apart;
        present = λ b x. ground (arith, v.present b x, r b, l b, pg b);
        absent = λ b. ground (arith, v.absent b, r b, l b, pg b);
        live = v.live;
        fresh = v.fresh;
        closing = λ q. ground (arith, e, c q, v.closing q, on q);
        closer = λ u q b x. ground (
          arith,
          e,
          v.closer u q b x,
          v.closer u q b entry,
          on q,
          Table.get-remove ℕ_discrete t u tasks,
        );
      }

  pub closed-IsAccounted :
      (s : PoolState Browser Proxy Page) (tasks : Table ℕ Task) (t : ℕ) (p : PageId) (id : ℕ)
      (entry : PageEntry Page) (slot : BrowserSlot Browser Proxy)
      → get ℕ_discrete t tasks ≡ some (closes p id)
      → get ℕ_discrete p s.pages ≡ some entry
      → get ℕ_discrete id s.browsers ≡ some slot
      → IsAccounted opts s tasks
      → IsAccounted opts
          (record s {
            browsers =
                insert ℕ_discrete id
                  (take_if (is_over s.shut_down (one_less opts slot)) (one_less opts slot)).0
                  s.browsers;
            pages = remove ℕ_discrete p s.pages;
          })
          (remove ℕ_discrete t tasks)
  closed-IsAccounted s tasks t p id entry slot n f e v =
      let task = closes p id in
      let mine = v.closer t p id entry n f in
      let left = one_less opts slot in
      let now = is_over s.shut_down left in
      let new_slot : BrowserSlot Browser Proxy = (take_if now left).0 in
      let r = λ (b : ℕ).
        Table.total-remove_present ℕ_discrete (is_reserved b) t task tasks v.tasks_apart n in
      let l = λ (b : ℕ).
        Table.total-remove_present ℕ_discrete (is_launching b) t task tasks v.tasks_apart n in
      let c = λ (q : ℕ).
        Table.total-remove_present ℕ_discrete (is_closing q) t task tasks v.tasks_apart n in
      let at_ = λ (b : ℕ). Table.get-insert ℕ_discrete id b new_slot s.browsers in
      let lv = Table.total-insert_present ℕ_discrete is_live id new_slot slot s.browsers e in
      let pg =
        λ (b : ℕ). Table.total-remove_present ℕ_discrete (is_page_of b) p entry s.pages v.pages f in
      let on = λ (q : ℕ). Table.get-remove ℕ_discrete p q s.pages in
      let rest = remove ℕ_discrete t tasks in
      let kept = remove ℕ_discrete p s.pages in
      let own : SlotOk opts left (pages_of id kept) (total ℕ_discrete (is_reserved id) rest)
          (total ℕ_discrete (is_launching id) rest) =
        ground (arith, v.present id slot e, r id, l id, pg id, mine) in
      let after =
        taken_ok opts now left (pages_of id kept) (total ℕ_discrete (is_reserved id) rest)
          (total ℕ_discrete (is_launching id) rest) (ground arith) own in
      record {
        slots = Table.insert-IsMap ℕ_discrete id new_slot s.browsers v.slots;
        pages = Table.remove-IsMap ℕ_discrete p s.pages v.pages;
        tasks_apart = Table.remove-IsMap ℕ_discrete t tasks v.tasks_apart;
        present = λ b x. ground (arith, e, v.present b x, after, at_ b, r b, l b, pg b, mine);
        absent = λ b. ground (arith, e, v.absent b, at_ b, r b, l b, pg b, mine);
        live = ground (arith, v.live, lv, taken_live now left);
        fresh = λ b h. ground (arith, e, v.fresh b h, at_ b);
        closing = λ q. ground (arith, f, c q, v.closing q, on q);
        closer = λ u q b x.
            ground (arith, f, v.closer u q b x, on q, Table.get-remove ℕ_discrete t u tasks);
      }

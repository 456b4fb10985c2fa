-- ===== src/BrowserPool/Acquiring.antt =====
-- pool.rs, `acquire_page`: reservations and launches keep account.
use millipede.Prelude.{
  ℕ, ◌<◌, ◌≡◌, ◌≢◌, true, false, [], ◌∷◌, Option, none, some, arith, ℕ_discrete,
}
use millipede.Prelude.Table
use millipede.Prelude.Table.{Table, get, insert, remove, total, IsMap}
use millipede.Prelude.Words.{u64_inc, u64_max, u64_inc_exact}
use millipede.BrowserPool.{
  BrowserPoolOptions, BrowserSlot, PoolState, first_available, is_available, is_live, live_count,
  launch_allowed, placeholder, reserve,
}
use millipede.BrowserPool.Blocks.{drop_launch}
use millipede.BrowserPool.Accounts.{
  IsAccounted, Task, reserved, launching, is_reserved, is_launching, is_closing,
}

module _ {Browser Proxy : Type 0} (opts : BrowserPoolOptions) where
  pub first_available_present :
      (id : ℕ) (browsers : Table ℕ (BrowserSlot Browser Proxy))
      → first_available opts browsers ≡ some id
      → get ℕ_discrete id browsers ≢ none
  unfolding first_available get
  first_available_present id [] e = ground (arith, e)
  first_available_present id ((j, x) ∷ browsers) e =
      ground (arith, e, first_available_present id browsers)

  pub first_available_lem :
      (id : ℕ) (slot : BrowserSlot Browser Proxy) (browsers : Table ℕ (BrowserSlot Browser Proxy))
      → IsMap ℕ_discrete browsers
      → first_available opts browsers ≡ some id
      → get ℕ_discrete id browsers ≡ some slot
      → is_available opts slot ≡ true
  unfolding first_available get
  first_available_lem id slot [] u e f = ground (arith, e)
  first_available_lem id slot ((j, x) ∷ browsers) u e f =
      ground
        (arith, u, e, f, first_available_present id browsers, first_available_lem id slot browsers)

module _ {Browser Proxy Page : Type 0} (opts : BrowserPoolOptions) where
  pub reserved-IsAccounted :
      (s : PoolState Browser Proxy Page) (tasks : Table ℕ Task) (t id : ℕ)
      (slot : BrowserSlot Browser Proxy)
      → get ℕ_discrete t tasks ≡ none
      → get ℕ_discrete id s.browsers ≡ some slot
      → is_available opts slot ≡ true
      → IsAccounted opts s tasks
      → IsAccounted opts
          (record s { browsers = insert ℕ_discrete id (reserve slot) s.browsers })
          (insert ℕ_discrete t (reserved id) tasks)
  unfolding is_available
  reserved-IsAccounted s tasks t id slot n e a v =
      let task = reserved id in
      let r = λ (b : ℕ). Table.total-insert_absent ℕ_discrete (is_reserved b) t task tasks n in
      let l = λ (b : ℕ). Table.total-insert_absent ℕ_discrete (is_launching b) t task tasks n in
      let c = λ (p : ℕ). Table.total-insert_absent ℕ_discrete (is_closing p) t task tasks n in
      let at_ = λ (b : ℕ). Table.get-insert ℕ_discrete id b (reserve slot) s.browsers in
      let lv = Table.total-insert_present ℕ_discrete is_live id (reserve slot) slot s.browsers e in
      record {
        slots = Table.insert-IsMap ℕ_discrete id (reserve slot) s.browsers v.slots;
        pages = v.pages;
        tasks_apart = Table.insert-IsMap ℕ_discrete t task tasks v.tasks_apart;
        present = λ b x. ground (arith, a, e, v.present b x, v.present id slot e, at_ b, r b, l b);
        absent = λ b. ground (arith, e, v.absent b, at_ b, r b, l b);
        live = ground (arith, v.live, lv);
        fresh = λ b h. ground (arith, e, v.fresh b h, at_ b);
        closing = λ p. ground (arith, c p, v.closing p);
        closer =
            λ u p b x. ground (arith, v.closer u p b x, Table.get-insert ℕ_discrete t u task tasks);
      }

  pub launched-IsAccounted :
      (s : PoolState Browser Proxy Page) (tasks : Table ℕ Task) (t : ℕ)
      → get ℕ_discrete t tasks ≡ none
      → s.next_browser_id < u64_max
      → launch_allowed opts (live_count s.browsers) ≡ true
      → IsAccounted opts s tasks
      → IsAccounted opts
          (record s {
            browsers = insert ℕ_discrete s.next_browser_id placeholder s.browsers;
            next_browser_id = u64_inc s.next_browser_id;
          })
          (insert ℕ_discrete t (launching s.next_browser_id) tasks)
  launched-IsAccounted s tasks t n room a v =
      let id = s.next_browser_id in
      let task = launching id in
      let none_yet = v.fresh id (omega arith) in
      let r = λ (b : ℕ). Table.total-insert_absent ℕ_discrete (is_reserved b) t task tasks n in
      let l = λ (b : ℕ). Table.total-insert_absent ℕ_discrete (is_launching b) t task tasks n in
      let c = λ (p : ℕ). Table.total-insert_absent ℕ_discrete (is_closing p) t task tasks n in
      let at_ = λ (b : ℕ). Table.get-insert ℕ_discrete id b placeholder s.browsers in
      let lv = Table.total-insert_absent ℕ_discrete is_live id placeholder s.browsers none_yet in
      let next = u64_inc_exact s.next_browser_id room in
      record {
        slots = Table.insert-IsMap ℕ_discrete id placeholder s.browsers v.slots;
        pages = v.pages;
        tasks_apart = Table.insert-IsMap ℕ_discrete t task tasks v.tasks_apart;
        present = λ b x. ground (arith, v.present b x, v.absent id none_yet, at_ b, r b, l b);
        absent = λ b. ground (arith, v.absent b, at_ b, r b, l b);
        live = ground (arith, v.live, lv, a);
        fresh = λ b h. ground (arith, v.fresh b, next, h, at_ b);
        closing = λ p. ground (arith, c p, v.closing p);
        closer =
            λ u p b x. ground (arith, v.closer u p b x, Table.get-insert ℕ_discrete t u task tasks);
      }

  pub installed-IsAccounted :
      (s : PoolState Browser Proxy Page) (tasks : Table ℕ Task) (t id : ℕ) (browser : Browser)
      (proxy : Option Proxy) (slot : BrowserSlot Browser Proxy)
      → get ℕ_discrete t tasks ≡ some (launching id)
      → get ℕ_discrete id s.browsers ≡ some slot
      → IsAccounted opts s tasks
      → IsAccounted opts
          (record s {
            browsers =
                insert ℕ_discrete id
                  (record slot { browser = some browser; launching = false; proxy = proxy })
                  s.browsers;
          })
          (remove ℕ_discrete t tasks)
  installed-IsAccounted s tasks t id browser proxy slot n e v =
      let task = launching id in
      let new_slot : BrowserSlot Browser Proxy = record slot {
        browser = some browser;
        launching = false;
        proxy = proxy;
      } in
      let r = λ (b : ℕ).
        Table.total-remove_present ℕ_discrete (is_reserved b) t task tasks v.tasks_apart n in
      let l = λ (b : ℕ).
        Table.total-remove_present ℕ_discrete (is_launching b) t task tasks v.tasks_apart n in
      let c = λ (p : ℕ).
        Table.total-remove_present ℕ_discrete (is_closing p) t task tasks v.tasks_apart n in
      let at_ = λ (b : ℕ). Table.get-insert ℕ_discrete id b new_slot s.browsers in
      let lv = Table.total-insert_present ℕ_discrete is_live id new_slot slot s.browsers e in
      record {
        slots = Table.insert-IsMap ℕ_discrete id new_slot s.browsers v.slots;
        pages = v.pages;
        tasks_apart = Table.remove-IsMap ℕ_discrete t tasks v.tasks_apart;
        present = λ b x. ground (arith, e, v.present b x, v.present id slot e, at_ b, r b, l b);
        absent = λ b. ground (arith, e, v.absent b, at_ b, r b, l b);
        live = ground (arith, v.live, lv, v.present id slot e, l id);
        fresh = λ b h. ground (arith, e, v.fresh b h, at_ b);
        closing = λ p. ground (arith, c p, v.closing p);
        closer = λ u p b x. ground (arith, v.closer u p b x, Table.get-remove ℕ_discrete t u tasks);
      }

  pub dropped-IsAccounted :
      (s : PoolState Browser Proxy Page) (tasks : Table ℕ Task) (t id : ℕ)
      (slot : BrowserSlot Browser Proxy)
      → get ℕ_discrete t tasks ≡ some (launching id)
      → get ℕ_discrete id s.browsers ≡ some slot
      → IsAccounted opts s tasks
      → IsAccounted opts (drop_launch id s) (remove ℕ_discrete t tasks)
  unfolding drop_launch
  dropped-IsAccounted s tasks t id slot n e v =
      let task = launching id in
      let r = λ (b : ℕ).
        Table.total-remove_present ℕ_discrete (is_reserved b) t task tasks v.tasks_apart n in
      let l = λ (b : ℕ).
        Table.total-remove_present ℕ_discrete (is_launching b) t task tasks v.tasks_apart n in
      let c = λ (p : ℕ).
        Table.total-remove_present ℕ_discrete (is_closing p) t task tasks v.tasks_apart n in
      let at_ = λ (b : ℕ). Table.get-remove ℕ_discrete id b s.browsers in
      let lv = Table.total-remove_present ℕ_discrete is_live id slot s.browsers v.slots e in
      record {
        slots = Table.remove-IsMap ℕ_discrete id s.browsers v.slots;
        pages = v.pages;
        tasks_apart = Table.remove-IsMap ℕ_discrete t tasks v.tasks_apart;
        present = λ b x. ground (arith, e, v.present b x, at_ b, r b, l b);
        absent = λ b. ground (arith, e, v.absent b, v.present id slot e, at_ b, r b, l b);
        live = ground (arith, v.live, lv);
        fresh = λ b h. ground (arith, e, v.fresh b h, at_ b);
        closing = λ p. ground (arith, c p, v.closing p);
        closer = λ u p b x. ground (arith, v.closer u p b x, Table.get-remove ℕ_discrete t u tasks);
      }

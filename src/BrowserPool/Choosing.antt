-- ===== src/BrowserPool/Choosing.antt =====
-- pool.rs: which browser a page is created in, and when a browser is closed.
use millipede.Prelude.{
  ℕ, ◌≡◌, refl, Bool, inl, inr, true, false, [], ◌∷◌, none, some, arith, ℕ_discrete, Option-cases,
  Bool-cases,
}
use millipede.Prelude.Table
use millipede.Prelude.Table.{Table, get, insert, remove, total, IsMap}
use millipede.Prelude.Words.{u64_inc}
use millipede.BrowserPool.{
  PageId, BrowserPoolOptions, BrowserSlot, PoolState, existing, launch, wait, shutdown_error,
  first_available, is_available, launch_allowed, live_count, reserve, placeholder, one_less,
  is_over, take_if,
}
use millipede.BrowserPool.Blocks.{choose, finish_close}
use millipede.BrowserPool.Accounts.{IsAccounted, Task, closes, is_reserved, pages_of, is_page_of}
use millipede.BrowserPool.Acquiring.{first_available_lem, first_available_present}
use millipede.BrowserPool.Steps.{closing_page, closing_slot}

module _ {Browser Proxy : Type 0} where
  take_if-gives :
      (test : Bool) (slot : BrowserSlot Browser Proxy) (browser : Browser)
      → (take_if test slot).1 ≡ some browser
      → (take_if test slot).0.browser ≡ none
  take_if-gives true slot browser e = refl
  take_if-gives false slot browser e = cc

module _ {Browser Proxy : Type 0} (opts : BrowserPoolOptions) where
  none_available :
      (id : ℕ) (slot : BrowserSlot Browser Proxy) (browsers : Table ℕ (BrowserSlot Browser Proxy))
      → first_available opts browsers ≡ none
      → get ℕ_discrete id browsers ≡ some slot
      → is_available opts slot ≡ false
  unfolding first_available get
  none_available id slot [] e f = ground (arith, f)
  none_available id slot ((j, x) ∷ browsers) e f =
      ground (arith, e, f, none_available id slot browsers)

module _ {Browser Proxy Page : Type 0} (opts : BrowserPoolOptions) where
  pub data Chooses (s : PoolState Browser Proxy Page) : Type 0 where
    refused : s.shut_down ≡ true → choose opts s ≡ some (s, shutdown_error) → Chooses s
    in_browser :
        (id : ℕ) (slot : BrowserSlot Browser Proxy) (browser : Browser)
        (s' : PoolState Browser Proxy Page)
        → s.shut_down ≡ false
        → get ℕ_discrete id s.browsers ≡ some slot
        → is_available opts slot ≡ true
        → slot.browser ≡ some browser
        → choose opts s ≡ some (s', existing id browser slot.proxy)
        → get ℕ_discrete id s'.browsers ≡ some (reserve slot)
        → Chooses s
    launches :
        (s' : PoolState Browser Proxy Page)
        → s.shut_down ≡ false
        → ((id : ℕ) (slot : BrowserSlot Browser Proxy)
            → get ℕ_discrete id s.browsers ≡ some slot
            → is_available opts slot ≡ false)
        → launch_allowed opts (live_count s.browsers) ≡ true
        → choose opts s ≡ some (s', launch s.next_browser_id)
        → Chooses s
    waits :
        (maximum : ℕ)
        → s.shut_down ≡ false
        → ((id : ℕ) (slot : BrowserSlot Browser Proxy)
            → get ℕ_discrete id s.browsers ≡ some slot
            → is_available opts slot ≡ false)
        → opts.max_browsers ≡ some maximum
        → live_count s.browsers ≡ maximum
        → choose opts s ≡ some (s, wait)
        → Chooses s

  -- In a pool that keeps account, choosing does not panic. After a shutdown it is refused. Otherwise the page goes to
  -- an available browser, if there is one; a browser is launched only if none is available and the limit allows it;
  -- and a task waits only if no browser is available and exactly `max_browsers` are live or launching.
  pub choose-Chooses :
      (s : PoolState Browser Proxy Page) (tasks : Table ℕ Task)
      → IsAccounted opts s tasks
      → Chooses s
  unfolding choose is_available
  choose-Chooses s tasks v = elim (Bool-cases s.shut_down) [
    | inl d ↦ refused d (ground (arith, d))
    | inr d ↦ elim (Option-cases (first_available opts s.browsers)) [
      | inl f ↦ elim (Bool-cases (launch_allowed opts (live_count s.browsers))) [
        | inl a ↦
            launches
              (record s {
                browsers = insert ℕ_discrete s.next_browser_id placeholder s.browsers;
                next_browser_id = u64_inc s.next_browser_id;
              })
              d (λ id slot. none_available opts id slot s.browsers f) a (ground (arith, d, f, a))
        | inr a ↦ elim (Option-cases opts.max_browsers) [
          | inl m ↦ ground (arith, a, m)
          | inr (maximum, m) ↦
              waits maximum d (λ id slot. none_available opts id slot s.browsers f) m
                (ground (arith, a, m, v.live)) (ground (arith, d, f, a))
        ]
      ]
      | inr (id, f) ↦ elim (Option-cases (get ℕ_discrete id s.browsers)) [
        | inl g ↦ elim (first_available_present opts id s.browsers f g) [ ]
        | inr (slot, g) ↦
            let a = first_available_lem opts id slot s.browsers v.slots f g in
            elim (Option-cases slot.browser) [
              | inl b ↦ ground (arith, a, b)
              | inr (browser, b) ↦
                  in_browser id slot browser
                    (record s { browsers = insert ℕ_discrete id (reserve slot) s.browsers }) d g a b
                    (ground (arith, d, f, g, b))
                    (Table.get-insert_self ℕ_discrete id (reserve slot) s.browsers)
            ]
      ]
    ]
  ]

  finish_close-gives :
      (s : PoolState Browser Proxy Page) (p : PageId) (b : ℕ) (slot : BrowserSlot Browser Proxy)
      (browser : Browser)
      → get ℕ_discrete b s.browsers ≡ some slot
      → (finish_close opts p b s).1 ≡ some browser
      → (left : BrowserSlot Browser Proxy) × (get ℕ_discrete b (finish_close opts p b s).0.browsers
          ≡ some left)
        × (left.browser ≡ none)
  unfolding finish_close get
  finish_close-gives s p b slot browser g e =
      let left = one_less opts slot in
      let after = take_if (is_over s.shut_down left) left in
      rw (finish_close, g)
        (
          after.0,
          Table.get-insert_self ℕ_discrete b after.0 s.browsers,
          take_if-gives (is_over s.shut_down left) left browser (rw (finish_close, g) at e),
        )

  -- If the end of closing a page returns a browser, which is then closed, then no registered page and no
  -- page that is being created belongs to that browser, and its slot has given it away.
  pub finish_close-unused :
      (s : PoolState Browser Proxy Page) (tasks : Table ℕ Task) (t : ℕ) (p : PageId) (b : ℕ)
      (browser : Browser)
      → IsAccounted opts s tasks
      → get ℕ_discrete t tasks ≡ some (closes p b)
      → (finish_close opts p b s).1 ≡ some browser
      → (pages_of b (finish_close opts p b s).0.pages ≡ 0)
        × (total ℕ_discrete (is_reserved b) (remove ℕ_discrete t tasks) ≡ 0)
        × ((slot : BrowserSlot Browser Proxy) × (get ℕ_discrete b
                (finish_close opts p b s).0.browsers
              ≡ some slot)
            × (slot.browser ≡ none))
  unfolding finish_close
  finish_close-unused s tasks t p b browser v n e =
      let (entry, f) = closing_page opts s tasks v t p b n in
      let (slot, g) = closing_slot opts s tasks v t p b entry n f in
      let pg = Table.total-remove_present ℕ_discrete (is_page_of b) p entry s.pages v.pages f in
      let r =
        Table.total-remove_present ℕ_discrete (is_reserved b) t (closes p b) tasks v.tasks_apart
          n in
      let (empty, unused) : (pages_of b (finish_close opts p b s).0.pages ≡ 0)
          × (total ℕ_discrete (is_reserved b) (remove ℕ_discrete t tasks) ≡ 0) =
        ground (arith, e, f, g, pg, r, v.closer t p b entry n f, v.present b slot g) in
      (empty, unused, finish_close-gives s p b slot browser g e)

-- ===== src/BrowserPool/Accounts.antt =====
-- pool.rs: the tasks that run between the blocks, and how slots, pages and tasks keep account of each other.
use millipede.Prelude.{ℕ, ◌+◌, ◌≤◌, ◌<◌, ◌≡◌, ite, true, Option, none, some, ℕ_discrete}
use millipede.Prelude.Table.{Table, get, total, IsMap}
use millipede.Frontier.Rotation.{is_some}
use millipede.MemoryQueue.Invariant.{bit}
use millipede.BrowserPool.{
  PageId, BrowserPoolOptions, BrowserSlot, PageEntry, PoolState, live_count,
}

-- What a task owes: it holds a page reservation on a browser (`PageReservationGuard`), the placeholder of
-- a launch (`LaunchGuard`), or it closes a page of a browser (`PageCloseGuard`).
pub data Task : Type 0 where
  reserved launching : ℕ → Task
  closes : PageId → ℕ → Task

abbrev pub is_reserved : ℕ → Task → ℕ
is_reserved b (reserved c) = ite (ℕ_discrete c b) 1 0
is_reserved b (launching c) = 0
is_reserved b (closes p c) = 0

abbrev pub is_launching : ℕ → Task → ℕ
is_launching b (reserved c) = 0
is_launching b (launching c) = ite (ℕ_discrete c b) 1 0
is_launching b (closes p c) = 0

abbrev pub is_closing : PageId → Task → ℕ
is_closing p (reserved c) = 0
is_closing p (launching c) = 0
is_closing p (closes q c) = ite (ℕ_discrete q p) 1 0

module _ {Page : Type 0} where
  abbrev pub is_page_of : ℕ → PageEntry Page → ℕ
  is_page_of b e = ite (ℕ_discrete e.browser_id b) 1 0

  abbrev pub pages_of : ℕ → Table PageId (PageEntry Page) → ℕ
  pages_of b pages = total ℕ_discrete (is_page_of b) pages

  abbrev pub marked : Option (PageEntry Page) → ℕ
  marked none = 0
  marked (some e) = bit e.closing

module _ {Browser Proxy : Type 0} where
  -- A slot with this many registered pages, reservations and launching tasks.
  abbrev pub SlotOk : BrowserPoolOptions → BrowserSlot Browser Proxy → ℕ → ℕ → ℕ → Type 0
  SlotOk opts slot pages reservations launches =
      (slot.open_pages ≡ pages + reservations)
      × (slot.in_flight_pages ≡ reservations)
      × (slot.open_pages ≤ opts.max_open_pages_per_browser)
      × (launches ≡ bit slot.launching)
      × (bit slot.launching + bit (is_some slot.browser) ≤ 1)
      × (0 < slot.open_pages → is_some slot.browser ≡ true)

abbrev pub Within : Option ℕ → ℕ → Type 0
Within none n = Unit
Within (some maximum) n = n ≤ maximum

module _ {Browser Proxy Page : Type 0} where
  pub record IsAccounted (opts : BrowserPoolOptions) (s : PoolState Browser Proxy Page)
      (tasks : Table ℕ Task) : Type 0 where
    pub slots : IsMap ℕ_discrete s.browsers
    pub pages : IsMap ℕ_discrete s.pages
    pub tasks_apart : IsMap ℕ_discrete tasks
    -- a slot counts its pages and reservations, keeps to the limit, and has a browser while it has pages
    pub present :
        (b : ℕ) (slot : BrowserSlot Browser Proxy)
        → get ℕ_discrete b s.browsers ≡ some slot
        → SlotOk opts slot
            (pages_of b s.pages)
            (total ℕ_discrete (is_reserved b) tasks)
            (total ℕ_discrete (is_launching b) tasks)
    -- no page and no task belongs to a browser without a slot
    pub absent :
        (b : ℕ)
        → get ℕ_discrete b s.browsers ≡ none
        → pages_of b s.pages
            + total ℕ_discrete (is_reserved b) tasks
            + total ℕ_discrete (is_launching b) tasks
          ≡ 0
    pub live : Within opts.max_browsers (live_count s.browsers)
    pub fresh : (b : ℕ) → s.next_browser_id ≤ b → get ℕ_discrete b s.browsers ≡ none
    -- a page that is being closed has one task that closes it, and no other page has
    pub closing :
        (p : PageId) → total ℕ_discrete (is_closing p) tasks ≡ marked (get ℕ_discrete p s.pages)
    pub closer :
        (t : ℕ) (p : PageId) (b : ℕ) (e : PageEntry Page)
        → get ℕ_discrete t tasks ≡ some (closes p b)
        → get ℕ_discrete p s.pages ≡ some e
        → e.browser_id ≡ b

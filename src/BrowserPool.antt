-- ===== src/BrowserPool.antt =====
-- crates/millipede-browser/src/pool.rs: the state of the browser pool, and what is done to it while its mutex is
-- held. Between two of these blocks other tasks run. A slot is kept under its `id`, in the order of the
-- vector. Launching browsers and creating or closing pages are calls of the provider, hooks are code of
-- the user: their outcome decides which block a task runs next.
pub mod Blocks
pub mod Accounts
pub mod Acquiring
pub mod Registering
pub mod Closes
pub mod Taking
pub mod Steps
pub mod Reachable
pub mod Choosing
use millipede.Prelude.{
  ℕ, ◌+◌, ◌-◌, ◌%◌, Bool, true, false, not, ◌&&◌, ◌||◌, [], ◌∷◌, Option, none, some, ℕ_discrete,
  if◌then◌else◌, ltb, leb, ◌==◌,
}
use millipede.Prelude.Table.{Table, get, insert, remove, total}
use millipede.Prelude.Words.{u64_inc}
use millipede.Frontier.{is_nil}
use millipede.Frontier.Rotation.{is_some}
use millipede.MemoryQueue.Invariant.{bit}

-- A `PageId` is its number.
abbrev pub PageId : Type 0
PageId = ℕ

pub record BrowserPoolOptions : Type 0 where
  pub max_open_pages_per_browser : ℕ
  pub retire_browser_after_page_count : ℕ
  pub max_browsers : Option ℕ

pub record BrowserSlot (Browser Proxy : Type 0) : Type 0 where
  pub browser : Option Browser
  pub open_pages : ℕ
  pub in_flight_pages : ℕ
  pub pages_created : ℕ
  pub launching : Bool
  pub retired : Bool
  pub proxy : Option Proxy

pub record PageEntry (Page : Type 0) : Type 0 where
  pub page : Page
  pub browser_id : ℕ
  pub closing : Bool

pub record PoolState (Browser Proxy Page : Type 0) : Type 0 where
  pub browsers : Table ℕ (BrowserSlot Browser Proxy)
  pub pages : Table PageId (PageEntry Page)
  pub next_browser_id : ℕ
  pub shut_down : Bool

pub data Choice (Browser Proxy : Type 0) : Type 0 where
  existing : ℕ → Browser → Option Proxy → Choice Browser Proxy
  launch : ℕ → Choice Browser Proxy
  wait : Choice Browser Proxy
  shutdown_error : Choice Browser Proxy

pub data Closing (Page : Type 0) : Type 0 where
  gone : Closing Page
  wait_for_closer : Closing Page
  close : PageEntry Page → Closing Page

abbrev pub launch_allowed : BrowserPoolOptions → ℕ → Bool
launch_allowed opts live = elim opts.max_browsers [ none ↦ true | some maximum ↦ ltb live maximum ]

module _ {Browser Proxy : Type 0} where
  unfoldable pub is_available : BrowserPoolOptions → BrowserSlot Browser Proxy → Bool
  is_available opts slot =
      not slot.retired
      && not slot.launching
      && is_some slot.browser
      && ltb slot.open_pages opts.max_open_pages_per_browser
      && ltb slot.pages_created opts.retire_browser_after_page_count

  unfoldable pub first_available :
      BrowserPoolOptions → Table ℕ (BrowserSlot Browser Proxy) → Option ℕ
  first_available opts [] = none
  first_available opts ((id, slot) ∷ browsers) =
      let rest = first_available opts browsers in if is_available opts slot then some id else rest

  abbrev pub is_live : BrowserSlot Browser Proxy → ℕ
  is_live slot = bit (slot.launching || is_some slot.browser)

  abbrev pub live_count : Table ℕ (BrowserSlot Browser Proxy) → ℕ
  live_count = total ℕ_discrete is_live

  abbrev pub placeholder : BrowserSlot Browser Proxy
  placeholder = record {
    browser = none;
    open_pages = 0;
    in_flight_pages = 0;
    pages_created = 0;
    launching = true;
    retired = false;
    proxy = none;
  }

  abbrev pub reserve : BrowserSlot Browser Proxy → BrowserSlot Browser Proxy
  reserve slot = record slot {
    open_pages = slot.open_pages + 1;
    in_flight_pages = slot.in_flight_pages + 1;
    pages_created = slot.pages_created + 1;
  }

  abbrev pub take_if : Bool → BrowserSlot Browser Proxy → BrowserSlot Browser Proxy × Option Browser
  take_if true slot = (record slot { browser = none }, slot.browser)
  take_if false slot = (slot, none)

  abbrev pub unreserve : BrowserPoolOptions → BrowserSlot Browser Proxy → BrowserSlot Browser Proxy
  unreserve opts slot = record slot {
    open_pages = slot.open_pages - 1;
    in_flight_pages = slot.in_flight_pages - 1;
    pages_created = slot.pages_created - 1;
    retired = leb opts.retire_browser_after_page_count (slot.pages_created - 1);
  }

  abbrev pub is_over : Bool → BrowserSlot Browser Proxy → Bool
  is_over shut_down slot = (slot.open_pages == 0) && (slot.retired || shut_down)

  abbrev pub landed : ℕ → Table ℕ (BrowserSlot Browser Proxy) → Table ℕ (BrowserSlot Browser Proxy)
  landed id browsers = elim (get ℕ_discrete id browsers) [
    | none ↦ browsers
    | some slot ↦
        insert ℕ_discrete id (record slot { in_flight_pages = slot.in_flight_pages - 1 }) browsers
  ]

  abbrev pub one_less : BrowserPoolOptions → BrowserSlot Browser Proxy → BrowserSlot Browser Proxy
  one_less opts slot = record slot {
    open_pages = slot.open_pages - 1;
    retired = leb opts.retire_browser_after_page_count slot.pages_created || slot.retired;
  }

  abbrev pub is_idle : BrowserSlot Browser Proxy → Bool
  is_idle slot = (slot.open_pages == 0) && (slot.in_flight_pages == 0)

  pub take_browsers :
      (BrowserSlot Browser Proxy → Bool)
      → Table ℕ (BrowserSlot Browser Proxy)
      → Table ℕ (BrowserSlot Browser Proxy)
  take_browsers test [] = []
  take_browsers test ((id, slot) ∷ browsers) =
      (id, (take_if (test slot) slot).0) ∷ take_browsers test browsers

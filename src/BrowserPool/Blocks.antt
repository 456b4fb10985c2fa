-- ===== src/BrowserPool/Blocks.antt =====
-- pool.rs: the blocks that hold the mutex, one function each.
use millipede.Prelude.{ℕ, Bool, true, false, [], Option, none, some, ℕ_discrete, if◌then◌else◌}
use millipede.Prelude.Table.{get, insert, remove}
use millipede.Prelude.Words.{u64_inc}
use millipede.Frontier.{is_nil}
use millipede.BrowserPool.{
  PageId, BrowserPoolOptions, PoolState, Choice, existing, launch, wait, shutdown_error, Closing,
  gone, wait_for_closer, close, first_available, live_count, launch_allowed, placeholder, reserve,
  take_if, unreserve, is_over, landed, one_less, is_idle, take_browsers,
}

module _ {Browser Proxy Page : Type 0} where
  unfoldable pub new : PoolState Browser Proxy Page
  new = record { browsers = []; pages = []; next_browser_id = 1; shut_down = false }

  -- The block of `acquire_page` that chooses what to do. `expect` on the browser is `none`.
  unfoldable pub choose :
      BrowserPoolOptions
      → PoolState Browser Proxy Page
      → Option (PoolState Browser Proxy Page × Choice Browser Proxy)
  choose opts s =
      if s.shut_down then some (s, shutdown_error) else elim (first_available opts s.browsers) [
        | some id ↦ elim (get ℕ_discrete id s.browsers) [
          | none ↦ none
          | some slot ↦ elim slot.browser [
            | none ↦ none
            | some browser ↦ some (
              record s { browsers = insert ℕ_discrete id (reserve slot) s.browsers },
              existing id browser slot.proxy,
            )
          ]
        ]
        | none ↦
            if launch_allowed opts (live_count s.browsers)
            then some (
              record s {
                browsers = insert ℕ_discrete s.next_browser_id placeholder s.browsers;
                next_browser_id = u64_inc s.next_browser_id;
              },
              launch s.next_browser_id,
            )
            else some (s, wait)
      ]

  -- After a launch: whether the browser is put into its slot.
  unfoldable pub install :
      ℕ
      → Browser
      → Option Proxy
      → PoolState Browser Proxy Page
      → PoolState Browser Proxy Page × Bool
  install id browser proxy s =
      if s.shut_down then (s, false) else elim (get ℕ_discrete id s.browsers) [
        | none ↦ (s, false)
        | some slot ↦ (
          record s {
            browsers =
                insert ℕ_discrete id
                  (record slot { browser = some browser; launching = false; proxy = proxy })
                  s.browsers;
          },
          true,
        )
      ]

  -- `LaunchGuard::drop`, and the end of a launch that came too late.
  unfoldable pub drop_launch : ℕ → PoolState Browser Proxy Page → PoolState Browser Proxy Page
  drop_launch id s = record s { browsers = remove ℕ_discrete id s.browsers }

  unfoldable pub rollback_page_reservation :
      BrowserPoolOptions
      → ℕ
      → PoolState Browser Proxy Page
      → PoolState Browser Proxy Page × Option Browser
  rollback_page_reservation opts id s = elim (get ℕ_discrete id s.browsers) [
    | none ↦ (s, none)
    | some slot ↦
        let left = unreserve opts slot in
        let after = take_if (is_over s.shut_down left) left in
        (record s { browsers = insert ℕ_discrete id after.0 s.browsers }, after.1)
  ]

  unfoldable pub register :
      ℕ → PageId → Page → PoolState Browser Proxy Page → PoolState Browser Proxy Page × Bool
  register id page_id page s = if s.shut_down then (s, false) else (
    record s {
      browsers = landed id s.browsers;
      pages =
          insert ℕ_discrete page_id (record { page = page; browser_id = id; closing = false })
            s.pages;
    },
    true,
  )

  -- `close_page`: the block that finds the page.
  unfoldable pub begin_close :
      PageId → PoolState Browser Proxy Page → PoolState Browser Proxy Page × Closing Page
  begin_close page_id s = elim (get ℕ_discrete page_id s.pages) [
    | none ↦ (s, gone)
    | some entry ↦ if entry.closing then (s, wait_for_closer) else (
      record s { pages = insert ℕ_discrete page_id (record entry { closing = true }) s.pages },
      close (record entry { closing = true }),
    )
  ]

  -- The block after the page is closed. A browser that is returned is closed.
  unfoldable pub finish_close :
      BrowserPoolOptions
      → PageId
      → ℕ
      → PoolState Browser Proxy Page
      → PoolState Browser Proxy Page × Option Browser
  finish_close opts page_id browser_id s =
      let pages = remove ℕ_discrete page_id s.pages in
      elim (get ℕ_discrete browser_id s.browsers) [
        | none ↦ (record s { pages = pages }, none)
        | some slot ↦
            let left = one_less opts slot in
            let after = take_if (is_over s.shut_down left) left in
            (
              record s {
                browsers = insert ℕ_discrete browser_id after.0 s.browsers;
                pages = pages;
              },
              after.1,
            )
      ]

  -- `PageCloseGuard::drop`
  unfoldable pub cancel_close : PageId → PoolState Browser Proxy Page → PoolState Browser Proxy Page
  cancel_close page_id s = elim (get ℕ_discrete page_id s.pages) [
    | none ↦ s
    | some entry ↦ record s {
      pages = insert ℕ_discrete page_id (record entry { closing = false }) s.pages;
    }
  ]

  unfoldable pub begin_shutdown : PoolState Browser Proxy Page → PoolState Browser Proxy Page
  begin_shutdown s = record s { shut_down = true }

  -- `shutdown`: the browsers without pages are taken to be closed.
  unfoldable pub take_idle : PoolState Browser Proxy Page → PoolState Browser Proxy Page
  take_idle s = record s { browsers = take_browsers is_idle s.browsers }

  unfoldable pub finalize_orphaned_pool :
      PoolState Browser Proxy Page → PoolState Browser Proxy Page
  finalize_orphaned_pool s =
      if is_nil s.pages then record s { browsers = take_browsers (λ slot. true) s.browsers } else s

-- ===== src/BrowserPool/Reachable.antt =====
-- pool.rs: every interleaving of the tasks' blocks keeps account.
use millipede.Prelude.{ℕ, refl, [], arith}
use millipede.Prelude.Table.{Table, get, total}
use millipede.BrowserPool.{BrowserPoolOptions, PoolState}
use millipede.BrowserPool.Blocks.{new}
use millipede.BrowserPool.Accounts.{IsAccounted, Task}
use millipede.BrowserPool.Steps.{Step, Step-IsAccounted}

module _ {Browser Proxy Page : Type 0} (opts : BrowserPoolOptions) where
  pub data Reachable : PoolState Browser Proxy Page → Table ℕ Task → Type 0 where
    created : Reachable new []
    later :
        {s s' : PoolState Browser Proxy Page} {tasks tasks' : Table ℕ Task}
        → Reachable s tasks
        → Step opts s tasks s' tasks'
        → Reachable s' tasks'

  new-IsAccounted : IsAccounted {Browser = Browser} {Proxy = Proxy} {Page = Page} opts new []
  unfolding new get total
  new-IsAccounted = record {
    slots = tt;
    pages = tt;
    tasks_apart = tt;
    present = λ b x. ground arith;
    absent = λ b e. refl;
    live = ground arith;
    fresh = λ b h. refl;
    closing = λ p. refl;
    closer = λ t p b e. ground arith;
  }

  -- However the tasks of a pool interleave, with launches, pages and hooks that succeed, fail or are cancelled:
  -- each slot counts exactly its registered pages and reservations, and never more than
  -- `max_open_pages_per_browser`; a browser with a page or a reservation is there and is not closed; at most
  -- `max_browsers` browsers are live or launching; no page or task refers to a slot that is gone;
  -- and of the tasks that close pages each page has at most one. Assumed is that new pages have new
  -- identifiers and fewer than 2^64 - 1 browsers are launched.
  pub Reachable-IsAccounted :
      (s : PoolState Browser Proxy Page) (tasks : Table ℕ Task)
      → Reachable s tasks
      → IsAccounted opts s tasks
  Reachable-IsAccounted _ _ created = new-IsAccounted
  Reachable-IsAccounted _ _ (later {s = s} {s' = s'} {tasks = tasks} {tasks' = tasks'} r step) =
      Step-IsAccounted opts s tasks (Reachable-IsAccounted s tasks r) s' tasks' step

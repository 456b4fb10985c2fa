-- ===== src/Tests/Browsers.antt =====
-- A pool of at most one browser, which holds one page at a time.
use millipede.Prelude.{ℕ, ◌≡◌, refl, true, false, [], ◌∷◌, none, some, arith, ℕ_discrete}
use millipede.Prelude.Table.{get, insert, remove, total}
use millipede.BrowserPool.{
  PageId, BrowserPoolOptions, BrowserSlot, PageEntry, PoolState, placeholder, reserve, existing,
  launch, close,
}
use millipede.BrowserPool.Blocks.{new, choose, install, register, begin_close, finish_close}
use millipede.BrowserPool.Accounts.{IsAccounted, closes, pages_of, is_reserved}
use millipede.BrowserPool.Steps.{reserves, launches, installs, registers, begins}
use millipede.BrowserPool.Reachable.{Reachable, created, later, Reachable-IsAccounted}
use millipede.BrowserPool.Choosing.{Chooses, choose-Chooses, finish_close-unused}

abbrev opts : BrowserPoolOptions
opts = record {
  max_open_pages_per_browser = 1;
  retire_browser_after_page_count = 1;
  max_browsers = some 1;
}

abbrev Pool : Type 0
Pool = PoolState ℕ ℕ ℕ

abbrev slot : BrowserSlot ℕ ℕ
slot = record {
  browser = some 7;
  open_pages = 1;
  in_flight_pages = 0;
  pages_created = 1;
  launching = false;
  retired = false;
  proxy = none;
}

-- One browser with one page, 30, that task 2 closes.
abbrev closing_pool : Pool
closing_pool = record {
  browsers = (1, slot) ∷ [];
  pages = (30, record { page = 300; browser_id = 1; closing = true }) ∷ [];
  next_browser_id = 2;
  shut_down = false;
}

abbrev launching_pool : Pool
launching_pool = record new { browsers = (1, placeholder) ∷ []; next_browser_id = 2 }

abbrev launched_pool : Pool
launched_pool = record launching_pool {
  browsers = (1, record placeholder { browser = some 7; launching = false }) ∷ [];
}

abbrev reserved_pool : Pool
reserved_pool = record launched_pool { browsers = (1, record slot { in_flight_pages = 1 }) ∷ [] }

abbrev open_pool : Pool
open_pool = record closing_pool {
  pages = (30, record { page = 300; browser_id = 1; closing = false }) ∷ [];
}

closing_pool-Reachable : Reachable opts closing_pool ((2, closes 30 1) ∷ [])
unfolding new get insert remove choose millipede.BrowserPool.first_available total ℕ_discrete
    install millipede.BrowserPool.is_available register begin_close
closing_pool-Reachable =
    later
      (later
        (later
          (later (later created (launches 2 1 launching_pool refl (ground arith) refl))
            (installs 2 1 7 none launched_pool refl refl))
          (reserves 2 1 7 none reserved_pool refl refl))
        (registers 2 1 30 300 open_pool refl refl refl))
      (begins 2 30 (record { page = 300; browser_id = 1; closing = true }) closing_pool refl refl)

Reachable-IsAccounted_example : IsAccounted opts closing_pool ((2, closes 30 1) ∷ [])
Reachable-IsAccounted_example =
    Reachable-IsAccounted opts closing_pool ((2, closes 30 1) ∷ []) closing_pool-Reachable

choose-Chooses_example : Chooses opts closing_pool
choose-Chooses_example =
    choose-Chooses opts closing_pool ((2, closes 30 1) ∷ [])
      (Reachable-IsAccounted opts closing_pool ((2, closes 30 1) ∷ []) closing_pool-Reachable)

finish_close-unused_example :
    (pages_of 1 (finish_close opts 30 1 closing_pool).0.pages ≡ 0)
    × (total ℕ_discrete (is_reserved 1) (remove ℕ_discrete 2 ((2, closes 30 1) ∷ [])) ≡ 0)
    × ((left : BrowserSlot ℕ ℕ) × (get ℕ_discrete 1 (finish_close opts 30 1 closing_pool).0.browsers
          ≡ some left)
        × (left.browser ≡ none))
unfolding get finish_close ℕ_discrete
finish_close-unused_example =
    finish_close-unused opts closing_pool ((2, closes 30 1) ∷ []) 2 30 1 7
      (Reachable-IsAccounted opts closing_pool ((2, closes 30 1) ∷ []) closing_pool-Reachable) refl
      refl

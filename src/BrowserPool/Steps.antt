-- ===== src/BrowserPool/Steps.antt =====
-- pool.rs: a block of a task keeps account.
use millipede.Prelude.{
  ℕ, ◌-◌, ◌<◌, ◌≡◌, inl, inr, true, false, [], Option, none, some, arith, ℕ_discrete, Option-cases,
  Bool-cases,
}
use millipede.Prelude.Table
use millipede.Prelude.Table.{Table, get, insert, remove, total, IsMap}
use millipede.Prelude.Words.{u64_inc, u64_max}
use millipede.Frontier.{is_nil}
use millipede.BrowserPool.{
  PageId, BrowserPoolOptions, BrowserSlot, PageEntry, PoolState, existing, launch, close,
  first_available, is_idle, reserve, placeholder,
}
use millipede.BrowserPool.Blocks.{
  choose, install, drop_launch, rollback_page_reservation, register, begin_close, finish_close,
  cancel_close, begin_shutdown, take_idle, finalize_orphaned_pool,
}
use millipede.BrowserPool.Accounts.{
  IsAccounted, Task, reserved, launching, closes, is_reserved, is_launching, is_closing, is_page_of,
}
use millipede.BrowserPool.Acquiring.{
  first_available_lem, first_available_present, reserved-IsAccounted, launched-IsAccounted,
  installed-IsAccounted, dropped-IsAccounted,
}
use millipede.BrowserPool.Registering.{registered-IsAccounted, rolled_back-IsAccounted}
use millipede.BrowserPool.Closes.{begun-IsAccounted, cancelled-IsAccounted, closed-IsAccounted}
use millipede.BrowserPool.Taking.{taken-IsAccounted}

module _ {Browser Proxy Page : Type 0} (opts : BrowserPoolOptions) where
  -- One block of one task. A task that starts to owe something is new; one that is done owes nothing more.
  pub data Step (s : PoolState Browser Proxy Page) (tasks : Table ℕ Task)
      : PoolState Browser Proxy Page → Table ℕ Task → Type 0 where
    reserves :
        (t id : ℕ) (browser : Browser) (proxy : Option Proxy) (s' : PoolState Browser Proxy Page)
        → get ℕ_discrete t tasks ≡ none
        → choose opts s ≡ some (s', existing id browser proxy)
        → Step s tasks s' (insert ℕ_discrete t (reserved id) tasks)
    launches :
        (t id : ℕ) (s' : PoolState Browser Proxy Page)
        → get ℕ_discrete t tasks ≡ none
        → s.next_browser_id < u64_max
        → choose opts s ≡ some (s', launch id)
        → Step s tasks s' (insert ℕ_discrete t (launching id) tasks)
    installs :
        (t id : ℕ) (browser : Browser) (proxy : Option Proxy) (s' : PoolState Browser Proxy Page)
        → get ℕ_discrete t tasks ≡ some (launching id)
        → install id browser proxy s ≡ (s', true)
        → Step s tasks s' (remove ℕ_discrete t tasks)
    drops :
        (t id : ℕ)
        → get ℕ_discrete t tasks ≡ some (launching id)
        → Step s tasks (drop_launch id s) (remove ℕ_discrete t tasks)
    registers :
        (t id : ℕ) (p : PageId) (page : Page) (s' : PoolState Browser Proxy Page)
        → get ℕ_discrete t tasks ≡ some (reserved id)
        → get ℕ_discrete p s.pages ≡ none
        → register id p page s ≡ (s', true)
        → Step s tasks s' (remove ℕ_discrete t tasks)
    rolls_back :
        (t id : ℕ)
        → get ℕ_discrete t tasks ≡ some (reserved id)
        → Step s tasks (rollback_page_reservation opts id s).0 (remove ℕ_discrete t tasks)
    begins :
        (t : ℕ) (p : PageId) (e : PageEntry Page) (s' : PoolState Browser Proxy Page)
        → get ℕ_discrete t tasks ≡ none
        → begin_close p s ≡ (s', close e)
        → Step s tasks s' (insert ℕ_discrete t (closes p e.browser_id) tasks)
    cancels :
        (t : ℕ) (p : PageId) (b : ℕ)
        → get ℕ_discrete t tasks ≡ some (closes p b)
        → Step s tasks (cancel_close p s) (remove ℕ_discrete t tasks)
    finishes :
        (t : ℕ) (p : PageId) (b : ℕ)
        → get ℕ_discrete t tasks ≡ some (closes p b)
        → Step s tasks (finish_close opts p b s).0 (remove ℕ_discrete t tasks)
    shuts_down : Step s tasks (begin_shutdown s) tasks
    takes_idle : Step s tasks (take_idle s) tasks
    -- only the last handle of the pool is left
    finalizes : tasks ≡ [] → Step s tasks (finalize_orphaned_pool s) tasks

  module _ (s : PoolState Browser Proxy Page) (tasks : Table ℕ Task)
      (v : IsAccounted opts s tasks) where
    -- A task's slot and its page are there.
    reserved_slot :
        (t id : ℕ)
        → get ℕ_discrete t tasks ≡ some (reserved id)
        → (slot : BrowserSlot Browser Proxy) × (get ℕ_discrete id s.browsers ≡ some slot)
    reserved_slot t id e = elim (Option-cases (get ℕ_discrete id s.browsers)) [
      | inr x ↦ x
      | inl f ↦
          let no : ⊥ = ground (
            arith,
            v.absent id f,
            Table.total-remove_present ℕ_discrete (is_reserved id) t (reserved id) tasks
                v.tasks_apart e,
          ) in
          elim no [ ]
    ]

    launching_slot :
        (t id : ℕ)
        → get ℕ_discrete t tasks ≡ some (launching id)
        → (slot : BrowserSlot Browser Proxy) × (get ℕ_discrete id s.browsers ≡ some slot)
    launching_slot t id e = elim (Option-cases (get ℕ_discrete id s.browsers)) [
      | inr x ↦ x
      | inl f ↦
          let no : ⊥ = ground (
            arith,
            v.absent id f,
            Table.total-remove_present ℕ_discrete (is_launching id) t (launching id) tasks
                v.tasks_apart e,
          ) in
          elim no [ ]
    ]

    pub closing_page :
        (t : ℕ) (p : PageId) (b : ℕ)
        → get ℕ_discrete t tasks ≡ some (closes p b)
        → (entry : PageEntry Page) × (get ℕ_discrete p s.pages ≡ some entry)
    closing_page t p b e = elim (Option-cases (get ℕ_discrete p s.pages)) [
      | inr x ↦ x
      | inl f ↦
          let no : ⊥ = ground (
            arith,
            f,
            v.closing p,
            Table.total-remove_present ℕ_discrete (is_closing p) t (closes p b) tasks v.tasks_apart
                e,
          ) in
          elim no [ ]
    ]

    pub closing_slot :
        (t : ℕ) (p : PageId) (b : ℕ) (entry : PageEntry Page)
        → get ℕ_discrete t tasks ≡ some (closes p b)
        → get ℕ_discrete p s.pages ≡ some entry
        → (slot : BrowserSlot Browser Proxy) × (get ℕ_discrete b s.browsers ≡ some slot)
    closing_slot t p b entry e g = elim (Option-cases (get ℕ_discrete b s.browsers)) [
      | inr x ↦ x
      | inl f ↦
          let no : ⊥ = ground (
            arith,
            v.absent b f,
            v.closer t p b entry e g,
            Table.total-remove_present ℕ_discrete (is_page_of b) p entry s.pages v.pages g,
          ) in
          elim no [ ]
    ]

    reserves-IsAccounted :
        (t id : ℕ) (browser : Browser) (proxy : Option Proxy) (s' : PoolState Browser Proxy Page)
        → get ℕ_discrete t tasks ≡ none
        → choose opts s ≡ some (s', existing id browser proxy)
        → IsAccounted opts s' (insert ℕ_discrete t (reserved id) tasks)
    unfolding choose
    reserves-IsAccounted t id browser proxy s' n e =
        elim (Option-cases (first_available opts s.browsers)) [
          | inl f ↦ let no : ⊥ = ground (arith, e, f) in elim no [ ]
          | inr (j, f) ↦ elim (Option-cases (get ℕ_discrete j s.browsers)) [
            | inl g ↦ elim (first_available_present opts j s.browsers f g) [ ]
            | inr (slot, g) ↦
                let same : id ≡ j = ground (arith, e, f, g) in
                let after : s'
                    ≡ record s { browsers = insert ℕ_discrete j (reserve slot) s.browsers } =
                  ground (arith, e, f, g) in
                rw (same, after)
                  (reserved-IsAccounted opts s tasks t j slot n g
                    (first_available_lem opts j slot s.browsers v.slots f g) v)
          ]
        ]

    launches-IsAccounted :
        (t id : ℕ) (s' : PoolState Browser Proxy Page)
        → get ℕ_discrete t tasks ≡ none
        → s.next_browser_id < u64_max
        → choose opts s ≡ some (s', launch id)
        → IsAccounted opts s' (insert ℕ_discrete t (launching id) tasks)
    unfolding choose
    launches-IsAccounted t id s' n room e =
        let same : id ≡ s.next_browser_id = ground (arith, e) in
        let after : s' ≡ record s {
          browsers = insert ℕ_discrete s.next_browser_id placeholder s.browsers;
          next_browser_id = u64_inc s.next_browser_id;
        } =
          ground (arith, e) in
        rw (same, after) (launched-IsAccounted opts s tasks t n room (ground (arith, e)) v)

    installs-IsAccounted :
        (t id : ℕ) (browser : Browser) (proxy : Option Proxy) (s' : PoolState Browser Proxy Page)
        → get ℕ_discrete t tasks ≡ some (launching id)
        → install id browser proxy s ≡ (s', true)
        → IsAccounted opts s' (remove ℕ_discrete t tasks)
    unfolding install
    installs-IsAccounted t id browser proxy s' n e =
        let (slot, f) = launching_slot t id n in
        let after : s' ≡ record s {
          browsers =
              insert ℕ_discrete id
                (record slot { browser = some browser; launching = false; proxy = proxy })
                s.browsers;
        } =
          ground (arith, e, f) in
        rw (after) (installed-IsAccounted opts s tasks t id browser proxy slot n f v)

    registers-IsAccounted :
        (t id : ℕ) (p : PageId) (page : Page) (s' : PoolState Browser Proxy Page)
        → get ℕ_discrete t tasks ≡ some (reserved id)
        → get ℕ_discrete p s.pages ≡ none
        → register id p page s ≡ (s', true)
        → IsAccounted opts s' (remove ℕ_discrete t tasks)
    unfolding register
    registers-IsAccounted t id p page s' n g e =
        let (slot, f) = reserved_slot t id n in
        let after : s' ≡ record s {
          browsers =
              insert ℕ_discrete id (record slot { in_flight_pages = slot.in_flight_pages - 1 })
                s.browsers;
          pages =
              insert ℕ_discrete p (record { page = page; browser_id = id; closing = false })
                s.pages;
        } =
          ground (arith, e, f) in
        rw (after) (registered-IsAccounted opts s tasks t id p page slot n f g v)

    begins-IsAccounted :
        (t : ℕ) (p : PageId) (entry : PageEntry Page) (s' : PoolState Browser Proxy Page)
        → get ℕ_discrete t tasks ≡ none
        → begin_close p s ≡ (s', close entry)
        → IsAccounted opts s' (insert ℕ_discrete t (closes p entry.browser_id) tasks)
    unfolding begin_close
    begins-IsAccounted t p entry s' n e = elim (Option-cases (get ℕ_discrete p s.pages)) [
      | inl f ↦ let no : ⊥ = ground (arith, e, f) in elim no [ ]
      | inr (x, f) ↦
          let same : entry.browser_id ≡ x.browser_id = ground (arith, e, f) in
          let after : s'
              ≡ record s { pages = insert ℕ_discrete p (record x { closing = true }) s.pages } =
            ground (arith, e, f) in
          rw (same, after) (begun-IsAccounted opts s tasks t p x n f (ground (arith, e, f)) v)
    ]

    finishes-IsAccounted :
        (t : ℕ) (p : PageId) (b : ℕ)
        → get ℕ_discrete t tasks ≡ some (closes p b)
        → IsAccounted opts (finish_close opts p b s).0 (remove ℕ_discrete t tasks)
    unfolding finish_close
    finishes-IsAccounted t p b n =
        let (entry, f) = closing_page t p b n in
        let (slot, g) = closing_slot t p b entry n f in
        rw (finish_close, g) (closed-IsAccounted opts s tasks t p b entry slot n f g v)

    finalizes-IsAccounted : tasks ≡ [] → IsAccounted opts (finalize_orphaned_pool s) tasks
    unfolding finalize_orphaned_pool total
    finalizes-IsAccounted e = elim (Bool-cases (is_nil s.pages)) [
      | inr f ↦ rw (finalize_orphaned_pool, f) v
      | inl f ↦
          let no_pages : s.pages ≡ [] = ground (arith, f) in
          rw (finalize_orphaned_pool, f)
            (taken-IsAccounted opts s tasks (λ slot. true)
              (λ b slot g h. ground (arith, v.present b slot g, no_pages, e)) v)
    ]

    pub Step-IsAccounted :
        (s' : PoolState Browser Proxy Page) (tasks' : Table ℕ Task)
        → Step s tasks s' tasks'
        → IsAccounted opts s' tasks'
    unfolding drop_launch rollback_page_reservation cancel_close begin_shutdown take_idle
    Step-IsAccounted _ _ (reserves t id browser proxy s' n e) =
        reserves-IsAccounted t id browser proxy s' n e
    Step-IsAccounted _ _ (launches t id s' n room e) = launches-IsAccounted t id s' n room e
    Step-IsAccounted _ _ (installs t id browser proxy s' n e) =
        installs-IsAccounted t id browser proxy s' n e
    Step-IsAccounted _ _ (drops t id n) =
        let (slot, f) = launching_slot t id n in dropped-IsAccounted opts s tasks t id slot n f v
    Step-IsAccounted _ _ (registers t id p page s' n g e) =
        registers-IsAccounted t id p page s' n g e
    Step-IsAccounted _ _ (rolls_back t id n) =
        let (slot, f) = reserved_slot t id n in
        rw (rollback_page_reservation, f) (rolled_back-IsAccounted opts s tasks t id slot n f v)
    Step-IsAccounted _ _ (begins t p e s' n g) = begins-IsAccounted t p e s' n g
    Step-IsAccounted _ _ (cancels t p b n) =
        let (entry, f) = closing_page t p b n in
        rw (cancel_close, f) (cancelled-IsAccounted opts s tasks t p b entry n f v)
    Step-IsAccounted _ _ (finishes t p b n) = finishes-IsAccounted t p b n
    Step-IsAccounted _ _ shuts_down = record {
      slots = v.slots;
      pages = v.pages;
      tasks_apart = v.tasks_apart;
      present = v.present;
      absent = v.absent;
      live = v.live;
      fresh = v.fresh;
      closing = v.closing;
      closer = v.closer;
    }
    Step-IsAccounted _ _ takes_idle =
        taken-IsAccounted opts s tasks is_idle (λ b slot f e. ground (arith, e)) v
    Step-IsAccounted _ _ (finalizes e) = finalizes-IsAccounted e

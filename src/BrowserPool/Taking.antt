-- ===== src/BrowserPool/Taking.antt =====
-- pool.rs: taking browsers out of their slots at the end of the pool.
use millipede.Prelude.{
  ℕ, ◌≤◌, ◌≡◌, refl, inl, inr, Bool, true, [], ◌∷◌, none, some, arith, ℕ_discrete, Option-cases,
}
use millipede.Prelude.Table.{Table, get, total, IsMap}
use millipede.BrowserPool.{
  BrowserPoolOptions, BrowserSlot, PoolState, live_count, take_if, take_browsers,
}
use millipede.BrowserPool.Accounts.{IsAccounted, Task, is_reserved, is_launching, pages_of}
use millipede.BrowserPool.Registering.{taken_ok, taken_live}

module _ {Browser Proxy : Type 0} (test : BrowserSlot Browser Proxy → Bool) where
  get-take_browsers :
      (b : ℕ) (browsers : Table ℕ (BrowserSlot Browser Proxy))
      → get ℕ_discrete b (take_browsers test browsers) ≡ elim (get ℕ_discrete b browsers) [
        | none ↦ none
        | some slot ↦ some (take_if (test slot) slot).0
      ]
  unfolding take_browsers get
  get-take_browsers b [] = refl
  get-take_browsers b ((j, x) ∷ browsers) = ground (arith, get-take_browsers b browsers)

  take_browsers-IsMap :
      (browsers : Table ℕ (BrowserSlot Browser Proxy))
      → IsMap ℕ_discrete browsers
      → IsMap ℕ_discrete (take_browsers test browsers)
  unfolding take_browsers
  take_browsers-IsMap [] u = tt
  take_browsers-IsMap ((j, x) ∷ browsers) u =
      (ground (arith, get-take_browsers j browsers, u), take_browsers-IsMap browsers u.1)

  live_count-take_browsers :
      (browsers : Table ℕ (BrowserSlot Browser Proxy))
      → live_count (take_browsers test browsers) ≤ live_count browsers
  unfolding take_browsers total
  live_count-take_browsers [] = omega arith
  live_count-take_browsers ((j, x) ∷ browsers) =
      let k = live_count-take_browsers browsers in let h = taken_live (test x) x in omega arith

module _ {Browser Proxy Page : Type 0} (opts : BrowserPoolOptions) where
  pub taken-IsAccounted :
      (s : PoolState Browser Proxy Page) (tasks : Table ℕ Task)
      (test : BrowserSlot Browser Proxy → Bool)
      → ((b : ℕ) (slot : BrowserSlot Browser Proxy)
          → get ℕ_discrete b s.browsers ≡ some slot
          → test slot ≡ true
          → slot.open_pages ≡ 0)
      → IsAccounted opts s tasks
      → IsAccounted opts (record s { browsers = take_browsers test s.browsers }) tasks
  taken-IsAccounted s tasks test unused v =
      let at_ = λ (b : ℕ). get-take_browsers test b s.browsers in
      record {
        slots = take_browsers-IsMap test s.browsers v.slots;
        pages = v.pages;
        tasks_apart = v.tasks_apart;
        present = λ b x e. elim (Option-cases (get ℕ_discrete b s.browsers)) [
          | inl f ↦ ground (arith, e, f, at_ b)
          | inr (slot, f) ↦
              let p =
                taken_ok opts (test slot) slot (pages_of b s.pages)
                  (total ℕ_discrete (is_reserved b) tasks) (total ℕ_discrete (is_launching b) tasks)
                  (unused b slot f) (v.present b slot f) in
              ground (arith, e, f, p, at_ b)
        ];
        absent = λ b. ground (arith, v.absent b, at_ b);
        live = ground (arith, v.live, live_count-take_browsers test s.browsers);
        fresh = λ b h. ground (arith, v.fresh b h, at_ b);
        closing = v.closing;
        closer = v.closer;
      }

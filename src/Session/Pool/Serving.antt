-- ===== src/Session/Pool/Serving.antt =====
-- session.rs, `SessionPool::session`: it always serves, only usable sessions, within the capacity.
use native.Mathlib.Nat.{mod-lt}
use millipede.Prelude.{
  ℕ, zero, suc, ◌+◌, ◌%◌, ◌≤◌, ◌<◌, max, ◌≡◌, refl, ◌⊎◌, inl, inr, true, false, List, [], ◌∷◌, ◌++◌,
  Option, none, some, arith, Text, text_discrete, ltb, length, length-append, if_pos, if_neg,
  get_elem?, get_elem?-is_some, Bool-cases, Option-cases,
}
use millipede.Session.{
  Session, SessionConfig, new, starting, date_max, record_usage, is_usable, is_expired,
}
use millipede.Session.Pool.{
  SessionPool, find, update, retain_usable, sticky_session, session, create_or_rotate, set_sessions,
}

module _ {Jar Data : Type 0} where
  -- The session stands in the list.
  abbrev pub Stands : Session Jar Data → List (Session Jar Data) → Type 0
  Stands s sessions = (i : ℕ) × (get_elem? sessions i ≡ some s)

  find-Stands :
      (id : Text) (sessions : List (Session Jar Data)) (s : Session Jar Data)
      → find id sessions ≡ some s
      → Stands s sessions
  unfolding find
  find-Stands id [] s e = absurd (cc)
  find-Stands id (t ∷ sessions) s e = elim (text_discrete t.id id) [
    | yes p ↦ (0, rw (if_pos _ p) at e)
    | no n ↦ let (i, h) = find-Stands id sessions s (rw (if_neg _ n) at e) in (suc i, h)
  ]

  head-usable :
      (now : ℕ) (t : Session Jar Data) (sessions : List (Session Jar Data)) (i : ℕ)
      (s : Session Jar Data)
      → ((k : ℕ) (u : Session Jar Data)
          → get_elem? (retain_usable now sessions) k ≡ some u
          → (is_usable now u ≡ true) × Stands u sessions)
      → get_elem? (t ∷ retain_usable now sessions) i ≡ some s
      → is_usable now t ≡ true
      → (is_usable now s ≡ true) × Stands s (t ∷ sessions)
  head-usable now t sessions zero s rest f b = let same : t ≡ s = cc in (rw (← same) b, (0, f))
  head-usable now t sessions (suc k) s rest f b = let (u, (j, h)) = rest k s f in (u, (suc j, h))

  retained-usable :
      (now : ℕ) (sessions : List (Session Jar Data)) (i : ℕ) (s : Session Jar Data)
      → get_elem? (retain_usable now sessions) i ≡ some s
      → (is_usable now s ≡ true) × Stands s sessions
  unfolding retain_usable
  retained-usable now [] i s e = absurd (cc)
  retained-usable now (t ∷ sessions) i s e = elim (Bool-cases (is_usable now t)) [
    | inr b ↦
        let (u, (j, h)) = retained-usable now sessions i s (rw (b, retain_usable) at e) in
        (u, (suc j, h))
    | inl b ↦
        head-usable now t sessions i s (retained-usable now sessions) (rw (b, retain_usable) at e) b
  ]

  length-retain_usable :
      (now : ℕ) (sessions : List (Session Jar Data))
      → length (retain_usable now sessions) ≤ length sessions
  unfolding retain_usable
  length-retain_usable now [] = omega arith
  length-retain_usable now (s ∷ sessions) = ground (arith, length-retain_usable now sessions)

  length-update :
      (f : Session Jar Data → Session Jar Data) (id : Text) (sessions : List (Session Jar Data))
      → length (update f id sessions) ≡ length sessions
  unfolding update
  length-update f id [] = refl
  length-update f id (s ∷ sessions) = ground (arith, length-update f id sessions)

  -- What a request gets: a usable session, from the pool or new, whose use is recorded; the sticky one if
  -- it is usable. The pool stays within its capacity, or its size before.
  pub record Serves (fresh : Option (Session Jar Data)) (pool : SessionPool Jar Data)
      (sticky : Option Text) (now : ℕ) (result : Option (SessionPool Jar Data × Session Jar Data))
      : Type 0 where
    pub after : SessionPool Jar Data
    pub served : Session Jar Data
    pub answers : result ≡ some (after, record_usage served)
    pub usable : is_usable now served ≡ true
    pub known : Stands served pool.sessions ⊎ (fresh ≡ some served)
    pub follows :
        (s : Session Jar Data) → sticky_session sticky now pool.sessions ≡ some s → served ≡ s
    pub bounded : length after.sessions ≤ max pool.options.max_pool_size (length pool.sessions)

  sticky-usable :
      (sticky : Option Text) (now : ℕ) (sessions : List (Session Jar Data)) (s : Session Jar Data)
      → sticky_session sticky now sessions ≡ some s
      → (is_usable now s ≡ true) × Stands s sessions
  unfolding sticky_session
  sticky-usable none now sessions s e = absurd (cc)
  sticky-usable (some id) now sessions s e = elim (Option-cases (find id sessions)) [
    | inl f ↦ absurd (ground (arith, e, f))
    | inr (t, f) ↦ elim (Bool-cases (is_usable now t)) [
      | inr b ↦ absurd (ground (arith, e, f, b))
      | inl b ↦
          let same : t ≡ s = ground (arith, e, f, b) in
          (rw (← same) b, rw (← same) (find-Stands id sessions t f))
    ]
  ]

  fresh-usable :
      (no_cookies : Jar) (no_data : Data) (id : Text) (now : ℕ) (config : SessionConfig)
      → 0 < config.max_age
      → 0 < config.max_error_score_scaled
      → 0 < config.max_usage_count
      → is_usable now (starting no_cookies no_data id (now + config.max_age) config) ≡ true
  unfolding is_usable is_expired
  fresh-usable no_cookies no_data id now config a b c = ground arith

  new_lem :
      (no_cookies : Jar) (no_data : Data) (id : Text) (now : ℕ) (config : SessionConfig)
      → now + config.max_age ≤ date_max
      → new no_cookies no_data id now config
        ≡ some (starting no_cookies no_data id (now + config.max_age) config)
  unfolding new
  new_lem no_cookies no_data id now config h = ground arith

  create_or_rotate-Serves :
      (pool : SessionPool Jar Data) (sticky : Option Text) (now : ℕ)
      (usable : List (Session Jar Data)) (made : Option (Session Jar Data))
      (fresh : Session Jar Data) (random : ℕ)
      → sticky_session sticky now pool.sessions ≡ none
      → made ≡ some fresh
      → is_usable now fresh ≡ true
      → ((i : ℕ) (s : Session Jar Data)
          → get_elem? usable i ≡ some s
          → (is_usable now s ≡ true) × Stands s pool.sessions)
      → length usable ≤ length pool.sessions
      → Serves made pool sticky now (create_or_rotate pool usable made random)
  unfolding create_or_rotate set_sessions
  create_or_rotate-Serves pool sticky now usable made fresh random e m new_one kept fewer =
      elim (Bool-cases (ltb (length usable) pool.options.max_pool_size)) [
        | inl b ↦ record {
          after = set_sessions pool (usable ++ record_usage fresh ∷ []);
          served = fresh;
          answers = rw (b, create_or_rotate, m);
          usable = new_one;
          known = inr m;
          follows = λ t h. absurd (cc);
          bounded = ground (arith, b, length-append usable (record_usage fresh ∷ []));
        }
        | inr b ↦ full usable kept fewer b
      ]
    where
      full :
          (l : List (Session Jar Data))
          → ((i : ℕ) (s : Session Jar Data)
              → get_elem? l i ≡ some s
              → (is_usable now s ≡ true) × Stands s pool.sessions)
          → length l ≤ length pool.sessions
          → ltb (length l) pool.options.max_pool_size ≡ false
          → Serves made pool sticky now (create_or_rotate pool l made random)
      full [] kept fewer b = record {
        after = set_sessions pool [];
        served = fresh;
        answers = rw (b, create_or_rotate, m);
        usable = new_one;
        known = inr m;
        follows = λ t h. absurd (cc);
        bounded = omega arith;
      }
      full (s ∷ rest) kept fewer b =
          let index = random % length (s ∷ rest) in
          let (chosen, h) = get_elem?-is_some (s ∷ rest) index (mod-lt random (omega arith)) in
          let (u, k) = kept index chosen h in
          record {
            after = set_sessions pool (update record_usage chosen.id (s ∷ rest));
            served = chosen;
            answers = rw (b, create_or_rotate) (rw h);
            usable = u;
            known = inl k;
            follows = λ t h. absurd (cc);
            bounded = omega (arith, length-update record_usage chosen.id (s ∷ rest));
          }

  -- The pool answers every request, whatever its state, the sticky identifier and the random number, with a
  -- session that was usable at that moment: the sticky one where that is usable, one of its entries, or
  -- a new one. The use is recorded, and the pool never grows past its capacity or, where it is over
  -- that, past its size before. The configuration allows an age, a score and a use, and a session made now
  -- expires before the dates end.
  pub session-Serves :
      (no_cookies : Jar) (no_data : Data) (pool : SessionPool Jar Data) (sticky : Option Text)
      (now : ℕ) (fresh_id : Text) (random : ℕ)
      → 0 < pool.options.session_config.max_age
      → 0 < pool.options.session_config.max_error_score_scaled
      → 0 < pool.options.session_config.max_usage_count
      → now + pool.options.session_config.max_age ≤ date_max
      → Serves
          (new no_cookies no_data fresh_id now pool.options.session_config)
          pool
          sticky
          now
          (session no_cookies no_data pool sticky now fresh_id random)
  unfolding session set_sessions
  session-Serves no_cookies no_data pool sticky now fresh_id random a b c d =
      elim (Option-cases (sticky_session sticky now pool.sessions)) [
        | inr (s, e) ↦
            let (u, k) = sticky-usable sticky now pool.sessions s e in
            record {
              after = set_sessions pool (update record_usage s.id pool.sessions);
              served = s;
              answers = rw (e, session);
              usable = u;
              known = inl k;
              follows = λ t h. cc;
              bounded = omega (arith, length-update record_usage s.id pool.sessions);
            }
        | inl e ↦
            rw (e, session)
              (create_or_rotate-Serves pool sticky now (retain_usable now pool.sessions)
                (new no_cookies no_data fresh_id now pool.options.session_config)
                (starting no_cookies no_data fresh_id (now + pool.options.session_config.max_age)
                  pool.options.session_config)
                random e (new_lem no_cookies no_data fresh_id now pool.options.session_config d)
                (fresh-usable no_cookies no_data fresh_id now pool.options.session_config a b c)
                (retained-usable now pool.sessions) (length-retain_usable now pool.sessions))
      ]

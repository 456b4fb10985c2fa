-- ===== src/Tests/Sessions.antt =====
-- A pool of one session that is asked for a session, and the score of a session.
use millipede.Prelude.{◌+◌, ◌*◌, ◌≤◌, ◌≡◌, false, [], ◌∷◌, some, arith, codes}
use millipede.Session.{Session, default_config, new, is_usable, retire}
use millipede.Session.Pool.{SessionPool, session}
use millipede.Session.Pool.Serving.{Serves, session-Serves}
use millipede.Session.Score.{good, bad, used, acts, bad_in, good_in, acts-score, retire-is_usable}

abbrev one_session : Session (Unit {0}) (Unit {0})
one_session = record {
  id = codes "session-1";
  cookies = tt;
  user_data = tt;
  error_score_scaled = 500;
  usage_count = 2;
  retired = false;
  expires_at = 50;
  config = default_config;
}

abbrev pool : SessionPool (Unit {0}) (Unit {0})
pool = record {
  sessions = one_session ∷ [];
  options = record { max_pool_size = 1; session_config = default_config };
}

session-Serves_example :
    Serves
      (new tt tt (codes "session-2") 10 default_config)
      pool
      (some (codes "session-1"))
      10
      (session tt tt pool (some (codes "session-1")) 10 (codes "session-2") 3)
session-Serves_example =
    session-Serves tt tt pool (some (codes "session-1")) 10 (codes "session-2") 3 (omega arith)
      (omega arith) (omega arith) (omega arith)

acts-score_example :
    ((acts one_session (bad ∷ good ∷ [])).error_score_scaled
      ≤ one_session.error_score_scaled + 1_000 * bad_in (bad ∷ good ∷ []))
    × (one_session.error_score_scaled + 1_000 * bad_in (bad ∷ good ∷ [])
        ≤ (acts one_session (bad ∷ good ∷ [])).error_score_scaled
          + one_session.config.error_score_decrement_scaled * good_in (bad ∷ good ∷ []))
unfolding bad_in
acts-score_example = acts-score one_session (bad ∷ good ∷ []) (omega arith)

retire-is_usable_example : is_usable 10 (acts (retire one_session) (good ∷ used ∷ [])) ≡ false
retire-is_usable_example = retire-is_usable one_session (good ∷ used ∷ []) 10

-- ===== src/Session/Score.antt =====
-- session.rs, `Session`: how marks move the score, and when a session is spent.
use millipede.Prelude.{ℕ, ◌+◌, ◌*◌, ◌≤◌, ◌≡◌, refl, true, false, List, [], ◌∷◌, arith}
use millipede.Prelude.Words.{u32_max}
use millipede.Session.{Session, mark_good, mark_bad, retire, record_usage, is_usable}

-- What is done to a session while it is shared.
pub data Act : Type 0 where
  good bad used retires : Act

module _ {Jar Data : Type 0} where
  unfoldable pub act : Session Jar Data → Act → Session Jar Data
  act s good = mark_good s
  act s bad = mark_bad s
  act s used = record_usage s
  act s retires = retire s

  unfoldable pub acts : Session Jar Data → List Act → Session Jar Data
  acts s [] = s
  acts s (a ∷ rest) = acts (act s a) rest

-- The marks of each kind.
unfoldable pub bad_in : List Act → ℕ
bad_in [] = 0
bad_in (bad ∷ rest) = bad_in rest + 1
bad_in (_ ∷ rest) = bad_in rest

unfoldable pub good_in : List Act → ℕ
good_in [] = 0
good_in (good ∷ rest) = good_in rest + 1
good_in (_ ∷ rest) = good_in rest

module _ {Jar Data : Type 0} where
  -- Where the score does not reach the end of its `u32`, each bad mark adds 1000 and each good mark takes
  -- off at most the decrement, in any order and mixed with other uses.
  pub acts-score :
      (s : Session Jar Data) (l : List Act)
      → s.error_score_scaled + 1_000 * bad_in l ≤ u32_max
      → ((acts s l).error_score_scaled ≤ s.error_score_scaled + 1_000 * bad_in l)
        × (s.error_score_scaled + 1_000 * bad_in l
            ≤ (acts s l).error_score_scaled + s.config.error_score_decrement_scaled * good_in l)
  unfolding acts act mark_good mark_bad record_usage retire bad_in good_in
  acts-score s [] h = grind arith
  acts-score s (good ∷ rest) h =
      let next = acts-score (mark_good s) rest (omega arith) in grind (arith, next)
  acts-score s (bad ∷ rest) h =
      let next = acts-score (mark_bad s) rest (omega arith) in grind (arith, next)
  acts-score s (used ∷ rest) h = acts-score (record_usage s) rest h
  acts-score s (retires ∷ rest) h = acts-score (retire s) rest h

  acts-retired :
      (s : Session Jar Data) (l : List Act) → s.retired ≡ true → (acts s l).retired ≡ true
  unfolding acts act mark_good mark_bad record_usage retire
  acts-retired s [] h = h
  acts-retired s (good ∷ rest) h = acts-retired (mark_good s) rest h
  acts-retired s (bad ∷ rest) h = acts-retired (mark_bad s) rest h
  acts-retired s (used ∷ rest) h = acts-retired (record_usage s) rest h
  acts-retired s (retires ∷ rest) h = acts-retired (retire s) rest refl

  -- A retired session is never usable again, whatever is done to it and whenever it is asked for.
  pub retire-is_usable :
      (s : Session Jar Data) (l : List Act) (now : ℕ) → is_usable now (acts (retire s) l) ≡ false
  unfolding is_usable retire
  retire-is_usable s l now = ground (arith, acts-retired (retire s) l refl)

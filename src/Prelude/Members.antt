-- ===== src/Prelude/Members.antt =====
-- Membership in a list as a test, for keys with a decidable equality; a `HashSet` is such a list.
use Prim.Native.Nat.{◌+◌}
use mathlib.Core.Bool.{Bool, true, false}
use mathlib.Core.List.{List, [], ◌∷◌, ◌++◌}
use mathlib.Core.Logic.{ite}
use mathlib.Core.Path.{◌≡◌, refl}
use native.Mathlib.Omega.{arith}
use millipede.Prelude.Lists.{length}

module _ {ℓ} {K : Type ℓ} (dec : Discrete K) where
  unfoldable pub contains : K → List K → Bool
  contains k [] = false
  contains k (j ∷ l) = ite (dec j k) true (contains k l)

  -- `HashSet::insert`
  unfoldable pub add : K → List K → List K
  add k l = elim (contains k l) [ true ↦ l | false ↦ k ∷ l ]

  -- No member stands twice.
  abbrev pub Distinct : List K → Type 0
  Distinct [] = Unit
  Distinct (j ∷ l) = (contains j l ≡ false) × Distinct l

  pub contains-snoc :
      (k j : K) (l : List K) → contains k (l ++ j ∷ []) ≡ ite (dec j k) true (contains k l)
  unfolding contains
  contains-snoc k j [] = refl
  contains-snoc k j (i ∷ l) = ground (arith, contains-snoc k j l)

  pub contains-add :
      (k j : K) (l : List K) → contains k (add j l) ≡ ite (dec j k) true (contains k l)
  unfolding contains add
  contains-add k j l = ground arith

  pub length-add_new : (k : K) (l : List K) → contains k l ≡ false → length (add k l) ≡ length l + 1
  unfolding add
  length-add_new k l h = ground arith

  pub snoc-Distinct :
      (j : K) (l : List K) → contains j l ≡ false → Distinct l → Distinct (l ++ j ∷ [])
  unfolding contains
  snoc-Distinct j [] h d = (refl, tt)
  snoc-Distinct j (i ∷ l) h d = ground (arith, contains-snoc i j l, snoc-Distinct j l)

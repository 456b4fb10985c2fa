-- ===== src/Prelude/Table.antt =====
-- A `HashMap` as an association list. The order of the entries is never relied on.
use Prim.Native.Nat.{ℕ, ◌+◌}
use mathlib.Core.List.{List, [], ◌∷◌, map}
use mathlib.Core.Logic.{ite, ◌≢◌}
use mathlib.Core.Option.{Option, none, some}
use mathlib.Core.Path.{◌≡◌, refl}
use native.Mathlib.Omega.{arith}
use millipede.Prelude.Lists.{length}

abbrev pub Table {ℓ} : Type ℓ → Type ℓ → Type ℓ
Table K V = List (K × V)

abbrev pub keys {ℓ} : {K V : Type ℓ} → Table K V → List K
keys = map (λ e. e.0)

abbrev pub values {ℓ} : {K V : Type ℓ} → Table K V → List V
values = map (λ e. e.1)

module _ {ℓ} {K V : Type ℓ} (dec : Discrete K) where
  unfoldable pub get : K → Table K V → Option V
  get k [] = none
  get k ((j, v) ∷ m) = ite (dec j k) (some v) (get k m)

  unfoldable pub remove : K → Table K V → Table K V
  remove k [] = []
  remove k ((j, v) ∷ m) = let rest = remove k m in ite (dec j k) rest ((j, v) ∷ rest)

  unfoldable pub insert : K → V → Table K V → Table K V
  insert k v [] = (k, v) ∷ []
  insert k v ((j, w) ∷ m) = let rest = insert k v m in ite (dec j k) ((k, v) ∷ m) ((j, w) ∷ rest)

  pub get-remove : (k j : K) (m : Table K V) → get j (remove k m) ≡ ite (dec k j) none (get j m)
  unfolding get remove
  get-remove k j [] = ground arith
  get-remove k j ((i, v) ∷ m) = ground (arith, get-remove k j m)

  pub get-insert :
      (k j : K) (v : V) (m : Table K V) → get j (insert k v m) ≡ ite (dec k j) (some v) (get j m)
  unfolding get insert
  get-insert k j v [] = ground arith
  get-insert k j v ((i, w) ∷ m) = ground (arith, get-insert k j v m)

  pub get-insert_self : (k : K) (v : V) (m : Table K V) → get k (insert k v m) ≡ some v
  get-insert_self k v m = ground (arith, get-insert k k v m)

  pub get-insert_ne : (k j : K) (v : V) (m : Table K V) → k ≢ j → get j (insert k v m) ≡ get j m
  get-insert_ne k j v m h = ground (arith, get-insert k j v m)

  pub get-remove_ne : (k j : K) (m : Table K V) → k ≢ j → get j (remove k m) ≡ get j m
  get-remove_ne k j m h = ground (arith, get-remove k j m)

  pub get-remove_self : (k : K) (m : Table K V) → get k (remove k m) ≡ none
  get-remove_self k m = ground (arith, get-remove k k m)

  -- A new key is appended.
  pub length-insert_absent :
      (k : K) (v : V) (m : Table K V) → get k m ≡ none → length (insert k v m) ≡ length m + 1
  unfolding get insert
  length-insert_absent k v [] h = omega arith
  length-insert_absent k v ((i, w) ∷ m) h = ground (arith, length-insert_absent k v m)

  -- No key stands twice.
  abbrev pub IsMap : Table K V → Type ℓ
  IsMap [] = Unit
  IsMap ((j, v) ∷ m) = (get j m ≡ none) × IsMap m

  pub insert-IsMap : (k : K) (v : V) (m : Table K V) → IsMap m → IsMap (insert k v m)
  unfolding get insert
  insert-IsMap k v [] h = (refl, tt)
  insert-IsMap k v ((j, w) ∷ m) h = ground (arith, insert-IsMap k v m h.1, get-insert_ne k j v m)

  pub remove-IsMap : (k : K) (m : Table K V) → IsMap m → IsMap (remove k m)
  unfolding get remove
  remove-IsMap k [] h = tt
  remove-IsMap k ((j, w) ∷ m) h = ground (arith, remove-IsMap k m h.1, get-remove_ne k j m)

  remove_absent : (k : K) (m : Table K V) → get k m ≡ none → remove k m ≡ m
  unfolding get remove
  remove_absent k [] h = refl
  remove_absent k ((j, w) ∷ m) h = ground (arith, remove_absent k m)

  pub length-remove_present :
      (k : K) (v : V) (m : Table K V)
      → IsMap m
      → get k m ≡ some v
      → length (remove k m) + 1 ≡ length m
  unfolding get remove
  length-remove_present k v [] h e = cc
  length-remove_present k v ((j, w) ∷ m) h e =
      ground (arith, length-remove_present k v m h.1, remove_absent j m h.0)

  -- A measure of the values, added up.
  module _ (f : V → ℕ) where
    unfoldable pub total : Table K V → ℕ
    total [] = 0
    total ((j, v) ∷ m) = f v + total m

    pub total-insert_absent :
        (k : K) (v : V) (m : Table K V) → get k m ≡ none → total (insert k v m) ≡ total m + f v
    unfolding get insert total
    total-insert_absent k v [] h = omega arith
    total-insert_absent k v ((j, w) ∷ m) h = ground (arith, total-insert_absent k v m)

    pub total-insert_present :
        (k : K) (v w : V) (m : Table K V)
        → get k m ≡ some w
        → total (insert k v m) + f w ≡ total m + f v
    unfolding get insert total
    total-insert_present k v w [] h = cc
    total-insert_present k v w ((j, u) ∷ m) h = ground (arith, total-insert_present k v w m)

    pub total-remove_absent :
        (k : K) (m : Table K V) → get k m ≡ none → total (remove k m) ≡ total m
    unfolding get remove total
    total-remove_absent k [] h = refl
    total-remove_absent k ((j, u) ∷ m) h = ground (arith, total-remove_absent k m)

    pub total-remove_present :
        (k : K) (w : V) (m : Table K V)
        → IsMap m
        → get k m ≡ some w
        → total (remove k m) + f w ≡ total m
    unfolding get remove total
    total-remove_present k w [] h e = cc
    total-remove_present k w ((j, u) ∷ m) h e =
        ground (arith, total-remove_present k w m h.1, total-remove_absent j m h.0)

    -- The order of the entries does not count.
    pub total-ext :
        (m n : Table K V) → IsMap m → IsMap n → ((k : K) → get k m ≡ get k n) → total m ≡ total n
    unfolding get total
    total-ext [] [] u w e = refl
    total-ext [] ((j, v) ∷ n) u w e = ground (arith, e j)
    total-ext ((j, v) ∷ m) n u w e =
        let here = total-remove_present j v n w (ground (arith, e j)) in
        let rest =
          total-ext m (remove j n) u.1 (remove-IsMap j n w)
            (λ k. ground (arith, e k, e j, u.0, get-remove j k n)) in
        ground (arith, here, rest)

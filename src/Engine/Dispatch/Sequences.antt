-- ===== src/Engine/Dispatch/Sequences.antt =====
-- engine.rs, `dispatch_loop`: the heap of deferred starts, the tasks in flight, and what is counted.
use millipede.Prelude.{
  ℕ, ◌+◌, ◌≤◌, ◌≡◌, refl, true, false, List, [], ◌∷◌, arith, ℕ_discrete, length, map, ite,
}
use millipede.Prelude.Members.{contains, Distinct}
use millipede.Engine.Completion.{Call}
use millipede.Engine.Completion.Once.{consumed, ended, marked}
use millipede.Engine.Dispatch.{push, without, finished_in}

-- The sequence numbers in the heap.
abbrev pub sequences : List (ℕ × ℕ) → List ℕ
sequences = map (λ e. e.1)

pub contains-push :
    (i t s : ℕ) (heap : List (ℕ × ℕ))
    → contains ℕ_discrete i (sequences (push t s heap))
      ≡ ite (ℕ_discrete s i) true (contains ℕ_discrete i (sequences heap))
unfolding push contains
contains-push i t s [] = refl
contains-push i t s ((u, r) ∷ heap) = ground (arith, contains-push i t s heap)

pub push-Distinct :
    (t s : ℕ) (heap : List (ℕ × ℕ))
    → contains ℕ_discrete s (sequences heap) ≡ false
    → Distinct ℕ_discrete (sequences heap)
    → Distinct ℕ_discrete (sequences (push t s heap))
unfolding push contains
push-Distinct t s [] h d = (refl, tt)
push-Distinct t s ((u, r) ∷ heap) h d =
    ground (arith, contains-push r t s heap, push-Distinct t s heap)

pub length-without :
    (i : ℕ) (l : List ℕ) → contains ℕ_discrete i l ≡ true → length (without i l) + 1 ≡ length l
unfolding without contains
length-without i [] h = cc
length-without i (j ∷ l) h = ground (arith, length-without i l)

pub contains-without :
    (i j : ℕ) (l : List ℕ)
    → Distinct ℕ_discrete l
    → contains ℕ_discrete j (without i l) ≡ ite (ℕ_discrete i j) false (contains ℕ_discrete j l)
unfolding without contains
contains-without i j [] d = ground arith
contains-without i j (k ∷ l) d = ground (arith, contains-without i j l d.1, d)

pub without-Distinct :
    (i : ℕ) (l : List ℕ) → Distinct ℕ_discrete l → Distinct ℕ_discrete (without i l)
unfolding without contains
without-Distinct i [] d = tt
without-Distinct i (k ∷ l) d =
    ground (arith, without-Distinct i l d.1, contains-without i k l d.1, d)

-- A completion counts at most one finished request.
module _ {Url Payload : Type 0} where
  pub finished_in-le : (calls : List (Call Url Payload)) → finished_in calls ≤ ended calls
  unfolding finished_in ended
  finished_in-le [] = omega arith
  finished_in-le (c ∷ calls) = ground (arith, finished_in-le calls)

  pub marked-le : (calls : List (Call Url Payload)) → marked calls ≤ length (consumed calls)
  unfolding marked consumed
  marked-le [] = omega arith
  marked-le (c ∷ calls) = ground (arith, marked-le calls)

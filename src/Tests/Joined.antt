-- ===== src/Tests/Joined.antt =====
-- Two callers of one key: the first makes the request, the second joins it.
use millipede.Prelude.{ℕ, ◌≡◌, refl, true, false, [], ◌∷◌, none, ℕ_discrete}
use millipede.Prelude.Table.{Table, get, insert, total}
use millipede.Coalesce.{CoalescingClient, InFlightGuard, new, join}
use millipede.Coalesce.Flights.{Reachable, created, later, joins, leads, one_cell, one_flight}

abbrev leader : InFlightGuard ℕ
leader = record { key = 5; cell = 0; active = true }

abbrev follower : InFlightGuard ℕ
follower = record { key = 5; cell = 0; active = false }

abbrev client : CoalescingClient ℕ ℕ
client = record { in_flight = (5, 0) ∷ []; cells = (0, none) ∷ []; next_cell = 1 }

abbrev callers : Table ℕ (InFlightGuard ℕ)
callers = (1, leader) ∷ (2, follower) ∷ []

callers-Reachable : Reachable ℕ_discrete client callers
unfolding new join get insert total ℕ_discrete
callers-Reachable =
    later (later (later created (joins 1 5 refl)) (joins 2 5 refl))
      (leads 1 (record { key = 5; cell = 0; active = false }) refl refl refl)

one_cell_example : leader.cell ≡ follower.cell
unfolding get ℕ_discrete
one_cell_example =
    one_cell ℕ_discrete client callers 1 2 leader follower callers-Reachable refl refl refl refl
      refl

abbrev first_caller : ℕ
first_caller = 1

one_flight_example : first_caller ≡ first_caller
unfolding get ℕ_discrete
one_flight_example =
    one_flight ℕ_discrete client callers first_caller first_caller leader leader callers-Reachable
      refl refl refl refl refl refl refl

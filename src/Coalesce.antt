-- ===== src/Coalesce.antt =====
-- crates/millipede-http/src/coalesce.rs: identical requests share one flight. A cell (`OnceCell` behind an `Arc`)
-- is known by a number, which is its address; it is settled once it has a value. `Key` is the derived-`Eq` type
-- `CoalesceKey`; `Response`, `Error` and its `Display` are of other crates. Callers run concurrently: each block
-- below is one uninterrupted piece of a call of `send`.
pub mod Flights
use millipede.Prelude.{
  ℕ, ◌+◌, Bool, true, false, [], if◌then◌else◌, ◌&&◌, ◌||◌, Option, none, some, Text, ℕ_discrete,
  not,
}
use millipede.Prelude.Table.{Table, get, insert, remove}
use millipede.Frontier.Rotation.{is_some}

pub data Method : Type 0 where
  method_get method_head other_method : Method

abbrev pub is_safe : Method → Bool
is_safe method_get = true
is_safe method_head = true
is_safe other_method = false

-- Only a bodyless GET or HEAD is joined with others.
unfoldable pub is_coalesced {ℓ} : {Body : Type ℓ} → Method → Option Body → Bool
is_coalesced method body = is_safe method && not (is_some body)

pub data HttpResult (Response Error : Type 0) : Type 0 where
  response : Response → HttpResult Response Error
  error : Error → HttpResult Response Error

-- What a cell holds: an error is kept as its message.
pub data SharedResult (Response : Type 0) : Type 0 where
  arrived : Response → SharedResult Response
  failed : Text → SharedResult Response

module _ {Response Error : Type 0} (display : Error → Text) (other : Text → Error) where
  unfoldable pub follower_result : HttpResult Response Error → SharedResult Response
  follower_result (response r) = arrived r
  follower_result (error e) = failed (display e)

  -- The caller that made the request gets its own result, the others the shared one.
  unfoldable pub answer :
      Option (HttpResult Response Error) → SharedResult Response → HttpResult Response Error
  answer (some result) shared = result
  answer none (arrived r) = response r
  answer none (failed message) = error (other message)

pub record CoalescingClient (Key Response : Type 0) : Type 0 where
  pub in_flight : Table Key ℕ
  pub cells : Table ℕ (Option (SharedResult Response))
  pub next_cell : ℕ

-- `InFlightGuard`: `active` once this caller makes the request.
pub record InFlightGuard (Key : Type 0) : Type 0 where
  pub key : Key
  pub cell : ℕ
  pub active : Bool

module _ {Key Response : Type 0} where
  unfoldable pub new : CoalescingClient Key Response
  new = record { in_flight = []; cells = []; next_cell = 0 }

  abbrev pub is_settled : ℕ → CoalescingClient Key Response → Bool
  is_settled cell s = elim (get ℕ_discrete cell s.cells) [
    | none ↦ false
    | some none ↦ false
    | some (some r) ↦ true
  ]

  -- The result of the request is put into the cell.
  unfoldable pub settle :
      ℕ → SharedResult Response → CoalescingClient Key Response → CoalescingClient Key Response
  settle cell r s = record s { cells = insert ℕ_discrete cell (some r) s.cells }

module _ {Key Response : Type 0} (dec : Discrete Key) where
  -- The cell of the key, a new one if there is none.
  unfoldable pub join :
      Key → CoalescingClient Key Response → CoalescingClient Key Response × InFlightGuard Key
  join key s = elim (get dec key s.in_flight) [
    | some cell ↦ (s, record { key = key; cell = cell; active = false })
    | none ↦ (
      record {
        in_flight = insert dec key s.next_cell s.in_flight;
        cells = insert ℕ_discrete s.next_cell none s.cells;
        next_cell = s.next_cell + 1;
      },
      record { key = key; cell = s.next_cell; active = false },
    )
  ]

  abbrev pub is_current : InFlightGuard Key → CoalescingClient Key Response → Bool
  is_current guard s = elim (get dec guard.key s.in_flight) [
    | none ↦ false
    | some cell ↦ elim (ℕ_discrete cell guard.cell) [ yes e ↦ true | no n ↦ false ]
  ]

  -- `InFlightGuard::drop`
  unfoldable pub drop_guard :
      InFlightGuard Key → CoalescingClient Key Response → CoalescingClient Key Response
  drop_guard guard s =
      if not guard.active || not (is_settled guard.cell s)
      then s
      else if is_current guard s
      then record s { in_flight = remove dec guard.key s.in_flight }
      else s

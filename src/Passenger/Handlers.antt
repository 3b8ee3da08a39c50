-- ===== src/Passenger/Handlers.antt =====
-- The handlers of the actor `Passenger` of passenger/src/passenger.rs. What the network answers
-- is an argument: `connected` is `receiver.connected()`, `connect` the result of
-- `new_connection`, and `leader` that of `connect_to_server_leader`. A handler that may panic on
-- an index returns `none` then.
pub mod Travel
pub mod Search
pub mod Restart
use concu_ride.Prelude.{
  ℕ, String, Bool, true, false, not, Option, none, some, List, [], ◌∷◌, if◌then◌else◌,
}
use concu_ride.Ride.{Position, step_towards}
use concu_ride.Ride.Loop.{same_position}
use concu_ride.Passenger.{
  Addr, DriverInfo, Passenger, ServerMsg, Status, Effect, get_drivers, login, request_ride,
  reconnect_driver, recover, authorize_payment, confirm_payment, get_drivers_msg, login_msg,
  reconnect, drivers, traveling, to_self, to_server, to_gateway, to_driver, save, add_permit,
}
use concu_ride.Passenger.Select
use concu_ride.Passenger.Select.{F64}

-- `save_state` with the fields of the passenger.
abbrev pub status : Passenger → Status
status p = record {
  name = p.name;
  drivers_info = p.drivers_info;
  driver_socket = p.driver_socket;
  payment_authorized = p.payment_authorized;
  payment_confirmed = p.payment_confirmed;
  id = p.info.id;
}

abbrev pub with_position : Passenger → Position → Passenger
with_position p position = record p {
  info = record { id = p.info.id; position = position; destination = p.info.destination };
}

unfoldable pub move_to : Passenger → Position → Passenger
move_to p destination = with_position p (step_towards p.info.position destination)

unfoldable pub set_receiver : Passenger → Addr → Passenger × List Effect
set_receiver p receiver = (record p { server_receiver = some receiver }, [])

unfoldable pub server_connected : Passenger → Bool → Bool
server_connected p connected = elim p.server_receiver [ some _ ↦ connected | none ↦ false ]

-- A request goes out, and once more by `Reconnect` if the connection to the server is down.
unfoldable pub ask_server : Passenger → ServerMsg → Bool → List Effect
unfolding server_connected
ask_server p msg connected =
    to_server p.server_sender msg
    ∷ (if server_connected p connected then [] else to_self (reconnect msg) ∷ [])

unfoldable pub handle_get_drivers : Passenger → Bool → Passenger × List Effect
unfolding ask_server
handle_get_drivers p connected = (p, ask_server p (get_drivers p.info.id) connected)

unfoldable pub handle_login : Passenger → String → Bool → Passenger × List Effect
unfolding ask_server
handle_login p name connected = (p, ask_server p (login name) connected)

-- `push` on no connections, else `connections[0] = driver`.
abbrev pub put_first : Addr → List Addr → List Addr
put_first driver [] = driver ∷ []
put_first driver (_ ∷ rest) = driver ∷ rest

unfoldable pub handle_drivers :
    F64 → Passenger → List DriverInfo → (String → Option Addr) → Passenger × List Effect
handle_drivers f p drivers_info connect =
    let q : Passenger = record p { drivers_info = drivers_info } in
    let (chosen, rest) = Select.select_driver f q.info.position drivers_info 5 in
    let left : Passenger = record q { drivers_info = rest } in
    elim chosen [
      | none ↦ (left, save (status q) ∷ [])
      | some driver ↦ elim (connect driver.socket) [
        | none ↦ (left, save (status q) ∷ to_self (drivers rest) ∷ [])
        | some addr ↦ (
          record left { connections = put_first addr left.connections },
          save (status q) ∷ to_gateway left.gateway authorize_payment ∷ [],
        )
      ]
    ]

unfoldable pub handle_traveling : Passenger → Passenger × List Effect
unfolding move_to
handle_traveling p =
    let q = move_to p p.info.destination in
    (
      q,
      save (status p)
          ∷ (if not (same_position q.info.position q.info.destination)
              then to_self traveling ∷ []
              else to_gateway q.gateway (confirm_payment q.name) ∷ add_permit ∷ []),
    )

unfoldable pub handle_driver_arrived : Passenger → Passenger × List Effect
handle_driver_arrived p = (p, to_self traveling ∷ [])

unfoldable pub handle_complete_login : Passenger → ℕ → Passenger × List Effect
handle_complete_login p id = (
  record p {
    info = record { id = id; position = p.info.position; destination = p.info.destination };
  },
  [],
)

unfoldable pub handle_ride_accepted : Passenger → String → Passenger × List Effect
handle_ride_accepted p driver_socket =
    let q : Passenger = record p { driver_socket = some driver_socket } in (q, save (status q) ∷ [])

-- `connections[0]` panics where there is no connection.
unfoldable pub handle_request_drive : Passenger → Option (Passenger × List Effect)
handle_request_drive p = elim p.connections [
  | [] ↦ none
  | driver ∷ _ ↦
      some (p, to_driver driver (request_ride p.info.id p.info.position p.info.destination) ∷ [])
]

unfoldable pub handle_keep_looking : Passenger → Passenger × List Effect
handle_keep_looking p = (p, to_self (drivers p.drivers_info) ∷ [])

unfoldable pub handle_payment_authorized : Passenger → Passenger × List Effect
handle_payment_authorized p =
    let q : Passenger = record p { payment_authorized = true } in (q, save (status q) ∷ [])

unfoldable pub handle_payment_deny : Passenger → Passenger × List Effect
handle_payment_deny p =
    let q : Passenger = record p { payment_authorized = false } in
    (q, save (status q) ∷ to_self get_drivers_msg ∷ [])

pub record RecoverResponse : Type 0 where
  pub picked_up : Bool
  pub position : Position
  pub end_ride : Bool

unfoldable pub handle_recover_response : Passenger → RecoverResponse → Passenger × List Effect
handle_recover_response p msg =
    if msg.end_ride
    then (p, to_gateway p.gateway (confirm_payment p.name) ∷ add_permit ∷ [])
    else if msg.picked_up
    then (with_position p msg.position, to_self traveling ∷ [])
    else (p, [])

-- `leader` holds the actors of the new connection: the sender and the receiver.
unfoldable pub handle_reconnect :
    Passenger → ServerMsg → Option (Addr × Addr) → Passenger × List Effect
handle_reconnect p msg leader = elim leader [
  | none ↦ (p, [])
  | some (sender, receiver) ↦ (
    record p { server_sender = sender; server_receiver = some receiver },
    to_server sender msg ∷ [],
  )
]

unfoldable pub handle_reconnect_driver :
    Passenger → String → (String → Option Addr) → Passenger × List Effect
handle_reconnect_driver p socket connect = elim (connect socket) [
  | none ↦ (p, [])
  | some driver ↦ (
    record p { connections = put_first driver p.connections },
    to_driver driver (reconnect_driver p.info.position) ∷ [],
  )
]

-- The fields of the file that `Recover` reads (Passenger/File), each as `as_str`, `as_u64` or
-- `as_bool` gives it.
pub record SavedStatus : Type 0 where
  pub name : Option String
  pub id : Option ℕ
  pub driver_socket : Option String
  pub payment_authorized : Option Bool
  pub payment_confirmed : Option Bool

-- `if let Some(x) = … { field = x }`
abbrev pub or_keep {ℓ} : {A : Type ℓ} → Option A → A → A
or_keep (some x) old = x
or_keep none old = old

abbrev pub or_keep_some {ℓ} : {A : Type ℓ} → Option A → Option A → Option A
or_keep_some (some x) old = some x
or_keep_some none old = old

unfoldable pub restore : Passenger → SavedStatus → Passenger
restore p s = record p {
  name = or_keep s.name p.name;
  info = record {
    id = or_keep s.id p.info.id;
    position = p.info.position;
    destination = p.info.destination;
  };
  driver_socket = or_keep_some s.driver_socket p.driver_socket;
  payment_authorized = or_keep s.payment_authorized p.payment_authorized;
  payment_confirmed = or_keep s.payment_confirmed p.payment_confirmed;
}

-- The driver of the ride, if there is one and it can be reached, is asked how far the ride is.
unfoldable pub ask_driver : Passenger → (String → Option Addr) → List Effect
ask_driver p connect = elim p.driver_socket [
  | none ↦ []
  | some socket ↦ elim (connect socket) [
    | none ↦ []
    | some driver ↦ to_driver driver (recover p.info.id) ∷ []
  ]
]

unfoldable pub handle_recover :
    Passenger → SavedStatus → (String → Option Addr) → Passenger × List Effect
unfolding restore ask_driver
handle_recover p s connect =
    let q = restore p s in
    (
      q,
      to_self (login_msg q.name)
          ∷ (if q.payment_confirmed
              then []
              else if not q.payment_authorized
              then to_self get_drivers_msg ∷ []
              else ask_driver q connect),
    )

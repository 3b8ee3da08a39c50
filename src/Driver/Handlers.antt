-- ===== src/Driver/Handlers.antt =====
-- The handlers of the actor `Driver` of driver/src/driver.rs. What the network answers is an
-- argument: `connected` is `receiver.connected()`, and `leader` the actors that the new
-- connection of `Reconnect` starts, the sender and the receiver, if it succeeds.
pub mod Phases
pub mod Ride
pub mod Restart
use concu_ride.Prelude.{
  ℕ, String, Bool, true, false, not, Option, none, some, List, [], ◌∷◌, ◌++◌, ◌==◌, nat_eq,
  if◌then◌else◌,
}
use concu_ride.Ride.{Position, step_towards}
use concu_ride.Ride.Loop.{same_position}
use concu_ride.Driver.{
  Addr, Driver, ServerMsg, PassengerMsg, Status, Effect, new_driver, busy_driver, available_driver,
  reconnect_driver, refuse, ok, driver_arrived, recover_response, reconnect, start_ride,
  pick_up_passenger, ride_to_destination, end_ride, to_self, to_server, to_passenger, save,
}

unfoldable pub move_to : Driver → Position → Driver
move_to d destination = record d { position = step_towards d.position destination }

-- `save_state` with the fields of the driver.
abbrev pub status : Driver → Status
status d = record {
  name = d.name;
  is_available = d.is_available;
  position = d.position;
  id_current_passenger = d.id_current_passenger;
  passenger_position = d.passenger_position;
  destination = d.destination;
  passenger_picked_up = d.passenger_picked_up;
  is_registered = d.is_registered;
  driver_socket = d.driver_socket;
}

unfoldable pub set_receiver : Driver → Addr → Driver × List Effect
set_receiver d receiver = (record d { server_receiver = some receiver }, [])

unfoldable pub handle_reconnect : Driver → ServerMsg → Option (Addr × Addr) → Driver × List Effect
handle_reconnect d msg leader = elim leader [
  | none ↦ (d, [])
  | some (sender, receiver) ↦ (
    record d { server_receiver = some receiver; server_sender = sender },
    to_server sender msg ∷ [],
  )
]

server_connected : Driver → Bool → Bool
server_connected d connected = elim d.server_receiver [ some _ ↦ connected | none ↦ false ]

-- A request goes out, and once more by `Reconnect` if the connection to the server is down.
unfoldable pub ask_server : Driver → ServerMsg → Bool → List Effect
unfolding server_connected
ask_server d msg connected =
    to_server d.server_sender msg
    ∷ (if server_connected d connected then [] else to_self (reconnect msg) ∷ [])

pub record Register : Type 0 where
  pub socket : String
  pub name : String
  pub position : Position

unfoldable pub handle_register : Driver → Register → Bool → Driver × List Effect
unfolding ask_server
handle_register d msg connected =
    let e : Driver = record d { is_registered = true } in
    (
      e,
      ask_server d (new_driver msg.socket msg.name msg.position) connected ++ save (status e) ∷ [],
    )

unfoldable pub handle_new_connection : Driver → Addr → Driver × List Effect
handle_new_connection d addr = (record d { connections = d.connections ++ addr ∷ [] }, [])

pub record RequestRide : Type 0 where
  pub id_passenger : ℕ
  pub origin : Position
  pub destination : Position
  pub addr : Addr

-- The driver that has accepted a ride.
abbrev pub accept : Driver → RequestRide → Driver
accept d msg = record d {
  id_current_passenger = msg.id_passenger;
  passenger_position = some msg.origin;
  destination = some msg.destination;
  is_available = false;
  current_passenger_connection = some msg.addr;
}

unfoldable pub handle_request_ride : Driver → RequestRide → Bool → Driver × List Effect
unfolding ask_server
handle_request_ride d msg connected =
    if not d.is_available
    then (d, to_passenger msg.addr refuse ∷ [])
    else let e = accept d msg in
      (
        e,
        to_passenger msg.addr (ok e.driver_socket)
            ∷ save (status e)
            ∷ (ask_server e (busy_driver e.name) connected ++ to_self start_ride ∷ []),
      )

unfoldable pub handle_start_ride : Driver → Driver × List Effect
handle_start_ride d = (d, to_self pick_up_passenger ∷ [])

-- A message to the passenger of the ride, if there is a connection.
pub tell_passenger : Driver → PassengerMsg → List Effect
tell_passenger d msg = elim d.current_passenger_connection [
  | none ↦ []
  | some addr ↦ to_passenger addr msg ∷ []
]

-- The handler with the passenger's position, if it is known.
pick_up_at : Driver → Option Position → Driver × List Effect
unfolding move_to tell_passenger
pick_up_at d none = (d, [])
pick_up_at d (some passenger_position) =
    let e = move_to d passenger_position in
    if not (same_position e.position passenger_position)
    then (e, to_self pick_up_passenger ∷ [])
    else (
      record e { passenger_picked_up = true },
      tell_passenger e driver_arrived ++ to_self ride_to_destination ∷ [],
    )

unfoldable pub handle_pick_up_passenger : Driver → Driver × List Effect
unfolding pick_up_at
handle_pick_up_passenger d = pick_up_at d d.passenger_position

-- The handler with the destination, if it is known, after the status is saved.
ride_to : Driver → Option Position → Driver × List Effect
unfolding move_to
ride_to d none = (d, [])
ride_to d (some destination) =
    let e = move_to d destination in
    if not (same_position e.position destination)
    then (e, to_self ride_to_destination ∷ [])
    else (e, to_self (end_ride e.position) ∷ [])

unfoldable pub handle_ride_to_destination : Driver → Driver × List Effect
unfolding ride_to
handle_ride_to_destination d =
    let (e, effects) = ride_to d d.destination in (e, save (status d) ∷ effects)

unfoldable pub handle_end_ride : Driver → Position → Bool → Driver × List Effect
unfolding ask_server
handle_end_ride d dst connected =
    let e : Driver = record d { position = dst } in
    let free : Driver = record e { is_available = true; passenger_picked_up = false } in
    (free, ask_server e (available_driver e.name e.position) connected ++ save (status free) ∷ [])

-- Whether the ride is over, from `destination` and the place of the driver.
abbrev pub at_destination : Driver → Bool
at_destination d = elim d.destination [
  | none ↦ false
  | some destination ↦ same_position d.position destination
]

unfoldable pub handle_passenger_recover : Driver → ℕ → Addr → Driver × List Effect
handle_passenger_recover d id_passenger passenger_connection =
    let e : Driver = record d { current_passenger_connection = some passenger_connection } in
    if d.id_current_passenger == id_passenger
    then (
      e,
      to_passenger passenger_connection
            (recover_response e.passenger_picked_up e.position (at_destination e))
          ∷ [],
    )
    else (d, to_passenger passenger_connection (recover_response false d.position true) ∷ [])

-- The fields of the file that `Recovery` reads (Driver/File), each as `as_bool`, `as_u64` or
-- `as_array` and two `as_u64` give it.
pub record SavedStatus : Type 0 where
  pub destination : Option Position
  pub is_available : Option Bool
  pub is_registered : Option Bool
  pub id_current_passenger : Option ℕ
  pub passenger_picked_up : Option Bool
  pub passenger_position : Option Position
  pub position : Option Position

-- `if let Some(x) = … { field = x }`
abbrev pub or_keep {ℓ} : {A : Type ℓ} → Option A → A → A
or_keep (some x) old = x
or_keep none old = old

abbrev pub or_keep_some {ℓ} : {A : Type ℓ} → Option A → Option A → Option A
or_keep_some (some x) old = some x
or_keep_some none old = old

unfoldable pub restore : Driver → SavedStatus → Driver
restore d s = record d {
  destination = or_keep_some s.destination d.destination;
  is_available = or_keep s.is_available d.is_available;
  is_registered = or_keep s.is_registered d.is_registered;
  id_current_passenger = or_keep s.id_current_passenger d.id_current_passenger;
  passenger_picked_up = or_keep s.passenger_picked_up d.passenger_picked_up;
  passenger_position = or_keep_some s.passenger_position d.passenger_position;
  position = or_keep s.position d.position;
}

unfoldable pub handle_recovery : Driver → SavedStatus → String → Driver × List Effect
unfolding restore
handle_recovery d s socket =
    let e = restore d s in
    (
      e,
      if not e.is_available
          then to_server e.server_sender (reconnect_driver e.id_current_passenger socket e.name)
            ∷ to_self (if e.passenger_picked_up then ride_to_destination else pick_up_passenger)
            ∷ []
          else [],
    )

unfoldable pub handle_reconnect_passenger : Driver → Addr → Position → Driver × List Effect
handle_reconnect_passenger d passenger_connection position = (
  record d {
    current_passenger_connection = some passenger_connection;
    position = position;
    passenger_position = some position;
  },
  [],
)

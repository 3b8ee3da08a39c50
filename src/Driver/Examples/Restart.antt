-- ===== src/Driver/Examples/Restart.antt =====
-- A driver that goes down while it carries a passenger, and the process that takes its place.
use concu_ride.Prelude.{◌≡◌, refl, true, false, none, some, [], ◌∷◌, arith, String}
use concu_ride.Ride.{Position}
use concu_ride.Ride.Arrival.{Reaches}
use concu_ride.Driver.{
  Driver, reconnect_driver, ride_to_destination, end_ride, to_self, to_server, save,
}
use concu_ride.Driver.Handlers.{status, SavedStatus, handle_recovery}
use concu_ride.Driver.Handlers.Phases.{ride, put}
use concu_ride.Common.Json.Tree.{tree_json, tree_json-IsJson}
use concu_ride.Driver.File.{save_state, read_file}
use concu_ride.Driver.Handlers.Restart.{resumed, restarted_ride_ends}
use concu_ride.Prelude.{Option}
use concu_ride.Driver.Handlers.{set_receiver}
use concu_ride.Driver.Startup.{
  Args, app, running, set_receiver_msg, recovery_msg, register_msg, driver_app_recovers,
}

abbrev down : Driver
down = record {
  server_receiver = some 2;
  server_sender = 3;
  connections = 9 ∷ [];
  id_current_passenger = 2;
  is_available = false;
  is_registered = true;
  position = (3, 1);
  passenger_position = some (3, 1);
  destination = some (5, 5);
  name = "ana";
  current_passenger_connection = some 9;
  passenger_picked_up = true;
  driver_socket = "127.0.0.1:7001";
}

abbrev started : Driver
started = record {
  server_receiver = some 12;
  server_sender = 13;
  connections = [];
  id_current_passenger = 0;
  is_available = true;
  is_registered = false;
  position = (0, 0);
  passenger_position = none;
  destination = none;
  name = "ana";
  current_passenger_connection = none;
  passenger_picked_up = false;
  driver_socket = "127.0.0.1:7009";
}

four_moves : Reaches 4 (3, 1) (5, 5)
four_moves = record {
  start = (omega arith, omega arith);
  target = (omega arith, omega arith);
  positive_x = omega arith;
  positive_y = omega arith;
  far_x = omega arith;
  far_y = omega arith;
  parity_x = refl;
  parity_y = refl;
}

restarted_ride_ends_example :
    (saved : SavedStatus) × (read_file tree_json (save_state tree_json (status down)) ≡ some saved)
    × (handle_recovery started saved "127.0.0.1:7009" ≡ (
      resumed started down,
      to_server 13 (reconnect_driver 2 "127.0.0.1:7009" "ana") ∷ to_self ride_to_destination ∷ [],
    ))
    × (last : Position) × (ride 4 (handle_recovery started saved "127.0.0.1:7009").0
        ≡ some (
          put (resumed started down) (5, 5),
          save (status (put (resumed started down) last)) ∷ to_self (end_ride (5, 5)) ∷ [],
        ))
restarted_ride_ends_example =
    restarted_ride_ends tree_json tree_json-IsJson 3 down started "127.0.0.1:7009" (5, 5) refl refl
      refl refl refl four_moves

abbrev args : Args
args = record { name = "ana"; position = (1, 1); recovery = true }

-- Every socket can be bound.
abbrev bind : String → Option String
bind socket = some socket

driver_app_recovers_example :
    (e : Driver) × (saved : SavedStatus) × (app tree_json args
        (some 13)
        15
        bind
        (some (save_state tree_json (status down)))
      ≡ running e (
          set_receiver_msg 15
          ∷ recovery_msg saved down.driver_socket
          ∷ register_msg (record { socket = down.driver_socket; name = "ana"; position = (1, 1) })
          ∷ []))
    × (handle_recovery (set_receiver e 15).0 saved down.driver_socket ≡ (
      resumed (set_receiver e 15).0 down,
      to_server 13 (reconnect_driver 2 down.driver_socket "ana") ∷ to_self ride_to_destination ∷ [],
    ))
driver_app_recovers_example =
    driver_app_recovers tree_json tree_json-IsJson down args 13 15 bind refl refl

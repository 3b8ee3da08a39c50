-- ===== src/Passenger/Examples/Restart.antt =====
-- A passenger that goes down during its ride, and the process that takes its place.
use concu_ride.Prelude.{String, ◌≡◌, refl, true, false, Option, some, [], ◌∷◌}
use concu_ride.Passenger.{Addr, Passenger, login_msg, to_self}
use concu_ride.Passenger.Handlers.{status, SavedStatus, ask_driver, handle_recover}
use concu_ride.Common.Json.Tree.{tree_json, tree_json-IsJson}
use concu_ride.Passenger.File.{save_state}
use concu_ride.Passenger.Handlers.Restart.{resumed}
use concu_ride.Passenger.Handlers.{set_receiver}
use concu_ride.Passenger.Startup.{
  Args, app, running, set_receiver_msg, recover_msg, passenger_app_recovers,
}

abbrev down : Passenger
down = record {
  name = "leo";
  info = record { id = 2; position = (2, 2); destination = (3, 5) };
  recovery = false;
  payment_authorized = true;
  payment_confirmed = false;
  server_receiver = some 2;
  server_sender = 3;
  connections = 8 ∷ [];
  drivers_info = [];
  driver_socket = some "127.0.0.1:7001";
  gateway = 4;
}

abbrev connect : String → Option Addr
connect socket = some 8

abbrev args : Args
args = record { name = "leo"; src = (1, 1); dst = (3, 5); recovery = true }

passenger_app_recovers_example :
    (e : Passenger) × (saved : SavedStatus) × (app tree_json args
        (some 13)
        (some 14)
        15
        (some (save_state tree_json (status down)))
      ≡ running e (set_receiver_msg 15 ∷ recover_msg saved ∷ []))
    × (handle_recover (set_receiver e 15).0 saved connect ≡ (
      resumed (set_receiver e 15).0 down,
      to_self (login_msg "leo") ∷ ask_driver (resumed (set_receiver e 15).0 down) connect,
    ))
passenger_app_recovers_example =
    passenger_app_recovers tree_json tree_json-IsJson args 13 14 15 down connect refl

-- ===== src/Driver/Examples.antt =====
-- A driver and two requests, on which the theorems of the ride are applied.
mod Restart
mod Mailbox
use concu_ride.Prelude.{◌≡◌, refl, true, false, none, some, [], ◌∷◌, ◌++◌, arith}
use concu_ride.Ride.{Position}
use concu_ride.Ride.Arrival.{Reaches}
use concu_ride.Driver.{
  Driver, busy_driver, ok, driver_arrived, start_ride, ride_to_destination, end_ride, to_self,
  to_passenger, save,
}
use concu_ride.Driver.Handlers.{
  RequestRide, accept, status, ask_server, handle_request_ride, handle_end_ride,
}
use concu_ride.Driver.Handlers.Phases.{pick_up, ride, put}
use concu_ride.Driver.Handlers.Ride.{carrying, arrived, ride_completes}

abbrev ana : Driver
ana = record {
  server_receiver = some 2;
  server_sender = 3;
  connections = [];
  id_current_passenger = 0;
  is_available = true;
  is_registered = true;
  position = (1, 1);
  passenger_position = none;
  destination = none;
  name = "ana";
  current_passenger_connection = none;
  passenger_picked_up = false;
  driver_socket = "127.0.0.1:7001";
}

abbrev msg : RequestRide
msg = record { id_passenger = 2; origin = (3, 1); destination = (5, 5); addr = 9 }

two_moves : Reaches 2 (1, 1) (3, 1)
two_moves = record {
  start = (omega arith, omega arith);
  target = (omega arith, omega arith);
  positive_x = omega arith;
  positive_y = omega arith;
  far_x = omega arith;
  far_y = omega arith;
  parity_x = refl;
  parity_y = refl;
}

four_moves : Reaches 4 (3, 1) (5, 5)
four_moves = record {
  start = (omega arith, omega arith);
  target = (omega arith, omega arith);
  positive_x = omega arith;
  positive_y = omega arith;
  far_x = omega arith;
  far_y = omega arith;
  parity_x = refl;
  parity_y = refl;
}

ride_completes_example :
    (handle_request_ride ana msg true ≡ (
      accept ana msg,
      to_passenger 9 (ok "127.0.0.1:7001")
          ∷ save (status (accept ana msg))
          ∷ (ask_server (accept ana msg) (busy_driver "ana") true ++ to_self start_ride ∷ []),
    ))
    × (pick_up 2 (accept ana msg)
        ≡ some (carrying ana msg, to_passenger 9 driver_arrived ∷ to_self ride_to_destination ∷ []))
    × (last : Position) × (ride 4 (carrying ana msg)
        ≡ some (
          arrived ana msg,
          save (status (put (carrying ana msg) last)) ∷ to_self (end_ride (5, 5)) ∷ [],
        ))
    × ((handle_end_ride (arrived ana msg) (5, 5) false).0 ≡ record (accept ana msg) {
      position = (5, 5);
      is_available = true;
      passenger_picked_up = false;
    })
ride_completes_example = ride_completes 1 3 ana msg true false refl two_moves four_moves

-- ===== src/Recovery/Examples.antt =====
-- A passenger that asks the driver that carries it.
use concu_ride.Prelude.{
  ◌≡◌, Bool, true, false, not, ◌||◌, none, some, [], ◌∷◌, ◌==◌, nat_eq, if◌then◌else◌,
}
use concu_ride.Ride.{Position}
use concu_ride.Passenger.{Passenger, confirm_payment, traveling, to_self, to_gateway, add_permit}
use concu_ride.Passenger.Handlers.{with_position, handle_recover_response}
use concu_ride.Driver.{Driver, recover_response, to_passenger}
use concu_ride.Driver.Handlers.{at_destination, handle_passenger_recover}
use concu_ride.Recovery.{passenger_recovers}

abbrev ana : Driver
ana = record {
  server_receiver = some 2;
  server_sender = 3;
  connections = [];
  id_current_passenger = 2;
  is_available = false;
  is_registered = true;
  position = (3, 3);
  passenger_position = some (3, 1);
  destination = some (5, 5);
  name = "ana";
  current_passenger_connection = none;
  passenger_picked_up = true;
  driver_socket = "127.0.0.1:7001";
}

abbrev leo : Passenger
leo = record {
  name = "leo";
  info = record { id = 2; position = (3, 1); destination = (5, 5) };
  recovery = true;
  payment_authorized = true;
  payment_confirmed = false;
  server_receiver = none;
  server_sender = 3;
  connections = [];
  drivers_info = [];
  driver_socket = some "127.0.0.1:7001";
  gateway = 4;
}

passenger_recovers_example :
    (picked_up end_ride : Bool) × (position : Position) × ((handle_passenger_recover ana 2 9).1
      ≡ to_passenger 9 (recover_response picked_up position end_ride) ∷ [])
    × (handle_recover_response leo
          (record { picked_up = picked_up; position = position; end_ride = end_ride })
        ≡ (if not (ana.id_current_passenger == leo.info.id) || at_destination ana
            then (leo, to_gateway 4 (confirm_payment "leo") ∷ add_permit ∷ [])
            else if true
            then (with_position leo (3, 3), to_self traveling ∷ [])
            else (leo, [])))
passenger_recovers_example = passenger_recovers ana leo 9

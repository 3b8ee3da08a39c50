-- ===== src/Wire/Examples/Service.antt =====
-- A ride of a passenger at (3, 1) with a driver at (1, 1), with trees for serde_json.
use concu_ride.Prelude.{◌≡◌, refl, true, false, some, none, [], ◌∷◌, arith, string_eq}
use concu_ride.Prelude.HashMap.{get}
use concu_ride.Common.Json.Tree.{tree_json, tree_json-IsJson}
use concu_ride.Ride.Arrival.{Reaches}
use concu_ride.Passenger.{Passenger}
use concu_ride.Driver.{Driver}
use concu_ride.Server.{Server, DriverInfo}
use concu_ride.Server.Registry.Refinement.{IsDisjoint}
use concu_ride.Server.Startup.{leader_server}
use concu_ride.Wire.Service.{Agrees, Travels, Arrives, IsRegistered, ride_served}

abbrev leo : Passenger
leo = record {
  name = "leo";
  info = record { id = 2; position = (3, 1); destination = (5, 5) };
  recovery = false;
  payment_authorized = true;
  payment_confirmed = false;
  server_receiver = none;
  server_sender = 3;
  connections = 8 ∷ [];
  drivers_info = [];
  driver_socket = none;
  gateway = 4;
}

abbrev ana : Driver
ana = record {
  server_receiver = some 5;
  server_sender = 6;
  connections = 9 ∷ [];
  id_current_passenger = 0;
  is_available = true;
  is_registered = true;
  position = (1, 1);
  passenger_position = none;
  destination = none;
  name = "ana";
  current_passenger_connection = none;
  passenger_picked_up = false;
  driver_socket = "127.0.0.1:7001";
}

abbrev entry : DriverInfo
entry = record { name = "ana"; socket = "127.0.0.1:7001"; id = 1; position = (1, 1) }

abbrev leader : Server
leader = record (leader_server 5) { drivers = ("ana", entry) ∷ []; busy_drivers = [] }

disjoint : IsDisjoint leader
unfolding get
disjoint name = ground arith

known : get leader.drivers "ana" ≡ some entry
unfolding get
known = refl

two_moves : Reaches 2 (1, 1) (3, 1)
two_moves = record {
  start = (omega arith, omega arith);
  target = (omega arith, omega arith);
  positive_x = omega arith;
  positive_y = omega arith;
  far_x = omega arith;
  far_y = omega arith;
  parity_x = refl;
  parity_y = refl;
}

four_moves : Reaches 4 (3, 1) (5, 5)
four_moves = record {
  start = (omega arith, omega arith);
  target = (omega arith, omega arith);
  positive_x = omega arith;
  positive_y = omega arith;
  far_x = omega arith;
  far_y = omega arith;
  parity_x = refl;
  parity_y = refl;
}

ride_served_example :
    Agrees tree_json leo ana 8 9 7
    × Travels tree_json 2 4 leo ana 9
    × Arrives tree_json 4 leo ana 9 7
    × IsRegistered leader "ana" entry (5, 5)
ride_served_example =
    ride_served tree_json tree_json-IsJson 1 3 leo ana leader entry 8 9 7 5 [] refl refl refl
      disjoint known two_moves four_moves

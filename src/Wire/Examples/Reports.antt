-- ===== src/Wire/Examples/Reports.antt =====
-- A driver that is asked for a ride, and a passenger that asks the server for drivers before the
-- server has read the driver's report.
use concu_ride.Prelude.{
  ◌≡◌, List, inc, refl, true, false, some, none, [], ◌∷◌, map, string_eq, kept,
}
use concu_ride.Prelude.HashMap.{get, insert}
use concu_ride.Driver.{Driver, busy_driver, start_ride}
use concu_ride.Driver.Wire.{request_ride}
use concu_ride.Driver.Handlers.{RequestRide, accept, handle_request_ride, ask_server}
use concu_ride.Driver.Mailbox.{inbound, outside, own, handle, handle_outside, sent, after}
use concu_ride.Server.{Server, DriverInfo, TcpOut, to_client}
use concu_ride.Server.Registry.{get_drivers, new_driver, enrol_driver}
use concu_ride.Server.Registry.Filing.{IsFiled, handle-IsFiled}
use concu_ride.Server.Startup.Initial.{leader_server-IsValid}
use concu_ride.Server.Registry.Requests.{Request, run}
use concu_ride.Server.Registry.Requests as Requests
use concu_ride.Server.Registry.Showing.{Shows}
use concu_ride.Server.Startup.{leader_server}
use concu_ride.Wire.ToServer.{driver_request}
use concu_ride.Wire.Reports.{reports, World, reported, handles, arrives, others, Steps, here, next}
use concu_ride.Wire.Reports.Offers.{Offers, driver_offered}

abbrev ana : Driver
ana = record {
  server_receiver = some 5;
  server_sender = 6;
  connections = 9 ∷ [];
  id_current_passenger = 0;
  is_available = true;
  is_registered = true;
  position = (1, 1);
  passenger_position = none;
  destination = none;
  name = "ana";
  current_passenger_connection = none;
  passenger_picked_up = false;
  driver_socket = "127.0.0.1:7001";
}

abbrev msg : RequestRide
msg = record { id_passenger = 2; origin = (3, 1); destination = (5, 5); addr = 9 }

abbrev entry : DriverInfo
entry = record { name = "ana"; socket = "127.0.0.1:7001"; id = 1; position = (1, 1) }

abbrev leader : Server
leader = record (leader_server 5) {
  ids_count = 1;
  drivers = ("ana", entry) ∷ [];
  busy_drivers = [];
}

abbrev waiting : World
waiting = record { actor = record { driver = ana; mailbox = [] }; line = []; server = leader }

abbrev accepted : World
accepted = record {
  actor = record { driver = accept ana msg; mailbox = own start_ride ∷ [] };
  line = busy_driver "ana" ∷ [];
  server = leader;
}

shown : Shows "ana" leader true
unfolding get
shown = (entry, refl, refl)

to_accepted : Steps waiting accepted
unfolding reported reports after handle handle_outside sent kept handle_request_ride ask_server
    Requests.handle get_drivers
to_accepted =
    next
      (next (next here (arrives ana [] (inbound (request_ride msg)) [] leader))
        (handles ana (outside (inbound (request_ride msg))) [] none (true ∷ []) [] leader))
      (others accepted.actor accepted.line leader (Request.get_drivers 8) tt)

filed : IsFiled leader
unfolding Requests.handle new_driver enrol_driver leader_server get insert inc
filed =
    handle-IsFiled (leader_server 5)
      (Request.new_driver (record { name = "ana"; socket = "127.0.0.1:7001"; position = (1, 1) }))
      (leader_server-IsValid 5).filed

driver_offered_example :
    let t = run leader (map driver_request (busy_driver "ana" ∷ [])) in
    (listed : List DriverInfo) × (get_drivers t 8 ≡ (t, to_client 8 (TcpOut.drivers listed) ∷ []))
    × Offers "ana" listed false
driver_offered_example = driver_offered ana 5 8 leader accepted refl refl filed shown to_accepted

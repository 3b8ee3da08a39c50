-- ===== src/Driver/Examples/Mailbox.antt =====
-- A driver that starts, is asked for a ride and, on its way to the passenger, for another.
use concu_ride.Prelude.{◌≤◌, refl, true, false, none, some, [], ◌∷◌, kept}
use concu_ride.Common.Json.Tree.{tree_json}
use concu_ride.Driver.{pick_up_passenger, start_ride}
use concu_ride.Driver.Startup.{
  Args, set_receiver_msg, register_msg, app, new_driver, socket_to_bind, recovery_messages,
}
use concu_ride.Driver.Wire.{request_ride}
use concu_ride.Driver.Handlers.{
  RequestRide, accept, set_receiver, handle_register, handle_request_ride, handle_start_ride,
  ask_server,
}
use concu_ride.Driver.Mailbox.{
  inbound, process, outside, own, Net, handle, handle_process, handle_outside, handle_own, sent,
  State, after, Steps, handles, arrives, here, next, started,
}
use concu_ride.Driver.Mailbox.Pending.{pending}
use concu_ride.Driver.Mailbox.Safety.{Rides, steps-trans, ride_kept}

abbrev args : Args
args = record { name = "ana"; position = (1, 1); recovery = false }

abbrev first : RequestRide
first = record { id_passenger = 2; origin = (3, 1); destination = (5, 5); addr = 9 }

abbrev second : RequestRide
second = record { id_passenger = 4; origin = (7, 3); destination = (1, 3); addr = 8 }

abbrev up : Net
up = record { connected = true; leader = none }

abbrev new : State
new = record {
  driver = record {
    server_receiver = none;
    server_sender = 3;
    connections = [];
    id_current_passenger = 0;
    is_available = true;
    is_registered = false;
    position = (1, 1);
    passenger_position = none;
    destination = none;
    name = "ana";
    current_passenger_connection = none;
    passenger_picked_up = false;
    driver_socket = "127.0.0.1:7001";
  };
  mailbox =
      process (set_receiver_msg 2)
      ∷ process
          (register_msg (record { socket = "127.0.0.1:7001"; name = "ana"; position = (1, 1) }))
      ∷ [];
}

-- It has registered.
abbrev ready : State
ready = record {
  driver = record new.driver { server_receiver = some 2; is_registered = true };
  mailbox = [];
}

-- It has accepted the first ride, and the second is asked for.
abbrev asked : State
asked = record {
  driver = accept ready.driver first;
  mailbox = own start_ride ∷ outside (inbound (request_ride second)) ∷ [];
}

-- It has refused the second.
abbrev fetching : State
fetching = record { driver = asked.driver; mailbox = own pick_up_passenger ∷ [] }

to_ready : Steps new ready
unfolding after handle handle_process sent kept set_receiver handle_register ask_server
to_ready =
    next
      (next here (
        handles new.driver (process (set_receiver_msg 2))
          (process
              (register_msg (record { socket = "127.0.0.1:7001"; name = "ana"; position = (1, 1) }))
            ∷ [])
          up []))
      (handles (record new.driver { server_receiver = some 2 })
        (process
          (register_msg (record { socket = "127.0.0.1:7001"; name = "ana"; position = (1, 1) })))
        [] up [])

to_asked : Steps ready asked
unfolding after handle handle_outside sent kept handle_request_ride ask_server
to_asked =
    next
      (next (next here (arrives ready.driver [] (inbound (request_ride first))))
        (handles ready.driver (outside (inbound (request_ride first))) [] up (true ∷ [])))
      (arrives (accept ready.driver first) (own start_ride ∷ []) (inbound (request_ride second)))

to_fetching : Steps asked fetching
unfolding after handle handle_outside handle_own sent kept handle_request_ride handle_start_ride
    ask_server
to_fetching =
    next
      (next here (
        handles asked.driver (own start_ride) (outside (inbound (request_ride second)) ∷ []) up
          (true ∷ [])))
      (handles asked.driver (outside (inbound (request_ride second))) (own pick_up_passenger ∷ [])
        up [])

ride_kept_example : Rides asked fetching × (pending fetching.mailbox ≤ 1)
unfolding app started new_driver socket_to_bind recovery_messages
ride_kept_example =
    ride_kept tree_json args (some 3) 2 (λ _. some "127.0.0.1:7001") none new asked fetching refl
      (steps-trans to_ready to_asked) refl to_fetching

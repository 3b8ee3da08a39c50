-- ===== src/Wire/Examples/Paying.antt =====
-- A passenger that starts, is offered a driver, and has its payment authorised.
use concu_ride.Prelude.{◌≡◌, refl, true, false, none, some, List, [], ◌∷◌, kept}
use concu_ride.Common.Json.Tree.{tree_json}
use concu_ride.Passenger.{Passenger, Effect, authorize_payment}
use concu_ride.Passenger.Select.{select_driver, select_within, take_in_range, distance}
use concu_ride.Passenger.Handlers.{
  set_receiver, handle_get_drivers, handle_login, handle_drivers, handle_payment_authorized,
  ask_server, server_connected,
}
use concu_ride.Passenger.Wire as Wire
use concu_ride.Passenger.GatewayConnection.{payment_authorized, request_drive, decide}
use concu_ride.Passenger.Startup.{
  Args, app, new_passenger, set_receiver_msg, login_msg, get_drivers_msg,
}
use concu_ride.Passenger.Examples.{exact, near_one}
use concu_ride.Passenger.Mailbox.{
  process, inbound, payment, Net, handle, handle_process, handle_inbound, sent, asks,
}
use concu_ride.Gateway.{answer, payment_authorization_status}
use concu_ride.Gateway as Gateway
use concu_ride.Wire.Paying.{
  World, started, Steps, handles, arrives, answered, tells, here, next, steps-trans,
}
use concu_ride.Wire.Paying.Safety.{never_panics}

abbrev args : Args
args = record { name = "leo"; src = (0, 0); dst = (4, 4); recovery = false }

abbrev net : Net
net = record { connected = true; connect = λ _. some 7; leader = none }

abbrev leo : Passenger
leo = record {
  name = "leo";
  info = record { id = 0; position = (0, 0); destination = (4, 4) };
  recovery = false;
  payment_authorized = false;
  payment_confirmed = false;
  server_receiver = none;
  server_sender = 3;
  connections = [];
  drivers_info = [];
  driver_socket = none;
  gateway = 4;
}

abbrev start : World
start = record {
  passenger = leo;
  mailbox = process (set_receiver_msg 2) ∷ process (login_msg "leo") ∷ process get_drivers_msg ∷ [];
  asked = [];
  answers = [];
}

-- It has asked for drivers.
abbrev ready : World
ready = record start { passenger = record leo { server_receiver = some 2 }; mailbox = [] }

-- It has a connection to the driver that it has chosen.
abbrev chosen : World
chosen = record ready {
  passenger = record ready.passenger { connections = 7 ∷ [] };
  asked = authorize_payment ∷ [];
}

-- The payment has been authorised.
abbrev allowed : World
allowed = record chosen {
  passenger = record chosen.passenger { payment_authorized = true };
  mailbox = payment (request_drive 5) ∷ [];
  asked = [];
}

to_ready : Steps exact start ready
unfolding handle handle_process set_receiver handle_login handle_get_drivers ask_server
    server_connected sent asks kept
to_ready =
    next
      (next
        (next here (
          handles start (process (set_receiver_msg 2))
            (process (login_msg "leo") ∷ process get_drivers_msg ∷ []) net [] _ refl refl))
        (handles _ (process (login_msg "leo")) (process get_drivers_msg ∷ []) net [] _ refl refl))
      (handles _ (process get_drivers_msg) [] net [] _ refl refl)

to_chosen : Steps exact ready chosen
unfolding handle handle_inbound handle_drivers select_driver select_within take_in_range distance
    sent asks kept
to_chosen =
    next (next here (arrives ready (Wire.drivers (near_one ∷ []))))
      (handles _ (inbound (Wire.drivers (near_one ∷ []))) [] net [] _ refl refl)

to_allowed : Steps exact chosen allowed
unfolding handle handle_payment_authorized answer Gateway.authorize_payment decide sent asks kept
to_allowed =
    next
      (next (next here (answered chosen 5 authorize_payment [] refl))
        (tells _ 5 (payment_authorization_status true) [] (true ∷ true ∷ []) refl))
      (handles _ (payment (payment_authorized 5)) (payment (request_drive 5) ∷ []) net [] _ refl
        refl)

never_panics_example :
    (r : Passenger × List Effect) × (handle exact allowed.passenger (payment (request_drive 5)) net
      ≡ some r)
unfolding app started new_passenger
never_panics_example =
    never_panics tree_json exact args (some 3) (some 4) 2 none start allowed
      (payment (request_drive 5)) [] net refl
      (steps-trans exact (steps-trans exact to_ready to_chosen) to_allowed) refl

-- ===== src/Driver/Startup.antt =====
-- How a driver's process starts: `app` of driver/src/main.rs. The arguments of the command line,
-- the connection, the socket that is bound, and the file of an earlier run are arguments.
use concu_ride.Prelude.{
  String, ◌≡◌, refl, Bool, true, false, not, Option, none, some, List, [], ◌∷◌, ◌++◌, if◌then◌else◌,
}
use concu_ride.Ride.{Position}
use concu_ride.Driver.{
  Addr, Driver, reconnect_driver, ride_to_destination, pick_up_passenger, to_self, to_server,
}
use concu_ride.Driver.Handlers.{status, SavedStatus, Register, set_receiver, handle_recovery}
use concu_ride.Driver.Handlers.Restart.{resumed, handle_recovery-written}
use concu_ride.Common.Json.{Json, IsJson}
use concu_ride.Common.Message.{and_then, index}
use concu_ride.Driver.File.{
  save_state, read_file, written, parsed, socket-value, read_file-save_state,
}

-- What the process sends its actor.
pub data Message : Type 0 where
  set_receiver_msg : Addr → Message
  recovery_msg : SavedStatus → String → Message
  register_msg : Register → Message

-- `no_server` ends the process without an error; a file that is no JSON, or a socket that cannot
-- be bound, ends it with one; `panicked` is an actor that ends in `Recovery`, on an array in the
-- file of fewer than two values.
pub data Outcome : Type 0 where
  no_server failed panicked : Outcome
  running : Driver → List Message → Outcome

pub record Args : Type 0 where
  pub name : String
  pub position : Position
  pub recovery : Bool

unfoldable pub new_driver : Args → Addr → String → Driver
new_driver args sender driver_socket = record {
  server_receiver = none;
  server_sender = sender;
  connections = [];
  id_current_passenger = 0;
  is_available = true;
  is_registered = false;
  position = args.position;
  passenger_position = none;
  destination = none;
  name = args.name;
  current_passenger_connection = none;
  passenger_picked_up = false;
  driver_socket = driver_socket;
}

module _ (j : Json) where
  -- The socket to bind, or `none` where the file is no JSON.
  unfoldable pub socket_to_bind : Bool → Option j.Text → Option String
  socket_to_bind false file = some "127.0.0.1:0"
  socket_to_bind true none = some "127.0.0.1:0"
  socket_to_bind true (some text) = and_then (j.from_str text) (λ status.
      elim (j.as_str (index j status "driver_socket")) [
        | some socket ↦ some socket
        | none ↦ some "127.0.0.1"
      ])

  -- The message for recovery, with what its handler reads of the file, or `none` where that
  -- panics. A file that is no JSON has ended the process before.
  unfoldable pub recovery_messages : Bool → Option j.Text → String → Option (List Message)
  recovery_messages true (some text) socket =
      and_then (read_file j text) (λ saved. some (recovery_msg saved socket ∷ []))
  recovery_messages true none socket = some []
  recovery_messages false file socket = some []

  -- `bind` gives the address that a socket is bound to, and `file` is the text of the file, or
  -- `none` where there is none.
  unfoldable pub app :
      Args → Option Addr → Addr → (String → Option String) → Option j.Text → Outcome
  unfolding new_driver socket_to_bind recovery_messages
  app args none receiver bind file = no_server
  app args (some sender) receiver bind file = elim (socket_to_bind args.recovery file) [
    | none ↦ failed
    | some address ↦ elim (bind address) [
      | none ↦ failed
      | some driver_socket ↦ elim (recovery_messages args.recovery file driver_socket) [
        | none ↦ panicked
        | some recovery ↦ running (new_driver args sender driver_socket) (
            set_receiver_msg receiver ∷ []
            ++ recovery
            ++ register_msg
                (record { socket = driver_socket; name = args.name; position = args.position })
              ∷ [])
      ]
    ]
  ]

module _ (j : Json) (laws : IsJson j) (d : Driver) where
  socket_to_bind-save_state :
      socket_to_bind j true (some (save_state j (status d))) ≡ some d.driver_socket
  unfolding socket_to_bind
  socket_to_bind-save_state =
      rw (parsed j laws (status d), socket-value j laws (status d), socket_to_bind) refl

  recovery_messages-save_state :
      (socket : String)
      → recovery_messages j true (some (save_state j (status d))) socket
        ≡ some (recovery_msg (written (status d)) socket ∷ [])
  unfolding recovery_messages
  recovery_messages-save_state socket = rw (read_file-save_state j laws (status d)) refl

  -- A process that is started for recovery with the file that an earlier driver has saved, and can
  -- bind the socket of that file, starts a driver that takes up the saved state under its own
  -- connections, and then registers. Where the driver was not available it tells the server its
  -- socket for its passenger and goes on with the ride.
  pub driver_app_recovers :
      (args : Args) (sender receiver : Addr) (bind : String → Option String)
      → args.recovery ≡ true
      → bind d.driver_socket ≡ some d.driver_socket
      → (e : Driver) × (saved : SavedStatus) × (app j args
            (some sender)
            receiver
            bind
            (some (save_state j (status d)))
          ≡ running e (
              set_receiver_msg receiver
              ∷ recovery_msg saved d.driver_socket
              ∷ register_msg
                  (record { socket = d.driver_socket; name = args.name; position = args.position })
              ∷ []))
        × (handle_recovery (set_receiver e receiver).0 saved d.driver_socket ≡ (
          resumed (set_receiver e receiver).0 d,
          if not d.is_available
              then to_server sender
                  (reconnect_driver d.id_current_passenger d.driver_socket args.name)
                ∷ to_self (if d.passenger_picked_up then ride_to_destination else pick_up_passenger)
                ∷ []
              else [],
        ))
  unfolding app set_receiver
  driver_app_recovers args sender receiver bind recovers bound = (
    new_driver args sender d.driver_socket,
    written (status d),
    rw (recovers, app)
        (rw (socket_to_bind-save_state, app)
          (rw (bound, app)
            (rw (recovers, app) (rw (recovery_messages-save_state d.driver_socket, app) refl)))),
    handle_recovery-written d (set_receiver (new_driver args sender d.driver_socket) receiver).0
        d.driver_socket refl refl,
  )

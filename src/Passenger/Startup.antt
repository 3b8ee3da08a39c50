-- ===== src/Passenger/Startup.antt =====
-- How a passenger's process starts: `app` of passenger/src/main.rs. The arguments of the command
-- line, the connections, and the file of an earlier run are arguments.
use concu_ride.Prelude.{
  String, ◌≡◌, refl, Bool, true, false, not, Option, none, some, List, [], ◌∷◌, if◌then◌else◌,
}
use concu_ride.Ride.{Position}
use concu_ride.Passenger.{Addr, Passenger, Status, to_self}
use concu_ride.Passenger as Data
use concu_ride.Passenger.Handlers.{status, SavedStatus, set_receiver, handle_recover, ask_driver}
use concu_ride.Passenger.Handlers.Restart.{resumed, handle_recover-written}
use concu_ride.Common.Json.{Json, IsJson}
use concu_ride.Passenger.File.{save_state, read_status, written, parsed, read_status-save_state}

-- What the process sends its actor.
pub data Message : Type 0 where
  set_receiver_msg : Addr → Message
  recover_msg : SavedStatus → Message
  login_msg : String → Message
  get_drivers_msg : Message

-- `no_server` and `no_gateway` end the process without an error; a file that is no JSON ends it
-- with one.
pub data Outcome : Type 0 where
  no_server no_gateway failed : Outcome
  running : Passenger → List Message → Outcome

pub record Args : Type 0 where
  pub name : String
  pub src : Position
  pub dst : Position
  pub recovery : Bool

unfoldable pub new_passenger : Args → Addr → Addr → Passenger
new_passenger args sender gateway = record {
  name = args.name;
  info = record { id = 0; position = args.src; destination = args.dst };
  recovery = args.recovery;
  payment_authorized = false;
  payment_confirmed = false;
  server_receiver = none;
  server_sender = sender;
  connections = [];
  drivers_info = [];
  driver_socket = none;
  gateway = gateway;
}

abbrev pub first_messages : Args → List Message
first_messages args = login_msg args.name ∷ get_drivers_msg ∷ []

module _ (j : Json) where
  -- `file` is the text of the file, or `none` where there is none. The message `Recover` carries
  -- what its handler reads of the file.
  unfoldable pub app : Args → Option Addr → Option Addr → Addr → Option j.Text → Outcome
  unfolding new_passenger
  app args none gateway receiver file = no_server
  app args (some sender) none receiver file = no_gateway
  app args (some sender) (some gateway) receiver file =
      let passenger = new_passenger args sender gateway in
      if args.recovery
      then elim file [
        | none ↦ running passenger (set_receiver_msg receiver ∷ first_messages args)
        | some text ↦ elim (j.from_str text) [
          | none ↦ failed
          | some status ↦
              running passenger
                (set_receiver_msg receiver ∷ recover_msg (read_status j status) ∷ [])
        ]
      ]
      else running passenger (set_receiver_msg receiver ∷ first_messages args)

-- A process that is started for recovery with the file that an earlier passenger has saved, and
-- gets its connections, starts a passenger that takes up the id, the driver and the authorisation of
-- the file, but nothing else, and logs in; it asks for drivers where the payment was not
-- authorised, and else asks the driver of the file, if there is one that answers.
pub passenger_app_recovers :
    (j : Json)
    → IsJson j
    → (args : Args) (sender gateway receiver : Addr) (p : Passenger)
      (connect : String → Option Addr)
    → args.recovery ≡ true
    → (e : Passenger) × (saved : SavedStatus) × (app j args
          (some sender)
          (some gateway)
          receiver
          (some (save_state j (status p)))
        ≡ running e (set_receiver_msg receiver ∷ recover_msg saved ∷ []))
      × (handle_recover (set_receiver e receiver).0 saved connect ≡ (
        resumed (set_receiver e receiver).0 p,
        to_self (Data.login_msg args.name)
            ∷ (if not p.payment_authorized
                then to_self Data.get_drivers_msg ∷ []
                else ask_driver (resumed (set_receiver e receiver).0 p) connect),
      ))
unfolding app set_receiver
passenger_app_recovers j laws args sender gateway receiver p connect h = (
  new_passenger args sender gateway,
  written (status p),
  rw (h, app)
      (rw (parsed j laws (status p), app)
        (rw (read_status-save_state j laws (status p)) (λ i.
          running (record (new_passenger args sender gateway) { recovery = h i })
            (set_receiver_msg receiver ∷ recover_msg (written (status p)) ∷ [])))),
  handle_recover-written p (set_receiver (new_passenger args sender gateway) receiver).0 connect
      refl refl,
)

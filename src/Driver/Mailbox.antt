-- ===== src/Driver/Mailbox.antt =====
-- The actor `Driver` of driver/src/driver.rs with its mailbox: the messages that its process
-- (driver/src/main.rs), its passengers' connections (driver/src/passenger_connection.rs) and the
-- actor itself send it, which it handles one by one, in the order in which they arrive.
pub mod Pending
pub mod Handling
pub mod Riding
pub mod Invariant
pub mod Safety
use concu_ride.Prelude.{Bool, true, false, Option, none, some, List, [], ◌∷◌, ◌++◌, map, kept}
use concu_ride.Driver.{
  Addr, Driver, SelfMsg, Effect, reconnect, start_ride, pick_up_passenger, ride_to_destination,
  end_ride, to_self, to_server, to_passenger, save,
}
use concu_ride.Driver.Wire.{Inbound, request_ride, passenger_recover, reconnect_passenger}
use concu_ride.Driver.Startup.{
  Message, set_receiver_msg, recovery_msg, register_msg, Outcome, no_server, failed, panicked,
  running,
}
use concu_ride.Driver.Handlers.{
  set_receiver, handle_reconnect, handle_register, handle_new_connection, handle_request_ride,
  handle_start_ride, handle_pick_up_passenger, handle_ride_to_destination, handle_end_ride,
  handle_passenger_recover, handle_recovery, handle_reconnect_passenger,
}

-- A message that another actor sends while the driver runs.
pub data Outside : Type 0 where
  inbound : Inbound → Outside
  new_connection : Addr → Outside

pub data Msg : Type 0 where
  process : Message → Msg
  outside : Outside → Msg
  own : SelfMsg → Msg

-- What the network answers while a message is handled.
pub record Net : Type 0 where
  pub connected : Bool
  pub leader : Option (Addr × Addr)

unfoldable pub handle_process : Driver → Message → Net → Driver × List Effect
handle_process d (set_receiver_msg receiver) net = set_receiver d receiver
handle_process d (recovery_msg saved socket) net = handle_recovery d saved socket
handle_process d (register_msg msg) net = handle_register d msg net.connected

unfoldable pub handle_outside : Driver → Outside → Net → Driver × List Effect
handle_outside d (inbound (request_ride msg)) net = handle_request_ride d msg net.connected
handle_outside d (inbound (passenger_recover id addr)) net = handle_passenger_recover d id addr
handle_outside d (inbound (reconnect_passenger addr position)) net =
    handle_reconnect_passenger d addr position
handle_outside d (new_connection addr) net = handle_new_connection d addr

unfoldable pub handle_own : Driver → SelfMsg → Net → Driver × List Effect
handle_own d (reconnect msg) net = handle_reconnect d msg net.leader
handle_own d start_ride net = handle_start_ride d
handle_own d pick_up_passenger net = handle_pick_up_passenger d
handle_own d ride_to_destination net = handle_ride_to_destination d
handle_own d (end_ride dst) net = handle_end_ride d dst net.connected

-- The handler of a message.
unfoldable pub handle : Driver → Msg → Net → Driver × List Effect
unfolding handle_process handle_outside handle_own
handle d (process msg) net = handle_process d msg net
handle d (outside msg) net = handle_outside d msg net
handle d (own msg) net = handle_own d msg net

-- What the handler has sent the actor itself.
unfoldable pub sent : List Effect → List Msg
sent [] = []
sent (to_self msg ∷ effects) = own msg ∷ sent effects
sent (to_server _ _ ∷ effects) = sent effects
sent (to_passenger _ _ ∷ effects) = sent effects
sent (save _ ∷ effects) = sent effects

pub record State : Type 0 where
  pub driver : Driver
  pub mailbox : List Msg

-- The state after the first message, with those behind it.
unfoldable pub after : Driver → List Msg → List Bool → Driver × List Effect → State
unfolding sent kept
after d rest room (e, effects) = record { driver = e; mailbox = rest ++ kept room (sent effects) }

pub data Step : State → State → Type 0 where
  handles :
      (d : Driver) (msg : Msg) (rest : List Msg) (net : Net) (room : List Bool)
      → Step (record { driver = d; mailbox = msg ∷ rest }) (after d rest room (handle d msg net))
  arrives :
      (d : Driver) (mailbox : List Msg) (msg : Outside)
      → Step
          (record { driver = d; mailbox = mailbox })
          (record { driver = d; mailbox = mailbox ++ outside msg ∷ [] })

pub data Steps (s : State) : State → Type 0 where
  here : Steps s s
  next : {t u : State} → Steps s t → Step t u → Steps s u

-- The actor that the process starts, if it does, with the messages that it is sent then.
unfoldable pub started : Outcome → Option State
started (running d msgs) = some (record { driver = d; mailbox = map process msgs })
started no_server = none
started failed = none
started panicked = none

-- ===== src/Passenger/Mailbox.antt =====
-- The actor `Passenger` of passenger/src/passenger.rs with its mailbox: the messages that its
-- process (passenger/src/main.rs), its connections (passenger/src/receiver.rs and
-- gateway_connection.rs) and the actor itself send it, which it handles one by one, in the order in
-- which they arrive.
use concu_ride.Prelude.{String, Bool, Option, some, List, [], ◌∷◌}
use concu_ride.Passenger.{
  Addr, Passenger, SelfMsg, Effect, GatewayMsg, get_drivers_msg, login_msg, reconnect, drivers,
  traveling, to_self, to_server, to_gateway, to_driver, save, add_permit,
}
use concu_ride.Passenger.Select.{F64}
use concu_ride.Passenger.Handlers.{
  set_receiver, handle_get_drivers, handle_login, handle_drivers, handle_traveling,
  handle_driver_arrived, handle_complete_login, handle_ride_accepted, handle_request_drive,
  handle_keep_looking, handle_payment_authorized, handle_payment_deny, handle_recover_response,
  handle_reconnect, handle_reconnect_driver, handle_recover,
}
use concu_ride.Passenger.Wire.{
  Inbound, complete_login, ride_accepted, driver_arrived, keep_looking, recover_response,
}
use concu_ride.Passenger.Wire as Wire
use concu_ride.Passenger.GatewayConnection.{payment_authorized, request_drive, payment_deny}
use concu_ride.Passenger.GatewayConnection as GatewayConnection
use concu_ride.Passenger.Startup.{Message, set_receiver_msg, recover_msg}
use concu_ride.Passenger.Startup as Startup

pub data Msg : Type 0 where
  process : Message → Msg
  inbound : Inbound → Msg
  payment : GatewayConnection.Effect → Msg
  own : SelfMsg → Msg

-- What the network answers while a message is handled.
pub record Net : Type 0 where
  pub connected : Bool
  pub connect : String → Option Addr
  pub leader : Option (Addr × Addr)

unfoldable pub handle_process : Passenger → Message → Net → Passenger × List Effect
handle_process p (set_receiver_msg receiver) net = set_receiver p receiver
handle_process p (recover_msg saved) net = handle_recover p saved net.connect
handle_process p (Startup.login_msg name) net = handle_login p name net.connected
handle_process p Startup.get_drivers_msg net = handle_get_drivers p net.connected

unfoldable pub handle_inbound : F64 → Passenger → Inbound → Net → Passenger × List Effect
handle_inbound f p (Wire.drivers offered) net = handle_drivers f p offered net.connect
handle_inbound f p (complete_login id) net = handle_complete_login p id
handle_inbound f p (ride_accepted socket) net = handle_ride_accepted p socket
handle_inbound f p driver_arrived net = handle_driver_arrived p
handle_inbound f p keep_looking net = handle_keep_looking p
handle_inbound f p (recover_response msg) net = handle_recover_response p msg
handle_inbound f p (Wire.reconnect_driver socket) net = handle_reconnect_driver p socket net.connect

unfoldable pub handle_own : F64 → Passenger → SelfMsg → Net → Passenger × List Effect
handle_own f p get_drivers_msg net = handle_get_drivers p net.connected
handle_own f p (login_msg name) net = handle_login p name net.connected
handle_own f p (reconnect msg) net = handle_reconnect p msg net.leader
handle_own f p (drivers offered) net = handle_drivers f p offered net.connect
handle_own f p traveling net = handle_traveling p

-- The handler of a message, or `none` where it panics.
unfoldable pub handle : F64 → Passenger → Msg → Net → Option (Passenger × List Effect)
unfolding handle_process handle_inbound handle_own
handle f p (process msg) net = some (handle_process p msg net)
handle f p (inbound msg) net = some (handle_inbound f p msg net)
handle f p (payment (payment_authorized _)) net = some (handle_payment_authorized p)
handle f p (payment (request_drive _)) net = handle_request_drive p
handle f p (payment (payment_deny _)) net = some (handle_payment_deny p)
handle f p (own msg) net = some (handle_own f p msg net)

-- What the handler has sent the actor itself.
unfoldable pub sent : List Effect → List Msg
sent [] = []
sent (to_self msg ∷ effects) = own msg ∷ sent effects
sent (to_server _ _ ∷ effects) = sent effects
sent (to_gateway _ _ ∷ effects) = sent effects
sent (to_driver _ _ ∷ effects) = sent effects
sent (save _ ∷ effects) = sent effects
sent (add_permit ∷ effects) = sent effects

-- What it has sent to the gateway.
unfoldable pub asks : List Effect → List GatewayMsg
asks [] = []
asks (to_gateway _ msg ∷ effects) = msg ∷ asks effects
asks (to_self _ ∷ effects) = asks effects
asks (to_server _ _ ∷ effects) = asks effects
asks (to_driver _ _ ∷ effects) = asks effects
asks (save _ ∷ effects) = asks effects
asks (add_permit ∷ effects) = asks effects

-- ===== src/Driver.antt =====
-- The data of the driver process: driver/src/models/*.rs, and the state and the effects of the
-- actor `Driver` of driver/src/driver.rs.
pub mod Handlers
pub mod File
pub mod Wire
pub mod Sending
pub mod Startup
pub mod Mailbox
mod Examples
use concu_ride.Prelude.{ℕ, String, Bool, Option, List}
use concu_ride.Ride.{Position}

-- The address of an actor: a number that names it.
abbrev pub Addr : Type 0
Addr = ℕ

pub record Driver : Type 0 where
  pub server_receiver : Option Addr
  pub server_sender : Addr
  pub connections : List Addr
  pub id_current_passenger : ℕ
  pub is_available : Bool
  pub is_registered : Bool
  pub position : Position
  pub passenger_position : Option Position
  pub destination : Option Position
  pub name : String
  pub current_passenger_connection : Option Addr
  pub passenger_picked_up : Bool
  pub driver_socket : String

-- The requests to the server; all but the last are kept to be sent again by `Reconnect`.
pub data ServerMsg : Type 0 where
  new_driver : String → String → Position → ServerMsg
  busy_driver : String → ServerMsg
  available_driver : String → Position → ServerMsg
  reconnect_driver : ℕ → String → String → ServerMsg

pub data PassengerMsg : Type 0 where
  refuse : PassengerMsg
  ok : String → PassengerMsg
  driver_arrived : PassengerMsg
  recover_response : Bool → Position → Bool → PassengerMsg

pub data SelfMsg : Type 0 where
  reconnect : ServerMsg → SelfMsg
  start_ride : SelfMsg
  pick_up_passenger : SelfMsg
  ride_to_destination : SelfMsg
  end_ride : Position → SelfMsg

-- The arguments of `save_state`.
pub record Status : Type 0 where
  pub name : String
  pub is_available : Bool
  pub position : Position
  pub id_current_passenger : ℕ
  pub passenger_position : Option Position
  pub destination : Option Position
  pub passenger_picked_up : Bool
  pub is_registered : Bool
  pub driver_socket : String

pub data Effect : Type 0 where
  to_self : SelfMsg → Effect
  to_server : Addr → ServerMsg → Effect
  to_passenger : Addr → PassengerMsg → Effect
  save : Status → Effect

-- ===== src/Passenger.antt =====
-- The data of the passenger process: passenger/src/models/*.rs, and the state and the effects of
-- the actor `Passenger` of passenger/src/passenger.rs.
pub mod Select
pub mod Handlers
pub mod File
pub mod Wire
pub mod Sending
pub mod GatewayConnection
pub mod Startup
pub mod Mailbox
pub mod Examples
use concu_ride.Prelude.{ℕ, String, Bool, Option, List}
use concu_ride.Ride.{Position}

-- The address of an actor: a number that names it.
abbrev pub Addr : Type 0
Addr = ℕ

pub record DriverInfo : Type 0 where
  pub socket : String
  pub position : Position

pub record PassengerInfo : Type 0 where
  pub id : ℕ
  pub position : Position
  pub destination : Position

-- The semaphore `finished_signal` belongs to `main`; releasing it is an effect.
pub record Passenger : Type 0 where
  pub name : String
  pub info : PassengerInfo
  pub recovery : Bool
  pub payment_authorized : Bool
  pub payment_confirmed : Bool
  pub server_receiver : Option Addr
  pub server_sender : Addr
  pub connections : List Addr
  pub drivers_info : List DriverInfo
  pub driver_socket : Option String
  pub gateway : Addr

-- The requests to the server, which are kept to be sent again by `Reconnect`.
pub data ServerMsg : Type 0 where
  get_drivers : ℕ → ServerMsg
  login : String → ServerMsg

pub data DriverMsg : Type 0 where
  request_ride : ℕ → Position → Position → DriverMsg
  reconnect_driver : Position → DriverMsg
  recover : ℕ → DriverMsg

pub data GatewayMsg : Type 0 where
  authorize_payment : GatewayMsg
  confirm_payment : String → GatewayMsg

pub data SelfMsg : Type 0 where
  get_drivers_msg : SelfMsg
  login_msg : String → SelfMsg
  reconnect : ServerMsg → SelfMsg
  drivers : List DriverInfo → SelfMsg
  traveling : SelfMsg

-- The arguments of `save_state`.
pub record Status : Type 0 where
  pub name : String
  pub drivers_info : List DriverInfo
  pub driver_socket : Option String
  pub payment_authorized : Bool
  pub payment_confirmed : Bool
  pub id : ℕ

pub data Effect : Type 0 where
  to_self : SelfMsg → Effect
  to_server : Addr → ServerMsg → Effect
  to_gateway : Addr → GatewayMsg → Effect
  to_driver : Addr → DriverMsg → Effect
  save : Status → Effect
  add_permit : Effect

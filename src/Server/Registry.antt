-- ===== src/Server/Registry.antt =====
-- Drivers and passengers: the handlers `NewDriver`, `GetDrivers`, `PassengerLogin`,
-- `UpdateDriver`, `BusyDriver`, `ReconnectDriver` and `UpdateDriverSocket` of
-- server/src/server.rs.
pub mod Directory
pub mod Requests
pub mod Refinement
pub mod Filing
pub mod Invariant
pub mod Availability
pub mod Showing
use concu_ride.Prelude.{ℕ, String, none, some, List, [], ◌∷◌, inc, nat_eq, string_eq}
use concu_ride.Prelude.HashMap.{get, insert, remove, values, modify}
use concu_ride.Server.{
  Addr, Position, DriverInfo, UpdateDriverSocket, Server, Effect, TcpOut, to_self, to_client,
  update_driver_socket,
}

pub record NewDriver : Type 0 where
  pub name : String
  pub socket : String
  pub position : Position

pub record PassengerLogin : Type 0 where
  pub name : String
  pub addr : Addr

pub record UpdateDriver : Type 0 where
  pub new_position : Position
  pub name : String

pub record ReconnectDriver : Type 0 where
  pub id_passenger : ℕ
  pub socket : String
  pub name : String

-- The new entry of a driver that is not known.
unfoldable pub enrol_driver : Server → NewDriver → Server
enrol_driver s msg = record s { ids_count = id; drivers = insert s.drivers msg.name driver_info }
  where
    id : ℕ
    id = inc s.ids_count

    driver_info : DriverInfo
    driver_info = record { name = msg.name; socket = msg.socket; id = id; position = msg.position }

unfoldable pub new_driver : Server → NewDriver → Server × List Effect
unfolding enrol_driver
new_driver s msg =
    let update =
      to_self (update_driver_socket (record { socket = msg.socket; name = msg.name })) ∷ [] in
    elim (get s.drivers msg.name) [
      | some _ ↦ (s, update)
      | none ↦ elim (get s.busy_drivers msg.name) [
        | some _ ↦ (s, update)
        | none ↦ (enrol_driver s msg, [])
      ]
    ]

unfoldable pub get_drivers : Server → Addr → Server × List Effect
get_drivers s addr = (s, to_client addr (TcpOut.drivers (values s.drivers)) ∷ [])

unfoldable pub passenger_login : Server → PassengerLogin → Server × List Effect
passenger_login s msg = elim (get s.passengers msg.name) [
  | some id ↦ (
    record s { passengers_address = insert s.passengers_address id msg.addr },
    to_client msg.addr (TcpOut.identificador id) ∷ [],
  )
  | none ↦
      let id = inc s.ids_count in
      (
        record s {
          ids_count = id;
          passengers = insert s.passengers msg.name id;
          passengers_address = insert s.passengers_address id msg.addr;
        },
        to_client msg.addr (TcpOut.identificador id) ∷ [],
      )
]

unfoldable pub update_driver : Server → UpdateDriver → Server × List Effect
update_driver s msg = elim (get s.busy_drivers msg.name) [
  | none ↦ (s, [])
  | some driver ↦ (
    record s {
      busy_drivers = remove s.busy_drivers msg.name;
      drivers = insert s.drivers msg.name (record driver { position = msg.new_position });
    },
    [],
  )
]

unfoldable pub busy_driver : Server → String → Server × List Effect
busy_driver s name = elim (get s.drivers name) [
  | none ↦ (s, [])
  | some driver ↦ (
    record s { drivers = remove s.drivers name; busy_drivers = insert s.busy_drivers name driver },
    [],
  )
]

unfoldable pub reconnect_driver : Server → ReconnectDriver → Server × List Effect
reconnect_driver s msg =
    let update = to_self (update_driver_socket (record { socket = msg.socket; name = msg.name })) in
    elim (get s.passengers_address msg.id_passenger) [
      | none ↦ (s, update ∷ [])
      | some addr ↦ (s, update ∷ to_client addr (TcpOut.reconnect_driver msg.socket) ∷ [])
    ]

set_socket : String → DriverInfo → DriverInfo
set_socket socket driver_info = record driver_info { socket = socket }

unfoldable pub update_socket : Server → UpdateDriverSocket → Server × List Effect
unfolding set_socket
update_socket s msg = (
  record s {
    drivers = modify s.drivers msg.name (set_socket msg.socket);
    busy_drivers = modify s.busy_drivers msg.name (set_socket msg.socket);
  },
  [],
)

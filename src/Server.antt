-- ===== src/Server.antt =====
-- The data of the server process: the messages of server/src/models/*.rs, and the state and the
-- effects of the actor `Server` of server/src/server.rs. An actor's address is a number that
-- names the actor. A message to be sent as JSON is kept as the record that is serialised.
pub mod Registry
pub mod Replication
pub mod Neighbor
pub mod Election
pub mod Startup
pub mod Wire
pub mod Sending
pub mod Udp
pub mod LeaderConnection
mod Examples
use concu_ride.Prelude.{ℕ, String, Bool, Option, List}
use concu_ride.Prelude.HashMap.{HashMap}

abbrev pub Addr : Type 0
Addr = ℕ

abbrev pub Position : Type 0
Position = ℕ × ℕ

pub record DriverInfo : Type 0 where
  pub name : String
  pub socket : String
  pub id : ℕ
  pub position : Position

pub record UpdateNetworkState : Type 0 where
  pub ids_count : ℕ
  pub drivers : HashMap String DriverInfo
  pub busy_drivers : HashMap String DriverInfo
  pub passengers : HashMap String ℕ
  pub udp_sockets_replicas : HashMap ℕ String
  pub disconnected_servers : List ℕ

pub record ElectionMsg : Type 0 where
  pub disconnected_leader_id : ℕ
  pub server_ids : List ℕ
  pub sequence_number : ℕ

pub record NewLeaderMsg : Type 0 where
  pub id_sender : ℕ
  pub leader_id : ℕ
  pub sequence_number : ℕ

-- What the servers send one another over UDP in an election: the argument of `serialize_message`.
pub data UdpWire : Type 0 where
  election : ElectionMsg → UdpWire
  new_leader : NewLeaderMsg → UdpWire

-- `WaitForNeighborAck` and `CheckIfNeighborAcked` have the same fields.
pub record PendingAck : Type 0 where
  pub neighbor_id : ℕ
  pub serialized_msg : UdpWire
  pub sequence_number : ℕ

pub record UpdateDriverSocket : Type 0 where
  pub socket : String
  pub name : String

pub record Server : Type 0 where
  pub id : ℕ
  pub id_leader : ℕ
  pub im_leader : Bool
  pub drivers : HashMap String DriverInfo
  pub busy_drivers : HashMap String DriverInfo
  pub passengers : HashMap String ℕ
  pub passengers_address : HashMap ℕ Addr
  pub udp_sockets_replicas : HashMap ℕ String
  pub servers : HashMap ℕ Addr
  pub ids_count : ℕ
  pub udp_sender : Option Addr
  pub leader_connection : Option Addr
  pub disconnected_servers : List ℕ
  pub received_neighbor_ack : Bool
  pub election_on_course : Bool
  pub actual_neighbor_id : ℕ
  pub sequence_number : ℕ
  pub message_received_ack : HashMap ℕ Bool

-- What the server writes to a TCP connection: the name and the payload of the message.
pub data TcpOut : Type 0 where
  drivers : List DriverInfo → TcpOut
  identificador : ℕ → TcpOut
  pong : UpdateNetworkState → TcpOut
  reconnect_driver : String → TcpOut

-- What the server sends to itself.
pub data SelfMsg : Type 0 where
  update_driver_socket : UpdateDriverSocket → SelfMsg
  pong_to : Addr → SelfMsg
  start_election : SelfMsg
  new_leader_msg : NewLeaderMsg → SelfMsg
  wait_for_neighbor_ack : PendingAck → SelfMsg
  check_if_neighbor_acked : PendingAck → SelfMsg
  connect_to_server : SelfMsg

-- The sends of a handler, in order. A failed `try_send` is only logged, so whether one is
-- delivered is up to the receiver's mailbox.
pub data Effect : Type 0 where
  to_self : SelfMsg → Effect
  to_client : Addr → TcpOut → Effect
  to_leader_ping : Addr → Effect
  to_udp : Addr → UdpWire → String → Effect
  start_listener : String → Effect

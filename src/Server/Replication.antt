-- ===== src/Server/Replication.antt =====
-- The leader and its replicas: the handlers `NewServerConnection`, `Ping`, `Pong`,
-- `UpdateNetworkState` and `SetLeader` of server/src/server.rs.
pub mod Failover
pub mod Joining
use concu_ride.Prelude.{
  ℕ, String, Bool, true, not, none, some, List, [], ◌∷◌, map, contains, without, if◌then◌else◌,
  nat_eq,
}
use concu_ride.Prelude.HashMap.{insert, values}
use concu_ride.Server.{
  Addr, UpdateNetworkState, Server, Effect, TcpOut, to_self, to_client, to_leader_ping, pong_to,
  start_election,
}

pub record NewServerConnection : Type 0 where
  pub addr : Addr
  pub socket : String
  pub id : ℕ

unfoldable pub new_server_connection : Server → NewServerConnection → Server × List Effect
new_server_connection s msg =
    let servers = insert s.servers msg.id msg.addr in
    (
      record s {
        disconnected_servers =
            if contains s.disconnected_servers msg.id
            then without msg.id s.disconnected_servers
            else s.disconnected_servers;
        servers = servers;
        udp_sockets_replicas = insert s.udp_sockets_replicas msg.id msg.socket;
      },
      map (λ addr. to_self (pong_to addr)) (values servers),
    )

-- `Result<(), String>` of `Ping`; the text of a failed send is actix's.
pub data PingResult : Type 0 where
  ok leader_disconnected send_failed : PingResult

-- `connected` is the answer of `leader_connection.connected()`, `sent` that of `try_send`.
unfoldable pub ping : Server → Bool → Bool → Server × List Effect × PingResult
ping s connected sent = elim s.leader_connection [
  | none ↦ (s, [], ok)
  | some leader ↦
      if s.im_leader
      then (s, [], ok)
      else if not connected
      then (
        record s { leader_connection = none; election_on_course = true },
        to_self start_election ∷ [],
        leader_disconnected,
      )
      else if sent
      then (s, to_leader_ping leader ∷ [], ok)
      else (s, [], send_failed)
]

unfoldable pub network_state : Server → UpdateNetworkState
network_state s = record {
  ids_count = s.ids_count;
  drivers = s.drivers;
  busy_drivers = s.busy_drivers;
  passengers = s.passengers;
  udp_sockets_replicas = s.udp_sockets_replicas;
  disconnected_servers = s.disconnected_servers;
}

unfoldable pub pong : Server → Addr → Server × List Effect
unfolding network_state
pong s addr = (s, to_client addr (TcpOut.pong (network_state s)) ∷ [])

unfoldable pub update_network_state : Server → UpdateNetworkState → Server × List Effect
update_network_state s msg = (
  record s {
    drivers = msg.drivers;
    busy_drivers = msg.busy_drivers;
    passengers = msg.passengers;
    udp_sockets_replicas = msg.udp_sockets_replicas;
    ids_count = msg.ids_count;
    disconnected_servers = msg.disconnected_servers;
  },
  [],
)

unfoldable pub set_leader : Server → ℕ → Addr → Server × List Effect
set_leader s id_leader leader_connection =
    (record s { id_leader = id_leader; leader_connection = some leader_connection }, [])

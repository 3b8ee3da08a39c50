-- ===== src/Server/Startup/Process.antt =====
-- What the processes of server/src/main.rs do, in order, and the loop that accepts connections of
-- server/src/connection_listener.rs. What the sockets answer is an argument.
use concu_ride.Prelude.{
  ℕ, zero, suc, ◌+◌, String, Bool, true, false, Option, none, some, List, [], ◌∷◌, show, map,
}
use Prim.Native.String.{◌++◌ as string_append}
use concu_ride.Prelude.HashMap.{HashMap}
use concu_ride.Common.{server_udp_port_range, id_to_tcp_address}
use concu_ride.Common.Json.{Json}
use concu_ride.Common.Message.{serialize_message}
use concu_ride.Common.Tcp.{WriteHalf}
use concu_ride.Server.{Addr, Server}
use concu_ride.Server.LeaderConnection.{ServerConnection}
use concu_ride.Server.Sending.{TcpSender, UdpReceiver, set_server}
use concu_ride.Server.Startup.{leader_server, replica_server, find_leader}

-- `connection_loop`: an actor for each connection that is accepted, by its write half and its
-- address.
unfoldable pub connection_loop : Addr → List (WriteHalf × String) → List TcpSender
connection_loop server_addr accepted =
    map
      (λ (write_half, addr). record {
        write = some write_half;
        addr = addr;
        server_addr = server_addr;
      })
      accepted

-- `Listen` of the `ConnectionListener`: `bound` says whether its socket can be bound.
unfoldable pub listen : Addr → Bool → List (WriteHalf × String) → List TcpSender
unfolding connection_loop
listen server_addr true accepted = connection_loop server_addr accepted
listen server_addr false accepted = []

-- `servidor_lider`, or `none` where its address cannot be bound.
unfoldable pub leader_app :
    ℕ → Addr → (String → Bool) → List (WriteHalf × String) → Option (Server × List TcpSender)
unfolding connection_loop
leader_app id server_addr bind accepted = elim (bind (id_to_tcp_address id)) [
  | false ↦ none
  | true ↦ some (leader_server id, connection_loop server_addr accepted)
]

-- What `servidor_replica` sends its server.
pub data Message : Type 0 where
  set_leader : ℕ → Addr → Message
  ping : Message

-- The end of the process: its UDP socket cannot be bound, or no server answers; or, in the loop
-- that sends `Ping`, the server, the UDP receiver, which has been told to listen, the connection to
-- the leader, the texts that go to it, and what the server is sent.
pub data Outcome (j : Json) : Type 0 where
  no_socket no_leader : Outcome j
  running : Server → UdpReceiver → ServerConnection → List j.Text → List Message → Outcome j

-- `format!("127.0.0.1:{port}")`
abbrev pub udp_socket_addr : ℕ → String
udp_socket_addr id = string_append "127.0.0.1:" (show (server_udp_port_range + id))

abbrev pub pings : ℕ → List Message
pings zero = []
pings (suc n) = ping ∷ pings n

-- The actors that the process starts, by their addresses, and what the connection starts with.
pub record Actors : Type 0 where
  pub server : Addr
  pub udp_sender : Addr
  pub connection : Addr
  pub write : WriteHalf
  pub now : ℕ

module _ (j : Json) where
  open j use {of_u64, of_str, of_object}

  abbrev pub new_replica_fields : ℕ → String → HashMap String j.Value
  new_replica_fields id socket = ("id", of_u64 id) ∷ ("socket", of_str socket) ∷ []

  unfoldable pub new_replica_line : ℕ → j.Text
  new_replica_line id =
      serialize_message j "new_replica"
        (some (of_object (new_replica_fields id (udp_socket_addr id))))

  -- `servidor_replica` after `n` rounds of its loop.
  unfoldable pub replica_app : ℕ → Actors → (String → Bool) → (String → Bool) → ℕ → Outcome j
  unfolding set_server new_replica_line
  replica_app id actors bind connect n = elim (bind (udp_socket_addr id)) [
    | false ↦ no_socket
    | true ↦ elim (find_leader connect id) [
      | none ↦ no_leader
      | some leader_id ↦
          running (replica_server id actors.udp_sender)
            (set_server (record { server = none }) actors.server)
            (record { addr = actors.server; write = some actors.write; response_time = actors.now })
            (new_replica_line id ∷ []) (set_leader leader_id actors.connection ∷ pings n)
    ]
  ]

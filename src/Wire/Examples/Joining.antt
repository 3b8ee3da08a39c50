-- ===== src/Wire/Examples/Joining.antt =====
-- Server 2, started as a replica while server 4 leads.
use concu_ride.Prelude.{
  ◌≡◌, refl, String, Bool, true, some, [], ◌∷◌, string_eq, ◌==◌, show, Has, nat_eq,
}
use concu_ride.Prelude.HashMap.{get}
use concu_ride.Common.{id_to_tcp_address}
use concu_ride.Common.Json.Tree.{tree_json, tree_json-IsJson}
use concu_ride.Server.{Server, TcpOut, to_self, pong_to}
use concu_ride.Server.LeaderConnection
use concu_ride.Server.LeaderConnection.{ServerConnection, update_network_state}
use concu_ride.Server.Neighbor.{get_address}
use concu_ride.Server.Replication.{
  NewServerConnection, new_server_connection, network_state, set_leader,
}
use concu_ride.Server.Replication.Failover.{take_over}
use concu_ride.Server.Sending.{UdpReceiver}
use concu_ride.Server.Startup.{leader_server, find_leader}
use concu_ride.Server.Startup.Process.{Actors, replica_app, running, pings}
use concu_ride.Server.Startup.Process
use concu_ride.Server.Wire as ServerWire
use concu_ride.Wire.Joining.{Knows, replica_joins}
use concu_ride.Wire.ToReplica.{IsMaps}

abbrev only_four : String → Bool
only_four address = address == id_to_tcp_address 4

found_four : find_leader only_four 2 ≡ some 4
unfolding find_leader id_to_tcp_address show
found_four = refl

abbrev actors : Actors
actors = record { server = 1; udp_sender = 7; connection = 8; write = 3; now = 100 }

leader-IsMaps : IsMaps (network_state (leader_server 4))
unfolding network_state leader_server get
leader-IsMaps = record {
  drivers = tt;
  busy_drivers = tt;
  passengers = tt;
  udp_sockets_replicas = tt;
}

replica_joins_example :
    (s : Server) × (r : UdpReceiver) × (c : ServerConnection) × (line : tree_json.Text)
    × (msg : NewServerConnection) × (replica_app tree_json 2 actors (λ a. true) only_four 3
        ≡ running s r c (line ∷ []) (Process.set_leader 4 8 ∷ pings 3))
    × (ServerWire.receive tree_json 14 (some line) ≡ some (ServerWire.new_server_connection msg))
    × (let (t, effects) = new_server_connection (leader_server 4) msg in
        let u = take_over (set_leader s 4 8).0 (network_state t) in
        Knows tree_json tree_json-IsJson t 2 14
        × Has (to_self (pong_to 14)) effects
        × ((LeaderConnection.receive tree_json c 200
              (some (ServerWire.encode tree_json (TcpOut.pong (network_state t))))).1
            ≡ some (update_network_state 1 (network_state t)))
        × (network_state u ≡ network_state t)
        × (get u.udp_sockets_replicas 2 ≡ some (get_address 2))
        × (u.id_leader ≡ 4)
        × (u.leader_connection ≡ some 8))
replica_joins_example =
    replica_joins tree_json tree_json-IsJson 2 4 3 200 actors (λ a. true) only_four
      (leader_server 4) 14 refl found_four (unfold leader_server in tt) leader-IsMaps

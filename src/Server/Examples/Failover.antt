-- ===== src/Server/Examples/Failover.antt =====
-- A replica that takes over from the leader, and the ACKs and attempts to connect of a replica.
use concu_ride.Prelude.{
  String, ◌==◌, string_eq, show, ℕ, ◌≡◌, refl, Bool, true, false, not, ◌&&◌, inl, inr, List, [],
  ◌∷◌, contains, nat_eq, if◌then◌else◌, leb, some,
}
use concu_ride.Prelude.{◌↔◌, ◌==◌, Has}
use concu_ride.Prelude.HashMap.{get}
use concu_ride.Common.{id_to_tcp_address}
use concu_ride.Server.{Addr, UdpWire, PendingAck, Server, to_self, pong_to}
use concu_ride.Server.Registry.{PassengerLogin, get_drivers, passenger_login}
use concu_ride.Server.Registry.Requests.{Request, run}
use concu_ride.Server.Replication.{NewServerConnection, network_state, new_server_connection}
use concu_ride.Server.Replication.Joining.{new_server_connection_pongs}
use concu_ride.Server.Replication.Failover.{take_over, replica_serves}
use concu_ride.Server.Election.{NeighborAck, check_ack, create_tcp_connection, connect_to_leader}
use concu_ride.Server.Election.Acks.{acked, senders, check_ack-acked}
use concu_ride.Server.Election.Connect.{Tries, connect_to_leader-Tries}
use concu_ride.Server.Startup.{leader_server, replica_server}

abbrev later : List Request
later =
    Request.new_driver (record { name = "ana"; socket = "127.0.0.1:7001"; position = (3, 4) })
    ∷ Request.busy_driver "ana"
    ∷ []

abbrev leo : PassengerLogin
leo = record { name = "leo"; addr = 9 }

replica_serves_example :
    let s = run (leader_server 5) later in
    let t = run (take_over (replica_server 2 7) (network_state (leader_server 5))) later in
    (network_state s ≡ network_state t)
    × ((get_drivers s 9).1 ≡ (get_drivers t 9).1)
    × ((passenger_login s leo).1 ≡ (passenger_login t leo).1)
replica_serves_example = replica_serves (leader_server 5) (replica_server 2 7) later 9 leo

abbrev leader : Server
leader = record (leader_server 5) { servers = (3, 12) ∷ []; disconnected_servers = 2 ∷ 1 ∷ [] }

abbrev joining : NewServerConnection
joining = record { addr = 14; socket = "127.0.0.1:5002"; id = 2 }

new_server_connection_pongs_example :
    let (t, effects) = new_server_connection leader joining in
    ((n : ℕ)
      → contains t.disconnected_servers n
        ≡ (if joining.id == n then false else contains leader.disconnected_servers n))
    × ((n : ℕ) → get t.servers n ≡ (if joining.id == n then some 14 else get leader.servers n))
    × ((a : Addr) → Has (to_self (pong_to a)) effects ↔ ((n : ℕ) × (get t.servers n ≡ some a)))
new_server_connection_pongs_example =
    new_server_connection_pongs leader joining (unfold get in (refl, tt))

abbrev acks : List NeighborAck
acks = record { id = 0; sequence_number = 2 } ∷ record { id = 3; sequence_number = 4 } ∷ []

abbrev pending : PendingAck
pending = record {
  neighbor_id = 3;
  serialized_msg =
      UdpWire.new_leader (record { id_sender = 1; leader_id = 4; sequence_number = 4 });
  sequence_number = 4;
}

check_ack-acked_example :
    let t = acked (replica_server 2 7) acks in
    (check_ack t pending ≡ (record t { received_neighbor_ack = false }, []))
    × ((n : ℕ)
        → contains t.disconnected_servers n ≡ (
            contains (replica_server 2 7).disconnected_servers n
            && not (contains (senders acks) n)))
check_ack-acked_example = check_ack-acked (replica_server 2 7) acks pending (inr (inl refl))

-- The attempts at the address of the leader 1 succeed from the third on.
abbrev third : String → ℕ → Bool
third address k = address == id_to_tcp_address 1 && leb 2 k

third_up : create_tcp_connection third (id_to_tcp_address 1) ≡ true
unfolding create_tcp_connection id_to_tcp_address show
third_up = refl

connect_to_leader-Tries_example :
    let s = replica_server 2 7 in
    let leader = id_to_tcp_address s.id_leader in
    let up = create_tcp_connection third leader in
    let t : Server = record s { leader_connection = some 8; election_on_course = false } in
    Tries (third leader) 0 5 up × (connect_to_leader s third 8 ≡ (if up then (t, []) else (s, [])))
connect_to_leader-Tries_example = connect_to_leader-Tries (replica_server 2 7) third 8

-- ===== src/Server/Examples/Losses.antt =====
-- A server of a ring on which only server 1 is up, besides it: what becomes of its election message.
use concu_ride.Prelude.{
  ◌≡◌, nat_eq, refl, false, some, contains, without, true, inc, show, [], ◌∷◌, String, Bool, List,
  ◌==◌, string_eq, arith,
}
use concu_ride.Prelude.HashMap.{contains_key, insert}
use concu_ride.Server.{UdpWire, Server, Effect}
use concu_ride.Server.Neighbor.{get_address, get_neighbor_id, update_neighbor}
use concu_ride.Server.Election.{start_election, check_ack, neighbor_ack}
use concu_ride.Server.Election.Handlers.{Sends, sent}
use concu_ride.Server.Election.Losses.{resend, GetsThrough}
use concu_ride.Server.Election.Losses.Through.{resend-GetsThrough}
use concu_ride.Server.Startup.{replica_server}

abbrev up : String → Bool
up address = address == get_address 1

-- Server 2 with the leader 5 down, before its election.
abbrev electing : Server
electing = record (replica_server 2 7) {
  id = 2;
  id_leader = 5;
  udp_sender = some 7;
  disconnected_servers = [];
  actual_neighbor_id = 3;
  sequence_number = 4;
  message_received_ack = [];
  received_neighbor_ack = false;
}

abbrev first : UdpWire
first =
    UdpWire.election
      (record { disconnected_leader_id = 5; server_ids = 2 ∷ []; sequence_number = 4 })

-- It has sent the message to server 3.
abbrev asking : Server
asking = record electing { disconnected_servers = 5 ∷ []; sequence_number = 6 }

starts : start_election electing ≡ (asking, sent asking 7 first 4)
unfolding start_election sent update_neighbor contains inc
starts = refl

abbrev answered : Server
answered = record asking {
  disconnected_servers = 5 ∷ 3 ∷ 4 ∷ [];
  actual_neighbor_id = 1;
  message_received_ack = (4, true) ∷ [];
}

reaches_1 : resend up 6 asking (sent asking 7 first 4) ≡ some (answered, sent answered 7 first 4)
unfolding resend sent get_address show check_ack neighbor_ack insert without contains_key
    update_neighbor contains get_neighbor_id
reaches_1 = refl

unacked : contains_key asking.message_received_ack 4 ≡ false
unfolding contains_key
unacked = refl

Sends-first : Sends asking 7 first 4 (sent asking 7 first 4)
unfolding sent contains
Sends-first = ((omega arith, omega arith), refl, refl)

resend-GetsThrough_example :
    (t : Server) × (more : List Effect) × (resend up 6 asking (sent asking 7 first 4)
      ≡ some (t, more))
    × GetsThrough up asking 7 first 4 t more
resend-GetsThrough_example =
    resend-GetsThrough up asking (sent asking 7 first 4) 7 first 4 refl unacked
      (λ h. absurd (ground arith)) Sends-first

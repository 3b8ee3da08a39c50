-- ===== src/Server/Examples/Ring.antt =====
-- A replica on a ring with two servers down, on which the theorems of the election are applied.
use concu_ride.Prelude.{
  ℕ, ◌≡◌, ◌⊎◌, refl, true, false, not, ◌&&◌, none, some, List, [], ◌∷◌, ◌++◌, ◌==◌, nat_eq,
  if◌then◌else◌, arith, contains, inc,
}
use concu_ride.Prelude.HashMap.{contains_key}
use concu_ride.Common.{id_to_tcp_address}
use concu_ride.Server.{
  ElectionMsg, NewLeaderMsg, UdpWire, PendingAck, Server, Effect, start_listener,
}
use concu_ride.Server.Neighbor.{update_neighbor, get_neighbor_id}
use concu_ride.Server.Neighbor.Update.{Updates, update_neighbor-Updates}
use concu_ride.Server.Election.{election, check_ack, new_leader}
use concu_ride.Server.Election.Handlers.{
  Proclaims, Sends, ElectionOutcome, ack_marked, election_outcome, check_ack_outcome,
}
use concu_ride.Server.Election.Announce.{Passes, connects, new_leader_outcome}
use concu_ride.Server.Startup.{replica_server}

-- Server 2 with the leader 5 and the server 3 down.
abbrev replica : Server
replica = record (replica_server 2 7) {
  id = 2;
  id_leader = 5;
  im_leader = false;
  actual_neighbor_id = 3;
  disconnected_servers = 3 ∷ [];
  udp_sender = some 7;
  leader_connection = none;
  sequence_number = 4;
  message_received_ack = [];
}

replica_next : (update_neighbor replica 3).0.actual_neighbor_id ≡ 4
unfolding update_neighbor contains get_neighbor_id inc
replica_next = refl

update_neighbor-Updates_example : Updates replica (update_neighbor replica 3)
update_neighbor-Updates_example = update_neighbor-Updates replica (omega arith, omega arith)

abbrev ids : List ℕ
ids = 1 ∷ 4 ∷ 2 ∷ []

abbrev round : ElectionMsg
round = record { disconnected_leader_id = 5; server_ids = ids; sequence_number = 3 }

election_outcome_example :
    (t : Server) × (effects : List Effect) × (election replica round ≡ some (t, effects))
    × ElectionOutcome replica round 7 t effects
election_outcome_example = election_outcome replica round 7 refl (omega arith, omega arith)

abbrev pending : PendingAck
pending = record { neighbor_id = 4; serialized_msg = UdpWire.election round; sequence_number = 4 }

check_ack_outcome_example :
    let (t, effects) = check_ack replica pending in
    ((contains_key replica.message_received_ack 4 ≡ true)
      × (t ≡ record replica { received_neighbor_ack = false })
      × (effects ≡ []))
    ⊎ ((contains_key replica.message_received_ack 4 ≡ false)
        × (t.disconnected_servers ≡ 3 ∷ 4 ∷ [])
        × (Proclaims (ack_marked replica pending) effects
            ⊎ Sends t 7 (UdpWire.election round) 4 effects))
check_ack_outcome_example = check_ack_outcome replica pending 7 refl (omega arith, omega arith)

abbrev news : NewLeaderMsg
news = record { id_sender = 1; leader_id = 4; sequence_number = 6 }

new_leader_outcome_example :
    (t : Server) × (passed : List Effect) × (new_leader replica news
      ≡ some (
        t,
        (if news.leader_id == replica.id && not replica.im_leader
              then start_listener (id_to_tcp_address 2) ∷ []
              else [])
            ++ passed
            ++ connects replica 4,
      ))
    × (t.id_leader ≡ 4)
    × (t.im_leader ≡ (if news.leader_id == replica.id then true else replica.im_leader))
    × Passes replica news 7 t passed
new_leader_outcome_example = new_leader_outcome replica news 7 refl (omega arith, omega arith)

-- ===== src/Server/Election/Handlers.antt =====
-- What `StartElection`, `CheckIfNeighborAcked`, `Election` and `NewLeader` do, on every branch.
use concu_ride.Prelude.{
  ℕ, ◌≤◌, Has, contains-Has, All, ◌≡◌, ◌⊎◌, inl, inr, refl, true, false, none, some, List, [], ◌∷◌,
  ◌++◌, contains, inc, ◌==◌, nat_eq, arith, Bool-cases, if◌then◌else◌,
}
use concu_ride.Prelude.HashMap.{contains_key}
use concu_ride.Server.{
  Addr, ElectionMsg, UdpWire, PendingAck, Server, Effect, to_self, to_udp, new_leader_msg,
  wait_for_neighbor_ack,
}
use concu_ride.Server.Neighbor.{get_address}
use concu_ride.Server.Neighbor.Search.{IsServerId, IsConnected}
use concu_ride.Server.Neighbor.Update.{update_neighbor_cases}
use concu_ride.Server.Election.Leader.{max_id_from_greatest}
use concu_ride.Server.Election.{
  proclaim, await_ack, forward, start_election, check_ack, election, finish_election, pass_election,
  with_state,
}

-- A server with no neighbour left tells itself that it is the leader.
abbrev pub Proclaims : Server → List Effect → Type 0
Proclaims s effects =
    (effects
      ≡ to_self (
          new_leader_msg
            (record { id_sender = s.id; leader_id = s.id; sequence_number = s.sequence_number }))
        ∷ [])
    × ((n : ℕ) → IsServerId n → ¬ IsConnected s.disconnected_servers s.id n)

-- The message goes to a neighbour that is not known to be disconnected, and its ACK is awaited
-- under the number.
abbrev pub Sends : Server → Addr → UdpWire → ℕ → List Effect → Type 0
Sends t udp_sender message sequence_number effects =
    IsServerId t.actual_neighbor_id
    × (contains t.disconnected_servers t.actual_neighbor_id ≡ false)
    × (effects
        ≡ to_udp udp_sender message (get_address t.actual_neighbor_id)
          ∷ to_self (
              wait_for_neighbor_ack (record {
                neighbor_id = t.actual_neighbor_id;
                serialized_msg = message;
                sequence_number = sequence_number;
              }))
          ∷ [])

-- What `Election` leads to: the state `t` and the sends.
abbrev pub ElectionOutcome : Server → ElectionMsg → Addr → Server → List Effect → Type 0
ElectionOutcome s msg u t effects =
    (t.disconnected_servers ≡ s.disconnected_servers ++ msg.disconnected_leader_id ∷ [])
    × (t.leader_connection
        ≡ (if s.id_leader == msg.disconnected_leader_id then none else s.leader_connection))
    × (t.sequence_number ≡ inc s.sequence_number)
    × ((Proclaims (record s { disconnected_servers = t.disconnected_servers }) effects
          × (t.id_leader ≡ s.id_leader))
        ⊎ ((contains msg.server_ids s.id ≡ true)
            × Has t.id_leader msg.server_ids
            × All (λ i. i ≤ t.id_leader) msg.server_ids
            × Sends t u
                (UdpWire.new_leader (record {
                  id_sender = s.id;
                  leader_id = t.id_leader;
                  sequence_number = s.sequence_number;
                }))
                s.sequence_number effects)
        ⊎ ((contains msg.server_ids s.id ≡ false)
            × (t.id_leader ≡ s.id_leader)
            × Sends t u
                (UdpWire.election (record {
                  disconnected_leader_id = msg.disconnected_leader_id;
                  server_ids = msg.server_ids ++ s.id ∷ [];
                  sequence_number = s.sequence_number;
                }))
                s.sequence_number effects))

abbrev pub election_marked : Server → ElectionMsg → Server
election_marked s msg = record s {
  disconnected_servers = s.disconnected_servers ++ msg.disconnected_leader_id ∷ [];
  leader_connection =
      if s.id_leader == msg.disconnected_leader_id then none else s.leader_connection;
}

unfoldable pub sent : Server → Addr → UdpWire → ℕ → List Effect
unfolding await_ack
sent s u message k =
    to_udp u message (get_address s.actual_neighbor_id) ∷ await_ack s message k ∷ []

pub forward-some :
    (s : Server) (u : Addr) (message : UdpWire) (k : ℕ)
    → s.udp_sender ≡ some u
    → forward s message k ≡ some (sent s u message k)
unfolding forward sent
forward-some s u message k e = ground arith

-- With a UDP sender and a neighbour on the ring `Election` does not panic. It marks the old leader
-- as disconnected, drops its own connection if that is its leader, and uses up one sequence number;
-- it proclaims itself where no other server is left, ends the election with the largest id where
-- its own id has come back, and else adds its id and passes the message on.
pub election_outcome :
    (s : Server) (msg : ElectionMsg) (u : Addr)
    → s.udp_sender ≡ some u
    → IsServerId s.actual_neighbor_id
    → (t : Server) × (effects : List Effect) × (election s msg ≡ some (t, effects))
      × ElectionOutcome s msg u t effects
unfolding election finish_election pass_election sent with_state proclaim
election_outcome s msg u sender h =
    let (n, c) = update_neighbor_cases (election_marked s msg) h in
    let v : Server = record s {
      disconnected_servers = s.disconnected_servers ++ msg.disconnected_leader_id ∷ [];
      leader_connection =
          if s.id_leader == msg.disconnected_leader_id then none else s.leader_connection;
      actual_neighbor_id = n;
    } in
    elim c [
      | inr (e, nothing) ↦
          rw (e, election) (_, _, refl, (refl, refl, refl, inl ((refl, nothing), refl)))
      | inl (e, i, up) ↦
          rw (e, election)
            (elim (Bool-cases (contains msg.server_ids s.id)) [
              | inl done ↦
                  let (has, bound) =
                    max_id_from_greatest msg.server_ids s.id
                      (contains-Has msg.server_ids s.id done) in
                  rw (done, election)
                    (rw (forward-some v u _ s.sequence_number sender)
                      (_, _, refl, (refl, refl, refl, inr (inl (refl, has, bound, (i, up, refl))))))
              | inr more ↦
                  rw (more, election)
                    (rw (forward-some v u _ s.sequence_number sender)
                      (_, _, refl, (refl, refl, refl, inr (inr (refl, refl, (i, up, refl))))))
            ])
    ]

abbrev pub start_marked : Server → Server
start_marked s = record s { disconnected_servers = s.disconnected_servers ++ s.id_leader ∷ [] }

-- `StartElection` with a UDP sender and a neighbour on the ring marks the leader as disconnected,
-- and either proclaims itself where no other server is left, or starts the round with its own id.
start_election_outcome :
    (s : Server) (u : Addr)
    → s.udp_sender ≡ some u
    → IsServerId s.actual_neighbor_id
    → let (t, effects) = start_election s in
      (t.disconnected_servers ≡ s.disconnected_servers ++ s.id_leader ∷ [])
      × (Proclaims (start_marked s) effects
          ⊎ Sends t u
              (UdpWire.election (record {
                disconnected_leader_id = s.id_leader;
                server_ids = s.id ∷ [];
                sequence_number = s.sequence_number;
              }))
              s.sequence_number
              effects)
unfolding start_election
start_election_outcome s u sender h =
    let (n, c) = update_neighbor_cases (start_marked s) h in
    elim c [
      | inr (e, nothing) ↦ rw (e, start_election) (refl, inl (refl, nothing))
      | inl (e, i, up) ↦ rw (e, start_election) (refl, inr (i, up, ground arith))
    ]

abbrev pub ack_marked : Server → PendingAck → Server
ack_marked s msg = record s {
  disconnected_servers = s.disconnected_servers ++ msg.neighbor_id ∷ [];
}

-- `CheckIfNeighborAcked` leaves all but a flag as it was where the ACK is there. Otherwise it
-- marks the neighbour as disconnected and sends the very same message to the next one, with a UDP
-- sender and a neighbour on the ring, or proclaims itself where no other server is left.
pub check_ack_outcome :
    (s : Server) (msg : PendingAck) (u : Addr)
    → s.udp_sender ≡ some u
    → IsServerId s.actual_neighbor_id
    → let (t, effects) = check_ack s msg in
      ((contains_key s.message_received_ack msg.sequence_number ≡ true)
        × (t ≡ record s { received_neighbor_ack = false })
        × (effects ≡ []))
      ⊎ ((contains_key s.message_received_ack msg.sequence_number ≡ false)
          × (t.disconnected_servers ≡ s.disconnected_servers ++ msg.neighbor_id ∷ [])
          × (Proclaims (ack_marked s msg) effects
              ⊎ Sends t u msg.serialized_msg msg.sequence_number effects))
unfolding check_ack
check_ack_outcome s msg u sender h =
    elim (Bool-cases (contains_key s.message_received_ack msg.sequence_number)) [
      | inl acked ↦ rw (acked, check_ack) (inl (refl, refl, refl))
      | inr missing ↦
          rw (missing, check_ack)
            (let (n, c) = update_neighbor_cases (ack_marked s msg) h in
              elim c [
                | inr (e, nothing) ↦ rw (e, check_ack) (inr (refl, refl, inl (refl, nothing)))
                | inl (e, i, up) ↦ rw (e, check_ack) (inr (refl, refl, inr (i, up, ground arith)))
              ])
    ]

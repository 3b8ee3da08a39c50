-- ===== src/Server/Examples/Schedules.antt =====
-- Two servers that start an election at the same time, and a message that arrives.
use concu_ride.Prelude.{
  ℕ, ◌≡◌, ◌⊎◌, inl, inr, refl, some, List, [], ◌∷◌, contains, inc, Has, All, arith, show,
}
use concu_ride.Server.{Server, Effect, UdpWire, ElectionMsg}
use concu_ride.Server.Neighbor.{search_neighbor, update_neighbor, get_neighbor_id, get_address}
use concu_ride.Server.Election.{start_election}
use concu_ride.Server.Election.Handlers.{sent}
use concu_ride.Server.Election.Net.{put, receive, receiver}
use concu_ride.Server.Election.Sends.{sends}
use concu_ride.Server.Election.Ring.Steps.{passed, extended, first_message, election_passes}
use concu_ride.Server.Election.Validity.{ValidMsg}
use concu_ride.Server.Election.Validity.Schedules.{
  World, after, Reach, here, next, starts, receives,
}
use concu_ride.Server.Election.Validity.Reached.{at_rest, leader_was_active}
use concu_ride.Server.Startup.{replica_server}

abbrev member : ℕ → Server
member id = record (replica_server id 7) {
  id = id;
  id_leader = 1;
  udp_sender = some 7;
  disconnected_servers = 4 ∷ [];
  actual_neighbor_id = get_neighbor_id id;
}

abbrev first : World
first = after (at_rest member) 3 (start_election (member 3))

-- The message of server 3 is at server 5, which passes it on to server 2.
abbrev message : ElectionMsg
message = first_message (member 3)

abbrev passing : Server × List Effect
passing = (
  passed (member 5) message 2,
  sent (passed (member 5) message 2) 7 (UdpWire.election (extended message (member 5)))
      (member 5).sequence_number,
)

passes : receive (first.servers 5) (UdpWire.election message) ≡ some passing
unfolding after put receive search_neighbor contains get_neighbor_id inc
passes = election_passes (member 5) message 7 2 refl (inr (refl, refl)) refl

abbrev second : World
second = after first 5 passing

abbrev both : World
both = after second 2 (start_election (second.servers 2))

two_start : Reach (at_rest member) both
unfolding after sends sent receiver get_address start_election update_neighbor search_neighbor
    contains get_neighbor_id inc show
two_start =
    next
      (next (next here (starts 3 (omega arith))) (
        receives (get_address 5) (UdpWire.election message) passing (inl refl) (omega arith)
          passes))
      (starts 2 (omega arith))

leader_was_active_example :
    ((n : ℕ) → ((both.servers n).id_leader ≡ 1) ⊎ Has (both.servers n).id_leader both.active)
    × All (λ m. ValidMsg (λ i. Has i both.active) m.1) both.flying
leader_was_active_example = leader_was_active member both (λ n. refl) two_start

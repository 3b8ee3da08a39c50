-- ===== src/Server/Election.antt =====
-- The election of a leader on the ring: the handlers `StartElection`, `WaitForNeighborAck`,
-- `CheckIfNeighborAcked`, `Election`, `NewLeader`, `NeighborAck` and `ConnectToServer` of
-- server/src/server.rs. A handler that may panic in `expect` returns `none` then.
pub mod Leader
pub mod Handlers
pub mod Announce
pub mod Acks
pub mod Connect
pub mod Sends
pub mod Net
pub mod Losses
pub mod Ring
pub mod Succession
pub mod Query
pub mod Validity
use concu_ride.Prelude.{
  ℕ, zero, suc, ◌+◌, String, Bool, true, false, not, ◌&&◌, Option, none, some, List, [], ◌∷◌, ◌++◌,
  contains, without, ◌==◌, nat_eq, if◌then◌else◌, inc, ltb,
}
use concu_ride.Prelude.HashMap.{contains_key, insert}
use concu_ride.Common.{id_to_tcp_address}
use concu_ride.Server.{
  Addr, ElectionMsg, NewLeaderMsg, UdpWire, PendingAck, Server, Effect, to_self, to_udp,
  start_listener, new_leader_msg, wait_for_neighbor_ack, check_if_neighbor_acked, connect_to_server,
}
use concu_ride.Server.Neighbor.{get_address, update_neighbor}

-- `if let Some(udp_sender) = …`: nothing is sent without a sender.
send_if_some : Option Addr → UdpWire → String → List Effect
send_if_some none message dst = []
send_if_some (some udp_sender) message dst = to_udp udp_sender message dst ∷ []

-- With no neighbour left a server declares itself the leader.
pub proclaim : Server → Server × List Effect
proclaim s =
    let msg : NewLeaderMsg = record {
      id_sender = s.id;
      leader_id = s.id;
      sequence_number = s.sequence_number;
    } in
    (record s { sequence_number = inc s.sequence_number }, to_self (new_leader_msg msg) ∷ [])

pub await_ack : Server → UdpWire → ℕ → Effect
await_ack s serialized_msg sequence_number = to_self (
    wait_for_neighbor_ack (record {
      neighbor_id = s.actual_neighbor_id;
      serialized_msg = serialized_msg;
      sequence_number = sequence_number;
    }))

unfoldable pub start_election : Server → Server × List Effect
unfolding send_if_some proclaim await_ack
start_election s =
    let marked = record s { disconnected_servers = s.disconnected_servers ++ s.id_leader ∷ [] } in
    let (t, neighbors_connected) = update_neighbor marked marked.actual_neighbor_id in
    if not neighbors_connected
    then proclaim t
    else let message : UdpWire = UdpWire.election (record {
      disconnected_leader_id = t.id_leader;
      server_ids = t.id ∷ [];
      sequence_number = t.sequence_number;
    }) in
      (
        record t { sequence_number = inc (inc t.sequence_number) },
        send_if_some t.udp_sender message (get_address t.actual_neighbor_id)
            ++ await_ack t message t.sequence_number ∷ [],
      )

-- After the sleep of 300 ms.
unfoldable pub wait_for_ack : Server → PendingAck → Server × List Effect
wait_for_ack s msg = (s, to_self (check_if_neighbor_acked msg) ∷ [])

unfoldable pub check_ack : Server → PendingAck → Server × List Effect
unfolding send_if_some proclaim await_ack
check_ack s msg =
    if contains_key s.message_received_ack msg.sequence_number
    then (record s { received_neighbor_ack = false }, [])
    else let marked = record s {
      disconnected_servers = s.disconnected_servers ++ msg.neighbor_id ∷ [];
    } in
      let (t, neighbors_connected) = update_neighbor marked marked.actual_neighbor_id in
      if not neighbors_connected then proclaim t else (
        t,
        send_if_some t.udp_sender msg.serialized_msg (get_address t.actual_neighbor_id)
            ++ await_ack t msg.serialized_msg msg.sequence_number ∷ [],
      )

-- The loop over the ids: the largest so far.
unfoldable pub max_id_from : ℕ → List ℕ → ℕ
max_id_from leader_id [] = leader_id
max_id_from leader_id (id ∷ ids) = max_id_from (if ltb leader_id id then id else leader_id) ids

-- Sends `message` to the neighbour and waits for the ACK; `expect` wants a sender.
pub forward : Server → UdpWire → ℕ → Option (List Effect)
unfolding await_ack
forward s message sequence_number = elim s.udp_sender [
  | none ↦ none
  | some udp_sender ↦ some (
      to_udp udp_sender message (get_address s.actual_neighbor_id)
      ∷ await_ack s message sequence_number
      ∷ [])
]

with_state : Server → Option (List Effect) → Option (Server × List Effect)
with_state s none = none
with_state s (some effects) = some (s, effects)

-- The ids have gone round the ring: the largest is the leader.
finish_election : Server → List ℕ → Option (Server × List Effect)
unfolding forward with_state
finish_election s server_ids =
    let leader_id = max_id_from 0 server_ids in
    let message : UdpWire =
      UdpWire.new_leader
        (record { id_sender = s.id; leader_id = leader_id; sequence_number = s.sequence_number }) in
    with_state (record s { id_leader = leader_id; sequence_number = inc s.sequence_number })
      (forward s message s.sequence_number)

pass_election : Server → ElectionMsg → Option (Server × List Effect)
unfolding forward with_state
pass_election s msg =
    let message : UdpWire = UdpWire.election (record {
      disconnected_leader_id = msg.disconnected_leader_id;
      server_ids = msg.server_ids ++ s.id ∷ [];
      sequence_number = s.sequence_number;
    }) in
    with_state (record s { sequence_number = inc s.sequence_number })
      (forward s message s.sequence_number)

unfoldable pub election : Server → ElectionMsg → Option (Server × List Effect)
unfolding proclaim finish_election pass_election
election s msg =
    let marked = record s {
      disconnected_servers = s.disconnected_servers ++ msg.disconnected_leader_id ∷ [];
      leader_connection =
          if s.id_leader == msg.disconnected_leader_id then none else s.leader_connection;
    } in
    let (t, neighbors_connected) = update_neighbor marked marked.actual_neighbor_id in
    if not neighbors_connected
    then some (proclaim t)
    else if contains msg.server_ids t.id
    then finish_election t msg.server_ids
    else pass_election t msg

-- The first part of `NewLeader`: a server that is now the leader listens for connections.
pub become_leader : Server → ℕ → Server × List Effect
become_leader s leader_id =
    let t = record s { id_leader = leader_id } in
    if leader_id == s.id && not s.im_leader
    then (record t { im_leader = true }, start_listener (id_to_tcp_address s.id) ∷ [])
    else (t, [])

-- The second part: the message goes on round the ring.
pass_new_leader : Server → NewLeaderMsg → Option (Server × List Effect)
unfolding proclaim forward with_state
pass_new_leader s msg =
    if msg.id_sender == s.id
    then some (s, [])
    else let (t, neighbors_connected) = update_neighbor s s.actual_neighbor_id in
      if not neighbors_connected
      then some (proclaim t)
      else with_state t (forward t (UdpWire.new_leader msg) msg.sequence_number)

-- The last part: a server that has no leader connects to the new one.
seek_leader : Server → ℕ → List Effect
seek_leader s leader_id = elim s.leader_connection [
  | some _ ↦ []
  | none ↦ if not (leader_id == s.id) then to_self connect_to_server ∷ [] else []
]

unfoldable pub new_leader : Server → NewLeaderMsg → Option (Server × List Effect)
unfolding become_leader pass_new_leader seek_leader
new_leader s msg =
    let (t, listening) = become_leader s msg.leader_id in
    elim (pass_new_leader t msg) [
      | none ↦ none
      | some (u, passed) ↦ some (u, listening ++ passed ++ seek_leader u msg.leader_id)
    ]

pub record NeighborAck : Type 0 where
  pub id : ℕ
  pub sequence_number : ℕ

unfoldable pub neighbor_ack : Server → NeighborAck → Server × List Effect
neighbor_ack s msg = (
  record s {
    disconnected_servers = without msg.id s.disconnected_servers;
    message_received_ack = insert s.message_received_ack msg.sequence_number true;
  },
  [],
)

-- The loop of `create_tcp_connection`: `connect n` says whether the attempt after `n` failures
-- succeeds. It gives up when `count`, here by the rounds left, reaches 5.
pub retry : (ℕ → Bool) → ℕ → ℕ → Bool
retry connect zero count = connect count
retry connect (suc rounds) count = elim (connect count) [
  | true ↦ true
  | false ↦ retry connect rounds (count + 1)
]

unfoldable pub create_tcp_connection : (String → ℕ → Bool) → String → Bool
unfolding retry
create_tcp_connection connect socket = retry (connect socket) 5 0

-- `connection` is the actor that serves the new connection.
unfoldable pub connect_to_leader : Server → (String → ℕ → Bool) → Addr → Server × List Effect
connect_to_leader s connect connection =
    if create_tcp_connection connect (id_to_tcp_address s.id_leader)
    then (record s { leader_connection = some connection; election_on_course = false }, [])
    else (s, [])

-- ===== src/Server/Startup.antt =====
-- How a server starts: the initial states of server/src/main.rs, and the search of a replica for
-- the leader.
pub mod Initial
pub mod Process
use concu_ride.Prelude.{
  ℕ, zero, suc, String, Bool, true, false, Option, none, some, [], ◌==◌, nat_eq, if◌then◌else◌,
}
use concu_ride.Common.{max_servers, id_to_tcp_address}
use concu_ride.Server.{Addr, Server}
use concu_ride.Server.Neighbor.{get_neighbor_id}

-- The fields that both kinds of server start with.
fresh : ℕ → ℕ → Bool → Option Addr → Server
fresh id id_leader im_leader udp_sender = record {
  id = id;
  id_leader = id_leader;
  im_leader = im_leader;
  drivers = [];
  busy_drivers = [];
  passengers = [];
  passengers_address = [];
  udp_sockets_replicas = [];
  servers = [];
  ids_count = 0;
  udp_sender = udp_sender;
  leader_connection = none;
  disconnected_servers = [];
  received_neighbor_ack = false;
  election_on_course = false;
  actual_neighbor_id = get_neighbor_id id;
  sequence_number = 0;
  message_received_ack = [];
}

-- `servidor_lider`
unfoldable pub leader_server : ℕ → Server
unfolding fresh
leader_server id = fresh id id true none

-- `servidor_replica`; `udp_sender` is the actor that it starts.
unfoldable pub replica_server : ℕ → Addr → Server
unfolding fresh
replica_server id udp_sender = fresh id 1 false (some udp_sender)

-- The loop over `(1..=MAX_SERVERS).rev()` that leaves out the server itself.
try_others : (String → Bool) → ℕ → ℕ → Option ℕ
try_others connect id zero = none
try_others connect id (suc n) =
    let rest = try_others connect id n in
    if suc n == id then rest else if connect (id_to_tcp_address (suc n)) then some (suc n) else rest

-- The id that a replica takes for the leader's, if it gets a connection.
unfoldable pub find_leader : (String → Bool) → ℕ → Option ℕ
unfolding try_others
find_leader connect id =
    let leader_address = if id == 1 then id_to_tcp_address 2 else id_to_tcp_address 1 in
    if connect leader_address then some 1 else try_others connect id max_servers

-- ===== src/Server/Examples/Agreement.antt =====
-- Three servers of a ring, with the leader 1 and the server 4 down, on which an election is run. They
-- do not know that the server 4 is down.
use concu_ride.Prelude.{
  true, List, Has, String, Bool, ◌||◌, ◌==◌, nat_eq, string_eq, show, ℕ, ◌≡◌, inl, inr, refl, some,
  [], All, ◌∷◌, contains, arith, inc,
}
use concu_ride.Server.{Server, DriverInfo}
use concu_ride.Server.Registry.{get_drivers, passenger_login}
use concu_ride.Server.Registry.Requests.{Request, run}
use concu_ride.Server.Election.Succession.{successor_serves}
use concu_ride.Server.Neighbor.{get_address, search_neighbor, get_neighbor_id}
use concu_ride.Server.Neighbor.Search.{IsServerId}
use concu_ride.Server.Election.Net.{and_then, deliveries}
use concu_ride.Server.Election.Ring.Finding.{IsReady}
use concu_ride.Server.Election.Ring.Round.{Chain, IsDistinct}
use concu_ride.Server.Election.Ring.Agreement.{Elected, election_agrees}
use concu_ride.Server.Election.Ring.Times.{start}
use concu_ride.Prelude.HashMap.{contains_key}
use concu_ride.Server.Startup.{replica_server, leader_server}

abbrev ana : DriverInfo
ana = record { name = "ana"; socket = "127.0.0.1:7001"; id = 1; position = (3, 4) }

-- The server `id` under the leader 1, with its first neighbour, and with the leader's state.
abbrev member : ℕ → Server
member id = record (replica_server id 7) {
  id = id;
  id_leader = 1;
  udp_sender = some 7;
  disconnected_servers = [];
  message_received_ack = [];
  sequence_number = 0;
  actual_neighbor_id = get_neighbor_id id;
  ids_count = 2;
  drivers = ("ana", ana) ∷ [];
  busy_drivers = [];
  passengers = ("leo", 2) ∷ [];
  udp_sockets_replicas = [];
}

-- The leader before the election.
abbrev old : Server
old = record (leader_server 1) {
  ids_count = 2;
  drivers = ("ana", ana) ∷ [];
  busy_drivers = [];
  passengers = ("leo", 2) ∷ [];
  udp_sockets_replicas = [];
}

valid : All IsServerId (3 ∷ 5 ∷ 2 ∷ [])
valid = omega arith

distinct : IsDistinct (3 ∷ 5 ∷ 2 ∷ [])
distinct = ((λ h. ground arith), ((λ h. ground arith), ((λ h. h), tt)))

abbrev up : String → Bool
up address = address == get_address 2 || address == get_address 3 || address == get_address 5

-- Server 3 asks server 4 first, which is down.
ready : Chain (λ x m. IsReady up 1 (member x) x m) (3 ∷ 5 ∷ 2 ∷ []) 3
unfolding search_neighbor contains contains_key get_neighbor_id get_address show inc
ready = (
  (
    refl,
    (7, refl),
    refl,
    (4, inl (refl, refl), 1, omega arith, (refl, 5, inr (refl, refl), (refl, refl))),
  ),
  (
    (refl, (7, refl), refl, (2, inr (refl, refl), 0, omega arith, (refl, refl))),
    ((refl, (7, refl), refl, (3, inl (refl, refl), 0, omega arith, (refl, refl))), tt),
  ),
)

election_agrees_example :
    (after : ℕ → Server) × (and_then (start up member 3) (deliveries up 6)
      ≡ some (record { servers = after; flying = [] }))
    × Elected member (3 ∷ 5 ∷ 2 ∷ []) after
election_agrees_example = election_agrees up member 3 (5 ∷ 2 ∷ []) valid distinct ready

-- What happens to the new leader before it is asked.
abbrev later : List Request
later = Request.busy_driver "ana" ∷ []

successor_serves_example :
    (after : ℕ → Server) × (leader_id : ℕ) × (and_then (start up member 3) (deliveries up 6)
      ≡ some (record { servers = after; flying = [] }))
    × Has leader_id (3 ∷ 5 ∷ 2 ∷ [])
    × All (λ x. (after x).id_leader ≡ leader_id) (3 ∷ 5 ∷ 2 ∷ [])
    × ((after leader_id).im_leader ≡ true)
    × ((get_drivers (run (after leader_id) later) 4).1 ≡ (get_drivers (run old later) 4).1)
    × ((passenger_login (run (after leader_id) later) (record { name = "leo"; addr = 4 })).1
        ≡ (passenger_login (run old later) (record { name = "leo"; addr = 4 })).1)
successor_serves_example =
    successor_serves up member 3 (5 ∷ 2 ∷ []) old later 4 (record { name = "leo"; addr = 4 }) valid
      distinct ready (refl, (refl, (refl, tt)))

-- ===== src/Server/Neighbor.antt =====
-- The ring of servers: `get_neighbor_id`, `get_address` and `Server::update_neighbor` of
-- server/src/server.rs.
pub mod Search
pub mod Update
use Prim.Native.String.{◌++◌}
use concu_ride.Prelude.{
  ℕ, zero, suc, ◌+◌, String, Bool, true, false, not, ◌&&◌, List, contains, ◌==◌, nat_eq,
  if◌then◌else◌, inc, show,
}
use concu_ride.Common.{max_servers, server_udp_port_range}
use concu_ride.Server.{Server}

unfoldable pub get_address : ℕ → String
get_address id = "127.0.0.1:" ++ show (server_udp_port_range + id)

unfoldable pub get_neighbor_id : ℕ → ℕ
unfolding inc
get_neighbor_id id = if id == max_servers then 1 else inc id

-- The test that ends the loop.
abbrev pub is_candidate : List ℕ → ℕ → ℕ → Bool
is_candidate disconnected id neighbor = not (contains disconnected neighbor) && not (neighbor == id)

-- The loop, by the rounds that `count` has left; it returns the neighbour it stops at.
unfoldable pub search_neighbor : ℕ → List ℕ → ℕ → ℕ → ℕ × Bool
search_neighbor zero disconnected id neighbor = (neighbor, false)
search_neighbor (suc rounds) disconnected id neighbor =
    elim (is_candidate disconnected id neighbor) [
      | true ↦ (neighbor, true)
      | false ↦ search_neighbor rounds disconnected id (get_neighbor_id neighbor)
    ]

unfoldable pub update_neighbor : Server → ℕ → Server × Bool
unfolding search_neighbor
update_neighbor s neighbor_id =
    if not (contains s.disconnected_servers s.actual_neighbor_id)
    then (s, true)
    else let (neighbor, found) =
        search_neighbor max_servers s.disconnected_servers s.id (get_neighbor_id neighbor_id) in
      (record s { actual_neighbor_id = neighbor }, found)

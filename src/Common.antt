-- ===== src/Common.antt =====
-- common/src/constants.rs and common/src/utils.rs: the constants, and the address of a server.
pub mod Connection
pub mod Json
pub mod Message
pub mod Tcp
mod Examples
use Prim.Native.String.{◌++◌}
use concu_ride.Prelude.{ℕ, ◌+◌, String, show}

abbrev pub max_servers : ℕ
max_servers = 5

abbrev pub server_tcp_port_range : ℕ
server_tcp_port_range = 10000

abbrev pub server_udp_port_range : ℕ
server_udp_port_range = 5000

-- The sum stays below 2 ^ 64 for the ids in use, 1 to `max_servers`.
unfoldable pub id_to_tcp_address : ℕ → String
id_to_tcp_address id = "127.0.0.1:" ++ show (server_tcp_port_range + id)

-- ===== src/Common/Examples.antt =====
-- The search for the leader where only server 4 answers.
use concu_ride.Prelude.{String, ◌≡◌, refl, Bool, some, ◌==◌, string_eq, show}
use concu_ride.Common.{max_servers, id_to_tcp_address}
use concu_ride.Common.Connection.{
  IsHighest, connect_to_server_leader, connect_to_server_leader-IsHighest,
}

abbrev only_four : String → Bool
only_four address = address == id_to_tcp_address 4

four : connect_to_server_leader only_four ≡ some 4
unfolding connect_to_server_leader id_to_tcp_address show
four = refl

connect_to_server_leader-IsHighest_example :
    IsHighest only_four max_servers (connect_to_server_leader only_four)
connect_to_server_leader-IsHighest_example = connect_to_server_leader-IsHighest only_four

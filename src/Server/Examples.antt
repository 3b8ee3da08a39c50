-- ===== src/Server/Examples.antt =====
-- A run of the registry of the leader, on which its theorems are applied, and tests of it.
mod Ring
mod Agreement
mod Losses
mod Schedules
mod Failover
mod Udp
use concu_ride.Prelude.{
  ℕ, ◌+◌, ◌<◌, String, ◌≡◌, ◌⊎◌, refl, true, false, none, some, List, [], ◌∷◌, arith, u64_mod, ◌==◌,
  string_eq, nat_eq, if◌then◌else◌, inc, show, Bool,
}
use concu_ride.Prelude.HashMap.{get, insert, remove}
use concu_ride.Common.{max_servers, id_to_tcp_address}
use concu_ride.Server.{DriverInfo, Server, TcpOut, to_client}
use concu_ride.Server.Registry.{new_driver, passenger_login, update_driver, busy_driver}
use concu_ride.Server.Registry.Directory.{passenger}
use concu_ride.Server.Registry.Requests.{Request, handle, run, entry, directory, id_in, spec_run}
use concu_ride.Server.Registry.Invariant.{IsValid, run-refines, id_in-run}
use concu_ride.Server.Registry.Availability.{update_driver-busy_driver}
use concu_ride.Server.Startup.{leader_server, find_leader}
use concu_ride.Server.Startup.Initial.{
  run-leader_server, IsHighestOther, find_leader-IsHighestOther,
}

abbrev requests : List Request
requests =
    Request.new_driver (record { name = "ana"; socket = "127.0.0.1:7001"; position = (3, 4) })
    ∷ Request.passenger_login (record { name = "leo"; addr = 9 })
    ∷ Request.new_driver (record { name = "eva"; socket = "127.0.0.1:7002"; position = (8, 1) })
    ∷ Request.busy_driver "eva"
    ∷ []

-- The leader after these requests.
abbrev served : Server
served = run (leader_server 5) requests

abbrev ana : DriverInfo
ana = record { name = "ana"; socket = "127.0.0.1:7001"; id = 1; position = (3, 4) }

served_ids_count : served.ids_count ≡ 3
unfolding run handle new_driver passenger_login busy_driver leader_server get insert remove inc
served_ids_count = refl

served_ana : get served.drivers "ana" ≡ some ana
unfolding run handle new_driver passenger_login busy_driver leader_server get insert remove inc
served_ana = refl

served_leo : get served.passengers "leo" ≡ some 2
unfolding run handle new_driver passenger_login busy_driver leader_server get insert remove inc
served_leo = refl

served_eva : get served.drivers "eva" ≡ none
unfolding run handle new_driver passenger_login busy_driver leader_server get insert remove inc
served_eva = refl

few : 4 < u64_mod
few = omega arith

served_room : served.ids_count + 1 < u64_mod
served_room = omega (arith, served_ids_count)

served_room_4 : served.ids_count + 4 < u64_mod
served_room_4 = omega (arith, served_ids_count)

served-IsValid : IsValid served
served-IsValid = (run-leader_server 5 requests few).0

run-refines_example :
    IsValid (run served requests)
    × (directory (run served requests) ≡ spec_run (directory served) requests)
run-refines_example = run-refines served requests served_room_4 served-IsValid

id_in-run_example : id_in (run served requests) (passenger "leo") ≡ some 2
id_in-run_example =
    id_in-run served requests (passenger "leo") 2 served_room_4 served-IsValid served_leo

entry-ana : entry served "ana" ≡ some ana
unfolding run handle new_driver passenger_login busy_driver leader_server get insert remove inc
entry-ana = refl

-- Only one server answers.
abbrev only : ℕ → String → Bool
only id address = address == id_to_tcp_address id

found_four : find_leader (only 4) 2 ≡ some 4
unfolding find_leader id_to_tcp_address show
found_four = refl

find_leader-IsHighestOther_example :
    let first = id_to_tcp_address 1 in
    ((only 4 first ≡ true) × (find_leader (only 4) 2 ≡ some 1))
    ⊎ ((only 4 first ≡ false) × IsHighestOther (only 4) 2 max_servers (find_leader (only 4) 2))
find_leader-IsHighestOther_example = find_leader-IsHighestOther (only 4) 2

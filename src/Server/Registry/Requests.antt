-- ===== src/Server/Registry/Requests.antt =====
-- The requests of drivers and passengers as one type, and the dispatch that actix makes on it.
-- `directory` is what the specification sees of the state.
use mathlib.Core.Option
use concu_ride.Prelude.{ℕ, String, Option, none, some, List, [], ◌∷◌, string_eq}
use concu_ride.Prelude.HashMap.{get}
use concu_ride.Server.{Addr, DriverInfo, UpdateDriverSocket, Server, Effect}
use concu_ride.Server.Registry
use concu_ride.Server.Registry.{NewDriver, PassengerLogin, UpdateDriver, ReconnectDriver}
use concu_ride.Server.Registry.Directory.{Member, driver, passenger, Directory, enrol}

pub data Request : Type 0 where
  new_driver : NewDriver → Request
  get_drivers : Addr → Request
  passenger_login : PassengerLogin → Request
  update_driver : UpdateDriver → Request
  busy_driver : String → Request
  reconnect_driver : ReconnectDriver → Request
  update_driver_socket : UpdateDriverSocket → Request

unfoldable pub handle : Server → Request → Server × List Effect
handle s (Request.new_driver msg) = Registry.new_driver s msg
handle s (Request.get_drivers addr) = Registry.get_drivers s addr
handle s (Request.passenger_login msg) = Registry.passenger_login s msg
handle s (Request.update_driver msg) = Registry.update_driver s msg
handle s (Request.busy_driver name) = Registry.busy_driver s name
handle s (Request.reconnect_driver msg) = Registry.reconnect_driver s msg
handle s (Request.update_driver_socket msg) = Registry.update_socket s msg

unfoldable pub run : Server → List Request → Server
run s [] = s
run s (r ∷ rs) = run (handle s r).0 rs

-- A driver's entry, available or busy.
abbrev pub first_of_two : Option DriverInfo → Option DriverInfo → Option DriverInfo
first_of_two (some d) other = some d
first_of_two none other = other

abbrev pub entry : Server → String → Option DriverInfo
entry s name = first_of_two (get s.drivers name) (get s.busy_drivers name)

abbrev pub id_in : Server → Member → Option ℕ
id_in s (driver name) = Option.map (λ d. d.id) (entry s name)
id_in s (passenger name) = get s.passengers name

abbrev pub directory : Server → Directory
directory s = record { count = s.ids_count; id_of = id_in s }

-- What the specification says of a request: only two of them enrol a member.
abbrev pub spec_step : Directory → Request → Directory
spec_step d (Request.new_driver msg) = enrol d (driver msg.name)
spec_step d (Request.passenger_login msg) = enrol d (passenger msg.name)
spec_step d _ = d

abbrev pub spec_run : Directory → List Request → Directory
spec_run d [] = d
spec_run d (r ∷ rs) = spec_run (spec_step d r) rs

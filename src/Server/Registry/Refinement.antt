-- ===== src/Server/Registry/Refinement.antt =====
-- Each handler of the registry is a step of the directory.

use concu_ride.Prelude.{String, ◌≡◌, ◌⊎◌, refl, Option, none, some, arith, string_eq, inc}
use concu_ride.Prelude.HashMap.{get, get-insert, get-remove, get-modify}
use concu_ride.Server.{DriverInfo, UpdateDriverSocket, Server}
use concu_ride.Server.Registry.{
  NewDriver, PassengerLogin, UpdateDriver, new_driver, passenger_login, update_driver, busy_driver,
  update_socket, set_socket, get_drivers, reconnect_driver,
}
use concu_ride.Server.Registry.Directory.{Member, driver, passenger, enrol, Directory-path}
use concu_ride.Server.Registry.Requests.{Request, handle, id_in, directory, spec_step}

-- No driver is both available and busy.
abbrev pub IsDisjoint : Server → Type 0
IsDisjoint s = (name : String) → (get s.drivers name ≡ none) ⊎ (get s.busy_drivers name ≡ none)

new_driver-id :
    (s : Server) (msg : NewDriver) (m : Member)
    → id_in (new_driver s msg).0 m ≡ (enrol (directory s) (driver msg.name)).id_of m
unfolding new_driver
new_driver-id s msg (driver n) = ground (
  arith,
  get-insert s.drivers msg.name
      (record {
        name = msg.name;
        socket = msg.socket;
        id = inc s.ids_count;
        position = msg.position;
      })
      n,
)
new_driver-id s msg (passenger n) = ground arith

new_driver-count :
    (s : Server) (msg : NewDriver)
    → (new_driver s msg).0.ids_count ≡ (enrol (directory s) (driver msg.name)).count
unfolding new_driver
new_driver-count s msg = ground arith

passenger_login-id :
    (s : Server) (msg : PassengerLogin) (m : Member)
    → id_in (passenger_login s msg).0 m ≡ (enrol (directory s) (passenger msg.name)).id_of m
unfolding passenger_login
passenger_login-id s msg (driver n) = ground arith
passenger_login-id s msg (passenger n) =
    ground (arith, get-insert s.passengers msg.name (inc s.ids_count) n)

passenger_login-count :
    (s : Server) (msg : PassengerLogin)
    → (passenger_login s msg).0.ids_count ≡ (enrol (directory s) (passenger msg.name)).count
unfolding passenger_login
passenger_login-count s msg = ground arith

update_driver-id :
    (s : Server) (msg : UpdateDriver) (m : Member)
    → IsDisjoint s
    → id_in (update_driver s msg).0 m ≡ id_in s m
unfolding update_driver
update_driver-id s msg (driver n) h = go (get s.busy_drivers msg.name) refl
  where
    go :
        (o : Option DriverInfo)
        → get s.busy_drivers msg.name ≡ o
        → id_in (update_driver s msg).0 (driver n) ≡ id_in s (driver n)
    go none e = rw (e, update_driver)
    go (some d) e =
        rw (e, update_driver)
          (ground (
            arith,
            h n,
            h msg.name,
            string_eq.eq_law msg.name n,
            get-insert s.drivers msg.name (record d { position = msg.new_position }) n,
            get-remove s.busy_drivers msg.name n,
          ))
update_driver-id s msg (passenger n) h = ground arith

busy_driver-id :
    (s : Server) (name : String) (m : Member) → id_in (busy_driver s name).0 m ≡ id_in s m
unfolding busy_driver
busy_driver-id s name (driver n) = go (get s.drivers name) refl
  where
    go :
        (o : Option DriverInfo)
        → get s.drivers name ≡ o
        → id_in (busy_driver s name).0 (driver n) ≡ id_in s (driver n)
    go none e = rw (e, busy_driver)
    go (some d) e =
        rw (e, busy_driver)
          (ground (
            arith,
            string_eq.eq_law name n,
            get-insert s.busy_drivers name d n,
            get-remove s.drivers name n,
          ))
busy_driver-id s name (passenger n) = ground arith

update_socket-id :
    (s : Server) (msg : UpdateDriverSocket) (m : Member)
    → id_in (update_socket s msg).0 m ≡ id_in s m
unfolding update_socket
update_socket-id s msg (driver n) = ground (
  arith,
  get-modify s.drivers msg.name (set_socket msg.socket) n,
  get-modify s.busy_drivers msg.name (set_socket msg.socket) n,
)
update_socket-id s msg (passenger n) = refl

id_in-handle :
    (s : Server) (r : Request) (m : Member)
    → IsDisjoint s
    → id_in (handle s r).0 m ≡ (spec_step (directory s) r).id_of m
unfolding handle get_drivers reconnect_driver
id_in-handle s (Request.new_driver msg) m h = new_driver-id s msg m
id_in-handle s (Request.get_drivers addr) m h = refl
id_in-handle s (Request.passenger_login msg) m h = passenger_login-id s msg m
id_in-handle s (Request.update_driver msg) m h = update_driver-id s msg m h
id_in-handle s (Request.busy_driver name) m h = busy_driver-id s name m
id_in-handle s (Request.reconnect_driver msg) (driver n) h = ground arith
id_in-handle s (Request.reconnect_driver msg) (passenger n) h = ground arith
id_in-handle s (Request.update_driver_socket msg) m h = update_socket-id s msg m

ids_count-handle :
    (s : Server) (r : Request) → (handle s r).0.ids_count ≡ (spec_step (directory s) r).count
unfolding handle get_drivers reconnect_driver update_driver busy_driver update_socket
ids_count-handle s (Request.new_driver msg) = new_driver-count s msg
ids_count-handle s (Request.get_drivers addr) = refl
ids_count-handle s (Request.passenger_login msg) = passenger_login-count s msg
ids_count-handle s (Request.update_driver msg) = ground arith
ids_count-handle s (Request.busy_driver name) = ground arith
ids_count-handle s (Request.reconnect_driver msg) = ground arith
ids_count-handle s (Request.update_driver_socket msg) = refl

-- Every request, on a state in which no driver is both available and busy, is a step of the
-- directory: `NewDriver` and `PassengerLogin` enrol the member, all others keep every id.
pub directory-handle :
    (s : Server) (r : Request) → IsDisjoint s → directory (handle s r).0 ≡ spec_step (directory s) r
directory-handle s r h =
    Directory-path (directory (handle s r).0) (spec_step (directory s) r) (ids_count-handle s r)
      (λ m. id_in-handle s r m h)

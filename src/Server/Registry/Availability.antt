-- ===== src/Server/Registry/Availability.antt =====
-- Which drivers the passengers are offered, and how logins and reconnections are answered.
use concu_ride.Prelude.{
  ℕ, ◌+◌, ◌<◌, String, ◌≡◌, ◌↔◌, refl, sym, subst, Option, none, some, List, [], ◌∷◌, Has, length,
  arith, ◌==◌, nat_eq, string_eq, if◌then◌else◌, inc, u64_mod,
}
use concu_ride.Prelude.HashMap.{
  get, insert, remove, values, get-insert, get-remove, get-modify, get-values, values-get,
}
use concu_ride.Server.{
  Addr, Position, DriverInfo, UpdateDriverSocket, Server, TcpOut, to_self, to_client,
  update_driver_socket,
}
use concu_ride.Server.Registry.{
  NewDriver, PassengerLogin, ReconnectDriver, new_driver, get_drivers, passenger_login,
  update_driver, busy_driver, reconnect_driver, update_socket, set_socket,
}
use concu_ride.Server.Registry.Directory.{passenger}
use concu_ride.Server.Registry.Requests.{Request, run, entry}
use concu_ride.Server.Registry.Refinement.{IsDisjoint}
use concu_ride.Server.Registry.Filing.{IsFiled}
use concu_ride.Server.Registry.Invariant.{IsValid, id_in-run}

-- Where no driver is both available and busy, and entries stand under their own names and once,
-- `GetDrivers` changes nothing and answers with one list, which holds exactly the entries of the
-- available drivers, none of which is busy.
pub get_drivers_lists :
    (s : Server) (addr : Addr)
    → IsFiled s
    → (listed : List DriverInfo) × (get_drivers s addr
        ≡ (s, to_client addr (TcpOut.drivers listed) ∷ []))
      × ((d : DriverInfo)
          → Has d listed ↔ ((get s.drivers d.name ≡ some d) × (get s.busy_drivers d.name ≡ none)))
unfolding get_drivers
get_drivers_lists s addr f = (values s.drivers, refl, λ d. (there d, back d))
  where
    there :
        (d : DriverInfo)
        → Has d (values s.drivers)
        → (get s.drivers d.name ≡ some d) × (get s.busy_drivers d.name ≡ none)
    there d h =
        let (n, e) = values-get s.drivers d f.distinct h in
        let held : get s.drivers d.name ≡ some d =
          subst (λ x. get s.drivers x ≡ some d) (sym (f.named n d e)) e in
        (held, ground (arith, f.disjoint d.name))

    back :
        (d : DriverInfo)
        → (get s.drivers d.name ≡ some d) × (get s.busy_drivers d.name ≡ none)
        → Has d (values s.drivers)
    back d (e, _) = get-values s.drivers d.name d e

-- Where no driver is both available and busy, a driver that is available becomes busy, and then, by its report, available again at its new
-- position: every other entry, available or busy, is as before.
pub update_driver-busy_driver :
    (s : Server) (name : String) (position : Position) (d : DriverInfo)
    → IsDisjoint s
    → get s.drivers name ≡ some d
    → let t = (busy_driver s name).0 in
      let u = (update_driver t (record { new_position = position; name = name })).0 in
      (get t.drivers name ≡ none)
      × (get t.busy_drivers name ≡ some d)
      × ((n : String)
          → get u.drivers n
            ≡ (if name == n then some (record d { position = position }) else get s.drivers n))
      × ((n : String) → get u.busy_drivers n ≡ get s.busy_drivers n)
unfolding busy_driver update_driver
update_driver-busy_driver s name position d h e =
    let moved = get-insert s.busy_drivers name d in
    let gone = get-remove s.drivers name in
    let busy : get (insert s.busy_drivers name d) name ≡ some d =
      ground (arith, moved name, string_eq.eq_law name name) in
    let d' : DriverInfo = record d { position = position } in
    rw (e, busy_driver)
      (rw (busy, update_driver)
        (
          ground (arith, gone name, string_eq.eq_law name name),
          refl,
          λ n. ground (arith, gone n, get-insert (remove s.drivers name) name d' n),
          λ n. ground (
            arith,
            h name,
            moved n,
            string_eq.eq_law name n,
            get-remove (insert s.busy_drivers name d) name n,
          ),
        ))

-- A login is answered, on both branches, with the id that the passenger then has, and the
-- connection is kept under that id.
pub passenger_login_answer :
    (s : Server) (msg : PassengerLogin)
    → let (t, effects) = passenger_login s msg in
      (i : ℕ) × (effects ≡ to_client msg.addr (TcpOut.identificador i) ∷ [])
      × (get t.passengers msg.name ≡ some i)
      × (get t.passengers_address i ≡ some msg.addr)
unfolding passenger_login
passenger_login_answer s msg = go (get s.passengers msg.name) refl
  where
    go :
        (o : Option ℕ)
        → get s.passengers msg.name ≡ o
        → let (t, effects) = passenger_login s msg in
          (i : ℕ) × (effects ≡ to_client msg.addr (TcpOut.identificador i) ∷ [])
          × (get t.passengers msg.name ≡ some i)
          × (get t.passengers_address i ≡ some msg.addr)
    go (some i) e =
        rw (e, passenger_login)
          (
            i,
            refl,
            e,
            ground (arith, get-insert s.passengers_address i msg.addr i, nat_eq.eq_law i i),
          )
    go none e =
        let i = inc s.ids_count in
        rw (e, passenger_login)
          (
            i,
            refl,
            ground (
              arith,
              get-insert s.passengers msg.name i msg.name,
              string_eq.eq_law msg.name msg.name,
            ),
            ground (arith, get-insert s.passengers_address i msg.addr i, nat_eq.eq_law i i),
          )

-- A passenger that has an id in a valid registry and logs in again, over any connection and after
-- any requests that leave the counter of ids below 2 ^ 64, is given the same id.
passenger_login_again :
    (s : Server) (rs : List Request) (msg : PassengerLogin) (i : ℕ)
    → s.ids_count + length rs < u64_mod
    → IsValid s
    → get s.passengers msg.name ≡ some i
    → (passenger_login (run s rs) msg).1 ≡ to_client msg.addr (TcpOut.identificador i) ∷ []
unfolding passenger_login
passenger_login_again s rs msg i room v h =
    rw (id_in-run s rs (passenger msg.name) i room v h, passenger_login)

-- A driver that is known, available or busy, and connects again keeps its entry; the message
-- that the server sends itself then puts the new socket in it and changes nothing else of it.
new_driver_known :
    (s : Server) (msg : NewDriver) (d : DriverInfo)
    → entry s msg.name ≡ some d
    → let update : UpdateDriverSocket = record { socket = msg.socket; name = msg.name } in
      (new_driver s msg ≡ (s, to_self (update_driver_socket update) ∷ []))
      × (entry (update_socket s update).0 msg.name ≡ some (record d { socket = msg.socket }))
unfolding new_driver update_socket set_socket
new_driver_known s msg d h = (
  ground arith,
  ground (
    arith,
    string_eq.eq_law msg.name msg.name,
    get-modify s.drivers msg.name (set_socket msg.socket) msg.name,
    get-modify s.busy_drivers msg.name (set_socket msg.socket) msg.name,
  ),
)

-- `ReconnectDriver` refreshes the driver's socket, and tells it to the passenger exactly when the
-- passenger's connection is known; the state is unchanged.
reconnect_driver_effects :
    (s : Server) (msg : ReconnectDriver) (addr : Addr)
    → let update =
        to_self (update_driver_socket (record { socket = msg.socket; name = msg.name })) in
      ((reconnect_driver s msg).0 ≡ s)
      × ((get s.passengers_address msg.id_passenger ≡ some addr) ↔ (
          (reconnect_driver s msg).1
          ≡ update ∷ to_client addr (TcpOut.reconnect_driver msg.socket) ∷ []))
unfolding reconnect_driver
reconnect_driver_effects s msg addr = ground arith

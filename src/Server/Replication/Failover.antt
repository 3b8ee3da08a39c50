-- ===== src/Server/Replication/Failover.antt =====
-- A replica that has taken over the leader's state serves in its place.
use concu_ride.Prelude.{◌≡◌, refl, sym, ◌∙◌, ap, subst, List, [], ◌∷◌, arith}
use concu_ride.Server.{Addr, UpdateNetworkState, Server}
use concu_ride.Server.Registry.{
  PassengerLogin, get_drivers, passenger_login, new_driver, update_driver, busy_driver,
  reconnect_driver, update_socket,
}
use concu_ride.Server.Registry.Requests.{Request, handle, run}
use concu_ride.Server.Registry.Invariant.{IsValid}
use concu_ride.Server.Replication.{network_state, update_network_state}

-- A server with the state of the network.
abbrev pub take_over : Server → UpdateNetworkState → Server
take_over s state = (update_network_state s state).0

-- What a request makes of the state of the network depends on nothing else.
handle-take_over :
    (s t : Server) (state : UpdateNetworkState) (r : Request)
    → network_state (handle (take_over s state) r).0
      ≡ network_state (handle (take_over t state) r).0
unfolding network_state update_network_state handle new_driver get_drivers passenger_login
    update_driver busy_driver reconnect_driver update_socket
handle-take_over s t state (Request.new_driver msg) = ground arith
handle-take_over s t state (Request.get_drivers addr) = refl
handle-take_over s t state (Request.passenger_login msg) = ground arith
handle-take_over s t state (Request.update_driver msg) = ground arith
handle-take_over s t state (Request.busy_driver name) = ground arith
handle-take_over s t state (Request.reconnect_driver msg) = ground arith
handle-take_over s t state (Request.update_driver_socket msg) = refl

handle-network_state :
    (s t : Server) (r : Request)
    → network_state s ≡ network_state t
    → network_state (handle s r).0 ≡ network_state (handle t r).0
unfolding network_state update_network_state
handle-network_state s t r e =
    subst (λ state. network_state (handle s r).0 ≡ network_state (handle (take_over t state) r).0) e
      (handle-take_over s t (network_state s) r)

pub run-network_state :
    (s t : Server) (rs : List Request)
    → network_state s ≡ network_state t
    → network_state (run s rs) ≡ network_state (run t rs)
unfolding run
run-network_state s t [] e = e
run-network_state s t (r ∷ rs) e =
    run-network_state (handle s r).0 (handle t r).0 rs (handle-network_state s t r e)

-- The answers to the two requests for data depend on nothing else either.
same_answers :
    (s t : Server) (addr : Addr) (msg : PassengerLogin)
    → network_state s ≡ network_state t
    → ((get_drivers s addr).1 ≡ (get_drivers t addr).1)
      × ((passenger_login s msg).1 ≡ (passenger_login t msg).1)
unfolding network_state update_network_state get_drivers passenger_login
same_answers s t addr msg e = (
  ap (λ state. (get_drivers (take_over s state) addr).1) e,
  subst (λ state. (passenger_login s msg).1 ≡ (passenger_login (take_over t state) msg).1) e
      (ground arith),
)

-- The state of the network but for the servers that are taken for disconnected.
abbrev pub registry : Server → UpdateNetworkState
registry s = record {
  ids_count = s.ids_count;
  drivers = s.drivers;
  busy_drivers = s.busy_drivers;
  passengers = s.passengers;
  udp_sockets_replicas = s.udp_sockets_replicas;
  disconnected_servers = [];
}

registry-take_over :
    (s t : Server) (r : Request)
    → registry (handle s r).0 ≡ registry (handle (take_over t (registry s)) r).0
unfolding update_network_state handle new_driver get_drivers passenger_login update_driver
    busy_driver reconnect_driver update_socket
registry-take_over s t (Request.new_driver msg) = ground arith
registry-take_over s t (Request.get_drivers addr) = refl
registry-take_over s t (Request.passenger_login msg) = ground arith
registry-take_over s t (Request.update_driver msg) = ground arith
registry-take_over s t (Request.busy_driver name) = ground arith
registry-take_over s t (Request.reconnect_driver msg) = ground arith
registry-take_over s t (Request.update_driver_socket msg) = refl

run-registry :
    (s t : Server) (rs : List Request)
    → registry s ≡ registry t
    → registry (run s rs) ≡ registry (run t rs)
unfolding run
run-registry s t [] e = e
run-registry s t (r ∷ rs) e = run-registry (handle s r).0 (handle t r).0 rs (
    registry-take_over s t r
    ∙ ap (λ state. registry (handle (take_over t state) r).0) e
    ∙ sym (registry-take_over t t r))

answers-take_over :
    (s t : Server) (addr : Addr) (msg : PassengerLogin)
    → ((get_drivers s addr).1 ≡ (get_drivers (take_over t (registry s)) addr).1)
      × ((passenger_login s msg).1 ≡ (passenger_login (take_over t (registry s)) msg).1)
unfolding update_network_state get_drivers passenger_login
answers-take_over s t addr msg = (refl, ground arith)

-- Servers with the same registry answer alike, also after any requests.
pub registry_answers :
    (s t : Server) (rs : List Request) (addr : Addr) (msg : PassengerLogin)
    → registry s ≡ registry t
    → ((get_drivers (run s rs) addr).1 ≡ (get_drivers (run t rs) addr).1)
      × ((passenger_login (run s rs) msg).1 ≡ (passenger_login (run t rs) msg).1)
registry_answers s t rs addr msg e =
    let u = run s rs in
    let v = run t rs in
    let same = run-registry s t rs e in
    let (drivers, login) = answers-take_over u v addr msg in
    let (drivers', login') = answers-take_over v v addr msg in
    (
      drivers ∙ ap (λ state. (get_drivers (take_over v state) addr).1) same ∙ sym drivers',
      login ∙ ap (λ state. (passenger_login (take_over v state) msg).1) same ∙ sym login',
    )

-- A replica takes over the state that the leader sends it in its `Pong`. After any requests from
-- then on, both hold the same state of the network, and answer `GetDrivers` and a login alike.
pub replica_serves :
    (leader replica : Server) (rs : List Request) (addr : Addr) (msg : PassengerLogin)
    → let s = run leader rs in
      let t = run (take_over replica (network_state leader)) rs in
      (network_state s ≡ network_state t)
      × ((get_drivers s addr).1 ≡ (get_drivers t addr).1)
      × ((passenger_login s msg).1 ≡ (passenger_login t msg).1)
unfolding network_state update_network_state
replica_serves leader replica rs addr msg =
    let s = run leader rs in
    let t = run (take_over replica (network_state leader)) rs in
    let same : network_state s ≡ network_state t =
      run-network_state leader (take_over replica (network_state leader)) rs refl in
    let (drivers, login) = same_answers s t addr msg same in (same, drivers, login)

-- A replica that takes over the state of a server with a valid registry has a valid registry.
pub update_network_state-IsValid :
    (leader replica : Server) → IsValid leader → IsValid (take_over replica (network_state leader))
unfolding network_state update_network_state
update_network_state-IsValid leader replica v = record {
  filed = record {
    disjoint = v.filed.disjoint;
    named = v.filed.named;
    busy_named = v.filed.busy_named;
    distinct = v.filed.distinct;
    busy_distinct = v.filed.busy_distinct;
  };
  unique = v.unique;
}

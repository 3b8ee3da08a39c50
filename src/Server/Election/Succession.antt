-- ===== src/Server/Election/Succession.antt =====
-- The server that an election makes the leader serves in the place of the old one.
use concu_ride.Prelude.{
  ap, All-map, String, Bool, ℕ, ◌*◌, ◌≡◌, ◌∙◌, true, some, List, [], ◌∷◌, length, Has, All, All-Has,
  nat_eq, nat_beq_iff, arith,
}
use concu_ride.Server.{Addr, Server}
use concu_ride.Server.Neighbor.Search.{IsServerId}
use concu_ride.Server.Registry.{PassengerLogin, get_drivers, passenger_login}
use concu_ride.Server.Registry.Requests.{Request, run}
use concu_ride.Server.Replication.Failover.{registry, registry_answers}
use concu_ride.Server.Election.{max_id_from}
use concu_ride.Server.Election.Net.{and_then, deliveries}
use concu_ride.Server.Election.Ring.Steps.{IsLed}
use concu_ride.Server.Election.Ring.Finding.{IsReady}
use concu_ride.Server.Election.Ring.Round.{Chain, Chain-map, IsDistinct}
use concu_ride.Server.Election.Ring.Led.{Chain-All}
use concu_ride.Server.Election.Ring.Times.{start}
use concu_ride.Server.Election.Ring.Agreement.{election_agrees}

IsLed-im_leader : (n : ℕ) (s t : Server) → s.id ≡ n → IsLed n s t → t.im_leader ≡ true
IsLed-im_leader n s t e led = led.1 ∙ ground (arith, nat_beq_iff n s.id)

-- Where all servers of the ring hold the registry of the server `old`, as they do once they have
-- taken over its state, an election on the ring, under the conditions of `election_agrees`, ends
-- with one server of the ring as the leader of all of them, which takes itself for the leader. It
-- answers `GetDrivers` and a login as `old` would, also after any requests to it.
pub successor_serves :
    (up : String → Bool) (servers : ℕ → Server) (i : ℕ) (ids : List ℕ) (old : Server)
    (rs : List Request) (addr : Addr) (msg : PassengerLogin)
    → All IsServerId (i ∷ ids)
    → IsDistinct (i ∷ ids)
    → Chain (λ x m. IsReady up (servers i).id_leader (servers x) x m) (i ∷ ids) i
    → All (λ x. registry (servers x) ≡ registry old) (i ∷ ids)
    → (after : ℕ → Server) × (leader_id : ℕ) × (and_then
          (start up servers i)
          (deliveries up (2 * length (i ∷ ids)))
        ≡ some (record { servers = after; flying = [] }))
      × Has leader_id (i ∷ ids)
      × All (λ x. (after x).id_leader ≡ leader_id) (i ∷ ids)
      × ((after leader_id).im_leader ≡ true)
      × ((get_drivers (run (after leader_id) rs) addr).1 ≡ (get_drivers (run old rs) addr).1)
      × ((passenger_login (run (after leader_id) rs) msg).1 ≡ (passenger_login (run old rs) msg).1)
successor_serves up servers i ids old rs addr msg valid distinct ready held =
    let (after, exec, ((has, greatest), led, same)) =
      election_agrees up servers i ids valid distinct ready in
    let n = max_id_from 0 (i ∷ ids) in
    let led_n = All-Has (λ x. IsLed n (servers x) (after x)) n (i ∷ ids) led has in
    let named : All (λ x. (servers x).id ≡ x) (i ∷ ids) =
      Chain-All (λ x. (servers x).id ≡ x) (i ∷ ids) i
        (Chain-map (λ x m. IsReady up (servers i).id_leader (servers x) x m) _ (i ∷ ids) i
          (λ x m h r. r.0) ready) in
    let (drivers, login) = registry_answers (after n) old rs addr msg (
      ap (λ l. l.1) led_n.2
      ∙ All-Has (λ x. registry (servers x) ≡ registry old) n (i ∷ ids) held has) in
    (
      after,
      n,
      exec,
      has,
      All-map (λ x. IsLed n (servers x) (after x)) (λ x. (after x).id_leader ≡ n) (i ∷ ids)
          (λ x l. l.0) led,
      IsLed-im_leader n (servers n) (after n)
          (All-Has (λ x. (servers x).id ≡ x) n (i ∷ ids) named has) led_n,
      drivers,
      login,
    )

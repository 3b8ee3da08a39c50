-- ===== src/Wire/Reports/Offers.antt =====
-- What passengers that ask the server are offered of a driver.
use concu_ride.Prelude.{
  ◌≡◌, ◌≢◌, ◌↔◌, sym, subst, ap, String, Bool, true, false, some, none, List, [], ◌∷◌, Has, map,
  string_eq,
}
use concu_ride.Prelude.HashMap.{get}
use concu_ride.Driver.{Driver}
use concu_ride.Server.{Addr, DriverInfo, Server, TcpOut, to_client}
use concu_ride.Server.Registry.{get_drivers}
use concu_ride.Server.Registry.Requests.{Request, run}
use concu_ride.Server.Registry.Requests as Requests
use concu_ride.Server.Registry.Filing.{IsFiled, handle-IsFiled}
use concu_ride.Server.Registry.Availability.{get_drivers_lists}
use concu_ride.Server.Registry.Showing.{Shows}
use concu_ride.Wire.ToServer.{driver_request}
use concu_ride.Wire.Reports.{
  World, reported, Step, handles, arrives, reads, others, Steps, here, next,
}
use concu_ride.Wire.Reports.Follows.{server_follows}

-- The list offers the driver, or it does not.
abbrev pub Offers : String → List DriverInfo → Bool → Type 0
Offers name listed true = (e : DriverInfo) × Has e listed × (e.name ≡ name)
Offers name listed false = (e : DriverInfo) → Has e listed → e.name ≢ name

Step-IsFiled : (w v : World) → Step w v → IsFiled w.server → IsFiled v.server
unfolding reported
Step-IsFiled w v (handles d msg rest leader room line server) f = f
Step-IsFiled w v (arrives d mailbox msg line server) f = f
Step-IsFiled w v (reads actor msg line server) f = handle-IsFiled server (driver_request msg) f
Step-IsFiled w v (others actor line server request foreign) f = handle-IsFiled server request f

Steps-IsFiled : (w v : World) → Steps w v → IsFiled w.server → IsFiled v.server
Steps-IsFiled w v here f = f
Steps-IsFiled w v (next {u = u} steps step) f = Step-IsFiled u v step (Steps-IsFiled w u steps f)

run-IsFiled : (s : Server) (rs : List Request) → IsFiled s → IsFiled (run s rs)
unfolding run
run-IsFiled s [] f = f
run-IsFiled s (r ∷ rs) f = run-IsFiled (Requests.handle s r).0 rs (handle-IsFiled s r f)

-- `GetDrivers` offers a driver exactly if the server shows it as available.
Shows-Offers :
    (name : String) (s : Server) (addr : Addr) (b : Bool)
    → IsFiled s
    → Shows name s b
    → (listed : List DriverInfo) × (get_drivers s addr
        ≡ (s, to_client addr (TcpOut.drivers listed) ∷ []))
      × Offers name listed b
Shows-Offers name s addr b f shows =
    let (listed, answer, holds) = get_drivers_lists s addr f in
    (listed, answer, offers b shows listed holds)
  where
    offers :
        (b : Bool)
        → Shows name s b
        → (listed : List DriverInfo)
        → ((d : DriverInfo)
            → Has d listed ↔ ((get s.drivers d.name ≡ some d) × (get s.busy_drivers d.name ≡ none)))
        → Offers name listed b
    offers true (e, free, off) listed holds =
        let same : e.name ≡ name = f.named name e free in
        (
          e,
          (holds e).1 (
              subst (λ n. (get s.drivers n ≡ some e) × (get s.busy_drivers n ≡ none)) (sym same)
                (free, off)),
          same,
        )
    offers false (d, busy, off) listed holds =
        λ e has same. absurd (cc (((holds e).0 has).0, ap (λ n. get s.drivers n) same, off))

-- From a driver that waits, available and connected to a server with a well filed registry, which
-- shows it as available: whatever passengers send the driver and others ask the server, in any
-- order and with any of the driver's own messages lost, a passenger that asks when the server has
-- read what the driver has sent it is offered the driver exactly if it is available then.
pub driver_offered :
    (d : Driver) (receiver addr : Addr) (s : Server) (v : World)
    → d.is_available ≡ true
    → d.server_receiver ≡ some receiver
    → IsFiled s
    → Shows d.name s true
    → Steps (record { actor = record { driver = d; mailbox = [] }; line = []; server = s }) v
    → let t = run v.server (map driver_request v.line) in
      (listed : List DriverInfo) × (get_drivers t addr
        ≡ (t, to_client addr (TcpOut.drivers listed) ∷ []))
      × Offers d.name listed v.actor.driver.is_available
driver_offered d receiver addr s v free up filed shows steps =
    let w : World = record { actor = record { driver = d; mailbox = [] }; line = []; server = s } in
    Shows-Offers d.name (run v.server (map driver_request v.line)) addr v.actor.driver.is_available
      (run-IsFiled v.server (map driver_request v.line) (Steps-IsFiled w v steps filed))
      (server_follows d receiver s v free up shows steps)

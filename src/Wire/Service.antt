-- ===== src/Wire/Service.antt =====
-- A whole ride, as the passenger, its driver and the server live it, with the lines between them.
use concu_ride.Prelude.{
  ℕ, suc, ◌≡◌, refl, ap, ◌∙◌, String, true, false, some, none, List, [], ◌∷◌, ◌++◌, ◌==◌, string_eq,
  if◌then◌else◌, arith,
}
use concu_ride.Prelude.HashMap.{get}
use concu_ride.Common.Json.{Json, IsJson}
use concu_ride.Ride.{Position}
use concu_ride.Ride.Arrival.{Reaches}
use concu_ride.Passenger.{Passenger, DriverMsg, to_driver, traveling, to_self}
use concu_ride.Passenger.Handlers.{
  with_position, handle_request_drive, handle_ride_accepted, handle_driver_arrived,
}
use concu_ride.Passenger.Handlers.Travel.{travel, travel_ends, ride_over}
use concu_ride.Passenger.Wire.{encode_ride, ride_accepted, driver_arrived}
use concu_ride.Passenger.Wire as PassengerWire
use concu_ride.Driver
use concu_ride.Driver.{Driver}
use concu_ride.Driver.Handlers.{
  RequestRide, accept, status, handle_request_ride, handle_start_ride, handle_end_ride,
}
use concu_ride.Driver.Handlers.Phases.{ask_server_up, pick_up, ride, put}
use concu_ride.Driver.Handlers.Ride.{carrying, arrived, ride_completes}
use concu_ride.Driver.Wire.{encode_answer, encode as driver_line}
use concu_ride.Driver.Wire as DriverWire
use concu_ride.Server as Data
use concu_ride.Server.{Addr, Server}
use concu_ride.Server.Registry.Requests.{Request, handle}
use concu_ride.Server.Registry.Refinement.{IsDisjoint}
use concu_ride.Server.Registry.Availability.{update_driver-busy_driver}
use concu_ride.Server.Wire as ServerWire
use concu_ride.Wire.ToServer.{receive-driver_line}
use concu_ride.Wire.ToPassenger.{receive-answer_line}
use concu_ride.Wire.ToDriver.{receive-ride_line}

end_ride_up :
    (d : Driver) (position : Position) (receiver : Addr)
    → d.server_receiver ≡ some receiver
    → let free : Driver = record d {
      position = position;
      is_available = true;
      passenger_picked_up = false;
    } in
      handle_end_ride d position true ≡ (
        free,
        Driver.to_server d.server_sender (Driver.available_driver d.name position)
            ∷ Driver.save (status free)
            ∷ [],
      )
unfolding handle_end_ride
end_ride_up d position receiver up =
    let e : Driver = record d { position = position } in
    let free : Driver = record e { is_available = true; passenger_picked_up = false } in
    ap (λ sends. (free, sends ++ Driver.save (status free) ∷ []))
      (ask_server_up e (Driver.available_driver d.name position) receiver up)

ask_first :
    (p : Passenger) (driver : Addr) (others : List Addr)
    → p.connections ≡ driver ∷ others
    → handle_request_drive p
      ≡ some (
        p,
        to_driver driver (DriverMsg.request_ride p.info.id p.info.position p.info.destination) ∷ [],
      )
unfolding handle_request_drive
ask_first p driver others first = ground arith

-- The ride that the passenger asks for, over the driver's connection `addr`.
abbrev pub asked : Passenger → Addr → RequestRide
asked p addr = record {
  id_passenger = p.info.id;
  origin = p.info.position;
  destination = p.info.destination;
  addr = addr;
}

-- The passenger once it knows its driver.
abbrev pub served : Passenger → Driver → Passenger
served p d = record p { driver_socket = some d.driver_socket }

-- The server once the driver is busy, and once it is available again.
abbrev pub without_driver : Server → String → Server
without_driver s name = (handle s (Request.busy_driver name)).0

abbrev pub with_driver : Server → String → Position → Server
with_driver s name position =
    (handle (without_driver s name)
      (Request.update_driver (record { new_position = position; name = name }))).0

module _ (j : Json) where
  -- The passenger's request reaches the driver, whose answer reaches the passenger and whose report
  -- reaches the server.
  abbrev pub Agrees : Passenger → Driver → Addr → Addr → Addr → Type 0
  Agrees p d driver addr client =
      let msg = DriverMsg.request_ride p.info.id p.info.position p.info.destination in
      let r = asked p addr in
      (handle_request_drive p ≡ some (p, to_driver driver msg ∷ []))
      × (DriverWire.receive j addr (some (encode_ride j msg)) ≡ some (DriverWire.request_ride r))
      × (handle_request_ride d r true ≡ (
        accept d r,
        Driver.to_passenger addr (Driver.ok d.driver_socket)
            ∷ Driver.save (status (accept d r))
            ∷ Driver.to_server d.server_sender (Driver.busy_driver d.name)
            ∷ Driver.to_self Driver.start_ride
            ∷ [],
      ))
      × (PassengerWire.receive j (some (encode_answer j (Driver.ok d.driver_socket)))
          ≡ some (ride_accepted d.driver_socket))
      × ((handle_ride_accepted p d.driver_socket).0 ≡ served p d)
      × (ServerWire.receive j client (some (driver_line j (Driver.busy_driver d.name)))
          ≡ some (ServerWire.request (Request.busy_driver d.name)))

  -- The driver fetches the passenger, within `m` moves, and tells it so; the passenger travels, for
  -- `n` moves at most.
  abbrev pub Travels : ℕ → ℕ → Passenger → Driver → Addr → Type 0
  Travels m n p d addr =
      let r = asked p addr in
      let q = served p d in
      (handle_start_ride (accept d r) ≡ (accept d r, Driver.to_self Driver.pick_up_passenger ∷ []))
      × (pick_up m (accept d r)
          ≡ some (
            carrying d r,
            Driver.to_passenger addr Driver.driver_arrived
                ∷ Driver.to_self Driver.ride_to_destination
                ∷ [],
          ))
      × (PassengerWire.receive j (some (encode_answer j Driver.driver_arrived))
          ≡ some driver_arrived)
      × (handle_driver_arrived q ≡ (q, to_self traveling ∷ []))
      × (last : Position) × (travel n q
          ≡ some (with_position q p.info.destination, ride_over (with_position q last) q))

  -- The driver rides to the destination, within `n` moves, is available there, and reports it to
  -- the server.
  abbrev pub Arrives : ℕ → Passenger → Driver → Addr → Addr → Type 0
  Arrives n p d addr client =
      let r = asked p addr in
      let free : Driver = record (accept d r) {
        position = p.info.destination;
        is_available = true;
        passenger_picked_up = false;
      } in
      let report = Driver.available_driver d.name p.info.destination in
      (last : Position) × (ride n (carrying d r)
        ≡ some (
          arrived d r,
          Driver.save (status (put (carrying d r) last))
              ∷ Driver.to_self (Driver.end_ride p.info.destination)
              ∷ [],
        ))
      × (handle_end_ride (arrived d r) p.info.destination true
          ≡ (free, Driver.to_server d.server_sender report ∷ Driver.save (status free) ∷ []))
      × (ServerWire.receive j client (some (driver_line j report))
          ≡ some (
              ServerWire.request (
                Request.update_driver
                  (record { new_position = p.info.destination; name = d.name }))))

-- The server does not offer the driver during the ride, and offers it at the destination after it;
-- every other entry, available or busy, is as before.
abbrev pub IsRegistered : Server → String → Data.DriverInfo → Position → Type 0
IsRegistered s name entry position =
    (get (without_driver s name).drivers name ≡ none)
    × (get (without_driver s name).busy_drivers name ≡ some entry)
    × ((k : String)
        → get (with_driver s name position).drivers k
          ≡ (if name == k then some (record entry { position = position }) else get s.drivers k))
    × ((k : String) → get (with_driver s name position).busy_drivers k ≡ get s.busy_drivers k)

module _ (j : Json) (laws : IsJson j) where
  -- A passenger whose first connection is to an available driver, known to the server as available,
  -- asks it for a ride, of which `m + 1` moves reach the passenger and `n + 1` more the
  -- destination, while the driver's connection to the server is up. The driver accepts, and
  -- passenger and server learn of it, each from one line; it fetches the passenger, which travels,
  -- and both reach the destination; the passenger confirms its payment there. The driver is then
  -- available at the destination. The server does not offer it during the ride, and offers it at
  -- the destination after it; every other entry, available or busy, is as before.
  pub ride_served :
      (m n : ℕ) (p : Passenger) (d : Driver) (s : Server) (entry : Data.DriverInfo)
      (driver addr client receiver : Addr) (others : List Addr)
      → p.connections ≡ driver ∷ others
      → d.is_available ≡ true
      → d.server_receiver ≡ some receiver
      → IsDisjoint s
      → get s.drivers d.name ≡ some entry
      → Reaches (suc m) d.position p.info.position
      → Reaches (suc n) p.info.position p.info.destination
      → Agrees j p d driver addr client
        × Travels j (suc m) (suc n) p d addr
        × Arrives j (suc n) p d addr client
        × IsRegistered s d.name entry p.info.destination
  unfolding handle handle_ride_accepted handle_driver_arrived handle_start_ride
  ride_served m n p d s entry driver addr client receiver others first free up disjoint known there
        along =
      let (accepts, fetches, last, rides, ends) =
        ride_completes m n d (asked p addr) true true free there along in
      let (last', travels) = travel_ends n (served p d) along in
      let r = asked p addr in
      (
        (
          ask_first p driver others first,
          receive-ride_line j laws addr _,
          accepts
              ∙ ap
                  (λ sends. (
                    accept d r,
                    Driver.to_passenger addr (Driver.ok d.driver_socket)
                        ∷ Driver.save (status (accept d r))
                        ∷ (sends ++ Driver.to_self Driver.start_ride ∷ []),
                  ))
                  (ask_server_up (accept d r) (Driver.busy_driver d.name) receiver up),
          receive-answer_line j laws (Driver.ok d.driver_socket),
          refl,
          receive-driver_line j laws client (Driver.busy_driver d.name),
        ),
        (refl, fetches, receive-answer_line j laws Driver.driver_arrived, refl, last', travels),
        (
          last,
          rides,
          end_ride_up (arrived d r) p.info.destination receiver up,
          receive-driver_line j laws client _,
        ),
        update_driver-busy_driver s d.name p.info.destination entry disjoint known,
      )

-- ===== src/Driver/Handlers/Ride.antt =====
-- A whole ride, from the request to the report that the driver is free again.
use concu_ride.Prelude.{
  ℕ, suc, ◌+◌, ◌%◌, ◌≡◌, ◌≢◌, refl, ap, ◌∙◌, Bool, true, false, none, some, [], ◌∷◌, ◌++◌,
}
use concu_ride.Ride.{Position, step_towards}
use concu_ride.Ride.Arrival.{Reaches, walk_arrives, walk_never_arrives}
use concu_ride.Ride.Loop.{same_position_refl, loop_never, loop-Ends}
use concu_ride.Driver.{
  Driver, busy_driver, ok, driver_arrived, start_ride, ride_to_destination, end_ride, to_self,
  to_passenger, save,
}
use concu_ride.Driver.Handlers.{
  status, accept, RequestRide, handle_request_ride, handle_pick_up_passenger,
  handle_ride_to_destination, handle_end_ride, ask_server, tell_passenger,
}
use concu_ride.Driver.Handlers.Phases.{
  resends_pick_up, resends_ride, pick_up, ride, place, put, Fetching, Riding, pick_up_near,
  ride_near, pick_up-IsWalk, ride-IsWalk,
}

pick_up_ends :
    (m : ℕ) (d : Driver) (target : Position)
    → d.passenger_position ≡ some target
    → Reaches (suc m) d.position target
    → pick_up (suc m) d
      ≡ some (
        record d { position = target; passenger_picked_up = true },
        tell_passenger d driver_arrived ++ to_self ride_to_destination ∷ [],
      )
unfolding tell_passenger
pick_up_ends m d target i r =
    let (last, near, e) =
      loop-Ends handle_pick_up_passenger resends_pick_up place put target (Fetching target)
        (pick_up-IsWalk target) m d i (walk_arrives (suc m) d.position target r) in
    e
    ∙ ap some (
        pick_up_near target (put d last) i
          (same_position_refl (step_towards last target) target near))
    ∙ (λ j. some (
      record d { position = near j; passenger_picked_up = true },
      tell_passenger d driver_arrived ++ to_self ride_to_destination ∷ [],
    ))

pub ride_ends :
    (n : ℕ) (d : Driver) (target : Position)
    → d.destination ≡ some target
    → Reaches (suc n) d.position target
    → (last : Position) × (ride (suc n) d
        ≡ some (put d target, save (status (put d last)) ∷ to_self (end_ride target) ∷ []))
ride_ends n d target i r =
    let (last, near, e) =
      loop-Ends handle_ride_to_destination resends_ride place put target (Riding target)
        (ride-IsWalk target) n d i (walk_arrives (suc n) d.position target r) in
    (
      last,
      e
          ∙ ap some (
              ride_near target (put d last) i
                (same_position_refl (step_towards last target) target near))
          ∙ (λ j.
              some (put d (near j), save (status (put d last)) ∷ to_self (end_ride (near j)) ∷ [])),
    )

-- The driver on its way to the destination, and there.
abbrev pub carrying : Driver → RequestRide → Driver
carrying d msg = record (accept d msg) { position = msg.origin; passenger_picked_up = true }

abbrev pub arrived : Driver → RequestRide → Driver
arrived d msg = put (carrying d msg) msg.destination

-- An available driver that is asked for a ride, of which `m + 1` moves reach the passenger and
-- `n + 1` more the destination, accepts, tells the passenger and the server, fetches the
-- passenger within `m + 1` moves and says so, reaches the destination within `n + 1`, and is then
-- available there; the connections to the server may be up or down.
pub ride_completes :
    (m n : ℕ) (d : Driver) (msg : RequestRide) (connected connected' : Bool)
    → d.is_available ≡ true
    → Reaches (suc m) d.position msg.origin
    → Reaches (suc n) msg.origin msg.destination
    → (handle_request_ride d msg connected ≡ (
      accept d msg,
      to_passenger msg.addr (ok d.driver_socket)
          ∷ save (status (accept d msg))
          ∷ (ask_server (accept d msg) (busy_driver d.name) connected ++ to_self start_ride ∷ []),
    ))
      × (pick_up (suc m) (accept d msg)
          ≡ some (
            carrying d msg,
            to_passenger msg.addr driver_arrived ∷ to_self ride_to_destination ∷ [],
          ))
      × (last : Position) × (ride (suc n) (carrying d msg)
          ≡ some (
            arrived d msg,
            save (status (put (carrying d msg) last)) ∷ to_self (end_ride msg.destination) ∷ [],
          ))
      × ((handle_end_ride (arrived d msg) msg.destination connected').0 ≡ record (accept d msg) {
        position = msg.destination;
        is_available = true;
        passenger_picked_up = false;
      })
unfolding handle_request_ride handle_end_ride tell_passenger
ride_completes m n d msg connected connected' free there along =
    let (last, e) = ride_ends n (carrying d msg) msg.destination refl along in
    (
      rw (free, handle_request_ride),
      pick_up_ends m (accept d msg) msg.origin refl there,
      last,
      e,
      refl,
    )

-- A driver never reaches a passenger whose coordinates have a sum of the other parity than those
-- of the driver: after any number of moves it still sends itself `PickUpPassenger`.
pick_up_never_ends :
    (fuel : ℕ) (d : Driver) (target : Position)
    → d.passenger_position ≡ some target
    → (d.position.0 + d.position.1) % 2 ≢ (target.0 + target.1) % 2
    → pick_up fuel d ≡ none
pick_up_never_ends fuel d target i odd =
    loop_never handle_pick_up_passenger resends_pick_up place put target (Fetching target)
      (pick_up-IsWalk target) fuel d i (λ n. walk_never_arrives n d.position target odd)

-- A driver never reaches a destination whose coordinates have a sum of the other parity than those
-- of its place: after any number of moves it still sends itself `RideToDestination`.
ride_never_ends :
    (fuel : ℕ) (d : Driver) (target : Position)
    → d.destination ≡ some target
    → (d.position.0 + d.position.1) % 2 ≢ (target.0 + target.1) % 2
    → ride fuel d ≡ none
ride_never_ends fuel d target i odd =
    loop_never handle_ride_to_destination resends_ride place put target (Riding target)
      (ride-IsWalk target) fuel d i (λ n. walk_never_arrives n d.position target odd)

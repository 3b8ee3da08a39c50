-- ===== src/Driver/Handlers/Restart.antt =====
-- A driver that goes down and is started again: `Recovery` with the file that `save_state` has
-- written.
use concu_ride.Prelude.{
  ℕ, suc, String, ◌≡◌, refl, ap, ◌∙◌, true, false, not, Option, none, some, [], ◌∷◌, if◌then◌else◌,
}
use concu_ride.Ride.{Position}
use concu_ride.Ride.Arrival.{Reaches}
use concu_ride.Common.Json.{Json, IsJson}
use concu_ride.Driver.{
  Driver, reconnect_driver, ride_to_destination, pick_up_passenger, end_ride, to_self, to_server,
  save,
}
use concu_ride.Driver.File.{save_state, read_file, written, read_file-save_state}
use concu_ride.Driver.Handlers.{status, SavedStatus, handle_recovery, restore, or_keep_some}
use concu_ride.Driver.Handlers.Phases.{ride, put}
use concu_ride.Driver.Handlers.Ride.{ride_ends}

-- The new process, with its own connections, name and socket, and the ride of the old one.
abbrev pub resumed : Driver → Driver → Driver
resumed e d = record e {
  destination = d.destination;
  is_available = d.is_available;
  is_registered = d.is_registered;
  id_current_passenger = d.id_current_passenger;
  passenger_picked_up = d.passenger_picked_up;
  passenger_position = d.passenger_position;
  position = d.position;
}

or_keep_some-none : {A : Type 0} (new old : Option A) → old ≡ none → or_keep_some new old ≡ new
or_keep_some-none none old e = e
or_keep_some-none (some x) old e = refl

restore-written :
    (d e : Driver)
    → e.destination ≡ none
    → e.passenger_position ≡ none
    → restore e (written (status d)) ≡ resumed e d
unfolding restore
restore-written d e a b = λ i. record (resumed e d) {
  destination = or_keep_some-none d.destination e.destination a i;
  passenger_position = or_keep_some-none d.passenger_position e.passenger_position b i;
}

-- A new process, which has no destination and no passenger's place yet, takes up the ride of the
-- file: its state is that of the file but for its connections, name and socket, and where the driver
-- was not available it tells the server its new socket for its passenger, and goes on to the
-- destination with the passenger picked up, or else to the passenger.
pub handle_recovery-written :
    (d e : Driver) (socket : String)
    → e.destination ≡ none
    → e.passenger_position ≡ none
    → handle_recovery e (written (status d)) socket ≡ (
      resumed e d,
      if not d.is_available
          then to_server e.server_sender (reconnect_driver d.id_current_passenger socket e.name)
            ∷ to_self (if d.passenger_picked_up then ride_to_destination else pick_up_passenger)
            ∷ []
          else [],
    )
unfolding handle_recovery
handle_recovery-written d e socket a b =
    ap
      (λ (x : Driver). (
        x,
        if not x.is_available
            then to_server x.server_sender (reconnect_driver x.id_current_passenger socket x.name)
              ∷ to_self (if x.passenger_picked_up then ride_to_destination else pick_up_passenger)
              ∷ []
            else [],
      ))
      (restore-written d e a b)

-- A driver that is busy with the passenger picked up has saved its state, and `n + 1` moves from
-- its place reach the destination. A new process without a destination reads the file, tells the
-- server its new socket for the passenger and sends itself `RideToDestination`, which it handles
-- `n + 1` times at most: it is then at the destination and sends itself `EndRide`.
pub restarted_ride_ends :
    (j : Json)
    → IsJson j
    → (n : ℕ) (d e : Driver) (socket : String) (target : Position) → e.destination ≡ none
    → e.passenger_position ≡ none
    → d.is_available ≡ false
    → d.passenger_picked_up ≡ true
    → d.destination ≡ some target
    → Reaches (suc n) d.position target
    → (saved : SavedStatus) × (read_file j (save_state j (status d)) ≡ some saved)
      × (handle_recovery e saved socket ≡ (
        resumed e d,
        to_server e.server_sender (reconnect_driver d.id_current_passenger socket e.name)
            ∷ to_self ride_to_destination
            ∷ [],
      ))
      × (last : Position) × (ride (suc n) (handle_recovery e saved socket).0
          ≡ some (
            put (resumed e d) target,
            save (status (put (resumed e d) last)) ∷ to_self (end_ride target) ∷ [],
          ))
restarted_ride_ends j laws n d e socket target a b busy picked i r =
    let (last, path) = ride_ends n (resumed e d) target i r in
    let taken_up = handle_recovery-written d e socket a b in
    (
      written (status d),
      read_file-save_state j laws (status d),
      taken_up ∙ (λ k. (
        resumed e d,
        if not (busy k)
            then to_server e.server_sender (reconnect_driver d.id_current_passenger socket e.name)
              ∷ to_self (if picked k then ride_to_destination else pick_up_passenger)
              ∷ []
            else [],
      )),
      last,
      ap (λ x. ride (suc n) x.0) taken_up ∙ path,
    )

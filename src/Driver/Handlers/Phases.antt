-- ===== src/Driver/Handlers/Phases.antt =====
-- The two legs of a ride, each a message that the driver sends itself at every step.
use concu_ride.Prelude.{
  ℕ, ◌≡◌, ◌⊎◌, inl, inr, refl, sym, ap, ◌∙◌, Bool, true, false, not, Option, none, some, List, [],
  ◌∷◌, ◌++◌, Bool-cases, Option-cases, arith,
}
use concu_ride.Ride.{Position, step_towards}
use concu_ride.Ride.Loop.{same_position, loop, IsWalk}
use concu_ride.Driver.{
  Addr, Driver, ServerMsg, PassengerMsg, Effect, reconnect, pick_up_passenger, ride_to_destination,
  end_ride, driver_arrived, to_self, to_server, to_passenger, save,
}
use concu_ride.Driver.Handlers.{
  status, handle_pick_up_passenger, handle_ride_to_destination, tell_passenger, pick_up_at, ride_to,
  ask_server, server_connected,
}

abbrev pub resends_pick_up : List Effect → Bool
resends_pick_up [] = false
resends_pick_up (to_self pick_up_passenger ∷ rest) = true
resends_pick_up (_ ∷ rest) = resends_pick_up rest

abbrev pub resends_ride : List Effect → Bool
resends_ride [] = false
resends_ride (to_self ride_to_destination ∷ rest) = true
resends_ride (_ ∷ rest) = resends_ride rest

-- `PickUpPassenger`, and `RideToDestination`, handled again for each time that it is sent.
abbrev pub pick_up : ℕ → Driver → Option (Driver × List Effect)
pick_up = loop handle_pick_up_passenger resends_pick_up

abbrev pub ride : ℕ → Driver → Option (Driver × List Effect)
ride = loop handle_ride_to_destination resends_ride

abbrev pub place : Driver → Position
place d = d.position

abbrev pub put : Driver → Position → Driver
put d p = record d { position = p }

abbrev pub Fetching : Position → Driver → Type 0
Fetching target d = d.passenger_position ≡ some target

abbrev pub Riding : Position → Driver → Type 0
Riding target d = d.destination ≡ some target

-- A request goes out once where the connection to the server is up.
pub ask_server_up :
    (d : Driver) (msg : ServerMsg) (receiver : Addr)
    → d.server_receiver ≡ some receiver
    → ask_server d msg true ≡ to_server d.server_sender msg ∷ []
unfolding ask_server server_connected
ask_server_up d msg receiver up = ground arith

-- A request is sent to the server, and is sent again by `Reconnect` or not.
pub ask_server_once :
    (d : Driver) (msg : ServerMsg) (connected : Bool)
    → (ask_server d msg connected ≡ to_server d.server_sender msg ∷ [])
      ⊎ (ask_server d msg connected ≡ to_server d.server_sender msg ∷ to_self (reconnect msg) ∷ [])
unfolding ask_server
ask_server_once d msg connected = elim (Bool-cases (server_connected d connected)) [
  | inl e ↦ inl (rw (e, ask_server))
  | inr e ↦ inr (rw (e, ask_server))
]

module _ (target : Position) (d : Driver) (i : d.passenger_position ≡ some target) where
  pub pick_up_far :
      same_position (step_towards d.position target) target ≡ false
      → handle_pick_up_passenger d
        ≡ (put d (step_towards d.position target), to_self pick_up_passenger ∷ [])
  unfolding handle_pick_up_passenger
  pick_up_far e = ap (pick_up_at d) i ∙ rw (e, pick_up_at)

  pub pick_up_near :
      same_position (step_towards d.position target) target ≡ true
      → handle_pick_up_passenger d ≡ (
        record d { position = step_towards d.position target; passenger_picked_up = true },
        tell_passenger d driver_arrived ++ to_self ride_to_destination ∷ [],
      )
  unfolding handle_pick_up_passenger
  pick_up_near e = ap (pick_up_at d) i ∙ rw (e, pick_up_at)

module _ (target : Position) (d : Driver) (i : d.destination ≡ some target) where
  pub ride_far :
      same_position (step_towards d.position target) target ≡ false
      → handle_ride_to_destination d ≡ (
        put d (step_towards d.position target),
        save (status d) ∷ to_self ride_to_destination ∷ [],
      )
  unfolding handle_ride_to_destination
  ride_far e =
      ap (λ (r : Driver × List Effect). (r.0, save (status d) ∷ r.1))
        (ap (ride_to d) i ∙ rw (e, ride_to))

  pub ride_near :
      same_position (step_towards d.position target) target ≡ true
      → handle_ride_to_destination d ≡ (
        put d (step_towards d.position target),
        save (status d) ∷ to_self (end_ride (step_towards d.position target)) ∷ [],
      )
  unfolding handle_ride_to_destination
  ride_near e =
      ap (λ (r : Driver × List Effect). (r.0, save (status d) ∷ r.1))
        (ap (ride_to d) i ∙ rw (e, ride_to))

-- Without a place to go to the message is left alone.
pub pick_up_nowhere :
    (d : Driver) → d.passenger_position ≡ none → handle_pick_up_passenger d ≡ (d, [])
unfolding handle_pick_up_passenger
pick_up_nowhere d i = ap (pick_up_at d) i

pub ride_nowhere :
    (d : Driver) → d.destination ≡ none → handle_ride_to_destination d ≡ (d, save (status d) ∷ [])
unfolding handle_ride_to_destination
ride_nowhere d i =
    ap (λ (r : Driver × List Effect). (r.0, save (status d) ∷ r.1)) (ap (ride_to d) i)

-- The passenger is told if there is a connection to it.
pub tell_passenger_once :
    (d : Driver) (msg : PassengerMsg)
    → (tell_passenger d msg ≡ [])
      ⊎ ((addr : Addr) × (tell_passenger d msg ≡ to_passenger addr msg ∷ []))
unfolding tell_passenger
tell_passenger_once d msg = elim (Option-cases d.current_passenger_connection) [
  | inl e ↦ inl (rw e)
  | inr (addr, e) ↦ inr (addr, rw e)
]

-- No message to the passenger is one that the driver sends itself.
resends-tell_passenger :
    (d : Driver)
    → resends_pick_up (tell_passenger d driver_arrived ++ to_self ride_to_destination ∷ []) ≡ false
resends-tell_passenger d = elim (tell_passenger_once d driver_arrived) [
  | inl e ↦ ap (λ told. resends_pick_up (told ++ to_self ride_to_destination ∷ [])) e
  | inr (_, e) ↦ ap (λ told. resends_pick_up (told ++ to_self ride_to_destination ∷ [])) e
]

pub pick_up-IsWalk :
    (target : Position)
    → IsWalk handle_pick_up_passenger resends_pick_up place put target (Fetching target)
pick_up-IsWalk target = record {
  again = λ d i. elim (Bool-cases (same_position (step_towards d.position target) target)) [
    | inl e ↦
        ap (λ r. resends_pick_up r.1) (pick_up_near target d i e)
        ∙ resends-tell_passenger d
        ∙ ap not (sym e)
    | inr e ↦ ap (λ r. resends_pick_up r.1) (pick_up_far target d i e) ∙ ap not (sym e)
  ];
  moves = λ d i h. elim (Bool-cases (same_position (step_towards d.position target) target)) [
    | inl e ↦
        cc (ap (λ r. resends_pick_up r.1) (pick_up_near target d i e), resends-tell_passenger d)
    | inr e ↦ ap (λ r. r.0) (pick_up_far target d i e)
  ];
  keeps = λ d p i. i;
  place-put = λ d p. refl;
  put-place = λ d. refl;
  put-put = λ d p q. refl;
}

pub ride-IsWalk :
    (target : Position)
    → IsWalk handle_ride_to_destination resends_ride place put target (Riding target)
ride-IsWalk target = record {
  again = λ d i. elim (Bool-cases (same_position (step_towards d.position target) target)) [
    | inl e ↦ ap (λ r. resends_ride r.1) (ride_near target d i e) ∙ ap not (sym e)
    | inr e ↦ ap (λ r. resends_ride r.1) (ride_far target d i e) ∙ ap not (sym e)
  ];
  moves = λ d i h. elim (Bool-cases (same_position (step_towards d.position target) target)) [
    | inl e ↦ ap (λ r. r.0) (ride_near target d i e)
    | inr e ↦ ap (λ r. r.0) (ride_far target d i e)
  ];
  keeps = λ d p i. i;
  place-put = λ d p. refl;
  put-place = λ d. refl;
  put-put = λ d p q. refl;
}

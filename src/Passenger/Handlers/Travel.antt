-- ===== src/Passenger/Handlers/Travel.antt =====
-- The ride as the passenger lives it: the message `Traveling` that it sends itself.
use concu_ride.Prelude.{
  ℕ, suc, ◌+◌, ◌%◌, ◌≡◌, ◌≢◌, inl, inr, refl, subst, ap, ◌∙◌, Bool, true, false, not, Option, none,
  some, List, [], ◌∷◌, Bool-cases,
}
use concu_ride.Ride.{Position, step_towards}
use concu_ride.Ride.Arrival.{Reaches, walk_arrives, walk_never_arrives}
use concu_ride.Ride.Loop.{same_position, same_position_refl, loop, IsWalk, loop_never, loop-Ends}
use concu_ride.Passenger.{
  Passenger, Effect, confirm_payment, traveling, to_self, to_gateway, save, add_permit,
}
use concu_ride.Passenger.Handlers.{with_position, status, handle_traveling}

-- The handler has sent `Traveling` to the passenger itself.
abbrev pub resends : List Effect → Bool
resends [] = false
resends (to_self traveling ∷ rest) = true
resends (_ ∷ rest) = resends rest

-- `Traveling` is handled, again for each time that it is sent.
abbrev pub travel : ℕ → Passenger → Option (Passenger × List Effect)
travel = loop handle_traveling resends

place : Passenger → Position
place p = p.info.position

-- The ride to `destination`.
abbrev Bound : Position → Passenger → Type 0
Bound destination p = p.info.destination ≡ destination

again :
    (p : Passenger)
    → resends (handle_traveling p).1
      ≡ not (same_position (step_towards p.info.position p.info.destination) p.info.destination)
unfolding handle_traveling
again p =
    elim (Bool-cases
      (same_position (step_towards p.info.position p.info.destination) p.info.destination)) [
        | inl e ↦ rw (e, handle_traveling)
        | inr e ↦ rw (e, handle_traveling)
      ]

travel-IsWalk :
    (destination : Position)
    → IsWalk handle_traveling resends place with_position destination (Bound destination)
unfolding handle_traveling place
travel-IsWalk destination = record {
  again = λ p i.
      subst
        (λ d.
          resends (handle_traveling p).1 ≡ not (same_position (step_towards p.info.position d) d))
        i (again p);
  moves = λ p i e. ap (λ d. with_position p (step_towards p.info.position d)) i;
  keeps = λ p q i. i;
  place-put = λ p q. refl;
  put-place = λ p. refl;
  put-put = λ p q r. refl;
}

-- The effects of the move that ends a ride: the status before it is saved, the payment is
-- confirmed to the gateway, and the program may finish.
abbrev pub ride_over : Passenger → Passenger → List Effect
ride_over before p =
    save (status before) ∷ to_gateway p.gateway (confirm_payment p.name) ∷ add_permit ∷ []

last_move :
    (p : Passenger)
    → step_towards p.info.position p.info.destination ≡ p.info.destination
    → handle_traveling p ≡ (with_position p p.info.destination, ride_over p p)
unfolding handle_traveling
last_move p h =
    rw
      (
        same_position_refl (step_towards p.info.position p.info.destination) p.info.destination h,
        handle_traveling,
      )
      (λ i. (with_position p (h i), ride_over p p))

-- A ride whose start and destination have coordinate sums of different parity never ends: after
-- any number of moves the passenger still sends itself `Traveling`.
pub travel_never_ends :
    (fuel : ℕ) (p : Passenger)
    → (p.info.position.0 + p.info.position.1) % 2
      ≢ (p.info.destination.0 + p.info.destination.1) % 2
    → travel fuel p ≡ none
unfolding place
travel_never_ends fuel p odd =
    loop_never handle_traveling resends place with_position p.info.destination
      (Bound p.info.destination) (travel-IsWalk p.info.destination) fuel p refl
      (λ n. walk_never_arrives n p.info.position p.info.destination odd)

-- A ride of which `n + 1` moves reach the destination ends within `n + 1` moves: the passenger is
-- then at the destination, all else of it as it was, its last status is saved, it confirms the
-- payment, and it lets the program finish.
pub travel_ends :
    (n : ℕ) (p : Passenger)
    → Reaches (suc n) p.info.position p.info.destination
    → (last : Position) × (travel (suc n) p
        ≡ some (with_position p p.info.destination, ride_over (with_position p last) p))
unfolding place
travel_ends n p r =
    let (last, near, e) =
      loop-Ends handle_traveling resends place with_position p.info.destination
        (Bound p.info.destination) (travel-IsWalk p.info.destination) n p refl
        (walk_arrives (suc n) p.info.position p.info.destination r) in
    (last, e ∙ ap some (last_move (with_position p last) near))

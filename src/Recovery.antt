-- ===== src/Recovery.antt =====
-- How a passenger that has been down finds out about its ride: `Recover` and `RecoverResponse` of
-- passenger/src/passenger.rs with `PassengerRecover` of driver/src/driver.rs.
mod Examples
use concu_ride.Prelude.{
  ◌≡◌, refl, Bool, true, false, not, ◌||◌, [], ◌∷◌, ◌==◌, nat_eq, if◌then◌else◌, Bool-cases, inl,
  inr,
}
use concu_ride.Ride.{Position}
use concu_ride.Passenger.{Passenger, confirm_payment, traveling, to_self, to_gateway, add_permit}
use concu_ride.Passenger.Handlers.{with_position, handle_recover_response}
use concu_ride.Driver
use concu_ride.Driver.{Driver, recover_response, to_passenger}
use concu_ride.Driver.Handlers.{at_destination, handle_passenger_recover}

-- A driver that is asked by a passenger about its ride answers with one message, and by it the
-- passenger takes the ride for over, confirms the payment and lets the program finish where the
-- driver serves another passenger or is at the destination, travels on from the driver's place
-- where the driver has picked it up, and else waits as it was.
pub passenger_recovers :
    (d : Driver) (p : Passenger) (connection : Driver.Addr)
    → (picked_up end_ride : Bool) × (position : Position) × ((handle_passenger_recover d p.info.id
          connection).1
        ≡ to_passenger connection (recover_response picked_up position end_ride) ∷ [])
      × (handle_recover_response p
            (record { picked_up = picked_up; position = position; end_ride = end_ride })
          ≡ (if not (d.id_current_passenger == p.info.id) || at_destination d
              then (p, to_gateway p.gateway (confirm_payment p.name) ∷ add_permit ∷ [])
              else if d.passenger_picked_up
              then (with_position p d.position, to_self traveling ∷ [])
              else (p, [])))
unfolding handle_passenger_recover handle_recover_response
passenger_recovers d p connection = elim (Bool-cases (d.id_current_passenger == p.info.id)) [
  | inl mine ↦ rw mine (d.passenger_picked_up, at_destination d, d.position, refl, refl)
  | inr other ↦ rw other (false, true, d.position, refl, refl)
]

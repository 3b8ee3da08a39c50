-- ===== src/Passenger/Handlers/Search.antt =====
-- The search for a driver that answers: `Drivers`, which the passenger sends itself again with the
-- drivers that are left where the chosen one cannot be reached.
use concu_ride.Prelude.{
  ℕ, zero, suc, ◌<◌, String, ◌≡◌, ◌⊎◌, Option, none, some, List, [], ◌∷◌, length, Has,
}
use concu_ride.Passenger.{
  Addr, DriverInfo, Passenger, Effect, authorize_payment, drivers, to_self, to_gateway, save,
}
use concu_ride.Passenger.Select.{F64}
use concu_ride.Passenger.Handlers.{put_first, status, handle_drivers}

-- The list of the message `Drivers` that the handler sends the passenger itself, if it does.
abbrev pub next_drivers : List Effect → Option (List DriverInfo)
next_drivers [] = none
next_drivers (to_self (drivers rest) ∷ _) = some rest
next_drivers (_ ∷ effects) = next_drivers effects

module _ (f : F64) (connect : String → Option Addr) where
  -- `Drivers` is handled, again for each time that it is sent: the last state and effects, or
  -- `none` if it is sent once more after `fuel` times.
  unfoldable pub look : ℕ → Passenger → List DriverInfo → Option (Passenger × List Effect)
  look zero p offered = none
  look (suc fuel) p offered =
      let (q, effects) = handle_drivers f p offered connect in
      elim (next_drivers effects) [ none ↦ some (q, effects) | some rest ↦ look fuel q rest ]

  -- A search ends with no driver in range, or with a driver of the offered ones that answers: the
  -- connection to it is the passenger's first, and the payment is to be authorised.
  abbrev pub Found : Passenger → List DriverInfo → Passenger × List Effect → Type 0
  Found p offered (q, effects) =
      (state : Passenger) × (((effects ≡ save (status state) ∷ [])
          × (q.connections ≡ p.connections))
        ⊎ ((driver : DriverInfo) × (addr : Addr) × Has driver offered
            × (connect driver.socket ≡ some addr)
            × (q.connections ≡ put_first addr p.connections)
            × (effects ≡ save (status state) ∷ to_gateway p.gateway authorize_payment ∷ [])))

  -- One handling ends the search, or leaves fewer drivers, all of them offered.
  Step : Passenger → List DriverInfo → Type 0
  Step p offered =
      ((next_drivers (handle_drivers f p offered connect).1 ≡ none)
        × Found p offered (handle_drivers f p offered connect))
      ⊎ ((rest : List DriverInfo) × (next_drivers (handle_drivers f p offered connect).1
            ≡ some rest)
          × (length rest < length offered)
          × ((d : DriverInfo) → Has d rest → Has d offered)
          × ((handle_drivers f p offered connect).0.connections ≡ p.connections)
          × ((handle_drivers f p offered connect).0.gateway ≡ p.gateway))

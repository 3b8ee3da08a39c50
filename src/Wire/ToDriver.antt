-- ===== src/Wire/ToDriver.antt =====
-- The lines of passengers at the driver.
use concu_ride.Prelude.{String, ◌≡◌, refl, ap, ◌∙◌, some, [], ◌∷◌, string_eq}
use concu_ride.Prelude.HashMap.{HashMap, get, Distinct}
use concu_ride.Common.Json.{Json, IsJson}
use concu_ride.Common.Message.{serialize_message, split_message-serialize_message, of_pair}
use concu_ride.Common.Message.Fields.{u64_field, pair_field}
use concu_ride.Passenger.{DriverMsg, request_ride, reconnect_driver, recover}
use concu_ride.Passenger.Wire.{encode_ride}
use concu_ride.Driver.{Addr}
use concu_ride.Driver.Wire
use concu_ride.Driver.Wire.{Inbound, passenger_recover, reconnect_passenger, receive, dispatch}

-- What a passenger means by a message to a driver, over the connection `addr`.
abbrev pub ride_message : Addr → DriverMsg → Inbound
ride_message addr (request_ride id origin destination) =
    Wire.request_ride
      (record { id_passenger = id; origin = origin; destination = destination; addr = addr })
ride_message addr (reconnect_driver position) = reconnect_passenger addr position
ride_message addr (recover id) = passenger_recover id addr

module _ (j : Json) (laws : IsJson j) where
  received :
      (addr : Addr) (name : String) (payload : j.Value)
      → receive j addr (some (serialize_message j name (some payload)))
        ≡ dispatch j addr name payload
  unfolding receive
  received addr name payload =
      ap (λ (r : String × j.Value). dispatch j addr r.0 r.1)
        (split_message-serialize_message j laws name payload)

  -- The driver reads from a passenger's line the message that the passenger means.
  pub receive-ride_line :
      (addr : Addr) (msg : DriverMsg)
      → receive j addr (some (encode_ride j msg)) ≡ some (ride_message addr msg)
  unfolding encode_ride dispatch get
  receive-ride_line addr (request_ride id origin destination) =
      let fields : HashMap String j.Value =
        ("id", j.of_u64 id)
        ∷ ("origin", of_pair j origin)
        ∷ ("destination", of_pair j destination)
        ∷ [] in
      let d : Distinct fields = (refl, (refl, (refl, tt))) in
      received addr "request_ride" (j.of_object fields)
      ∙ rw
          (
            u64_field j laws fields d "id" id refl,
            pair_field j laws fields d "origin" origin refl,
            pair_field j laws fields d "destination" destination refl,
          )
          refl
  receive-ride_line addr (reconnect_driver position) =
      let fields : HashMap String j.Value = ("position", of_pair j position) ∷ [] in
      received addr "reconnect_driver" (j.of_object fields)
      ∙ rw (pair_field j laws fields (refl, tt) "position" position refl) refl
  receive-ride_line addr (recover id) =
      let fields : HashMap String j.Value = ("id_passenger", j.of_u64 id) ∷ [] in
      received addr "recover" (j.of_object fields)
      ∙ rw (u64_field j laws fields (refl, tt) "id_passenger" id refl) refl

-- ===== src/Wire/ToPassenger.antt =====
-- The lines of the server and of drivers at the passenger.
use concu_ride.Prelude.{ℕ, String, ◌≡◌, refl, ap, ◌∙◌, some, List, [], ◌∷◌, map, string_eq}
use concu_ride.Prelude.HashMap.{HashMap, get, Distinct}
use concu_ride.Common.Json.{Json, IsJson}
use concu_ride.Common.Message.{serialize_message, split_message-serialize_message, of_pair, of_vec}
use concu_ride.Common.Message.Fields.{str_field, u64_field, bool_field, pair_field, vec_field}
use concu_ride.Driver
use concu_ride.Driver.Wire.{encode_answer}
use concu_ride.Server
use concu_ride.Server.Wire.{encode as server_line, of_driver, driver_fields}
use concu_ride.Passenger.{DriverInfo}
use concu_ride.Passenger.Wire.{
  Inbound, drivers, complete_login, ride_accepted, driver_arrived, keep_looking, recover_response,
  reconnect_driver, receive, dispatch, as_driver,
}

-- What the passenger keeps of a driver's entry at the server.
abbrev pub offer : Server.DriverInfo → DriverInfo
offer d = record { socket = d.socket; position = d.position }

-- What a driver means by a message to its passenger.
abbrev pub answer : Driver.PassengerMsg → Inbound
answer Driver.refuse = keep_looking
answer (Driver.ok socket) = ride_accepted socket
answer Driver.driver_arrived = driver_arrived
answer (Driver.recover_response picked_up position end_ride) =
    recover_response (record { picked_up = picked_up; position = position; end_ride = end_ride })

module _ (j : Json) (laws : IsJson j) where
  received :
      (name : String) (payload : j.Value)
      → receive j (some (serialize_message j name (some payload))) ≡ dispatch j name payload
  unfolding receive
  received name payload =
      ap (λ (r : String × j.Value). dispatch j r.0 r.1)
        (split_message-serialize_message j laws name payload)

  as_driver-of_driver : (d : Server.DriverInfo) → as_driver j (of_driver j d) ≡ some (offer d)
  unfolding as_driver of_driver driver_fields get
  as_driver-of_driver d =
      let fields = driver_fields j d in
      let distinct : Distinct fields = (refl, (refl, (refl, (refl, tt)))) in
      rw
        (
          str_field j laws fields distinct "socket" d.socket refl,
          pair_field j laws fields distinct "position" d.position refl,
        )
        refl

  -- The passenger reads from the server's list of drivers the socket and the position of each.
  pub receive-drivers_line :
      (listed : List Server.DriverInfo)
      → receive j (some (server_line j (Server.drivers listed))) ≡ some (drivers (map offer listed))
  unfolding server_line dispatch get
  receive-drivers_line listed =
      let fields : HashMap String j.Value = ("drivers_info", of_vec j (of_driver j) listed) ∷ [] in
      received "drivers" (j.of_object fields)
      ∙ rw
          (vec_field j laws fields (refl, tt) "drivers_info" (of_driver j) (as_driver j) offer
            as_driver-of_driver listed refl)
          refl

  pub receive-identificador_line :
      (id : ℕ)
      → receive j (some (server_line j (Server.identificador id))) ≡ some (complete_login id)
  unfolding server_line dispatch get
  receive-identificador_line id =
      let fields : HashMap String j.Value = ("id", j.of_u64 id) ∷ [] in
      received "identificador" (j.of_object fields)
      ∙ rw (u64_field j laws fields (refl, tt) "id" id refl) refl

  pub receive-reconnect_line :
      (socket : String)
      → receive j (some (server_line j (Server.reconnect_driver socket)))
        ≡ some (reconnect_driver socket)
  unfolding server_line dispatch get
  receive-reconnect_line socket =
      let fields : HashMap String j.Value = ("socket", j.of_str socket) ∷ [] in
      received "reconnect_driver" (j.of_object fields)
      ∙ rw (str_field j laws fields (refl, tt) "socket" socket refl) refl

  -- The passenger reads from a driver's line the answer that the driver means.
  pub receive-answer_line :
      (msg : Driver.PassengerMsg) → receive j (some (encode_answer j msg)) ≡ some (answer msg)
  unfolding encode_answer dispatch get
  receive-answer_line Driver.refuse = received "no" j.null
  receive-answer_line (Driver.ok socket) =
      let fields : HashMap String j.Value = ("driver_socket", j.of_str socket) ∷ [] in
      received "ok" (j.of_object fields)
      ∙ rw (str_field j laws fields (refl, tt) "driver_socket" socket refl) refl
  receive-answer_line Driver.driver_arrived = received "driver_arrived" j.null
  receive-answer_line (Driver.recover_response picked_up position end_ride) =
      let fields : HashMap String j.Value =
        ("picked_up", j.of_bool picked_up)
        ∷ ("position", of_pair j position)
        ∷ ("end_ride", j.of_bool end_ride)
        ∷ [] in
      let d : Distinct fields = (refl, (refl, (refl, tt))) in
      received "recover_response" (j.of_object fields)
      ∙ rw
          (
            bool_field j laws fields d "picked_up" picked_up refl,
            pair_field j laws fields d "position" position refl,
            bool_field j laws fields d "end_ride" end_ride refl,
          )
          refl

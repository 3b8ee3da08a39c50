-- ===== src/Wire/ToServer.antt =====
-- The lines of drivers and passengers at the server.
use concu_ride.Prelude.{String, ◌≡◌, refl, ap, ◌∙◌, some, [], ◌∷◌, string_eq}
use concu_ride.Prelude.HashMap.{HashMap, get, Distinct}
use concu_ride.Common.Json.{Json, IsJson}
use concu_ride.Common.Message.{serialize_message, split_message-serialize_message, of_pair}
use concu_ride.Common.Message.Fields.{str_field, u64_field, pair_field}
use concu_ride.Driver
use concu_ride.Driver.Wire.{encode as driver_line}
use concu_ride.Passenger
use concu_ride.Passenger.Wire.{encode as passenger_line}
use concu_ride.Server.{Addr}
use concu_ride.Server.Registry.Requests.{Request}
use concu_ride.Server.Wire.{request, receive, dispatch}

-- What a driver means by a message to the server.
abbrev pub driver_request : Driver.ServerMsg → Request
driver_request (Driver.new_driver socket name position) =
    Request.new_driver (record { name = name; socket = socket; position = position })
driver_request (Driver.busy_driver name) = Request.busy_driver name
driver_request (Driver.available_driver name position) =
    Request.update_driver (record { new_position = position; name = name })
driver_request (Driver.reconnect_driver id socket name) =
    Request.reconnect_driver (record { id_passenger = id; socket = socket; name = name })

-- What a passenger means, over the connection `addr`.
abbrev pub passenger_request : Addr → Passenger.ServerMsg → Request
passenger_request addr (Passenger.get_drivers id) = Request.get_drivers addr
passenger_request addr (Passenger.login name) =
    Request.passenger_login (record { name = name; addr = addr })

module _ (j : Json) (laws : IsJson j) where
  -- A line is dispatched by its name and its payload.
  pub received :
      (addr : Addr) (name : String) (payload : j.Value)
      → receive j addr (some (serialize_message j name (some payload)))
        ≡ dispatch j addr name payload
  unfolding receive
  received addr name payload =
      ap (λ (r : String × j.Value). dispatch j addr r.0 r.1)
        (split_message-serialize_message j laws name payload)

  -- The server reads from a driver's line the request that the driver means.
  pub receive-driver_line :
      (addr : Addr) (msg : Driver.ServerMsg)
      → receive j addr (some (driver_line j msg)) ≡ some (request (driver_request msg))
  unfolding driver_line dispatch get
  receive-driver_line addr (Driver.new_driver socket name position) =
      let fields : HashMap String j.Value =
        ("socket", j.of_str socket)
        ∷ ("name", j.of_str name)
        ∷ ("position", of_pair j position)
        ∷ [] in
      let d : Distinct fields = (refl, (refl, (refl, tt))) in
      received addr "new_driver" (j.of_object fields)
      ∙ rw
          (
            pair_field j laws fields d "position" position refl,
            str_field j laws fields d "socket" socket refl,
            str_field j laws fields d "name" name refl,
          )
          refl
  receive-driver_line addr (Driver.busy_driver name) =
      let fields : HashMap String j.Value = ("name", j.of_str name) ∷ [] in
      received addr "busy_driver" (j.of_object fields)
      ∙ rw (str_field j laws fields (refl, tt) "name" name refl) refl
  receive-driver_line addr (Driver.available_driver name position) =
      let fields : HashMap String j.Value =
        ("name", j.of_str name) ∷ ("position", of_pair j position) ∷ [] in
      let d : Distinct fields = (refl, (refl, tt)) in
      received addr "available_driver" (j.of_object fields)
      ∙ rw
          (
            pair_field j laws fields d "position" position refl,
            str_field j laws fields d "name" name refl,
          )
          refl
  receive-driver_line addr (Driver.reconnect_driver id socket name) =
      let fields : HashMap String j.Value =
        ("id_passenger", j.of_u64 id)
        ∷ ("socket", j.of_str socket)
        ∷ ("name", j.of_str name)
        ∷ [] in
      let d : Distinct fields = (refl, (refl, (refl, tt))) in
      received addr "reconnect_driver" (j.of_object fields)
      ∙ rw
          (
            u64_field j laws fields d "id_passenger" id refl,
            str_field j laws fields d "socket" socket refl,
            str_field j laws fields d "name" name refl,
          )
          refl

  -- The server reads from a passenger's line the request that the passenger means.
  pub receive-passenger_line :
      (addr : Addr) (msg : Passenger.ServerMsg)
      → receive j addr (some (passenger_line j msg)) ≡ some (request (passenger_request addr msg))
  unfolding passenger_line dispatch get
  receive-passenger_line addr (Passenger.get_drivers id) =
      received addr "get_drivers" (j.of_object (("id", j.of_u64 id) ∷ []))
  receive-passenger_line addr (Passenger.login name) =
      let fields : HashMap String j.Value = ("name", j.of_str name) ∷ [] in
      received addr "login" (j.of_object fields)
      ∙ rw (str_field j laws fields (refl, tt) "name" name refl) refl

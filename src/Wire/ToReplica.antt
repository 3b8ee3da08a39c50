-- ===== src/Wire/ToReplica.antt =====
-- The leader's state on its way to a replica: the line `pong`.
use mathlib.Core.Option
use concu_ride.Prelude.{
  ℕ, String, ◌≡◌, refl, ap, ◌∙◌, Option, some, List, [], ◌∷◌, map, string_eq, nat_eq, arith,
}
use concu_ride.Prelude.HashMap.{HashMap, get, Distinct}
use concu_ride.Common.Json.{Json, IsJson}
use concu_ride.Common.Message.{
  ok, serialize_message, split_message-serialize_message, deserialize_field,
  deserialize_field-of_object,
}
use concu_ride.Common.Message.Fields.{str_field, u64_field, pair_field, vec_field}
use concu_ride.Server.{DriverInfo, UpdateNetworkState, pong}
use concu_ride.Server.Wire.{encode, of_driver, driver_fields, of_values, state_fields}
use concu_ride.Server.LeaderConnection.{
  ServerConnection, update_network_state, receive, dispatch, as_driver, as_map, each_value,
}

map-id : {A : Type 0} (xs : List A) → map (λ x. x) xs ≡ xs
map-id [] = refl
map-id (x ∷ xs) = ap (λ ys. x ∷ ys) (map-id xs)

-- What `HashMap` gives for nothing, for the maps of the state.
pub record IsMaps (s : UpdateNetworkState) : Type 0 where
  pub drivers : Distinct s.drivers
  pub busy_drivers : Distinct s.busy_drivers
  pub passengers : Distinct s.passengers
  pub udp_sockets_replicas : Distinct s.udp_sockets_replicas

module _ (j : Json) (laws : IsJson j) where
  as_driver-of_driver : (d : DriverInfo) → as_driver j (of_driver j d) ≡ some d
  unfolding as_driver of_driver driver_fields get
  as_driver-of_driver d =
      let fields = driver_fields j d in
      let distinct : Distinct fields = (refl, (refl, (refl, (refl, tt)))) in
      rw
        (
          str_field j laws fields distinct "name" d.name refl,
          str_field j laws fields distinct "socket" d.socket refl,
          u64_field j laws fields distinct "id" d.id refl,
          pair_field j laws fields distinct "position" d.position refl,
        )
        refl

  module _ {A : Type 0} (to_value : A → j.Value) (from_value : j.Value → Option A)
      (law : (a : A) → from_value (to_value a) ≡ some a) where
    get-of_values :
        (m : HashMap String A) (k : String)
        → get (of_values j to_value m) k ≡ Option.map to_value (get m k)
    unfolding get
    get-of_values [] k = refl
    get-of_values ((i, a) ∷ m) k = ground (arith, get-of_values m k)

    of_values-Distinct : (m : HashMap String A) → Distinct m → Distinct (of_values j to_value m)
    of_values-Distinct [] d = tt
    of_values-Distinct ((i, a) ∷ m) d =
        (get-of_values m i ∙ ap (Option.map to_value) d.0, of_values-Distinct m d.1)

    each_value-of_values :
        (m : HashMap String A) → each_value j from_value (of_values j to_value m) ≡ some m
    unfolding each_value
    each_value-of_values [] = refl
    each_value-of_values ((i, a) ∷ m) = rw (law a, each_value-of_values m) refl

    map_field :
        (fields : HashMap String j.Value) (key : String) (m : HashMap String A)
        → Distinct fields
        → Distinct m
        → get fields key ≡ some (j.of_object (of_values j to_value m))
        → deserialize_field j (as_map j from_value) (j.of_object fields) key ≡ ok m
    unfolding as_map
    map_field fields key m d e h =
        deserialize_field-of_object j laws (as_map j from_value) fields key
          (j.of_object (of_values j to_value m)) m d h
          (rw (laws.as_object-of_object (of_values j to_value m) (of_values-Distinct m e))
            (each_value-of_values m))

  received :
      (c : ServerConnection) (now : ℕ) (name : String) (payload : j.Value)
      → receive j c now (some (serialize_message j name (some payload)))
        ≡ (record c { response_time = now }, dispatch j c.addr name payload)
  unfolding receive
  received c now name payload =
      ap (λ (r : String × j.Value). (record c { response_time = now }, dispatch j c.addr r.0 r.1))
        (split_message-serialize_message j laws name payload)

  -- A replica reads from the leader's line the state that the leader sent, with every entry of its
  -- maps, and hands it to its server; the clock of the connection starts anew.
  pub receive-pong_line :
      (c : ServerConnection) (now : ℕ) (s : UpdateNetworkState)
      → IsMaps s
      → receive j c now (some (encode j (pong s)))
        ≡ (record c { response_time = now }, some (update_network_state c.addr s))
  unfolding encode dispatch state_fields get
  receive-pong_line c now s m =
      let fields = state_fields j s in
      let d : Distinct fields = (refl, (refl, (refl, (refl, (refl, (refl, tt)))))) in
      received c now "pong" (j.of_object fields)
      ∙ rw
          (
            u64_field j laws fields d "ids_count" s.ids_count refl,
            map_field (of_driver j) (as_driver j) as_driver-of_driver fields "drivers" s.drivers d
                m.drivers refl,
            map_field (of_driver j) (as_driver j) as_driver-of_driver fields "busy_drivers"
                s.busy_drivers d m.busy_drivers refl,
            map_field j.of_u64 j.as_u64 laws.as_u64-of_u64 fields "passengers" s.passengers d
                m.passengers refl,
            deserialize_field-of_object j laws j.as_u64_map fields "udp_sockets_replicas"
                (j.of_u64_map s.udp_sockets_replicas) s.udp_sockets_replicas d refl
                (laws.as_u64_map-of_u64_map s.udp_sockets_replicas m.udp_sockets_replicas),
            vec_field j laws fields d "disconnected_servers" j.of_u64 j.as_u64 (λ n. n)
                laws.as_u64-of_u64 s.disconnected_servers refl,
            map-id s.disconnected_servers,
          )
          refl

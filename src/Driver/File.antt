-- ===== src/Driver/File.antt =====
-- The file of a driver: what `save_state` of driver/src/driver.rs writes, and what `Recovery` reads
-- of it, key by key.
use concu_ride.Prelude.{ℕ, String, ◌≡◌, refl, ap, ◌∙◌, Option, none, some, List, [], ◌∷◌, string_eq}
use concu_ride.Prelude.HashMap.{HashMap, get, Distinct}
use concu_ride.Ride.{Position}
use concu_ride.Common.Json.{Json, IsJson}
use concu_ride.Common.Message.{and_then, index, of_pair, of_option}
use concu_ride.Driver.{Status}
use concu_ride.Driver.Handlers.{SavedStatus}

module _ (j : Json) where
  open j use {of_bool, as_bool, of_u64, as_u64, of_str, of_object, as_array}

  -- The object of `json!`.
  unfoldable pub saved_fields : Status → HashMap String j.Value
  saved_fields s =
      ("name", of_str s.name)
      ∷ ("is_available", of_bool s.is_available)
      ∷ ("position", of_pair j s.position)
      ∷ ("id_current_passenger", of_u64 s.id_current_passenger)
      ∷ ("passenger_position", of_option j (of_pair j) s.passenger_position)
      ∷ ("destination", of_option j (of_pair j) s.destination)
      ∷ ("passenger_picked_up", of_bool s.passenger_picked_up)
      ∷ ("is_registered", of_bool s.is_registered)
      ∷ ("driver_socket", of_str s.driver_socket)
      ∷ []

  -- The text of the file.
  unfoldable pub save_state : Status → j.Text
  unfolding saved_fields
  save_state s = j.to_string (of_object (saved_fields s))

  -- `if let (Some(x), Some(y)) = (…)`
  both : Option ℕ → Option ℕ → Option Position
  both (some x) (some y) = some (x, y)
  both _ _ = none

  -- `destination[0].as_u64()` and `destination[1].as_u64()`, which panics without two values.
  first_two : List j.Value → Option (Option Position)
  unfolding both
  first_two (x ∷ y ∷ _) = some (both (as_u64 x) (as_u64 y))
  first_two _ = none

  -- A place, if the value is an array of numbers, or `none` where the index panics.
  unfoldable pub read_position : j.Value → Option (Option Position)
  unfolding first_two
  read_position v = elim (as_array v) [ none ↦ some none | some vs ↦ first_two vs ]

  -- The fields that `Recovery` reads, or `none` where it panics.
  unfoldable pub read_status : j.Value → Option SavedStatus
  unfolding read_position
  read_status status = and_then (read_position (index j status "destination")) (λ destination.
      and_then (read_position (index j status "passenger_position")) (λ passenger_position.
        and_then (read_position (index j status "position")) (λ position. some (record {
          destination = destination;
          is_available = as_bool (index j status "is_available");
          is_registered = as_bool (index j status "is_registered");
          id_current_passenger = as_u64 (index j status "id_current_passenger");
          passenger_picked_up = as_bool (index j status "passenger_picked_up");
          passenger_position = passenger_position;
          position = position;
        }))))

  -- The file, read as JSON and then by `Recovery`; `none` where either fails.
  unfoldable pub read_file : j.Text → Option SavedStatus
  read_file text = and_then (j.from_str text) read_status

-- The fields as they were saved.
abbrev pub written : Status → SavedStatus
written s = record {
  destination = s.destination;
  is_available = some s.is_available;
  is_registered = some s.is_registered;
  id_current_passenger = some s.id_current_passenger;
  passenger_picked_up = some s.passenger_picked_up;
  passenger_position = s.passenger_position;
  position = some s.position;
}

module _ (j : Json) (laws : IsJson j) (s : Status) where
  pub value : j.Value
  value = j.of_object (saved_fields j s)

  fields-Distinct : Distinct (saved_fields j s)
  unfolding saved_fields get
  fields-Distinct = (refl, (refl, (refl, (refl, (refl, (refl, (refl, (refl, (refl, tt)))))))))

  -- A key that was saved is found.
  index-value :
      (key : String) (v : j.Value) → get (saved_fields j s) key ≡ some v → index j value key ≡ v
  unfolding index value
  index-value key v e =
      rw (laws.field-of_object (saved_fields j s) key fields-Distinct, e, index) refl

  position-of_pair : (p : Position) → read_position j (of_pair j p) ≡ some (some p)
  unfolding read_position first_two both of_pair
  position-of_pair (x, y) =
      rw (laws.as_array-of_array (j.of_u64 x ∷ j.of_u64 y ∷ []), read_position)
        (rw (laws.as_u64-of_u64 x, laws.as_u64-of_u64 y) refl)

  position-of_option : (p : Option Position) → read_position j (of_option j (of_pair j) p) ≡ some p
  unfolding of_option read_position
  position-of_option none = rw (laws.as_array-null, read_position) refl
  position-of_option (some p) = position-of_pair p

  -- `Recovery` reads what `save_state` has written.
  read_status-save_state : read_status j value ≡ some (written s)
  unfolding read_status get saved_fields
  read_status-save_state =
      rw
        (
          index-value "destination" (of_option j (of_pair j) s.destination) refl,
          index-value "passenger_position" (of_option j (of_pair j) s.passenger_position) refl,
          index-value "position" (of_pair j s.position) refl,
          index-value "is_available" (j.of_bool s.is_available) refl,
          index-value "is_registered" (j.of_bool s.is_registered) refl,
          index-value "id_current_passenger" (j.of_u64 s.id_current_passenger) refl,
          index-value "passenger_picked_up" (j.of_bool s.passenger_picked_up) refl,
          position-of_option s.destination,
          position-of_option s.passenger_position,
          position-of_pair s.position,
          laws.as_bool-of_bool s.is_available,
          laws.as_bool-of_bool s.is_registered,
          laws.as_u64-of_u64 s.id_current_passenger,
          laws.as_bool-of_bool s.passenger_picked_up,
        )
        refl

  pub read_file-save_state : read_file j (save_state j s) ≡ some (written s)
  unfolding read_file save_state value
  read_file-save_state =
      rw (laws.from_str-to_string (j.of_object (saved_fields j s))) read_status-save_state

  pub parsed : j.from_str (save_state j s) ≡ some value
  unfolding save_state value
  parsed = laws.from_str-to_string (j.of_object (saved_fields j s))

  -- The process finds the socket.
  pub socket-value : j.as_str (index j value "driver_socket") ≡ some s.driver_socket
  unfolding saved_fields get
  socket-value =
      ap j.as_str (index-value "driver_socket" (j.of_str s.driver_socket) refl)
      ∙ laws.as_str-of_str s.driver_socket

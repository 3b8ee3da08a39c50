-- ===== src/Passenger/File.antt =====
-- The file of a passenger: what `save_state` of passenger/src/passenger.rs writes, and what
-- `Recover` reads of it, key by key.
use concu_ride.Prelude.{String, ◌≡◌, refl, Option, none, some, [], ◌∷◌, string_eq}
use concu_ride.Prelude.HashMap.{HashMap, get, insert, Distinct}
use concu_ride.Common.Json.{Json, IsJson}
use concu_ride.Common.Message.{index, of_pair, of_option, of_vec}
use concu_ride.Passenger.{DriverInfo, Status}
use concu_ride.Passenger.Handlers.{SavedStatus}

module _ (j : Json) where
  open j use {of_bool, as_bool, of_u64, as_u64, of_str, as_str, of_object}

  -- What serde derives for `DriverInfo`.
  of_driver : DriverInfo → j.Value
  of_driver d = of_object (("socket", of_str d.socket) ∷ ("position", of_pair j d.position) ∷ [])

  -- The object of `json!`, which inserts its keys in order: the second "id" replaces the first.
  unfoldable pub saved_fields : Status → HashMap String j.Value
  unfolding of_driver
  saved_fields s =
      let drivers = insert [] "drivers" (of_vec j of_driver s.drivers_info) in
      let socket = insert drivers "driver_socket" (of_option j of_str s.driver_socket) in
      let authorized = insert socket "payment_authorized" (of_bool s.payment_authorized) in
      let confirmed = insert authorized "id" (of_bool s.payment_confirmed) in
      insert confirmed "id" (of_u64 s.id)

  -- The text of the file.
  unfoldable pub save_state : Status → j.Text
  save_state s = j.to_string (of_object (saved_fields s))

  -- The fields that `Recover` reads.
  unfoldable pub read_status : j.Value → SavedStatus
  read_status status = record {
    name = as_str (index j status "name");
    id = as_u64 (index j status "id");
    driver_socket = as_str (index j status "driver_socket");
    payment_authorized = as_bool (index j status "payment_authorized");
    payment_confirmed = as_bool (index j status "payment_confirmed");
  }

-- What is left of the fields: the name is not saved, nor whether the payment was confirmed.
abbrev pub written : Status → SavedStatus
written s = record {
  name = none;
  id = some s.id;
  driver_socket = s.driver_socket;
  payment_authorized = some s.payment_authorized;
  payment_confirmed = none;
}

module _ (j : Json) (laws : IsJson j) (s : Status) where
  pub value : j.Value
  value = j.of_object (saved_fields j s)

  fields-Distinct : Distinct (saved_fields j s)
  unfolding saved_fields get insert
  fields-Distinct = (refl, (refl, (refl, (refl, tt))))

  -- A key that was saved is found, and any other is `null`.
  index-value :
      (key : String) (v : j.Value) → get (saved_fields j s) key ≡ some v → index j value key ≡ v
  unfolding index value
  index-value key v e =
      rw (laws.field-of_object (saved_fields j s) key fields-Distinct, e, index) refl

  index-missing : (key : String) → get (saved_fields j s) key ≡ none → index j value key ≡ j.null
  unfolding index value
  index-missing key e =
      rw (laws.field-of_object (saved_fields j s) key fields-Distinct, e, index) refl

  as_str-of_option : (o : Option String) → j.as_str (of_option j j.of_str o) ≡ o
  unfolding of_option
  as_str-of_option none = laws.as_str-null
  as_str-of_option (some a) = laws.as_str-of_str a

  -- `Recover` reads that of what `save_state` has written.
  pub read_status-save_state : read_status j value ≡ written s
  unfolding read_status get insert saved_fields
  read_status-save_state =
      rw
        (
          index-missing "name" refl,
          index-value "id" (j.of_u64 s.id) refl,
          index-value "driver_socket" (of_option j j.of_str s.driver_socket) refl,
          index-value "payment_authorized" (j.of_bool s.payment_authorized) refl,
          index-missing "payment_confirmed" refl,
          laws.as_str-null,
          laws.as_u64-of_u64 s.id,
          as_str-of_option s.driver_socket,
          laws.as_bool-of_bool s.payment_authorized,
          laws.as_bool-null,
        )
        refl

  pub parsed : j.from_str (save_state j s) ≡ some value
  unfolding save_state value
  parsed = laws.from_str-to_string (j.of_object (saved_fields j s))

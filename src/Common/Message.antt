-- ===== src/Common/Message.antt =====
-- Messages as JSON: common/src/serialize.rs and common/src/deserialize.rs, and what serde derives
-- for pairs and lists.
pub mod Fields
use concu_ride.Prelude.{ℕ, String, ◌≡◌, refl, Option, none, some, List, [], ◌∷◌, map, string_eq}
use concu_ride.Prelude.HashMap.{HashMap, get, Distinct}
use concu_ride.Common.Json.{Json, IsJson}

-- `DeserializationError`; the text of serde_json's error is left out.
pub data DeserializationError : Type 0 where
  missing_field serde_json_error : String → DeserializationError

pub data Deserialized (A : Type 0) : Type 0 where
  ok : A → Deserialized A
  err : DeserializationError → Deserialized A

-- `let Ok(x) = … else { error!(…); return; }`
abbrev pub bind : {A B : Type 0} → Deserialized A → (A → Option B) → Option B
bind (ok a) k = k a
bind (err e) k = none

-- `Option::and_then`
abbrev pub and_then : {A B : Type 0} → Option A → (A → Option B) → Option B
and_then none k = none
and_then (some a) k = k a

module _ (j : Json) where
  -- The text of a message, or the empty text where the payload cannot be serialised.
  unfoldable pub serialize_message : String → Option j.Value → j.Text
  serialize_message name none = j.empty
  serialize_message name (some payload) =
      j.to_string (j.of_object (("name", j.of_str name) ∷ ("payload", payload) ∷ []))

  -- `message[key]`
  unfoldable pub index : j.Value → String → j.Value
  index message key = elim (j.field message key) [ none ↦ j.null | some v ↦ v ]

  unfoldable pub split_message : j.Text → String × j.Value
  unfolding index
  split_message message_string = elim (j.from_str message_string) [
    | none ↦ ("", j.null)
    | some message ↦ elim (j.as_str (index message "name")) [
      | none ↦ ("", j.null)
      | some name ↦ elim (j.field message "payload") [
        | none ↦ ("", j.null)
        | some payload ↦ (name, payload)
      ]
    ]
  ]

  unfoldable pub deserialize_field :
      {A : Type 0} → (j.Value → Option A) → j.Value → String → Deserialized A
  deserialize_field from_value message field = elim (j.field message field) [
    | none ↦ err (missing_field field)
    | some v ↦ elim (from_value v) [ none ↦ err (serde_json_error field) | some a ↦ ok a ]
  ]

  -- `(u64, u64)` is an array of two numbers.
  -- `Option<T>`: no value is `null`.
  unfoldable pub of_option : {A : Type 0} → (A → j.Value) → Option A → j.Value
  of_option to_value none = j.null
  of_option to_value (some a) = to_value a

  unfoldable pub of_pair : ℕ × ℕ → j.Value
  of_pair (x, y) = j.of_array (j.of_u64 x ∷ j.of_u64 y ∷ [])

  two_numbers : List j.Value → Option (ℕ × ℕ)
  two_numbers (v ∷ w ∷ []) = and_then (j.as_u64 v) (λ x. and_then (j.as_u64 w) (λ y. some (x, y)))
  two_numbers _ = none

  unfoldable pub as_pair : j.Value → Option (ℕ × ℕ)
  unfolding two_numbers
  as_pair v = and_then (j.as_array v) two_numbers

  -- `Vec<T>`
  each : {A : Type 0} → (j.Value → Option A) → List j.Value → Option (List A)
  each from_value [] = some []
  each from_value (v ∷ vs) =
      let rest = each from_value vs in
      and_then (from_value v) (λ a. and_then rest (λ as'. some (a ∷ as')))

  unfoldable pub of_vec : {A : Type 0} → (A → j.Value) → List A → j.Value
  of_vec to_value xs = j.of_array (map to_value xs)

  unfoldable pub as_vec : {A : Type 0} → (j.Value → Option A) → j.Value → Option (List A)
  unfolding each
  as_vec from_value v = and_then (j.as_array v) (each from_value)

module _ (j : Json) (laws : IsJson j) where
  -- A message that could be serialised is split into its name and its payload.
  pub split_message-serialize_message :
      (name : String) (payload : j.Value)
      → split_message j (serialize_message j name (some payload)) ≡ (name, payload)
  unfolding split_message serialize_message get index
  split_message-serialize_message name payload =
      let fields : HashMap String j.Value = ("name", j.of_str name) ∷ ("payload", payload) ∷ [] in
      rw
        (
          laws.from_str-to_string (j.of_object fields),
          laws.field-of_object fields "name" (refl, (refl, tt)),
          index,
          laws.as_str-of_str name,
          laws.field-of_object fields "payload" (refl, (refl, tt)),
          split_message,
        )
        refl

  -- A field of a struct is read back.
  pub deserialize_field-of_object :
      {A : Type 0} (from_value : j.Value → Option A) (fields : HashMap String j.Value)
      (key : String) (v : j.Value) (a : A)
      → Distinct fields
      → get fields key ≡ some v
      → from_value v ≡ some a
      → deserialize_field j from_value (j.of_object fields) key ≡ ok a
  unfolding deserialize_field
  deserialize_field-of_object from_value fields key v a d e f =
      rw (laws.field-of_object fields key d, e, f, deserialize_field) refl

  pub as_pair-of_pair : (p : ℕ × ℕ) → as_pair j (of_pair j p) ≡ some p
  unfolding as_pair of_pair
  as_pair-of_pair (x, y) =
      rw (laws.as_array-of_array, laws.as_u64-of_u64 x, laws.as_u64-of_u64 y) refl

  each-map :
      {A B : Type 0} (to_value : A → j.Value) (from_value : j.Value → Option B) (f : A → B)
      → ((a : A) → from_value (to_value a) ≡ some (f a))
      → (xs : List A) → each j from_value (map to_value xs) ≡ some (map f xs)
  unfolding each
  each-map to_value from_value f law [] = refl
  each-map to_value from_value f law (x ∷ xs) =
      rw (law x, each-map to_value from_value f law xs) refl

  pub as_vec-of_vec :
      {A B : Type 0} (to_value : A → j.Value) (from_value : j.Value → Option B) (f : A → B)
      → ((a : A) → from_value (to_value a) ≡ some (f a))
      → (xs : List A) → as_vec j from_value (of_vec j to_value xs) ≡ some (map f xs)
  unfolding as_vec of_vec
  as_vec-of_vec to_value from_value f law xs =
      rw (laws.as_array-of_array) (each-map to_value from_value f law xs)

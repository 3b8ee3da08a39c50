-- ===== src/Common/Message/Fields.antt =====
-- The fields of a message, by their types, as they are read back.
use concu_ride.Prelude.{ℕ, String, ◌≡◌, Bool, Option, some, List, map, string_eq}
use concu_ride.Prelude.HashMap.{HashMap, get, Distinct}
use concu_ride.Common.Json.{Json, IsJson}
use concu_ride.Common.Message.{
  ok, deserialize_field, deserialize_field-of_object, of_pair, as_pair, as_pair-of_pair, of_vec,
  as_vec, as_vec-of_vec,
}

module _ (j : Json) (laws : IsJson j) (fields : HashMap String j.Value) (distinct : Distinct fields)
    (key : String) where
  pub str_field :
      (s : String)
      → get fields key ≡ some (j.of_str s)
      → deserialize_field j j.as_str (j.of_object fields) key ≡ ok s
  str_field s e =
      deserialize_field-of_object j laws j.as_str fields key (j.of_str s) s distinct e
        (laws.as_str-of_str s)

  pub u64_field :
      (n : ℕ)
      → get fields key ≡ some (j.of_u64 n)
      → deserialize_field j j.as_u64 (j.of_object fields) key ≡ ok n
  u64_field n e =
      deserialize_field-of_object j laws j.as_u64 fields key (j.of_u64 n) n distinct e
        (laws.as_u64-of_u64 n)

  pub bool_field :
      (b : Bool)
      → get fields key ≡ some (j.of_bool b)
      → deserialize_field j j.as_bool (j.of_object fields) key ≡ ok b
  bool_field b e =
      deserialize_field-of_object j laws j.as_bool fields key (j.of_bool b) b distinct e
        (laws.as_bool-of_bool b)

  pub text_field :
      (t : j.Text)
      → get fields key ≡ some (j.of_text t)
      → deserialize_field j j.as_text (j.of_object fields) key ≡ ok t
  text_field t e =
      deserialize_field-of_object j laws j.as_text fields key (j.of_text t) t distinct e
        (laws.as_text-of_text t)

  pub pair_field :
      (p : ℕ × ℕ)
      → get fields key ≡ some (of_pair j p)
      → deserialize_field j (as_pair j) (j.of_object fields) key ≡ ok p
  pair_field p e =
      deserialize_field-of_object j laws (as_pair j) fields key (of_pair j p) p distinct e
        (as_pair-of_pair j laws p)

  pub vec_field :
      {A B : Type 0} (to_value : A → j.Value) (from_value : j.Value → Option B) (f : A → B)
      → ((a : A) → from_value (to_value a) ≡ some (f a))
      → (xs : List A) → get fields key ≡ some (of_vec j to_value xs)
      → deserialize_field j (as_vec j from_value) (j.of_object fields) key ≡ ok (map f xs)
  vec_field to_value from_value f law xs e =
      deserialize_field-of_object j laws (as_vec j from_value) fields key (of_vec j to_value xs)
        (map f xs) distinct e (as_vec-of_vec j laws to_value from_value f law xs)

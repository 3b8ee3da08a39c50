-- ===== src/Common/Json.antt =====
-- serde_json, which the processes use for their messages, as a parameter: the operations that the
-- program calls, and their documented laws. The text of a line is kept abstract, since nothing but
-- serde_json looks into it; the newline that ends a line on the wire is left out with it.
pub mod Tree
use concu_ride.Prelude.{ℕ, String, ◌≡◌, Bool, Option, none, some, List, string_eq, nat_eq}
use concu_ride.Prelude.HashMap.{HashMap, get, Distinct}

pub record Json : Type 1 where
  -- `serde_json::Value`
  pub Value : Type 0
  pub Text : Type 0
  -- `String::default()`
  pub empty : Text
  pub null : Value
  pub of_bool : Bool → Value
  pub as_bool : Value → Option Bool
  pub of_u64 : ℕ → Value
  pub as_u64 : Value → Option ℕ
  pub of_str : String → Value
  pub as_str : Value → Option String
  -- A text inside a message: the ACK of a UDP message holds the message.
  pub of_text : Text → Value
  pub as_text : Value → Option Text
  pub of_array : List Value → Value
  pub as_array : Value → Option (List Value)
  -- A struct, `json!({…})`, or a map whose keys are texts.
  pub of_object : HashMap String Value → Value
  pub as_object : Value → Option (HashMap String Value)
  -- A `HashMap<u64, String>`, whose keys become texts.
  pub of_u64_map : HashMap ℕ String → Value
  pub as_u64_map : Value → Option (HashMap ℕ String)
  -- `Value::get`
  pub field : Value → String → Option Value
  pub from_str : Text → Option Value
  pub to_string : Value → Text

pub record IsJson (j : Json) : Type 0 where
  pub as_bool-null : j.as_bool j.null ≡ none
  pub as_str-null : j.as_str j.null ≡ none
  pub as_array-null : j.as_array j.null ≡ none
  pub as_bool-of_bool : (b : Bool) → j.as_bool (j.of_bool b) ≡ some b
  pub as_u64-of_u64 : (n : ℕ) → j.as_u64 (j.of_u64 n) ≡ some n
  pub as_str-of_str : (s : String) → j.as_str (j.of_str s) ≡ some s
  pub as_text-of_text : (t : j.Text) → j.as_text (j.of_text t) ≡ some t
  pub as_array-of_array : (vs : List j.Value) → j.as_array (j.of_array vs) ≡ some vs
  pub as_object-of_object :
      (m : HashMap String j.Value) → Distinct m → j.as_object (j.of_object m) ≡ some m
  pub as_u64_map-of_u64_map :
      (m : HashMap ℕ String) → Distinct m → j.as_u64_map (j.of_u64_map m) ≡ some m
  pub field-of_object :
      (m : HashMap String j.Value) (k : String) → Distinct m → j.field (j.of_object m) k ≡ get m k
  pub from_str-to_string : (v : j.Value) → j.from_str (j.to_string v) ≡ some v
  pub from_str-empty : j.from_str j.empty ≡ none

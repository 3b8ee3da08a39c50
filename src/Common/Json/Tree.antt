-- ===== src/Common/Json/Tree.antt =====
-- A concrete `Json` for the tests: values are trees, and the text of a value is the value.
use concu_ride.Prelude.{
  ℕ, String, ◌≡◌, refl, ap, Bool, Option, none, some, List, [], ◌∷◌, string_eq,
}
use concu_ride.Prelude.HashMap.{HashMap, get}
use concu_ride.Common.Json.{Json, IsJson}

mutual
  pub data Tree : Type 0 where
    null blank : Tree
    bool : Bool → Tree
    num : ℕ → Tree
    str : String → Tree
    quoted : Tree → Tree
    u64_map : HashMap ℕ String → Tree
    arr : Trees → Tree
    obj : Fields → Tree

  pub data Trees : Type 0 where
    nil : Trees
    cons : Tree → Trees → Trees

  pub data Fields : Type 0 where
    end : Fields
    entry : String → Tree → Fields → Fields

abbrev pub of_list : List Tree → Trees
of_list [] = nil
of_list (v ∷ vs) = cons v (of_list vs)

abbrev pub to_list : Trees → List Tree
to_list nil = []
to_list (cons v vs) = v ∷ to_list vs

to_list-of_list : (vs : List Tree) → to_list (of_list vs) ≡ vs
to_list-of_list [] = refl
to_list-of_list (v ∷ vs) = ap (λ ws. v ∷ ws) (to_list-of_list vs)

abbrev pub of_entries : HashMap String Tree → Fields
of_entries [] = end
of_entries ((k, v) ∷ m) = entry k v (of_entries m)

abbrev pub to_entries : Fields → HashMap String Tree
to_entries end = []
to_entries (entry k v fs) = (k, v) ∷ to_entries fs

to_entries-of_entries : (m : HashMap String Tree) → to_entries (of_entries m) ≡ m
to_entries-of_entries [] = refl
to_entries-of_entries ((k, v) ∷ m) = ap (λ n. (k, v) ∷ n) (to_entries-of_entries m)

abbrev pub of_text : Option Tree → Tree
of_text none = blank
of_text (some v) = quoted v

abbrev pub as_text : Tree → Option (Option Tree)
as_text blank = some none
as_text (quoted v) = some (some v)
as_text _ = none

abbrev pub as_bool : Tree → Option Bool
as_bool (bool b) = some b
as_bool _ = none

abbrev pub as_u64 : Tree → Option ℕ
as_u64 (num n) = some n
as_u64 _ = none

abbrev pub as_str : Tree → Option String
as_str (str s) = some s
as_str _ = none

abbrev pub as_array : Tree → Option (List Tree)
as_array (arr vs) = some (to_list vs)
as_array _ = none

abbrev pub as_object : Tree → Option (HashMap String Tree)
as_object (obj fs) = some (to_entries fs)
as_object _ = none

abbrev pub as_u64_map : Tree → Option (HashMap ℕ String)
as_u64_map (u64_map m) = some m
as_u64_map _ = none

unfoldable pub field : Tree → String → Option Tree
unfolding get
field (obj fs) k = get (to_entries fs) k
field _ k = none

text_round : (t : Option Tree) → as_text (of_text t) ≡ some t
text_round none = refl
text_round (some v) = refl

abbrev pub tree_json : Json
tree_json = record {
  Value = Tree;
  Text = Option Tree;
  empty = none;
  null = null;
  of_bool = bool;
  as_bool = as_bool;
  of_u64 = num;
  as_u64 = as_u64;
  of_str = str;
  as_str = as_str;
  of_text = of_text;
  as_text = as_text;
  of_array = λ vs. arr (of_list vs);
  as_array = as_array;
  of_object = λ m. obj (of_entries m);
  as_object = as_object;
  of_u64_map = u64_map;
  as_u64_map = as_u64_map;
  field = field;
  from_str = λ t. t;
  to_string = λ v. some v;
}

-- It meets the laws.
pub tree_json-IsJson : IsJson tree_json
unfolding field
tree_json-IsJson = record {
  as_bool-null = refl;
  as_str-null = refl;
  as_array-null = refl;
  as_bool-of_bool = λ b. refl;
  as_u64-of_u64 = λ n. refl;
  as_str-of_str = λ s. refl;
  as_text-of_text = text_round;
  as_array-of_array = λ vs. ap some (to_list-of_list vs);
  as_object-of_object = λ m d. ap some (to_entries-of_entries m);
  as_u64_map-of_u64_map = λ m d. refl;
  field-of_object = λ m k d. ap (λ n. get n k) (to_entries-of_entries m);
  from_str-to_string = λ v. refl;
  from_str-empty = refl;
}

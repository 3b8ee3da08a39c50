-- ===== src/Common/Tcp/Symbols.antt =====
-- Concrete bytes for the texts of the trees, for the tests: a value is one symbol.
use concu_ride.Prelude.{◌≡◌, refl, Option, none, some, List, [], ◌∷◌, ◌++◌}
use concu_ride.Common.Json.Tree.{Tree, tree_json}
use concu_ride.Common.Tcp.{Bytes, IsBytes}

pub data Symbol : Type 0 where
  newline carriage_return : Symbol
  value : Tree → Symbol

abbrev symbols : Option Tree → List Symbol
symbols none = []
symbols (some v) = value v ∷ []

abbrev lines : List Symbol → List (Option (Option Tree))
lines [] = []
lines (newline ∷ rest) = some none ∷ lines rest
lines (carriage_return ∷ rest) = lines rest
lines (value v ∷ []) = some (some v) ∷ []
lines (value v ∷ newline ∷ rest) = some (some v) ∷ lines rest
lines (value v ∷ c ∷ rest) = none ∷ lines rest

abbrev pub tree_bytes : Bytes tree_json
tree_bytes = record {
  Byte = Symbol;
  newline = newline;
  carriage_return = carriage_return;
  as_bytes = symbols;
  lines = lines;
}

lines_line_lem :
    (t : Option Tree) (rest : List Symbol)
    → lines (symbols t ++ newline ∷ rest) ≡ some t ∷ lines rest
lines_line_lem none rest = refl
lines_line_lem (some v) rest = refl

pub tree_bytes-IsBytes : IsBytes tree_bytes
tree_bytes-IsBytes = record {
  to_string-IsLine = λ v. (((λ h. cc), (λ h. cc)), tt);
  empty_lem = refl;
  lines-nil = refl;
  lines-line = λ t rest h. lines_line_lem t rest;
}

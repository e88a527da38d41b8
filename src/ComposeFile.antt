-- ===== src/ComposeFile.antt =====
-- The parts of a resolved compose file that the source reads: what `docker compose config`, or the
-- YAML reader, hands over as nested dictionaries. A service is its `image` and its `labels`.
use ha_docker_compose.Prelude.{
  Bool, Dict, List, Option, Text, [], codes, decimal, false, none, some, true, ℕ, ◌∷◌,
}

-- A YAML scalar; `literal` is a float or a date, by the text that `str` gives.
pub data Scalar : Type 0 where
  string : Text → Scalar
  integer : ℕ → Scalar
  boolean : Bool → Scalar
  literal : Text → Scalar
  null : Scalar

-- `str(value)`
unfoldable pub py_str : Scalar → Text
py_str (string s) = s
py_str (integer n) = decimal n
py_str (boolean true) = codes "True"
py_str (boolean false) = codes "False"
py_str (literal s) = s
py_str null = codes "None"

pub data LabelsValue : Type 0 where
  absent : LabelsValue
  map_form : List (Scalar × Scalar) → LabelsValue
  list_form : List Scalar → LabelsValue
  other_form : LabelsValue

pub record ServiceDef : Type 0 where
  pub image : Option Text
  pub labels : LabelsValue

pub record ComposeConfig : Type 0 where
  pub name : Option Text
  pub services : Dict Text ServiceDef

-- `if not image_ref: continue`: an empty text counts as missing.
abbrev pub truthy : Option Text → Option Text
truthy none = none
truthy (some []) = none
truthy (some (c ∷ s)) = some (c ∷ s)

-- ===== src/Labels/Forms.antt =====
-- The two spellings of a `labels:` block mean the same, and protection of one service is protection
-- of its stack.
use ha_docker_compose.Prelude.{
  All, Bool, Dict, List, Option, Text, [], any, arith, elem, false, if◌then◌else◌, insert, lookup,
  lookup-insert, map, nat_eq, none, or_else, pair_eq, partition-append, refl, some, text_eq, values,
  ◌++◌, ◌==◌, ◌↔◌, ◌∷◌, ◌≡◌,
}
use ha_docker_compose.ComposeFile.{
  Scalar, string, py_str, map_form, list_form, ServiceDef, ComposeConfig,
}
use ha_docker_compose.Labels.{
  labels_of_map, add_item, labels_of_list, parse_compose_labels, is_service_protected,
  is_stack_protected, protection_label, protection_full,
}

-- `key: value` and `- "key=value"`.
abbrev pub as_map : List (Text × Text) → List (Scalar × Scalar)
as_map = map (λ p. (string p.0, string p.1))

abbrev pub as_list : List (Text × Text) → List Scalar
as_list = map (λ p. string (p.0 ++ b'=' ∷ p.1))

abbrev pub LacksEquals : Text × Text → Type 0
LacksEquals p = elem b'=' p.0 ≡ false

labels_of_list-map :
    (pairs : List (Text × Text)) (result : Dict Text Text)
    → All LacksEquals pairs
    → labels_of_list (as_list pairs) result ≡ labels_of_map (as_map pairs) result
unfolding labels_of_list labels_of_map py_str
labels_of_list-map [] result h = refl
labels_of_list-map ((k, v) ∷ pairs) result (h, hs) =
    rw (partition-append b'=' k v h, labels_of_list, add_item)
      (labels_of_list-map pairs (insert k v result) hs)

-- The map form and the list form of the same labels, whose keys hold no `=`, are read alike: the
-- values may hold one.
pub parse_compose_labels_forms :
    (image : Option Text) (pairs : List (Text × Text))
    → All LacksEquals pairs
    → parse_compose_labels (record { image = image; labels = list_form (as_list pairs) })
      ≡ parse_compose_labels (record { image = image; labels = map_form (as_map pairs) })
unfolding parse_compose_labels
parse_compose_labels_forms image pairs h = labels_of_list-map pairs [] h

-- The value that the last label of a name spells.
unfoldable pub last_value : Text → List (Text × Text) → Option Text
last_value k [] = none
last_value k ((j, v) ∷ pairs) = or_else (last_value k pairs) (if j == k then some v else none)

lookup-labels_of_map :
    (k : Text) (pairs : List (Text × Text)) (result : Dict Text Text)
    → lookup k (labels_of_map (as_map pairs) result)
      ≡ or_else (last_value k pairs) (lookup k result)
unfolding labels_of_map last_value py_str
lookup-labels_of_map k [] result = refl
lookup-labels_of_map k ((j, v) ∷ pairs) result =
    ground (arith, lookup-labels_of_map k pairs (insert j v result), lookup-insert j k v result)

abbrev pub is_full : Option Text → Bool
is_full none = false
is_full (some v) = v == protection_full

-- A service whose labels are given as a map is protected exactly when the last value that its block
-- gives the protection label is `full`.
pub is_service_protected-last_value :
    (image : Option Text) (pairs : List (Text × Text))
    → is_service_protected (record { image = image; labels = map_form (as_map pairs) })
      ≡ is_full (last_value protection_label pairs)
unfolding is_service_protected parse_compose_labels lookup
is_service_protected-last_value image pairs =
    ground (arith, lookup-labels_of_map protection_label pairs [])

any-values :
    (p : ServiceDef → Bool) (d : Dict Text ServiceDef)
    → (any p (values d) ≡ false) ↔ All (λ s. p s.1 ≡ false) d
unfolding any
any-values p [] = (λ h. tt, λ h. refl)
any-values p ((k, v) ∷ d) = (
  λ h. (ground (arith, h), (any-values p d).0 (ground (arith, h))),
  λ h. let rest = (any-values p d).1 h.1 in ground (arith, h.0, rest),
)

-- The stack's own actions are open only if no service of the stack is protected.
pub is_stack_protected-All :
    (c : ComposeConfig)
    → (is_stack_protected c ≡ false) ↔ All (λ s. is_service_protected s.1 ≡ false) c.services
unfolding is_stack_protected
is_stack_protected-All c = any-values is_service_protected c.services

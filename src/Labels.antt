-- ===== src/Labels.antt =====
-- custom_components/ha_docker_compose/protection.py and oci_labels.py: labels of services, images
-- and containers.
mod Tests
pub mod Forms
use ha_docker_compose.Prelude.{
  Bool, Dict, List, Option, Text, [], any, codes, false, insert, lookup, nat_eq, none, pair_eq,
  partition, some, text_eq, value, values, ◌==◌, ◌∷◌,
}
use ha_docker_compose.ComposeFile.{
  Scalar, string, py_str, LabelsValue, absent, map_form, list_form, other_form, ServiceDef,
  ComposeConfig, truthy,
}

abbrev pub protection_label : Text
protection_label = codes "ha_docker_compose.protection"

abbrev pub protection_full : Text
protection_full = codes "full"

-- `{str(key): str(value) for key, value in labels.items()}`
unfoldable pub labels_of_map : List (Scalar × Scalar) → Dict Text Text → Dict Text Text
labels_of_map [] result = result
labels_of_map ((key, value) ∷ items) result =
    labels_of_map items (insert (py_str key) (py_str value) result)

-- one round of the loop over the list form: an item that is no text, or has no `=`, is passed over
unfoldable pub add_item : Scalar → Dict Text Text → Dict Text Text
add_item (string item) result = elim (partition b'=' item) [
  | none ↦ result
  | some (key, value) ↦ insert key value result
]
add_item _ result = result

unfoldable pub labels_of_list : List Scalar → Dict Text Text → Dict Text Text
unfolding add_item
labels_of_list [] result = result
labels_of_list (item ∷ items) result = labels_of_list items (add_item item result)

unfoldable pub parse_compose_labels : ServiceDef → Dict Text Text
unfolding labels_of_map labels_of_list
parse_compose_labels service_def = elim service_def.labels [
  | absent ↦ []
  | map_form items ↦ labels_of_map items []
  | list_form items ↦ labels_of_list items []
  | other_form ↦ []
]

unfoldable pub is_service_protected : ServiceDef → Bool
is_service_protected service_def =
    elim (lookup protection_label (parse_compose_labels service_def)) [
      | none ↦ false
      | some value ↦ value == protection_full
    ]

unfoldable pub is_stack_protected : ComposeConfig → Bool
is_stack_protected compose_config = any is_service_protected (values compose_config.services)

pub data Origin : Type 0 where
  image container : Origin

-- `resolve_label` of oci_labels.py: the image's label first, then the container's.
unfoldable pub resolve_label :
    Dict Text Text → Option (Dict Text Text) → Text → Option (Text × Origin)
resolve_label image_labels container_labels label_key =
    elim (truthy (lookup label_key image_labels)) [
      | some value ↦ some (value, image)
      | none ↦ elim container_labels [
        | none ↦ none
        | some labels ↦ elim (truthy (lookup label_key labels)) [
          | some value ↦ some (value, container)
          | none ↦ none
        ]
      ]
    ]

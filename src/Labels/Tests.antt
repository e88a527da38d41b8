-- ===== src/Labels/Tests.antt =====
-- Tests and witnesses on protection.py.
use ha_docker_compose.Prelude.{
  List, Text, [], codes, insert, lookup, nat_eq, none, pair_eq, partition, refl, text_beq, text_eq,
  true, ◌∷◌, ◌≡◌,
}
use ha_docker_compose.ComposeFile.{ServiceDef, ComposeConfig, list_form, absent}
use ha_docker_compose.Labels.{
  add_item, labels_of_list, protection_label, protection_full, parse_compose_labels,
  is_service_protected,
}
use ha_docker_compose.Labels.Forms.{as_list}

abbrev protected_pairs : List (Text × Text)
protected_pairs = (codes "a", codes "x=y") ∷ (protection_label, protection_full) ∷ []

abbrev protected_service : ServiceDef
protected_service = record { image = none; labels = list_form (as_list protected_pairs) }

protected_test : is_service_protected protected_service ≡ true
unfolding is_service_protected parse_compose_labels labels_of_list add_item partition lookup insert
    text_beq
protected_test = refl

abbrev mixed_config : ComposeConfig
mixed_config = record {
  name = none;
  services =
      (codes "db", protected_service)
      ∷ (codes "web", record { image = none; labels = absent })
      ∷ [];
}

-- ===== src/VersionDetect/Tests.antt =====
-- Tests and witnesses on version_detect.py.
use ha_docker_compose.Prelude.{
  Dict, Text, [], codes, drop_while, lookup, nat_eq, none, pair_eq, refl, some, text_beq, text_eq,
  ◌∷◌, ◌≡◌,
}
use ha_docker_compose.VersionDetect.{
  trusted_label, oci_version_label, has_version_structure, detect_version,
}
use ha_docker_compose.Labels.{resolve_label}
use ha_docker_compose.VersionDetect.Chain.{Source, detect_version-Source}

abbrev version_labels : Dict Text Text
version_labels = (oci_version_label, codes "2.4.1") ∷ []

detected_test : detect_version (codes "app:latest") version_labels none none ≡ some (codes "2.4.1")
unfolding detect_version resolve_label has_version_structure lookup text_beq drop_while
    trusted_label
detected_test = refl

detect_version-Source_example : Source (codes "app:latest") version_labels none none (codes "2.4.1")
unfolding detect_version resolve_label has_version_structure lookup text_beq drop_while
    trusted_label
detect_version-Source_example =
    detect_version-Source (codes "app:latest") version_labels none none (codes "2.4.1") refl

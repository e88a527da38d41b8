-- ===== src/VersionDetect.antt =====
-- custom_components/ha_docker_compose/version_detect.py: versions read off labels and tags. The
-- regular expressions are matchers on code points, their digits those of ASCII.
mod Tests
pub mod Structure
pub mod Chain
use ha_docker_compose.Prelude.{
  Bool, Dict, List, Option, Text, [], codes, drop_while, elem, false, if◌then◌else◌, is_digit,
  lower, nat_eq, none, pair_eq, rpartition, some, text_eq, value, ◌&&◌, ◌++◌, ◌==◌, ◌||◌, ◌∷◌,
}
use ha_docker_compose.ImageRef.{tag, latest}
use ha_docker_compose.Labels.{Origin, resolve_label}

abbrev pub oci_version_label : Text
oci_version_label = codes "org.opencontainers.image.version"

abbrev pub non_version_tags : List Text
non_version_tags =
    codes "latest"
    ∷ codes "stable"
    ∷ codes "edge"
    ∷ codes "beta"
    ∷ codes "dev"
    ∷ codes "main"
    ∷ codes "master"
    ∷ codes "nightly"
    ∷ []

abbrev pub unverified_suffix : Text
unverified_suffix = codes " (unverified)"

abbrev pub starts_with_digit : Text → Bool
starts_with_digit [] = false
starts_with_digit (c ∷ s) = is_digit c

-- `v?` at the front of a pattern
abbrev pub skip_v : Text → Text
skip_v [] = []
skip_v (c ∷ s) = if c == b'v' then s else c ∷ s

-- `^v?\d`
unfoldable pub looks_like_version : Text → Bool
looks_like_version s = starts_with_digit (skip_v s)

-- `^[vV]\d`
unfoldable pub has_leading_v : Text → Bool
has_leading_v [] = false
has_leading_v (c ∷ s) = (c == b'v' || c == b'V') && starts_with_digit s

-- `\.\d`, the rest of `(?:\.\d+)+` being more of the same
abbrev pub dot_digit : Text → Bool
dot_digit [] = false
dot_digit (c ∷ s) = c == b'.' && starts_with_digit s

-- `^v?\d+(?:\.\d+)+`
unfoldable pub has_version_structure : Text → Bool
has_version_structure value =
    let s = skip_v value in starts_with_digit s && dot_digit (drop_while is_digit s)

unfoldable pub is_version_tag : Text → Bool
unfolding looks_like_version
is_version_tag [] = false
is_version_tag (c ∷ s) =
    if elem (lower (c ∷ s)) non_version_tags then false else looks_like_version (c ∷ s)

-- `tag.rsplit("@", 1)[-1]`
unfoldable pub behind_at : Text → Text
behind_at s = elim (rpartition b'@' s) [ none ↦ s | some (a, b) ↦ b ]

-- `tag[1:]`
abbrev pub tail : Text → Text
tail [] = []
tail (c ∷ s) = s

unfoldable pub normalize_version : Text → Text
unfolding behind_at has_leading_v
normalize_version tag_value = let s = behind_at tag_value in if has_leading_v s then tail s else s

-- The label, if it has the structure of a version.
unfoldable pub trusted_label : Option (Text × Origin) → Option Text
trusted_label none = none
trusted_label (some (value, origin)) = if has_version_structure value then some value else none

unfoldable pub detect_version :
    Text → Dict Text Text → Option (Dict Text Text) → Option Text → Option Text
unfolding trusted_label
detect_version image_ref image_labels container_labels assumed_version =
    elim (trusted_label (resolve_label image_labels container_labels oci_version_label)) [
      | some value ↦ some value
      | none ↦
          if is_version_tag (tag image_ref latest)
          then some (normalize_version (tag image_ref latest))
          else elim assumed_version [
            | none ↦ none
            | some [] ↦ none
            | some (c ∷ s) ↦ some ((c ∷ s) ++ unverified_suffix)
          ]
    ]

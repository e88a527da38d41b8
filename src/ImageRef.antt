-- ===== src/ImageRef.antt =====
-- custom_components/ha_docker_compose/image_ref.py: image references `name[:tag][@digest]`.
pub mod Tagged
pub mod Registry
mod Tests
use ha_docker_compose.Prelude.{
  Bool, Option, Text, before, codes, elem, if◌then◌else◌, nat_eq, none, not, pair_eq, partition,
  rpartition, some, text_eq, ◌&&◌, ◌++◌, ◌==◌, ◌||◌,
}

abbrev pub latest : Text
latest = codes "latest"

abbrev pub docker_hub : Text
docker_hub = codes "docker.io"

-- `ref.rpartition(":")`, accepted `if sep and "/" not in candidate`
unfoldable pub split_tag : Text → Option (Text × Text)
split_tag ref = elim (rpartition b':' ref) [
  | none ↦ none
  | some (name, candidate) ↦ if elem b'/' candidate then none else some (name, candidate)
]

-- The repository name with any tag or digest stripped.
unfoldable pub repo_name : Text → Text
unfolding split_tag
repo_name image_ref =
    if elem b'@' image_ref
    then before b'@' image_ref
    else elim (split_tag image_ref) [ some (name, candidate) ↦ name | none ↦ image_ref ]

-- The tag of a reference, or the default (`tag` of the source; `latest` is its usual default).
unfoldable pub tag : Text → Text → Text
unfolding split_tag
tag image_ref default =
    if elem b'@' image_ref
    then default
    else elim (split_tag image_ref) [ some (name, candidate) ↦ candidate | none ↦ default ]

pub record ParsedImageRef : Type 0 where
  pub registry : Text
  pub repository : Text
  pub tag : Text

-- `_looks_like_host`
unfoldable pub looks_like_host : Text → Bool
looks_like_host segment = elem b'.' segment || elem b':' segment || segment == codes "localhost"

-- the registry and the rest of a reference
unfoldable pub split_registry : Text → Text × Text
unfolding looks_like_host
split_registry ref = elim (partition b'/' ref) [
  | none ↦ (docker_hub, ref)
  | some (host, remainder) ↦ if looks_like_host host then (host, remainder) else (docker_hub, ref)
]

-- official images of the Docker Hub stand under `library/`
unfoldable pub qualify : Text → Text → Text
qualify registry repository =
    if registry == docker_hub && not (elem b'/' repository)
    then codes "library/" ++ repository
    else repository

-- the repository and the tag behind the registry
unfoldable pub tagged_or_latest : Text → Text × Text
unfolding split_tag
tagged_or_latest remainder = elim (split_tag remainder) [
  | some (name, candidate) ↦ (name, candidate)
  | none ↦ (remainder, latest)
]

unfoldable pub parse_image_ref : Text → ParsedImageRef
unfolding split_registry tagged_or_latest qualify
parse_image_ref image_ref =
    let (registry, remainder) = split_registry (before b'@' image_ref) in
    let (repository, tag_value) = tagged_or_latest remainder in
    record { registry = registry; repository = qualify registry repository; tag = tag_value }

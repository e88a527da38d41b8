-- ===== src/Engine/Images.antt =====
-- engine.py: what is read off a local image, its manifest digest and its labels. An inspected image is
-- its RepoDigests and the labels of its config.
pub mod Digests
use ha_docker_compose.Prelude.{
  Bool, Dict, List, Option, Text, [], false, if◌then◌else◌, nat_eq, none, pair_eq, partition, some,
  text_eq, true, ◌==◌, ◌∷◌,
}
use ha_docker_compose.ComposeFile.{truthy}
use ha_docker_compose.ImageRef.{repo_name}
use ha_docker_compose.Engine.{
  Failure, docker_error, Outcome, done, failed, not_connected, uncaught, Result, returned, raised,
  Docker,
}

-- `RepoDigests` and `Config.Labels`
abbrev pub Image : Type 0
Image = Option (List Text) × Option (Dict Text Text)

-- `name, _, digest = repo_digest.partition("@")`
abbrev pub parts_at : Text → Text × Text
parts_at repo_digest = elim (partition b'@' repo_digest) [
  | some (name, digest) ↦ (name, digest)
  | none ↦ (repo_digest, [])
]

-- One round of the loop: the digest, if this one is of the repository and has one.
unfoldable pub digest_for : Text → Text → Option Text
digest_for target_repo repo_digest =
    let (name, digest) = parts_at repo_digest in
    if name == target_repo then truthy (some digest) else none

unfoldable pub first_digest : Text → List Text → Option Text
unfolding digest_for
first_digest target_repo [] = none
first_digest target_repo (repo_digest ∷ repo_digests) = elim (digest_for target_repo repo_digest) [
  | some digest ↦ some digest
  | none ↦ first_digest target_repo repo_digests
]

abbrev pub or_nothing {ℓ} : {A : Type ℓ} → Option (List A) → List A
or_nothing none = []
or_nothing (some xs) = xs

-- A DockerError is passed over.
unfoldable pub image_result : Outcome Image → Result (Option Image)
image_result (done image) = returned (some image)
image_result (failed (docker_error status)) = returned none
image_result (failed e) = raised (uncaught e)

unfoldable pub digest_result : Text → Result (Option Image) → Result (Option Text)
unfolding first_digest
digest_result image_ref (raised e) = raised e
digest_result image_ref (returned none) = returned none
digest_result image_ref (returned (some image)) =
    returned (first_digest (repo_name image_ref) (or_nothing image.0))

unfoldable pub labels_result : Result (Option Image) → Result (Dict Text Text)
labels_result (raised e) = raised e
labels_result (returned none) = returned []
labels_result (returned (some image)) = returned (or_nothing image.1)

module _ (World : Type 0) (docker : Docker World) (connected : Bool) where
  unfoldable pub inspect_image : Text → World → Result (Option Image) × World
  unfolding image_result
  inspect_image image_ref w = elim connected [
    | false ↦ (raised not_connected, w)
    | true ↦ let (outcome, w') = docker.inspect_image image_ref w in (image_result outcome, w')
  ]

  unfoldable pub get_image_repo_digest : Text → World → Result (Option Text) × World
  unfolding inspect_image digest_result
  get_image_repo_digest image_ref w =
      let (details, w') = inspect_image image_ref w in (digest_result image_ref details, w')

  unfoldable pub get_image_labels : Text → World → Result (Dict Text Text) × World
  unfolding inspect_image labels_result
  get_image_labels image_ref w =
      let (details, w') = inspect_image image_ref w in (labels_result details, w')

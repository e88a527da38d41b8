-- ===== src/GithubCoordinator.antt =====
-- custom_components/ha_docker_compose/github_coordinator.py: the latest release and the detected version
-- of each service. The engine and the HTTP session work on one world.
mod Tests
pub mod Cycle
use ha_docker_compose.Prelude.{
  Bool, Dict, Option, Text, [], false, if◌then◌else◌, insert, nat_eq, none, pair_eq, some, text_eq,
  true, ◌∷◌,
}
use ha_docker_compose.ComposeFile.{ServiceDef, truthy}
use ha_docker_compose.Labels.{resolve_label}
use ha_docker_compose.VersionDetect.{detect_version}
use ha_docker_compose.Storage.{History, get, assumed_of}
use ha_docker_compose.Engine.{Docker, ContainerInfo, Result, returned, raised}
use ha_docker_compose.Engine.Images.{get_image_labels}
use ha_docker_compose.Coordinator.{StackStatus, Statuses, container_for_service}
use ha_docker_compose.GithubRelease.{
  GitHubRelease, oci_source_label, parse_github_repo, Response, fetch_latest_release,
}

pub record ServiceMetadata : Type 0 where
  pub release : Option GitHubRelease
  pub detected_version : Option Text

abbrev pub Services : Type 0
Services = Dict Text ServiceMetadata

-- `metadata.release is not None or metadata.detected_version is not None`
abbrev pub has_signal : ServiceMetadata → Bool
has_signal m = elim m.release [
  | some release ↦ true
  | none ↦ elim m.detected_version [ some version ↦ true | none ↦ false ]
]

abbrev pub labels_or_empty : Result (Dict Text Text) → Dict Text Text
labels_or_empty (returned labels) = labels
labels_or_empty (raised e) = []

abbrev pub container_labels : Option ContainerInfo → Option (Dict Text Text)
container_labels none = none
container_labels (some c) = some c.labels

-- A service is listed if there is a signal, a stack if there is a service.
unfoldable pub put_service : Text → ServiceMetadata → Services → Services
put_service service_name metadata services =
    if has_signal metadata then insert service_name metadata services else services

abbrev pub put_services : Text → Services → Dict Text Services → Dict Text Services
put_services stack_name [] result = result
put_services stack_name (s ∷ services) result = insert stack_name (s ∷ services) result

module _ (World : Type 0) (docker : Docker World) (connected : Bool)
    (fetch : Text → World → Response × World) (history : History) where
  unfoldable pub check_github_release :
      Dict Text Text → Option (Dict Text Text) → World → Option GitHubRelease × World
  unfolding fetch_latest_release
  check_github_release image_labels labels w =
      elim (resolve_label image_labels labels oci_source_label) [
        | none ↦ (none, w)
        | some (source_url, origin) ↦ elim (parse_github_repo source_url) [
          | none ↦ (none, w)
          | some (owner, repo) ↦ fetch_latest_release World fetch owner repo w
        ]
      ]

  unfoldable pub check_one :
      Text → Text → Text → Option ContainerInfo → World → ServiceMetadata × World
  unfolding check_github_release get_image_labels detect_version
  check_one stack_name service_name image_ref container w =
      let (answer, w1) = get_image_labels World docker connected image_ref w in
      let image_labels = labels_or_empty answer in
      let (release, w2) = check_github_release image_labels (container_labels container) w1 in
      (
        record {
          release = release;
          detected_version =
              detect_version image_ref image_labels (container_labels container)
                (assumed_of (get history stack_name service_name));
        },
        w2,
      )

  -- One round of the loop over the services of a stack.
  unfoldable pub check_service :
      Text → StackStatus → Text → ServiceDef → Services → World → Services × World
  unfolding check_one put_service
  check_service stack_name status service_name service_def services w =
      elim (truthy service_def.image) [
        | none ↦ (services, w)
        | some image_ref ↦
            let (metadata, w') =
              check_one stack_name service_name image_ref
                (container_for_service status service_name) w in
            (put_service service_name metadata services, w')
      ]

  unfoldable pub check_services :
      Text → StackStatus → Dict Text ServiceDef → Services → World → Services × World
  unfolding check_service
  check_services stack_name status [] services w = (services, w)
  check_services stack_name status ((service_name, service_def) ∷ rest) services w =
      let (services', w') = check_service stack_name status service_name service_def services w in
      check_services stack_name status rest services' w'

  unfoldable pub check_stacks : Statuses → Dict Text Services → World → Dict Text Services × World
  unfolding check_services
  check_stacks [] result w = (result, w)
  check_stacks ((stack_name, status) ∷ rest) result w =
      let (services, w') =
        check_services stack_name status status.info.compose_config.services [] w in
      check_stacks rest (put_services stack_name services result) w'

  unfoldable pub async_update_data : Statuses → World → Dict Text Services × World
  unfolding check_stacks
  async_update_data statuses w = check_stacks statuses [] w

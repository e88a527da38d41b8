-- ===== src/TagWalk.antt =====
-- custom_components/ha_docker_compose/tag_walk_coordinator.py: the newest tag of each service's image,
-- and the tag that a pull would fetch now. The registry's answers are values.
mod Tests
pub mod Search
pub mod Merge
pub mod Sweep
use ha_docker_compose.Prelude.{
  Dict, List, Option, Text, [], add, codes, discard, elem, if◌then◌else◌, insert, keep, lookup,
  nat_eq, none, pair_eq, remove, some, take, text_eq, ℕ, ◌&&◌, ◌++◌, ◌==◌, ◌∷◌,
}
use ha_docker_compose.ImageRef.{repo_name}
use ha_docker_compose.ComposeFile.{ServiceDef, truthy}
use ha_docker_compose.Labels.{parse_compose_labels}
use ha_docker_compose.RegistryClient.{Result, ok, err, Failure, transient, auth_denied, unsupported}
use ha_docker_compose.TagFilter.{
  Compiler, filter_tags, Versions, rank_final_versions, select_newest_version_tag,
}
use ha_docker_compose.UpdateCoordinator.{Key, StackUpdateSummary, remote_of, is_running_state}
use ha_docker_compose.Coordinator.{StackStatus, Statuses}
use ha_docker_compose.Storage.{or_empty}
use ha_docker_compose.PullJobs.{TagWalkStatus}

abbrev pub pull_target_max_digest_lookups : ℕ
pull_target_max_digest_lookups = 15

abbrev pub tag_include_label : Text
tag_include_label = codes "ha_docker_compose.tag_include"

abbrev pub tag_exclude_label : Text
tag_exclude_label = codes "ha_docker_compose.tag_exclude"

abbrev pub no_status : TagWalkStatus
no_status = record { latest_registry_tag = none; pull_target_version = none }

-- `previous or ServiceTagWalkStatus()`
abbrev pub or_no_status : Option TagWalkStatus → TagWalkStatus
or_no_status none = no_status
or_no_status (some status) = status

-- The (stack, service) pairs that were logged already.
pub record Warned : Type 0 where
  pub unsupported_keys : List Key
  pub denied_keys : List Key

-- `registry` is what `get_manifest_digest` answers for a reference.
module _ (registry : Text → Result Text) where
  -- The loop over the ranked candidates. Only a RegistryError is caught.
  unfoldable pub search_candidates : Text → Text → List Text → Result (Option Text)
  search_candidates repo pinned_digest [] = ok none
  search_candidates repo pinned_digest (tag ∷ ranked) =
      let rest = search_candidates repo pinned_digest ranked in
      elim (registry (repo ++ b':' ∷ tag)) [
        | ok digest ↦ if digest == pinned_digest then ok (some tag) else rest
        | err transient ↦ rest
        | err auth_denied ↦ err auth_denied
        | err unsupported ↦ err unsupported
      ]

  module _ (v : Versions) where
    unfoldable pub find_pull_target_version : Text → List Text → Text → Result (Option Text)
    unfolding search_candidates
    find_pull_target_version image_ref candidates pinned_digest =
        search_candidates (repo_name image_ref) pinned_digest
          (take pull_target_max_digest_lookups (rank_final_versions v candidates))

    -- `if pinned_digest`
    unfoldable pub pull_target : Text → List Text → Option Text → Result (Option Text)
    unfolding find_pull_target_version
    pull_target image_ref candidates pinned_digest = elim (truthy pinned_digest) [
      | none ↦ ok none
      | some digest ↦ find_pull_target_version image_ref candidates digest
    ]

    abbrev pub with_latest : Option Text → Result (Option Text) → Result TagWalkStatus
    with_latest latest (err e) = err e
    with_latest latest (ok target) =
        ok (record { latest_registry_tag = latest; pull_target_version = target })

    -- What a tag list that was fetched gives.
    unfoldable pub status_of_tags :
        Compiler → ServiceDef → Text → Option Text → List Text → Result TagWalkStatus
    unfolding pull_target
    status_of_tags compile service_def image_ref pinned_digest raw_tags =
        let labels = parse_compose_labels service_def in
        let tag_include = truthy (lookup tag_include_label labels) in
        let tag_exclude = truthy (lookup tag_exclude_label labels) in
        let candidates = filter_tags compile raw_tags tag_include tag_exclude in
        with_latest (select_newest_version_tag v candidates)
          (pull_target image_ref candidates pinned_digest)

    -- `_check_one`, with the answer to `list_tags`
    unfoldable pub check_one :
        Compiler
        → Key
        → ServiceDef
        → Text
        → Option Text
        → Option TagWalkStatus
        → Result (List Text)
        → Warned
        → Result TagWalkStatus × Warned
    unfolding status_of_tags
    check_one compile key service_def image_ref pinned_digest previous (err unsupported) w =
        (ok no_status, record w { unsupported_keys = add key w.unsupported_keys })
    check_one compile key service_def image_ref pinned_digest previous (err auth_denied) w =
        (ok no_status, record w { denied_keys = add key w.denied_keys })
    check_one compile key service_def image_ref pinned_digest previous (err transient) w =
        (ok (or_no_status previous), w)
    check_one compile key service_def image_ref pinned_digest previous (ok raw_tags) w = (
      status_of_tags compile service_def image_ref pinned_digest raw_tags,
      record {
        unsupported_keys = discard key w.unsupported_keys;
        denied_keys = discard key w.denied_keys;
      },
    )

abbrev pub Walked : Type 0
Walked = Dict Text (Dict Text TagWalkStatus)

-- The loop of `async_refresh_stacks` that merges what was walked into the data.
unfoldable pub merge_walked : List (Text × Dict Text TagWalkStatus) → Walked → Walked
merge_walked [] merged = merged
merge_walked ((stack_name, []) ∷ results) merged = merge_walked results (remove stack_name merged)
merge_walked ((stack_name, s ∷ services) ∷ results) merged =
    merge_walked results (insert stack_name (s ∷ services) merged)

abbrev pub pinned_of : Option StackUpdateSummary → Text → Option Text
pinned_of none service_name = none
pinned_of (some summary) service_name = remote_of (lookup service_name summary.services)

-- `{name: status … if name in stack_names and status.state == STACK_STATE_RUNNING}`
unfoldable pub targets_of : List Text → Statuses → Statuses
targets_of stack_names statuses =
    keep (λ s. elem s.0 stack_names && is_running_state s.1.state) statuses

-- `{name: status … if status.state == STACK_STATE_RUNNING}`
unfoldable pub running_stacks : Statuses → Statuses
running_stacks statuses = keep (λ s. is_running_state s.1.state) statuses

-- The loop of the sweep that lists the stacks for which something was walked.
unfoldable pub collect_walked : List (Text × Dict Text TagWalkStatus) → Walked → Walked
collect_walked [] result = result
collect_walked ((stack_name, []) ∷ results) result = collect_walked results result
collect_walked ((stack_name, s ∷ services) ∷ results) result =
    collect_walked results (insert stack_name (s ∷ services) result)

-- `registry` answers digest lookups, `listing` the tag lists of the services, and `data` is what the
-- coordinator has.
module _ (registry : Text → Result Text) (v : Versions) (compile : Compiler)
    (listing : Key → Result (List Text)) (data' : Walked) where
  -- The loop of `_walk_stack`; an exception of a check leaves it.
  unfoldable pub walk_services :
      Text
      → Option StackUpdateSummary
      → Dict Text ServiceDef
      → Dict Text TagWalkStatus
      → Warned
      → Result (Dict Text TagWalkStatus) × Warned
  unfolding check_one
  walk_services stack_name summary [] services w = (ok services, w)
  walk_services stack_name summary ((service_name, service_def) ∷ rest) services w =
      elim (truthy service_def.image) [
        | none ↦ walk_services stack_name summary rest services w
        | some image_ref ↦
            let key : Key = (stack_name, service_name) in
            let previous = lookup service_name (or_empty (lookup stack_name data')) in
            let (status, w') =
              check_one registry v compile key service_def image_ref
                (pinned_of summary service_name) previous (listing key) w in
            elim status [
              | err e ↦ (err e, w')
              | ok s ↦ walk_services stack_name summary rest (insert service_name s services) w'
            ]
      ]

  unfoldable pub walk_stack :
      Text
      → StackStatus
      → Option StackUpdateSummary
      → Warned
      → Result (Dict Text TagWalkStatus) × Warned
  unfolding walk_services
  walk_stack stack_name status summary w =
      walk_services stack_name summary status.info.compose_config.services [] w

  -- The stacks are walked concurrently, each with its own keys; here they are walked in turn, and the
  -- first exception is the outcome.
  unfoldable pub walk_stacks :
      Dict Text StackUpdateSummary → Statuses → Warned → Result Walked × Warned
  unfolding walk_stack
  walk_stacks digest_data [] w = (ok [], w)
  walk_stacks digest_data ((name, status) ∷ targets) w =
      let (walked, w') = walk_stack name status (lookup name digest_data) w in
      elim walked [
        | err e ↦ (err e, w')
        | ok services ↦
            let (others, w'') = walk_stacks digest_data targets w' in
            elim others [
              | err e ↦ (err e, w'')
              | ok results ↦ (ok ((name, services) ∷ results), w'')
            ]
      ]

  -- `async_refresh_stacks`: the data after it, or the exception that leaves it as it was.
  unfoldable pub async_refresh_stacks :
      Dict Text StackUpdateSummary → List Text → Statuses → Warned → Result Walked × Warned
  unfolding walk_stacks targets_of merge_walked
  async_refresh_stacks digest_data stack_names statuses w =
      let (walked, w') = walk_stacks digest_data (targets_of stack_names statuses) w in
      elim walked [ err e ↦ (err e, w') | ok results ↦ (ok (merge_walked results data'), w') ]

  -- The scheduled `_async_update_data`. With no running stack there is no walk, and the loops below do
  -- nothing.
  unfoldable pub async_update_data :
      Dict Text StackUpdateSummary → Statuses → Warned → Result Walked × Warned
  unfolding walk_stacks running_stacks collect_walked
  async_update_data digest_data statuses w =
      let (walked, w') = walk_stacks digest_data (running_stacks statuses) w in
      elim walked [ err e ↦ (err e, w') | ok results ↦ (ok (collect_walked results []), w') ]

-- ===== src/UpdateCoordinator.antt =====
-- custom_components/ha_docker_compose/update_coordinator.py: whether an update is available for each
-- service. What the engine and the registry answer for a service is a value.
mod Tests
pub mod Summary
pub mod Checks
use ha_docker_compose.Prelude.{
  Bool, Dict, List, Option, Text, [], add, any, discard, elem, false, if◌then◌else◌, insert, lookup,
  map, nat_eq, none, not, pair_eq, some, text_eq, true, ◌==◌, ◌||◌, ◌∷◌,
}
use ha_docker_compose.ComposeFile.{ServiceDef, truthy}
use ha_docker_compose.Storage.{History, get, digest_of, PullRecord}
use ha_docker_compose.RegistryClient.{Result, ok, err, Failure, transient, auth_denied, unsupported}
use ha_docker_compose.Coordinator.{
  StackStatus, StackState, running, partial, stopped, orphaned, Statuses,
}

pub record ServiceUpdateStatus : Type 0 where
  pub image : Text
  pub local_digest : Option Text
  pub remote_digest : Option Text
  pub registry_supported : Bool
  pub denied : Bool
  pub tag : Option Text
  pub last_pulled : Option Text
  pub previous_digest : Option Text

-- `ServiceUpdateStatus.update_available`; `none` means "can't tell"
unfoldable pub update_available : ServiceUpdateStatus → Option Bool
update_available s =
    if not s.registry_supported || s.denied then none else elim (truthy s.local_digest) [
      | none ↦ none
      | some local ↦ elim (truthy s.remote_digest) [
        | none ↦ none
        | some remote ↦ some (not (local == remote))
      ]
    ]

abbrev pub Services : Type 0
Services = Dict Text ServiceUpdateStatus

pub record StackUpdateSummary : Type 0 where
  pub services : Services
  pub update_available : Option Bool

abbrev pub is_true : Option Bool → Bool
is_true none = false
is_true (some b) = b

abbrev pub is_unknown : Option Bool → Bool
is_unknown none = true
is_unknown (some b) = false

unfoldable pub aggregate_update_available : Services → Option Bool
aggregate_update_available [] = none
aggregate_update_available (s ∷ services) =
    let results = map (λ p. update_available p.1) (s ∷ services) in
    if any is_true results then some true else if any is_unknown results then none else some false

-- A service of a stack.
abbrev pub Key : Type 0
Key = Text × Text

-- The state of the coordinator: what was logged already, and which services have an update pending.
pub record Checker : Type 0 where
  pub warned_unsupported : List Key
  pub warned_auth_denied : List Key
  pub known_on_services : List Key

abbrev pub remote_of : Option ServiceUpdateStatus → Option Text
remote_of none = none
remote_of (some s) = s.remote_digest

abbrev pub tag_of : Option PullRecord → Option Text
tag_of none = none
tag_of (some r) = some r.tag

abbrev pub pulled_at_of : Option PullRecord → Option Text
pulled_at_of none = none
pulled_at_of (some r) = some r.pulled_at

abbrev pub previous_of : Option PullRecord → Option Text
previous_of none = none
previous_of (some r) = r.previous_digest

abbrev pub status_of :
    Text → Option Text → Option Text → Bool → Bool → Option PullRecord → ServiceUpdateStatus
status_of image_ref local_digest remote_digest registry_supported denied history_record = record {
  image = image_ref;
  local_digest = local_digest;
  remote_digest = remote_digest;
  registry_supported = registry_supported;
  denied = denied;
  tag = tag_of history_record;
  last_pulled = pulled_at_of history_record;
  previous_digest = previous_of history_record;
}

-- `_check_one`, with the local digest (`none` also where the lookup raises) and the registry's answer.
unfoldable pub check_one :
    History
    → Key
    → Text
    → Option ServiceUpdateStatus
    → Option Text
    → Result Text
    → Checker
    → ServiceUpdateStatus × Checker
check_one history key image_ref previous local_digest (ok digest) k = (
  status_of image_ref local_digest (some digest) true false (get history key.0 key.1),
  record k {
    warned_unsupported = discard key k.warned_unsupported;
    warned_auth_denied = discard key k.warned_auth_denied;
  },
)
check_one history key image_ref previous local_digest (err unsupported) k = (
  status_of image_ref local_digest (remote_of previous) false false (get history key.0 key.1),
  record k { warned_unsupported = add key k.warned_unsupported },
)
check_one history key image_ref previous local_digest (err auth_denied) k = (
  status_of image_ref local_digest (remote_of previous) true true (get history key.0 key.1),
  record k { warned_auth_denied = add key k.warned_auth_denied },
)
check_one history key image_ref previous local_digest (err transient) k =
    (status_of image_ref local_digest (remote_of previous) true false (get history key.0 key.1), k)

-- One pass over the services of a stack: what it has found, the checker, and the stacks with a service
-- whose update has just appeared.
pub record Pass : Type 0 where
  pub services : Services
  pub checker : Checker
  pub transitioned_stacks : List Text

abbrev pub previous_status : Option StackUpdateSummary → Text → Option ServiceUpdateStatus
previous_status none service = none
previous_status (some summary) service = lookup service summary.services

-- What a service's new status does to the known services and to the transitioned stacks.
unfoldable pub note_status : Key → ServiceUpdateStatus → Pass → Pass
note_status key status p =
    let k = p.checker in
    let noted : Pass = record p { services = insert key.1 status p.services } in
    if is_true (update_available status)
    then record noted {
      checker = record k { known_on_services = add key k.known_on_services };
      transitioned_stacks =
          if elem key k.known_on_services
          then p.transitioned_stacks
          else add key.0 p.transitioned_stacks;
    }
    else record noted { checker = record k { known_on_services = discard key k.known_on_services } }

abbrev pub is_running_state : StackState → Bool
is_running_state running = true
is_running_state partial = false
is_running_state stopped = false
is_running_state orphaned = false

abbrev pub summarised :
    Text → Services → Dict Text StackUpdateSummary → Dict Text StackUpdateSummary
summarised stack_name [] result = result
summarised stack_name (s ∷ services) result =
    insert stack_name
      (record {
        services = s ∷ services;
        update_available = aggregate_update_available (s ∷ services);
      })
      result

-- `local` and `remote` are what the engine and the registry answer for a service in this cycle.
module _ (history : History) (local : Key → Option Text) (remote : Key → Result Text) where
  unfoldable pub check_service : Text → Option StackUpdateSummary → Text → ServiceDef → Pass → Pass
  unfolding check_one note_status
  check_service stack_name previous_services service_name service_def p =
      elim (truthy service_def.image) [
        | none ↦ p
        | some image_ref ↦
            let key : Key = (stack_name, service_name) in
            let (status, checker) =
              check_one history key image_ref (previous_status previous_services service_name)
                (local key) (remote key) p.checker in
            note_status key status (record p { checker = checker })
      ]

  unfoldable pub check_services :
      Text → Option StackUpdateSummary → Dict Text ServiceDef → Pass → Pass
  unfolding check_service
  check_services stack_name previous_services [] p = p
  check_services stack_name previous_services ((service_name, service_def) ∷ services) p =
      check_services stack_name previous_services services
        (check_service stack_name previous_services service_name service_def p)

  -- The loop of `_async_update_data` over the stacks: the result, the checker after it, and the stacks
  -- that the transition callback is fired for, if there are any.
  unfoldable pub check_stacks :
      Dict Text StackUpdateSummary
      → Statuses
      → Dict Text StackUpdateSummary
      → Checker
      → List Text
      → Dict Text StackUpdateSummary × Checker × List Text
  unfolding check_services
  check_stacks previous_data [] result checker transitioned = (result, checker, transitioned)
  check_stacks previous_data ((stack_name, status) ∷ statuses) result checker transitioned =
      elim (is_running_state status.state) [
        | false ↦ check_stacks previous_data statuses result checker transitioned
        | true ↦
            let pass =
              check_services stack_name (lookup stack_name previous_data)
                status.info.compose_config.services
                (record { services = []; checker = checker; transitioned_stacks = transitioned }) in
            check_stacks previous_data statuses (summarised stack_name pass.services result)
              pass.checker pass.transitioned_stacks
      ]

  unfoldable pub async_update_data :
      Dict Text StackUpdateSummary
      → Statuses
      → Checker
      → Dict Text StackUpdateSummary × Checker × List Text
  unfolding check_stacks
  async_update_data previous_data stack_statuses checker =
      check_stacks previous_data stack_statuses [] checker []

-- ===== src/DeviceIds.antt =====
-- custom_components/ha_docker_compose/device_ids.py and `_async_prune_stale_devices` of __init__.py: the
-- identifiers that devices are expected to have, and which devices a reload removes.
mod Tests
pub mod Pruning
use ha_docker_compose.Prelude.{
  Bool, List, Text, [], add, any, codes, elem, keep, nat_eq, not, pair_eq, text_eq, ◌++◌, ◌∷◌,
}
use ha_docker_compose.Discovery.{StackInfo, service_names}

abbrev pub domain : Text
domain = codes "ha_docker_compose"

-- `DeviceIdentifier`
abbrev pub Identifier : Type 0
Identifier = Text × Text

unfoldable pub stack_device_identifier : Text → Text → Identifier
stack_device_identifier entry_id stack_name = (domain, entry_id ++ b'_' ∷ stack_name)

unfoldable pub service_device_identifier : Text → Text → Text → Identifier
service_device_identifier entry_id stack_name service_name =
    (domain, entry_id ++ b'_' ∷ (stack_name ++ b'_' ∷ service_name))

-- the inner loop, over the services of a stack
unfoldable pub add_services : Text → Text → List Text → List Identifier → List Identifier
add_services entry_id stack_name [] identifiers = identifiers
add_services entry_id stack_name (service ∷ services) identifiers =
    add_services entry_id stack_name services
      (add (service_device_identifier entry_id stack_name service) identifiers)

unfoldable pub add_stacks : Text → List StackInfo → List Identifier → List Identifier
unfolding add_services
add_stacks entry_id [] identifiers = identifiers
add_stacks entry_id (stack ∷ stacks) identifiers = add_stacks entry_id stacks (
    add_services entry_id stack.name (service_names stack)
      (add (stack_device_identifier entry_id stack.name) identifiers))

unfoldable pub expected_device_identifiers : Text → List StackInfo → List Identifier
unfolding add_stacks
expected_device_identifiers entry_id stacks = add_stacks entry_id stacks []

-- A device of the registry is its identifiers; `isdisjoint` is that none of them is expected.
abbrev pub is_disjoint : List Identifier → List Identifier → Bool
is_disjoint identifiers expected = not (any (λ i. elem i expected) identifiers)

-- The devices of the entry that are left.
unfoldable pub prune_stale_devices :
    Text → List StackInfo → List (List Identifier) → List (List Identifier)
unfolding expected_device_identifiers
prune_stale_devices entry_id stacks devices =
    keep (λ d. not (is_disjoint d (expected_device_identifiers entry_id stacks))) devices

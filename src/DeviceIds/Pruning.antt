-- ===== src/DeviceIds/Pruning.antt =====
-- device_ids.py: which identifiers are expected, told directly, and when two of them are the same.
use ha_docker_compose.Prelude.{
  Bool, Bool-cases, List, Text, [], add, any, ap, arith, elem, elem-add, eq_iff, inl, inr, keep,
  nat_eq, pair_eq, text_eq, true, ◌++◌, ◌==◌, ◌||◌, ◌∷◌, ◌≡◌,
}
use ha_docker_compose.Discovery.{StackInfo, service_names}
use ha_docker_compose.DeviceIds.{
  Identifier, stack_device_identifier, service_device_identifier, add_services, add_stacks,
  expected_device_identifiers, prune_stale_devices,
}

-- The identifier is that of one of the services.
abbrev pub is_service_of : Text → Text → List Text → Identifier → Bool
is_service_of entry_id stack_name services i =
    any (λ s. service_device_identifier entry_id stack_name s == i) services

-- The identifier is that of the stack, or of one of its services.
abbrev pub is_device_of : Text → Identifier → StackInfo → Bool
is_device_of entry_id i stack =
    stack_device_identifier entry_id stack.name == i
    || is_service_of entry_id stack.name (service_names stack) i

elem-add_services :
    (e n : Text) (services : List Text) (ids : List Identifier) (i : Identifier)
    → elem i (add_services e n services ids) ≡ (elem i ids || is_service_of e n services i)
unfolding add_services any
elem-add_services e n [] ids i = ground arith
elem-add_services e n (s ∷ services) ids i =
    let id = service_device_identifier e n s in
    ground (arith, elem-add_services e n services (add id ids) i, elem-add id i ids)

elem-add_stacks :
    (e : Text) (stacks : List StackInfo) (ids : List Identifier) (i : Identifier)
    → elem i (add_stacks e stacks ids) ≡ (elem i ids || any (is_device_of e i) stacks)
unfolding add_stacks any
elem-add_stacks e [] ids i = ground arith
elem-add_stacks e (s ∷ stacks) ids i =
    let id = stack_device_identifier e s.name in
    let inner = add_services e s.name (service_names s) (add id ids) in
    ground (
      arith,
      elem-add_stacks e stacks inner i,
      elem-add_services e s.name (service_names s) (add id ids) i,
      elem-add id i ids,
    )

-- An identifier is expected exactly when it is that of a discovered stack or of one of its services.
pub elem-expected_device_identifiers :
    (entry_id : Text) (stacks : List StackInfo) (i : Identifier)
    → elem i (expected_device_identifiers entry_id stacks) ≡ any (is_device_of entry_id i) stacks
unfolding expected_device_identifiers elem
elem-expected_device_identifiers entry_id stacks i = elem-add_stacks entry_id stacks [] i

any-is_device_of :
    (e a b : Text) (stacks : List StackInfo)
    → any (λ s. s.name == a ++ b'_' ∷ b) stacks ≡ true
    → any (is_device_of e (service_device_identifier e a b)) stacks ≡ true
unfolding any stack_device_identifier service_device_identifier
any-is_device_of e a b [] h = h
any-is_device_of e a b (s ∷ stacks) h = elim (Bool-cases (s.name == a ++ b'_' ∷ b)) [
  | inl this ↦
      let is : s.name ≡ a ++ b'_' ∷ b = (eq_iff s.name (a ++ b'_' ∷ b)).0 this in
      let id : Identifier = service_device_identifier e a b in
      let same : (stack_device_identifier e s.name == id) ≡ true =
        (eq_iff (stack_device_identifier e s.name) id).1
          (ap (λ n. stack_device_identifier e n) is) in
      ground (arith, same)
  | inr not_this ↦ ground (arith, any-is_device_of e a b stacks (ground (arith, not_this, h)))
]

-- The device of a service survives every reload while some stack has the name of its stack, an
-- underscore and its own name, whether or not the service is found on disk any more.
pub prune_stale_devices-collision :
    (entry_id stack_name service_name : Text) (stacks : List StackInfo)
    → any (λ s. s.name == stack_name ++ b'_' ∷ service_name) stacks ≡ true
    → prune_stale_devices entry_id stacks
        ((service_device_identifier entry_id stack_name service_name ∷ []) ∷ [])
      ≡ (service_device_identifier entry_id stack_name service_name ∷ []) ∷ []
unfolding prune_stale_devices keep any
prune_stale_devices-collision entry_id stack_name service_name stacks h =
    let id = service_device_identifier entry_id stack_name service_name in
    ground (
      arith,
      elem-expected_device_identifiers entry_id stacks id,
      any-is_device_of entry_id stack_name service_name stacks h,
    )

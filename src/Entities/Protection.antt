-- ===== src/Entities/Protection.antt =====
-- The entities that act on containers, against the protection of services and stacks.
use ha_docker_compose.Prelude.{
  All, All-append, Bool, Bool-cases, List, Option, Text, [], all, arith, false, if◌then◌else◌, inl,
  inr, map, none, not, refl, some, true, ◌∷◌, ◌≡◌, ◌⊎◌,
}
use ha_docker_compose.ComposeFile.{ServiceDef}
use ha_docker_compose.Labels.{is_service_protected, is_stack_protected}
use ha_docker_compose.Discovery.{StackInfo}
use ha_docker_compose.Entities.{
  Kind, stack_switch, stack_pull_button, service_running_switch, service_restart_button, Entity,
  of_stack, of_service, add_each, Service, service_switches, stack_switches, switches,
  service_buttons, stack_buttons, buttons, service_sensor_kinds, service_sensors, stack_sensors,
  sensors, service_binary_sensors, stack_binary_sensors, binary_sensors, entities,
}

-- The classes whose entities start, stop, restart or recreate containers.
abbrev pub is_action : Kind → Bool
is_action stack_switch = true
is_action stack_pull_button = true
is_action service_running_switch = true
is_action service_restart_button = true
is_action _ = false

abbrev pub IsAmong : {A : Type 0} → A → List A → Type 0
IsAmong x [] = ⊥
IsAmong x (y ∷ ys) = (x ≡ y) ⊎ IsAmong x ys

-- An action is open for an entity if its service is not protected, or no service of its stack is.
abbrev pub IsOpenFor : StackInfo → Option Text → Type 0
IsOpenFor stack none = is_stack_protected stack.compose_config ≡ false
IsOpenFor stack (some service) =
    (d : ServiceDef) × IsAmong (service, d) stack.compose_config.services
    × (is_service_protected d ≡ false)

abbrev pub IsOpen : List StackInfo → Entity → Type 0
IsOpen stacks e =
    is_action e.kind ≡ true
    → (stack : StackInfo) × IsAmong stack stacks
      × (e.stack ≡ some stack.name)
      × IsOpenFor stack e.service

All-add_each :
    {A : Type 0} (P : Entity → Type 0) (f : A → List Entity) (xs : List A)
    → ((x : A) → IsAmong x xs → All P (f x))
    → All P (add_each f xs)
unfolding add_each
All-add_each P f [] h = tt
All-add_each P f (x ∷ xs) h =
    All-append P (f x) (add_each f xs) (h x (inl refl)) (All-add_each P f xs (λ y k. h y (inr k)))

-- An entity that is no action is never asked for anything.
no_action : {P : Type 0} → false ≡ true → P
no_action act = absurd (cc)

all_passive : all (λ k. not (is_action k)) service_sensor_kinds ≡ true
unfolding all
all_passive = refl

module _ (stacks : List StackInfo) (stack : StackInfo) (here : IsAmong stack stacks) where
  stack_entity :
      (kind : Kind)
      → is_stack_protected stack.compose_config ≡ false
      → IsOpen stacks (of_stack kind stack)
  stack_entity kind h act = (stack, here, refl, h)

  service_entity :
      (kind : Kind) (s : Service)
      → IsAmong s stack.compose_config.services
      → is_service_protected s.1 ≡ false
      → IsOpen stacks (of_service stack s.0 kind)
  service_entity kind s among h act = (stack, here, refl, (s.1, among, h))

  IsOpen-stack :
      (kind : Kind)
      → All
          (IsOpen stacks)
          (if is_stack_protected stack.compose_config then [] else of_stack kind stack ∷ [])
  IsOpen-stack kind = elim (Bool-cases (is_stack_protected stack.compose_config)) [
    | inl h ↦ rw h tt
    | inr h ↦ rw h (stack_entity kind h, tt)
  ]

  IsOpen-service :
      (kind : Kind) (s : Service)
      → IsAmong s stack.compose_config.services
      → All
          (IsOpen stacks)
          (if is_service_protected s.1 then [] else of_service stack s.0 kind ∷ [])
  IsOpen-service kind s among = elim (Bool-cases (is_service_protected s.1)) [
    | inl h ↦ rw h tt
    | inr h ↦ rw h (service_entity kind s among h, tt)
  ]

  stack_switches-Open : All (IsOpen stacks) (stack_switches stack)
  unfolding stack_switches service_switches
  stack_switches-Open = All-append (IsOpen stacks) _ _ (IsOpen-stack stack_switch) (
      All-add_each (IsOpen stacks) (service_switches stack) stack.compose_config.services
        (λ s among. IsOpen-service service_running_switch s among))

  stack_buttons-Open : All (IsOpen stacks) (stack_buttons stack)
  unfolding stack_buttons service_buttons
  stack_buttons-Open = All-append (IsOpen stacks) _ _ (IsOpen-stack stack_pull_button) (
    no_action,
    All-add_each (IsOpen stacks) (service_buttons stack) stack.compose_config.services
        (λ s among. (no_action, IsOpen-service service_restart_button s among)),
  )

  passive_kinds :
      (service : Text) (kinds : List Kind)
      → all (λ k. not (is_action k)) kinds ≡ true
      → All (IsOpen stacks) (map (of_service stack service) kinds)
  unfolding all
  passive_kinds service [] h = tt
  passive_kinds service (k ∷ kinds) h =
      (λ act. absurd (ground (arith, h, act)), passive_kinds service kinds (ground (arith, h)))

  stack_sensors-Open : All (IsOpen stacks) (stack_sensors stack)
  unfolding stack_sensors service_sensors
  stack_sensors-Open = (
    no_action,
    (
      no_action,
      All-add_each (IsOpen stacks) (service_sensors stack) stack.compose_config.services
          (λ s among. passive_kinds s.0 service_sensor_kinds all_passive),
    ),
  )

  stack_binary_sensors-Open : All (IsOpen stacks) (stack_binary_sensors stack)
  unfolding stack_binary_sensors service_binary_sensors
  stack_binary_sensors-Open = (
    no_action,
    All-add_each (IsOpen stacks) (service_binary_sensors stack) stack.compose_config.services
        (λ s among. (no_action, tt)),
  )

-- No entity of any platform acts on a protected service, or on a whole stack that has one: each that
-- starts, stops, restarts or recreates containers belongs to a discovered stack, and is for a service of
-- it that is not protected, or for the stack if none of its services is.
pub entities-Open : (stacks : List StackInfo) → All (IsOpen stacks) (entities stacks)
unfolding entities switches buttons sensors binary_sensors
entities-Open stacks =
    All-append (IsOpen stacks) _ _
      (All-add_each (IsOpen stacks) stack_switches stacks (stack_switches-Open stacks))
      (All-append (IsOpen stacks) _ _
        (All-add_each (IsOpen stacks) stack_buttons stacks (stack_buttons-Open stacks))
        (All-append (IsOpen stacks) _ _
          (All-append (IsOpen stacks) _ _
            (All-add_each (IsOpen stacks) stack_sensors stacks (stack_sensors-Open stacks))
            (no_action, (no_action, tt)))
          (All-add_each (IsOpen stacks) stack_binary_sensors stacks
            (stack_binary_sensors-Open stacks))))

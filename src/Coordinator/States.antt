-- ===== src/Coordinator/States.antt =====
-- `_derive_stack_state` of coordinator.py against what the states mean.
use ha_docker_compose.Prelude.{
  Bool, Bool-cases, List, Option-cases, Text, [], add, all, any, arith, elem, elem-add, false, inl,
  inr, keep, nat_eq, none, not, pair_eq, refl, some, text_eq, true, ◌&&◌, ◌==◌, ◌↔◌, ◌∷◌, ◌≡◌, ◌≢◌,
  ◌⊎◌,
}
use ha_docker_compose.ComposeFile.{truthy}
use ha_docker_compose.Engine.{ContainerInfo}
use ha_docker_compose.Discovery.{StackInfo, service_names}
use ha_docker_compose.Coordinator.{
  running, stopped, services_of, is_running, expected_services, is_empty, derive_stack_state,
}

-- A running container of the service.
abbrev pub runs : Text → ContainerInfo → Bool
runs service c = elim (truthy c.service) [ none ↦ false | some s ↦ is_running c && (s == service) ]

-- A running container of any service.
abbrev pub runs_some : ContainerInfo → Bool
runs_some c = elim (truthy c.service) [ none ↦ false | some s ↦ is_running c ]

elem-services_of :
    (service : Text) (cs : List ContainerInfo)
    → elem service (services_of (keep is_running cs)) ≡ any (runs service) cs
unfolding services_of keep any elem
elem-services_of service [] = refl
elem-services_of service (c ∷ cs) = elim (Option-cases (truthy c.service)) [
  | inl e ↦ ground (arith, e, elem-services_of service cs)
  | inr (s, e) ↦
      ground (
        arith,
        e,
        elem-services_of service cs,
        elem-add s service (services_of (keep is_running cs)),
      )
]

add-some : (x : Text) (s : List Text) → is_empty (add x s) ≡ false
unfolding add elem
add-some x [] = refl
add-some x (y ∷ s) = ground arith

services_of-is_empty :
    (cs : List ContainerInfo) → is_empty (services_of (keep is_running cs)) ≡ not (any runs_some cs)
unfolding services_of keep any add elem
services_of-is_empty [] = refl
services_of-is_empty (c ∷ cs) = elim (Option-cases (truthy c.service)) [
  | inl e ↦ ground (arith, e, services_of-is_empty cs)
  | inr (s, e) ↦
      ground (arith, e, services_of-is_empty cs, add-some s (services_of (keep is_running cs)))
]

all_ext : (p q : Text → Bool) (xs : List Text) → ((x : Text) → p x ≡ q x) → all p xs ≡ all q xs
unfolding all
all_ext p q [] h = refl
all_ext p q (x ∷ xs) h = ground (arith, h x, all_ext p q xs h)

all_none :
    (p : Text → Bool) (xs : List Text)
    → ((x : Text) → p x ≡ false)
    → is_empty xs ≡ false
    → all p xs ≡ false
unfolding all
all_none p [] h e = cc
all_none p (x ∷ xs) h e = ground (arith, h x)

List-cases : (xs : List Text) → (xs ≡ []) ⊎ ((x : Text) × (ys : List Text) × (xs ≡ x ∷ ys))
List-cases [] = inl refl
List-cases (x ∷ xs) = inr (x, xs, refl)

elem-empty : (x : Text) (s : List Text) → is_empty s ≡ true → elem x s ≡ false
unfolding elem
elem-empty x [] h = refl
elem-empty x (y ∷ s) h = cc

-- A stack is stopped exactly when no container of any of its services runs.
pub derive_stack_state-stopped :
    (stack : StackInfo) (containers : List ContainerInfo)
    → (derive_stack_state stack containers ≡ stopped) ↔ (any runs_some containers ≡ false)
unfolding derive_stack_state
derive_stack_state-stopped stack [] = (λ _. unfold any in refl, λ _. refl)
derive_stack_state-stopped stack (c ∷ cs) =
    let now = services_of (keep is_running (c ∷ cs)) in
    let expected = expected_services stack (c ∷ cs) in
    let some_run = services_of-is_empty (c ∷ cs) in
    elim (Bool-cases (is_empty now)) [
      | inr busy ↦
          (λ h. ground (arith, some_run, busy, h), λ h. absurd (ground (arith, some_run, busy, h)))
      | inl idle ↦ elim (Bool-cases (is_empty expected)) [
        | inl none_expected ↦ ground (arith, idle, none_expected, some_run)
        | inr some_expected ↦
            let missing =
              all_none (λ service. elem service now) expected (λ x. elem-empty x now idle)
                some_expected in
            ground (arith, idle, some_expected, missing, some_run)
      ]
    ]

-- A stack whose compose file names services is running exactly when each of them has a running
-- container.
pub derive_stack_state-running :
    (stack : StackInfo) (containers : List ContainerInfo)
    → service_names stack ≢ []
    → (derive_stack_state stack containers ≡ running)
      ↔ (all (λ service. any (runs service) containers) (service_names stack) ≡ true)
unfolding derive_stack_state
derive_stack_state-running stack [] h = elim (List-cases (service_names stack)) [
  | inl e ↦ absurd (h e)
  | inr (name, names, e) ↦ (λ k. cc, λ k. absurd (unfold all any in ground (arith, e, k)))
]
derive_stack_state-running stack (c ∷ cs) h =
    let containers = c ∷ cs in
    let told =
      all_ext (λ service. elem service (services_of (keep is_running containers)))
        (λ service. any (runs service) containers) (service_names stack)
        (λ service. elem-services_of service containers) in
    elim (List-cases (service_names stack)) [
      | inl e ↦ absurd (h e)
      | inr (name, names, e) ↦ ground (arith, e, told)
    ]

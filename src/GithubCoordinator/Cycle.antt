-- ===== src/GithubCoordinator/Cycle.antt =====
-- A whole cycle of github_coordinator.py: what is listed at all.
use ha_docker_compose.Prelude.{
  All, All-insert, All-implies, Bool, Bool-cases, Dict, List, Option-cases, Text, [], arith, elem,
  eq_refl, inl, inr, keys, nat_eq, pair_eq, text_eq, true, ◌∷◌, ◌≡◌,
}
use ha_docker_compose.ComposeFile.{ServiceDef, truthy}
use ha_docker_compose.Storage.{History}
use ha_docker_compose.Engine.{Docker}
use ha_docker_compose.Coordinator.{StackStatus, Statuses}
use ha_docker_compose.GithubRelease.{Response}
use ha_docker_compose.GithubCoordinator.{
  ServiceMetadata, Services, has_signal, check_service, check_services, put_service, put_services,
  check_stacks, async_update_data,
}

abbrev pub HasSignals : Services → Type 0
HasSignals = All (λ p. has_signal p.1 ≡ true)

-- A stack that has a status, with one service at least, each with a release or a version.
abbrev pub IsShown : List Text → Text × Services → Type 0
IsShown names (stack_name, services) =
    (elem stack_name names ≡ true) × HasSignals services × (services ≡ [] → ⊥)

put_service-Signals :
    (service : Text) (metadata : ServiceMetadata) (services : Services)
    → HasSignals services
    → HasSignals (put_service service metadata services)
unfolding put_service
put_service-Signals service metadata services h = elim (Bool-cases (has_signal metadata)) [
  | inl told ↦ rw told (All-insert (λ p. has_signal p.1 ≡ true) service metadata services told h)
  | inr untold ↦ rw untold h
]

put_services-Shown :
    (names : List Text) (n : Text) (services : Services) (result : Dict Text Services)
    → elem n names ≡ true
    → HasSignals services
    → All (IsShown names) result
    → All (IsShown names) (put_services n services result)
put_services-Shown names n [] result known h hr = hr
put_services-Shown names n (s ∷ services) result known h hr =
    All-insert (IsShown names) n (s ∷ services) result (known, h, λ e. cc) hr

elem_self : (names : List Text) → All (λ n. elem n names ≡ true) names
unfolding elem
elem_self [] = tt
elem_self (n ∷ names) =
    (rw (eq_refl n), All-implies (λ x h. ground (arith, h)) names (elem_self names))

keys-map : (P : Text → Type 0) (d : Statuses) → All P (keys d) → All (λ p. P p.0) d
keys-map P [] h = tt
keys-map P ((k, v) ∷ d) (hk, h) = (hk, keys-map P d h)

module _ (World : Type 0) (docker : Docker World) (connected : Bool)
    (fetch : Text → World → Response × World) (history : History) where
  check_service-Signals :
      (n : Text) (status : StackStatus) (service : Text) (def : ServiceDef) (services : Services)
      (w : World)
      → HasSignals services
      → HasSignals
          (check_service World docker connected fetch history n status service def services w).0
  unfolding check_service
  check_service-Signals n status service def services w h = elim (Option-cases (truthy def.image)) [
    | inl e ↦ rw (e, check_service) h
    | inr (image_ref, e) ↦ rw (e, check_service) (put_service-Signals service _ services h)
  ]

  check_services-Signals :
      (n : Text) (status : StackStatus) (defs : Dict Text ServiceDef) (services : Services)
      (w : World)
      → HasSignals services
      → HasSignals (check_services World docker connected fetch history n status defs services w).0
  unfolding check_services
  check_services-Signals n status [] services w h = h
  check_services-Signals n status ((service, def) ∷ defs) services w h =
      check_services-Signals n status defs _ _
        (check_service-Signals n status service def services w h)

  check_stacks-Shown :
      (names : List Text) (statuses : Statuses) (result : Dict Text Services) (w : World)
      → All (λ p. elem p.0 names ≡ true) statuses
      → All (IsShown names) result
      → All (IsShown names) (check_stacks World docker connected fetch history statuses result w).0
  unfolding check_stacks
  check_stacks-Shown names [] result w h hr = hr
  check_stacks-Shown names ((n, status) ∷ rest) result w (known, h) hr =
      check_stacks-Shown names rest _ _ h (
        put_services-Shown names n _ result known
          (check_services-Signals n status status.info.compose_config.services [] w tt) hr)

  -- After every cycle, each stack that is listed has a status, and one service at least; and each service
  -- that is listed has a release or a detected version.
  pub async_update_data-Shown :
      (statuses : Statuses) (w : World)
      → All
          (IsShown (keys statuses))
          (async_update_data World docker connected fetch history statuses w).0
  unfolding async_update_data
  async_update_data-Shown statuses w =
      check_stacks-Shown (keys statuses) statuses [] w
        (keys-map (λ n. elem n (keys statuses) ≡ true) statuses (elem_self (keys statuses))) tt

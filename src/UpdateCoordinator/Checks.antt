-- ===== src/UpdateCoordinator/Checks.antt =====
-- The edge trigger of update_coordinator.py: what a check does to the known services and to the stacks
-- that the transition callback is fired for.
use ha_docker_compose.Prelude.{
  Bool-cases, List, Option, Text, arith, elem, elem-add, elem-discard, if◌then◌else◌, inl, inr,
  lookup, lookup-insert_self, nat_eq, not, pair_eq, refl, some, subst, text_eq, ◌&&◌, ◌==◌, ◌||◌,
  ◌≡◌,
}
use ha_docker_compose.ComposeFile.{ServiceDef, truthy}
use ha_docker_compose.Storage.{History}
use ha_docker_compose.RegistryClient.{Result, ok, err, transient, auth_denied, unsupported}
use ha_docker_compose.UpdateCoordinator.{
  ServiceUpdateStatus, StackUpdateSummary, update_available, is_true, Key, Checker, Pass,
  previous_status, check_one, note_status, check_service,
}

-- Only the answer of the registry decides what is remembered as logged; the known services stay.
check_one-known :
    (history : History) (key : Key) (image_ref : Text) (previous : Option ServiceUpdateStatus)
    (local_digest : Option Text) (answer : Result Text) (k : Checker)
    → (check_one history key image_ref previous local_digest answer k).1.known_on_services
      ≡ k.known_on_services
unfolding check_one
check_one-known history key image_ref previous local_digest (ok digest) k = refl
check_one-known history key image_ref previous local_digest (err unsupported) k = refl
check_one-known history key image_ref previous local_digest (err auth_denied) k = refl
check_one-known history key image_ref previous local_digest (err transient) k = refl

-- What a new status of the service `key` makes of a pass.
pub record IsNoted (key : Key) (known : List Key) (transitioned : List Text) (p : Pass)
    : Type 0 where
  pub status : ServiceUpdateStatus
  pub stored : lookup key.1 p.services ≡ some status
  pub remembered :
      (other : Key)
      → elem other p.checker.known_on_services
        ≡ (if key == other then is_true (update_available status) else elem other known)
  pub triggered :
      (stack : Text)
      → elem stack p.transitioned_stacks ≡ (
          elem stack transitioned
          || (key.0 == stack && is_true (update_available status) && not (elem key known)))

note_status-IsNoted :
    (key : Key) (status : ServiceUpdateStatus) (p : Pass)
    → IsNoted key p.checker.known_on_services p.transitioned_stacks (note_status key status p)
unfolding note_status
note_status-IsNoted key s p =
    let known = p.checker.known_on_services in
    elim (Bool-cases (is_true (update_available s))) [
      | inl on ↦
          rw (on, note_status)
            (record {
              status = s;
              stored = lookup-insert_self key.1 s p.services;
              remembered = λ other. ground (arith, on, elem-add key other known);
              triggered = λ stack. ground (arith, on, elem-add key.0 stack p.transitioned_stacks);
            })
      | inr off ↦
          rw (off, note_status)
            (record {
              status = s;
              stored = lookup-insert_self key.1 s p.services;
              remembered = λ other. ground (arith, off, elem-discard key other known);
              triggered = λ stack. ground (arith, off);
            })
    ]

module _ (history : History) (local : Key → Option Text) (remote : Key → Result Text) where
  -- Checking a service that has an image stores a status for it, and remembers it as known to have an
  -- update exactly if it has one now, every other service staying as it was known. It adds its stack,
  -- and no other, to those that a tag walk is triggered for, exactly if the update was not known yet.
  pub check_service-IsNoted :
      (stack_name : Text) (previous : Option StackUpdateSummary) (service_name : Text)
      (service_def : ServiceDef) (image_ref : Text) (p : Pass)
      → truthy service_def.image ≡ some image_ref
      → IsNoted
          (stack_name, service_name)
          p.checker.known_on_services
          p.transitioned_stacks
          (check_service history local remote stack_name previous service_name service_def p)
  unfolding check_service
  check_service-IsNoted stack_name previous service_name service_def image_ref p h =
      let key : Key = (stack_name, service_name) in
      let checked =
        check_one history key image_ref (previous_status previous service_name) (local key)
          (remote key) p.checker in
      let noted = note_status-IsNoted key checked.0 (record p { checker = checked.1 }) in
      let kept =
        check_one-known history key image_ref (previous_status previous service_name) (local key)
          (remote key) p.checker in
      rw (h, check_service)
        (subst
          (λ known.
            IsNoted key known p.transitioned_stacks
              (note_status key checked.0 (record p { checker = checked.1 })))
          kept noted)

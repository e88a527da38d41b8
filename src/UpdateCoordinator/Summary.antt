-- ===== src/UpdateCoordinator/Summary.antt =====
-- `_aggregate_update_available` and `_check_one` of update_coordinator.py: what a status tells.
use ha_docker_compose.Prelude.{
  All, Bool, Bool-cases, Option, Option-cases, Text, [], any, arith, false, inl, inr, map, none,
  refl, some, true, ◌↔◌, ◌∷◌, ◌≡◌, ◌≢◌,
}
use ha_docker_compose.Storage.{History}
use ha_docker_compose.RegistryClient.{err, Failure, transient, auth_denied, unsupported}
use ha_docker_compose.UpdateCoordinator.{
  ServiceUpdateStatus, update_available, Services, is_true, is_unknown, aggregate_update_available,
  Key, Checker, check_one,
}

abbrev pub is_on : Text × ServiceUpdateStatus → Bool
is_on p = is_true (update_available p.1)

any-map :
    (p : Option Bool → Bool) (services : Services)
    → any p (map (λ s. update_available s.1) services)
      ≡ any (λ s. p (update_available s.1)) services
unfolding any
any-map p [] = refl
any-map p (s ∷ services) = ground (arith, any-map p services)

any-All :
    (services : Services)
    → (any is_on services ≡ false)
    → (any (λ s. is_unknown (update_available s.1)) services ≡ false)
    → All (λ s. update_available s.1 ≡ some false) services
unfolding any
any-All [] h k = tt
any-All (s ∷ services) h k = elim (Option-cases (update_available s.1)) [
  | inl e ↦ absurd (ground (arith, e, k))
  | inr (true, e) ↦ absurd (ground (arith, e, h))
  | inr (false, e) ↦ (e, any-All services (ground (arith, e, h)) (ground (arith, e, k)))
]

none_on :
    (services : Services)
    → All (λ s. update_available s.1 ≡ some false) services
    → (any is_on services ≡ false) × (any (λ s. is_unknown (update_available s.1)) services ≡ false)
unfolding any
none_on [] h = (refl, refl)
none_on (s ∷ services) (h, hs) =
    let (on, unknown) = none_on services hs in (ground (arith, h, on), ground (arith, h, unknown))

clash : {b : Bool} → b ≡ true → b ≢ false
clash h k = cc

-- A stack has an update exactly when one of its services is known to have one, and has none exactly
-- when it has services and each of them is known to have none.
pub aggregate_update_available_iff :
    (services : Services)
    → ((aggregate_update_available services ≡ some true) ↔ (any is_on services ≡ true))
      × ((aggregate_update_available services ≡ some false)
          ↔ ((services ≢ []) × All (λ s. update_available s.1 ≡ some false) services))
unfolding aggregate_update_available
aggregate_update_available_iff [] =
    ((λ h. cc, λ h. unfold any in cc), (λ h. cc, λ (h, _). absurd (h refl)))
aggregate_update_available_iff (s ∷ services) =
    let all_of = s ∷ services in
    let on = any-map is_true all_of in
    let unknown = any-map is_unknown all_of in
    elim (Bool-cases (any is_on all_of)) [
      | inl lit_up ↦ (
        (λ h. lit_up, λ h. ground (arith, on, lit_up)),
        (
          λ h. absurd (ground (arith, on, lit_up, h)),
          λ (_, off). absurd (clash lit_up (none_on all_of off).0),
        ),
      )
      | inr dim ↦ elim (Bool-cases (any (λ p. is_unknown (update_available p.1)) all_of)) [
        | inl dark ↦ (
          (λ h. absurd (ground (arith, on, unknown, dim, dark, h)), λ h. absurd (clash h dim)),
          (
            λ h. absurd (ground (arith, on, unknown, dim, dark, h)),
            λ (_, off). absurd (clash dark (none_on all_of off).1),
          ),
        )
        | inr lit ↦ (
          (λ h. absurd (ground (arith, on, unknown, dim, lit, h)), λ h. absurd (clash h dim)),
          (λ h. (cc, any-All all_of dim lit), λ h. ground (arith, on, unknown, dim, lit)),
        )
      ]
    ]

-- While the registry cannot be reached for the moment, a status is what it was, as long as the local
-- image is the same; and a registry that is not supported, or denies access, tells nothing.
pub check_one_failures :
    (history : History) (key : Key) (image_ref : Text) (previous : ServiceUpdateStatus)
    (k : Checker)
    → previous.registry_supported ≡ true
    → previous.denied ≡ false
    → let failed = λ (e : Failure).
      check_one history key image_ref (some previous) previous.local_digest (err e) k in
      (update_available (failed transient).0 ≡ update_available previous)
      × (update_available (failed auth_denied).0 ≡ none)
      × (update_available (failed unsupported).0 ≡ none)
unfolding check_one update_available
check_one_failures history key image_ref previous k h d = (ground (arith, h, d), refl, refl)

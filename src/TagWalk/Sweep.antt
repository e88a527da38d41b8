-- ===== src/TagWalk/Sweep.antt =====
-- The scheduled sweep of tag_walk_coordinator.py against `async_refresh_stacks`.
use ha_docker_compose.Prelude.{
  Bool, Bool-cases, Dict, IsDict, List, Option, Option-cases, Text, [], arith, elem, eq_iff, inl,
  inr, insert, keep, lookup, lookup-insert, nat_eq, none, pair_eq, refl, some, sym, text_eq, true,
  ◌&&◌, ◌==◌, ◌∙◌, ◌∷◌, ◌≡◌,
}
use ha_docker_compose.PullJobs.{TagWalkStatus}
use ha_docker_compose.ComposeFile.{ServiceDef, truthy}
use ha_docker_compose.Storage.{or_empty}
use ha_docker_compose.RegistryClient.{Result, ok, err, transient, auth_denied, unsupported}
use ha_docker_compose.TagFilter.{Compiler, Versions}
use ha_docker_compose.Coordinator.{StackStatus, Statuses}
use ha_docker_compose.UpdateCoordinator.{Key, StackUpdateSummary, is_running_state}
use ha_docker_compose.TagWalk.{
  Walked, Warned, collect_walked, merge_walked, check_one, pinned_of, walk_services, walk_stack,
  walk_stacks, targets_of, running_stacks, async_refresh_stacks, async_update_data,
}
use ha_docker_compose.TagWalk.Merge.{
  merged_of, lookup-merge_walked, Walk-cases, keep-IsDict, keys-AreDistinct, AreDistinct-IsDict,
  walk_stacks-keys,
}

-- The data of a stack after the sweep's last loop.
abbrev collected_of :
    Option (Dict Text TagWalkStatus)
    → Option (Dict Text TagWalkStatus)
    → Option (Dict Text TagWalkStatus)
collected_of none kept = kept
collected_of (some []) kept = kept
collected_of (some (s ∷ services)) kept = some (s ∷ services)

lookup-collect_walked :
    (results merged : Walked) (n : Text)
    → IsDict results
    → lookup n (collect_walked results merged) ≡ collected_of (lookup n results) (lookup n merged)
unfolding collect_walked lookup
lookup-collect_walked [] merged n h = refl
lookup-collect_walked ((k, []) ∷ results) merged n (fresh, h) =
    ground (arith, eq_iff k n, fresh, lookup-collect_walked results merged n h)
lookup-collect_walked ((k, s ∷ services) ∷ results) merged n (fresh, h) = ground (
  arith,
  eq_iff k n,
  fresh,
  lookup-insert k n (s ∷ services) merged,
  lookup-collect_walked results (insert k (s ∷ services) merged) n h,
)

lookup-targets_of :
    (names : List Text) (d : Statuses) (n : Text)
    → elem n names ≡ true
    → lookup n (targets_of names d) ≡ lookup n (running_stacks d)
unfolding targets_of running_stacks lookup keep
lookup-targets_of names [] n h = refl
lookup-targets_of names ((k, s) ∷ d) n h =
    ground (arith, eq_iff k n, lookup-targets_of names d n h, h)

empty_or_not :
    (services : Dict Text TagWalkStatus) (kept : Option (Dict Text TagWalkStatus))
    → collected_of (some services) none ≡ merged_of (some services) kept
empty_or_not [] kept = refl
empty_or_not (s ∷ services) kept = refl

module _ (registry : Text → Result Text) (v : Versions) (compile : Compiler) where
  check_one-answer :
      (key : Key) (d : ServiceDef) (image_ref : Text) (pinned : Option Text)
      (previous : Option TagWalkStatus) (answer : Result (List Text)) (w w' : Warned)
      → (check_one registry v compile key d image_ref pinned previous answer w).0
        ≡ (check_one registry v compile key d image_ref pinned previous answer w').0
  unfolding check_one
  check_one-answer key d image_ref pinned previous (ok raw_tags) w w' = refl
  check_one-answer key d image_ref pinned previous (err transient) w w' = refl
  check_one-answer key d image_ref pinned previous (err auth_denied) w w' = refl
  check_one-answer key d image_ref pinned previous (err unsupported) w w' = refl

  module _ (listing : Key → Result (List Text)) (data' : Walked) where
    -- What was logged before has no part in what is walked.
    walk_services-answer :
        (n : Text) (summary : Option StackUpdateSummary) (defs : Dict Text ServiceDef)
        (services : Dict Text TagWalkStatus) (w w' : Warned)
        → (walk_services registry v compile listing data' n summary defs services w).0
          ≡ (walk_services registry v compile listing data' n summary defs services w').0
    unfolding walk_services
    walk_services-answer n summary [] services w w' = refl
    walk_services-answer n summary ((service, d) ∷ defs) services w w' =
        elim (Option-cases (truthy d.image)) [
          | inl e ↦ rw (e, walk_services) (walk_services-answer n summary defs services w w')
          | inr (image_ref, e) ↦
              let previous = lookup service (or_empty (lookup n data')) in
              let checked : Warned → Result TagWalkStatus × Warned = λ u.
                check_one registry v compile (n, service) d image_ref (pinned_of summary service)
                  previous (listing (n, service)) u in
              let same =
                check_one-answer (n, service) d image_ref (pinned_of summary service) previous
                  (listing (n, service)) w w' in
              elim (Walk-cases (checked w).0) [
                | inr (f, q) ↦
                    let q' : (checked w').0 ≡ err f = sym same ∙ q in
                    rw (e, walk_services, q, q') refl
                | inl (s, q) ↦
                    let q' : (checked w').0 ≡ ok s = sym same ∙ q in
                    rw (e, walk_services, q, q')
                      (walk_services-answer n summary defs (insert service s services) (checked w).1
                        (checked w').1)
              ]
        ]

    module _ (digest_data : Dict Text StackUpdateSummary) where
      lookup-walk_stacks :
          (targets : Statuses) (w : Warned) (results : Walked) (n : Text) (status : StackStatus)
          → (walk_stacks registry v compile listing data' digest_data targets w).0 ≡ ok results
          → lookup n targets ≡ some status
          → (services : Dict Text TagWalkStatus) × (u : Warned) × (lookup n results ≡ some services)
            × ((walk_stack registry v compile listing data' n status (lookup n digest_data) u).0
                ≡ ok services)
      unfolding walk_stacks lookup
      lookup-walk_stacks [] w results n status h k = absurd (cc)
      lookup-walk_stacks ((name, st) ∷ targets) w results n status h k =
          let first =
            walk_stack registry v compile listing data' name st (lookup name digest_data) w in
          let later = walk_stacks registry v compile listing data' digest_data targets first.1 in
          elim (Walk-cases first.0) [
            | inr (e, q) ↦ absurd (ground (arith, q, h))
            | inl (services, q) ↦ elim (Walk-cases later.0) [
              | inr (e, q') ↦ absurd (ground (arith, q, q', h))
              | inl (others, q') ↦
                  let same : (name, services) ∷ others ≡ results = ground (arith, q, q', h) in
                  elim (Bool-cases (name == n)) [
                    | inl hit ↦
                        let at : name ≡ n = ground (arith, eq_iff name n, hit) in
                        let is : st ≡ status = ground (arith, hit, k) in
                        (services, w, rw (sym same, hit) refl, rw (sym at, sym is) q)
                    | inr miss ↦
                        let (found, u, at, by) =
                          lookup-walk_stacks targets first.1 others n status q'
                            (ground (arith, miss, k)) in
                        (found, u, rw (sym same, miss) at, by)
                  ]
            ]
          ]

      -- What was walked has the names of the stacks that it was walked for, each once.
      walk_stacks-IsDict :
          (p : Text × StackStatus → Bool) (statuses : Statuses) (w : Warned) (results : Walked)
          → IsDict statuses
          → (walk_stacks registry v compile listing data' digest_data (keep p statuses) w).0
            ≡ ok results
          → IsDict results
      walk_stacks-IsDict p statuses w results keyed h =
          let same =
            walk_stacks-keys registry v compile listing data' digest_data (keep p statuses) w
              results h in
          AreDistinct-IsDict results
            (rw same (keys-AreDistinct (keep p statuses) (keep-IsDict p statuses keyed)))

      -- What the sweep, and what a scoped refresh has for a stack that it walks.
      lookup-async_update_data :
          (statuses : Statuses) (w : Warned) (swept : Walked) (n : Text) (status : StackStatus)
          → IsDict statuses
          → (async_update_data registry v compile listing data' digest_data statuses w).0 ≡ ok swept
          → lookup n (running_stacks statuses) ≡ some status
          → (services : Dict Text TagWalkStatus) × (u : Warned) × (lookup n swept
              ≡ collected_of (some services) none)
            × ((walk_stack registry v compile listing data' n status (lookup n digest_data) u).0
                ≡ ok services)
      unfolding async_update_data running_stacks lookup
      lookup-async_update_data statuses w swept n status keyed h k =
          let targets = keep (λ s. is_running_state s.1.state) statuses in
          let walked = walk_stacks registry v compile listing data' digest_data targets w in
          elim (Walk-cases walked.0) [
            | inr (e, q) ↦ absurd (ground (arith, q, h))
            | inl (results, q) ↦
                let (services, u, at, by) = lookup-walk_stacks targets w results n status q k in
                let once =
                  walk_stacks-IsDict (λ s. is_running_state s.1.state) statuses w results keyed q in
                let is : collect_walked results [] ≡ swept = ground (arith, q, h) in
                (services, u, rw (sym is, lookup-collect_walked results [] n once, at) refl, by)
          ]

      lookup-async_refresh_stacks :
          (names : List Text) (statuses : Statuses) (w : Warned) (data'' : Walked) (n : Text)
          (status : StackStatus)
          → IsDict statuses
          → (async_refresh_stacks registry v compile listing data' digest_data names statuses w).0
            ≡ ok data''
          → lookup n (targets_of names statuses) ≡ some status
          → (services : Dict Text TagWalkStatus) × (u : Warned) × (lookup n data''
              ≡ merged_of (some services) (lookup n data'))
            × ((walk_stack registry v compile listing data' n status (lookup n digest_data) u).0
                ≡ ok services)
      unfolding async_refresh_stacks targets_of
      lookup-async_refresh_stacks names statuses w data'' n status keyed h k =
          let p : Text × StackStatus → Bool = λ s. elem s.0 names && is_running_state s.1.state in
          let walked =
            walk_stacks registry v compile listing data' digest_data (keep p statuses) w in
          elim (Walk-cases walked.0) [
            | inr (e, q) ↦ absurd (ground (arith, q, h))
            | inl (results, q) ↦
                let (services, u, at, by) =
                  lookup-walk_stacks (keep p statuses) w results n status q k in
                let once = walk_stacks-IsDict p statuses w results keyed q in
                let is : merge_walked results data' ≡ data'' = ground (arith, q, h) in
                (services, u, rw (sym is, lookup-merge_walked results data' n once, at) refl, by)
          ]

      -- A scoped refresh leaves for each running stack that it was called for just what the scheduled
      -- sweep would list for it, on the same answers of the registry, whatever was logged before either,
      -- as long as no exception leaves one of the two.
      pub async_update_data-async_refresh_stacks :
          (names : List Text) (statuses : Statuses) (w w' : Warned) (swept data'' : Walked)
          (n : Text) (status : StackStatus)
          → IsDict statuses
          → (async_update_data registry v compile listing data' digest_data statuses w).0 ≡ ok swept
          → (async_refresh_stacks registry v compile listing data' digest_data names statuses w').0
            ≡ ok data''
          → elem n names ≡ true
          → lookup n (running_stacks statuses) ≡ some status
          → lookup n data'' ≡ lookup n swept
      unfolding walk_stack
      async_update_data-async_refresh_stacks names statuses w w' swept data'' n status keyed h h'
            called k =
          let (services, u, at, by) =
            lookup-async_update_data statuses w swept n status keyed h k in
          let (others, u', at', by') =
            lookup-async_refresh_stacks names statuses w' data'' n status keyed h'
              (lookup-targets_of names statuses n called ∙ k) in
          let same =
            walk_services-answer n (lookup n digest_data) status.info.compose_config.services [] u
              u' in
          let is : services ≡ others = ground (arith, by, by', same) in
          rw (at, at', is) (sym (empty_or_not others (lookup n data')))

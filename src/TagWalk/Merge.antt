-- ===== src/TagWalk/Merge.antt =====
-- `async_refresh_stacks` of tag_walk_coordinator.py: what a scoped walk leaves in the data.
use ha_docker_compose.Prelude.{
  Bool, Dict, IsDict, List, Option, Text, [], ap, arith, elem, eq_iff, false, inl, inr, insert,
  keep, keys, lookup, lookup-insert, lookup-remove, nat_eq, none, pair_eq, refl, remove, some, sym,
  text_eq, ◌&&◌, ◌↔◌, ◌∷◌, ◌≡◌, ◌⊎◌,
}
use ha_docker_compose.PullJobs.{TagWalkStatus}
use ha_docker_compose.RegistryClient.{Result, ok, err, Failure}
use ha_docker_compose.TagFilter.{Compiler, Versions}
use ha_docker_compose.Coordinator.{StackStatus, Statuses}
use ha_docker_compose.UpdateCoordinator.{Key, StackUpdateSummary, is_running_state}
use ha_docker_compose.TagWalk.{
  Walked, Warned, merge_walked, walk_stack, walk_stacks, targets_of, async_refresh_stacks,
}

-- The data of a stack after the merge: what was walked for it, where an empty walk drops it, and what
-- was there if it was not walked.
abbrev pub merged_of :
    Option (Dict Text TagWalkStatus)
    → Option (Dict Text TagWalkStatus)
    → Option (Dict Text TagWalkStatus)
merged_of none kept = kept
merged_of (some []) kept = none
merged_of (some (s ∷ services)) kept = some (s ∷ services)

-- A scoped refresh replaces the data of exactly the stacks that it walked, each of them once: a stack
-- whose walk found no service loses its data, and every other stack keeps what it had.
pub lookup-merge_walked :
    (results merged : Walked) (n : Text)
    → IsDict results
    → lookup n (merge_walked results merged) ≡ merged_of (lookup n results) (lookup n merged)
unfolding merge_walked lookup
lookup-merge_walked [] merged n h = refl
lookup-merge_walked ((k, []) ∷ results) merged n (fresh, h) = ground (
  arith,
  eq_iff k n,
  fresh,
  lookup-remove k n merged,
  lookup-merge_walked results (remove k merged) n h,
)
lookup-merge_walked ((k, s ∷ services) ∷ results) merged n (fresh, h) = ground (
  arith,
  eq_iff k n,
  fresh,
  lookup-insert k n (s ∷ services) merged,
  lookup-merge_walked results (insert k (s ∷ services) merged) n h,
)

pub Walk-cases :
    {A : Type 0} (r : Result A) → ((a : A) × (r ≡ ok a)) ⊎ ((e : Failure) × (r ≡ err e))
Walk-cases (ok a) = inl (a, refl)
Walk-cases (err e) = inr (e, refl)

lookup-keep :
    (p : Text × StackStatus → Bool) (d : Statuses) (n : Text)
    → lookup n d ≡ none
    → lookup n (keep p d) ≡ none
unfolding lookup keep
lookup-keep p [] n h = refl
lookup-keep p ((k, s) ∷ d) n h = ground (arith, lookup-keep p d n, h)

pub keep-IsDict : (p : Text × StackStatus → Bool) (d : Statuses) → IsDict d → IsDict (keep p d)
unfolding keep
keep-IsDict p [] h = tt
keep-IsDict p ((k, s) ∷ d) (fresh, h) = ground (arith, lookup-keep p d k fresh, keep-IsDict p d h)

lookup-targets_of_other :
    (names : List Text) (d : Statuses) (n : Text)
    → elem n names ≡ false
    → lookup n (keep (λ s. elem s.0 names && is_running_state s.1.state) d) ≡ none
unfolding lookup keep
lookup-targets_of_other names [] n h = refl
lookup-targets_of_other names ((k, s) ∷ d) n h =
    ground (arith, eq_iff k n, lookup-targets_of_other names d n h, h)

lookup-elem :
    {V : Type 0} (d : Dict Text V) (n : Text) → (lookup n d ≡ none) ↔ (elem n (keys d) ≡ false)
unfolding lookup elem
lookup-elem [] n = (λ h. refl, λ h. refl)
lookup-elem ((k, s) ∷ d) n = ground (arith, lookup-elem d n)

-- Pairwise different names.
abbrev pub AreDistinct : List Text → Type 0
AreDistinct [] = Unit
AreDistinct (k ∷ ks) = (elem k ks ≡ false) × AreDistinct ks

pub keys-AreDistinct : {V : Type 0} (d : Dict Text V) → IsDict d → AreDistinct (keys d)
keys-AreDistinct [] h = tt
keys-AreDistinct ((k, s) ∷ d) (fresh, h) = ((lookup-elem d k).0 fresh, keys-AreDistinct d h)

pub AreDistinct-IsDict : {V : Type 0} (d : Dict Text V) → AreDistinct (keys d) → IsDict d
AreDistinct-IsDict [] h = tt
AreDistinct-IsDict ((k, s) ∷ d) (fresh, h) = ((lookup-elem d k).1 fresh, AreDistinct-IsDict d h)

module _ (registry : Text → Result Text) (v : Versions) (compile : Compiler)
    (listing : Key → Result (List Text)) (data' : Walked)
    (digest_data : Dict Text StackUpdateSummary) where
  pub walk_stacks-keys :
      (targets : Statuses) (w : Warned) (results : Walked)
      → (walk_stacks registry v compile listing data' digest_data targets w).0 ≡ ok results
      → keys results ≡ keys targets
  unfolding walk_stacks
  walk_stacks-keys [] w results h =
      let same : [] ≡ results = ground (arith, h) in rw (sym same) refl
  walk_stacks-keys ((name, status) ∷ targets) w results h =
      let first =
        walk_stack registry v compile listing data' name status (lookup name digest_data) w in
      let later = walk_stacks registry v compile listing data' digest_data targets first.1 in
      elim (Walk-cases first.0) [
        | inr (e, q) ↦ absurd (ground (arith, q, h))
        | inl (services, q) ↦ elim (Walk-cases later.0) [
          | inr (e, q') ↦ absurd (ground (arith, q, q', h))
          | inl (others, q') ↦
              let rest = walk_stacks-keys targets first.1 others q' in
              let same : (name, services) ∷ others ≡ results = ground (arith, q, q', h) in
              rw (sym same) (ap (λ ks. name ∷ ks) rest)
        ]
      ]

  -- A scoped refresh that is not left by an exception changes the data of no stack but those that it
  -- was called for and that run.
  pub async_refresh_stacks-others :
      (names : List Text) (statuses : Statuses) (w : Warned) (data'' : Walked) (n : Text)
      → IsDict statuses
      → (async_refresh_stacks registry v compile listing data' digest_data names statuses w).0
        ≡ ok data''
      → lookup n (targets_of names statuses) ≡ none
      → lookup n data'' ≡ lookup n data'
  unfolding async_refresh_stacks targets_of
  async_refresh_stacks-others names statuses w data'' n keyed h outside =
      let targets = keep (λ s. elem s.0 names && is_running_state s.1.state) statuses in
      let walked = walk_stacks registry v compile listing data' digest_data targets w in
      elim (Walk-cases walked.0) [
        | inr (e, q) ↦ absurd (ground (arith, q, h))
        | inl (results, q) ↦
            let same = walk_stacks-keys targets w results q in
            let distinct =
              keys-AreDistinct targets
                (keep-IsDict (λ s. elem s.0 names && is_running_state s.1.state) statuses keyed) in
            let fresh = (lookup-elem targets n).0 outside in
            let absent : lookup n results ≡ none = (lookup-elem results n).1 (rw same fresh) in
            let merged =
              lookup-merge_walked results data' n (AreDistinct-IsDict results (rw same distinct)) in
            let is : merge_walked results data' ≡ data'' = ground (arith, q, h) in
            rw (sym is, merged, absent) refl
      ]

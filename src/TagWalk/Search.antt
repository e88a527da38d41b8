-- ===== src/TagWalk/Search.antt =====
-- `_find_pull_target_version` of tag_walk_coordinator.py: which candidate it finds.
use ha_docker_compose.Prelude.{
  All, Bool-cases, List, Option, Text, [], arith, eq_iff, inl, inr, length, length-take, nat_eq,
  none, pair_eq, refl, some, take, text_eq, ◌++◌, ◌==◌, ◌∷◌, ◌≡◌, ◌≢◌, ◌≤◌, ◌⊎◌,
}
use ha_docker_compose.ImageRef.{repo_name}
use ha_docker_compose.RegistryClient.{Result, ok, err, Failure, transient, auth_denied, unsupported}
use ha_docker_compose.TagFilter.{Versions, rank_final_versions}
use ha_docker_compose.TagWalk.{
  pull_target_max_digest_lookups, search_candidates, find_pull_target_version,
}

module _ (registry : Text → Result Text) (repo pinned_digest : Text) where
  -- A candidate that is passed over: it has another digest, or could not be looked up for the moment.
  pub data IsPassed (t : Text) : Type 0 where
    other : (d : Text) → registry (repo ++ b':' ∷ t) ≡ ok d → d ≢ pinned_digest → IsPassed t
    failed : registry (repo ++ b':' ∷ t) ≡ err transient → IsPassed t

  -- The outcomes of a search: none of the candidates, the first that is not passed over and has the
  -- digest, or the failure of the first that is refused.
  pub data Outcome (ranked : List Text) : Result (Option Text) → Type 0 where
    not_found : All IsPassed ranked → Outcome ranked (ok none)
    found :
        (passed : List Text) (t : Text) (rest : List Text)
        → ranked ≡ passed ++ t ∷ rest
        → All IsPassed passed
        → registry (repo ++ b':' ∷ t) ≡ ok pinned_digest
        → Outcome ranked (ok (some t))
    aborted :
        (passed : List Text) (t : Text) (rest : List Text) (e : Failure)
        → ranked ≡ passed ++ t ∷ rest
        → All IsPassed passed
        → registry (repo ++ b':' ∷ t) ≡ err e
        → e ≢ transient
        → Outcome ranked (err e)

  later :
      (u : Text) (ranked : List Text) (r : Result (Option Text))
      → IsPassed u
      → Outcome ranked r
      → Outcome (u ∷ ranked) r
  later u ranked r p (not_found all_passed) = not_found (p, all_passed)
  later u ranked r p (found passed t rest e all_passed h) =
      found (u ∷ passed) t rest (rw e refl) (p, all_passed) h
  later u ranked r p (aborted passed t rest f e all_passed h k) =
      aborted (u ∷ passed) t rest f (rw e refl) (p, all_passed) h k

  Result-cases : (r : Result Text) → ((d : Text) × (r ≡ ok d)) ⊎ ((e : Failure) × (r ≡ err e))
  Result-cases (ok d) = inl (d, refl)
  Result-cases (err e) = inr (e, refl)

  pub search_candidates-Outcome :
      (ranked : List Text) → Outcome ranked (search_candidates registry repo pinned_digest ranked)
  unfolding search_candidates
  search_candidates-Outcome [] = not_found tt
  search_candidates-Outcome (t ∷ ranked) =
      let rest = search_candidates-Outcome ranked in
      elim (Result-cases (registry (repo ++ b':' ∷ t))) [
        | inl (d, e) ↦ elim (Bool-cases (d == pinned_digest)) [
          | inl is ↦
              rw (e, is, search_candidates)
                (found [] t ranked refl tt (rw ((eq_iff d pinned_digest).0 is) at e))
          | inr differs ↦
              rw (e, differs, search_candidates)
                (later t ranked _
                  (other d e (λ h. ground (arith, eq_iff d pinned_digest, differs, h))) rest)
        ]
        | inr (transient, e) ↦ rw (e, search_candidates) (later t ranked _ (failed e) rest)
        | inr (auth_denied, e) ↦ rw (e, search_candidates) (aborted [] t ranked _ refl tt e (cc))
        | inr (unsupported, e) ↦ rw (e, search_candidates) (aborted [] t ranked _ refl tt e (cc))
      ]

-- The search looks at no more than the 15 newest final releases, newest first: it gives the first of
-- them that has the pinned digest, where each one before it has another digest or could not be looked
-- up for the moment; it gives none if all are like that; and a registry that denies access to one of
-- them, or is not supported, makes the whole search fail.
pub find_pull_target_version-Outcome :
    (registry : Text → Result Text) (v : Versions) (image_ref : Text) (candidates : List Text)
    (pinned_digest : Text)
    → (ranked : List Text) × (ranked
        ≡ take pull_target_max_digest_lookups (rank_final_versions v candidates))
      × (length ranked ≤ 15)
      × Outcome registry
          (repo_name image_ref)
          pinned_digest
          ranked
          (find_pull_target_version registry v image_ref candidates pinned_digest)
unfolding find_pull_target_version
find_pull_target_version-Outcome registry v image_ref candidates pinned_digest =
    let ranked = take pull_target_max_digest_lookups (rank_final_versions v candidates) in
    (
      ranked,
      refl,
      omega (arith, length-take 15 (rank_final_versions v candidates)),
      search_candidates-Outcome registry (repo_name image_ref) pinned_digest ranked,
    )

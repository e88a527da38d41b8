-- ===== src/Engine/Images/Digests.antt =====
-- The manifest digest of a local image, against the list that Docker keeps of it.
use ha_docker_compose.Prelude.{
  All, All-implies, List, Option-cases, Text, [], ap, arith, elem, elem-append, eq_iff, false, inl,
  inr, nat_eq, none, pair_eq, partition, partition-some, refl, some, text_eq, true, ◌++◌, ◌∷◌, ◌≡◌,
}
use ha_docker_compose.ImageRef.{repo_name, split_tag}
use ha_docker_compose.ImageRef.Tagged.{repo_name-tag_pinned, split_tag-append}
use ha_docker_compose.Engine.{
  docker_error, timed_out, other_error, Outcome, done, failed, returned, Docker,
}
use ha_docker_compose.Engine.Images.{
  Image, parts_at, digest_for, first_digest, or_nothing, image_result, digest_result,
  get_image_repo_digest,
}

digest_for-some : (t x d : Text) → digest_for t x ≡ some d → (x ≡ t ++ b'@' ∷ d) × (d ≡ [] → ⊥)
unfolding digest_for
digest_for-some t x d h = elim (Option-cases (partition b'@' x)) [
  | inl e ↦ ground (arith, e, h)
  | inr ((name, rest), e) ↦
      let split = partition-some b'@' x name rest e in ground (arith, e, h, split.0, eq_iff name t)
]

first_digest-elem :
    (t d : Text) (ds : List Text)
    → first_digest t ds ≡ some d
    → (elem (t ++ b'@' ∷ d) ds ≡ true) × (d ≡ [] → ⊥)
unfolding first_digest elem
first_digest-elem t d [] h = cc
first_digest-elem t d (x ∷ ds) h = elim (Option-cases (digest_for t x)) [
  | inl e ↦ ground (arith, e, h, first_digest-elem t d ds)
  | inr (d', e) ↦ ground (arith, e, h, digest_for-some t x d', eq_iff x (t ++ b'@' ∷ d))
]

-- No RepoDigest has the name: none of them is of use.
first_digest-none :
    (t : Text) (ds : List Text) → All (λ x. (parts_at x).0 ≡ t → ⊥) ds → first_digest t ds ≡ none
unfolding first_digest digest_for
first_digest-none t [] h = refl
first_digest-none t (x ∷ ds) (hx, h) =
    ground (arith, eq_iff (parts_at x).0 t, hx, first_digest-none t ds h)

digest_result-some :
    (image_ref d : Text) (o : Outcome Image)
    → digest_result image_ref (image_result o) ≡ returned (some d)
    → (image : Image) × (o ≡ done image)
      × (elem (repo_name image_ref ++ b'@' ∷ d) (or_nothing image.0) ≡ true)
      × (d ≡ [] → ⊥)
unfolding digest_result image_result
digest_result-some image_ref d (done image) h =
    let found = first_digest-elem (repo_name image_ref) d (or_nothing image.0) (cc) in
    (image, refl, found.0, found.1)
digest_result-some image_ref d (failed (docker_error status)) h = cc
digest_result-some image_ref d (failed timed_out) h = cc
digest_result-some image_ref d (failed other_error) h = cc

-- A name with a tag is none of the names without.
repo_name-ne :
    (name t digest n : Text)
    → elem b'@' name ≡ false
    → elem b'@' t ≡ false
    → elem b':' t ≡ false
    → elem b'/' t ≡ false
    → split_tag n ≡ none
    → n ≡ repo_name ((name ++ b':' ∷ t) ++ b'@' ∷ digest)
    → ⊥
unfolding elem
repo_name-ne name t digest n hn ht colon slash untagged same =
    let at : elem b'@' (name ++ b':' ∷ t) ≡ false =
      ground (arith, elem-append b'@' name (b':' ∷ t)) in
    ground (
      arith,
      repo_name-tag_pinned (name ++ b':' ∷ t) digest [] at,
      split_tag-append name t colon slash,
    )

module _ (World : Type 0) (docker : Docker World) where
  -- A digest that is found belongs to an entry of the image's RepoDigests that is spelled
  -- `name@digest` with the name of the reference, and it is not empty.
  pub get_image_repo_digest-Listed :
      (image_ref d : Text) (w w' : World)
      → get_image_repo_digest World docker true image_ref w ≡ (returned (some d), w')
      → (image : Image) × (docker.inspect_image image_ref w ≡ (done image, w'))
        × (elem (repo_name image_ref ++ b'@' ∷ d) (or_nothing image.0) ≡ true)
        × (d ≡ [] → ⊥)
  unfolding get_image_repo_digest
  get_image_repo_digest-Listed image_ref d w w' h =
      let (image, found, listed, filled) =
        digest_result-some image_ref d (docker.inspect_image image_ref w).0 (ap (λ p. p.0) h) in
      (image, cc, listed, filled)

  -- A reference that is pinned and has a tag as well, `name:t@digest`, with no `@` in its name and tag
  -- and no `:` or `/` in its tag, has no local digest: where the entries of RepoDigests have no tag in
  -- their names, none of them has the name that is looked for.
  pub get_image_repo_digest-pinned :
      (name t digest : Text) (w w' : World) (image : Image)
      → elem b'@' name ≡ false
      → elem b'@' t ≡ false
      → elem b':' t ≡ false
      → elem b'/' t ≡ false
      → All (λ x. split_tag (parts_at x).0 ≡ none) (or_nothing image.0)
      → docker.inspect_image ((name ++ b':' ∷ t) ++ b'@' ∷ digest) w ≡ (done image, w')
      → get_image_repo_digest World docker true ((name ++ b':' ∷ t) ++ b'@' ∷ digest) w
        ≡ (returned none, w')
  unfolding get_image_repo_digest digest_result image_result
  get_image_repo_digest-pinned name t digest w w' image hn ht colon slash untagged found =
      let nowhere =
        first_digest-none (repo_name ((name ++ b':' ∷ t) ++ b'@' ∷ digest)) (or_nothing image.0) (
          All-implies (λ x h. repo_name-ne name t digest (parts_at x).0 hn ht colon slash h)
            (or_nothing image.0) untagged) in
      rw (found, nowhere)

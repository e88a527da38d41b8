-- ===== src/ImageRef/Registry.antt =====
-- `parse_image_ref` of image_ref.py: the normal form of a reference for the registry API.
use ha_docker_compose.Prelude.{
  Option-cases, Text, [], ap, arith, before, before-Lacks, before-append, before-lacks, codes, elem,
  elem-append, eq_refl, false, inl, inr, nat_eq, none, pair_eq, partition, partition-append,
  partition-some, refl, rpartition, rpartition-append_found, rpartition-append_missing, some,
  text_eq, true, ◌++◌, ◌∙◌, ◌∷◌, ◌≡◌,
}
use ha_docker_compose.ImageRef.{
  latest, docker_hub, split_tag, tag, ParsedImageRef, looks_like_host, split_registry, qualify,
  tagged_or_latest, parse_image_ref,
}
use ha_docker_compose.ImageRef.Tagged.{
  repo_name-tag-append, repo_name-tag_pinned, split_tag-append, split_tag-some,
}

-- The normal form as a reference again: `registry/repository:tag`.
unfoldable pub render : ParsedImageRef → Text
render p = p.registry ++ b'/' ∷ (p.repository ++ b':' ∷ p.tag)

qualify-slash : (repository : Text) → elem b'/' (qualify docker_hub repository) ≡ true
unfolding qualify elem
qualify-slash repository =
    ground (arith, elem-append b'/' (codes "library/") repository, eq_refl docker_hub)

qualify-Lacks : (r s : Text) → elem b'@' s ≡ false → elem b'@' (qualify r s) ≡ false
unfolding qualify elem
qualify-Lacks r s h = ground (arith, elem-append b'@' (codes "library/") s)

qualify_idem : (r s : Text) → qualify r (qualify r s) ≡ qualify r s
unfolding qualify elem
qualify_idem r s = ground (arith, elem-append b'/' (codes "library/") s)

-- What is known of the two parts of a reference without `@`.
record IsSplit (p : Text × Text) : Type 0 where
  host : looks_like_host p.0 ≡ true
  host_slash : elem b'/' p.0 ≡ false
  host_at : elem b'@' p.0 ≡ false
  rest_at : elem b'@' p.1 ≡ false

split_registry-IsSplit : (s : Text) → elem b'@' s ≡ false → IsSplit (split_registry s)
unfolding split_registry looks_like_host elem
split_registry-IsSplit s h = elim (Option-cases (partition b'/' s)) [
  | inl e ↦ record {
    host = ground (arith, e);
    host_slash = ground (arith, e);
    host_at = ground (arith, e);
    rest_at = ground (arith, e);
  }
  | inr (p, e) ↦
      let (spelled, slash) = partition-some b'/' s p.0 p.1 e in
      let at = elem-append b'@' p.0 (b'/' ∷ p.1) in
      record {
        host = ground (arith, e);
        host_slash = ground (arith, e, slash);
        host_at = ground (arith, e, spelled, at);
        rest_at = ground (arith, e, spelled, at);
      }
]

-- What is known of the repository and the tag behind the registry.
record IsTagged (p : Text × Text) : Type 0 where
  name_at : elem b'@' p.0 ≡ false
  tag_at : elem b'@' p.1 ≡ false
  colon : elem b':' p.1 ≡ false
  slash : elem b'/' p.1 ≡ false

tagged_or_latest-IsTagged : (s : Text) → elem b'@' s ≡ false → IsTagged (tagged_or_latest s)
unfolding tagged_or_latest elem
tagged_or_latest-IsTagged s h = elim (Option-cases (split_tag s)) [
  | inl e ↦ ground (arith, e)
  | inr (p, e) ↦
      let (spelled, no_colon, no_slash) = split_tag-some s p.0 p.1 e in
      ground (arith, e, spelled, no_colon, no_slash, elem-append b'@' p.0 (b':' ∷ p.1))
]

-- A reference that names its registry, `host/repository:tag`, with a host that looks like one (a
-- dot, a colon or `localhost`) and holds no `/`, a tag without `:` and `/`, and no `@` at all, is
-- parsed into exactly these parts, but for the `library/` that a bare name on the Docker Hub gets.
pub parse_image_ref-render :
    (p : ParsedImageRef)
    → looks_like_host p.registry ≡ true
    → elem b'/' p.registry ≡ false
    → elem b'@' (render p) ≡ false
    → elem b':' p.tag ≡ false
    → elem b'/' p.tag ≡ false
    → parse_image_ref (render p) ≡ record p { repository = qualify p.registry p.repository }
unfolding parse_image_ref render
parse_image_ref-render p host host_slash at colon slash = rw (
  before-lacks b'@' (p.registry ++ b'/' ∷ (p.repository ++ b':' ∷ p.tag)) at,
  partition-append b'/' p.registry (p.repository ++ b':' ∷ p.tag) host_slash,
  host,
  split_tag-append p.repository p.tag colon slash,
  parse_image_ref,
  split_registry,
  tagged_or_latest,
)

render-Lacks :
    (r s t : Text)
    → elem b'@' r ≡ false
    → elem b'@' s ≡ false
    → elem b'@' t ≡ false
    → elem b'@' (render (record { registry = r; repository = s; tag = t })) ≡ false
unfolding render elem
render-Lacks r s t hr hs ht =
    ground (arith, elem-append b'@' r (b'/' ∷ (s ++ b':' ∷ t)), elem-append b'@' s (b':' ∷ t))

-- The normal form is one: parsing the rendering of any parsed reference gives the same parts
-- again, whatever the reference was.
pub parse_image_ref_idem :
    (ref : Text) → parse_image_ref (render (parse_image_ref ref)) ≡ parse_image_ref ref
unfolding parse_image_ref
parse_image_ref_idem ref =
    let at = before-Lacks b'@' ref in
    let split = split_registry-IsSplit (before b'@' ref) at in
    let (registry, remainder) = split_registry (before b'@' ref) in
    let tagged = tagged_or_latest-IsTagged remainder split.rest_at in
    let (repository, t) = tagged_or_latest remainder in
    let p : ParsedImageRef = record {
      registry = registry;
      repository = qualify registry repository;
      tag = t;
    } in
    parse_image_ref-render p split.host split.host_slash
      (render-Lacks registry (qualify registry repository) t split.host_at
        (qualify-Lacks registry repository tagged.name_at) tagged.tag_at)
      tagged.colon tagged.slash
    ∙ ap (λ r. record p { repository = r }) (qualify_idem registry repository)

-- What stands behind the last colon of a text, if it has one.
rpartition_behind : Text → Text
rpartition_behind s = elim (rpartition b':' s) [ none ↦ [] | some (a, b) ↦ b ]

-- Cutting the registry off does not move the last colon that counts for the tag.
tagged_or_latest-split_registry :
    (s : Text) → (tagged_or_latest (split_registry s).1).1 ≡ (tagged_or_latest s).1
unfolding tagged_or_latest split_registry elem rpartition rpartition_behind
tagged_or_latest-split_registry s = elim (Option-cases (partition b'/' s)) [
  | inl e ↦ ground (arith, e)
  | inr (p, e) ↦
      let (spelled, _) = partition-some b'/' s p.0 p.1 e in
      elim (Option-cases (rpartition b':' p.1)) [
        | inl none_here ↦
            let absent : rpartition b':' (b'/' ∷ p.1) ≡ none = rw (none_here, rpartition) refl in
            let whole = rpartition-append_missing b':' p.0 (b'/' ∷ p.1) absent in
            ground (
              arith,
              e,
              spelled,
              none_here,
              whole,
              elem-append b'/' (rpartition_behind p.0) (b'/' ∷ p.1),
            )
        | inr (q, found) ↦
            let step : rpartition b':' (b'/' ∷ p.1) ≡ some (b'/' ∷ q.0, q.1) =
              rw (found, rpartition) refl in
            let whole = rpartition-append_found b':' p.0 (b'/' ∷ p.1) (b'/' ∷ q.0) q.1 step in
            ground (arith, e, spelled, found, whole)
      ]
]

-- A reference without `@` has the same tag for the registry as for the local daemon, where the
-- default is `latest`.
pub tag-parse_image_ref :
    (ref : Text) → elem b'@' ref ≡ false → (parse_image_ref ref).tag ≡ tag ref latest
unfolding parse_image_ref tag tagged_or_latest
tag-parse_image_ref ref at =
    ground (arith, before-lacks b'@' ref at, tagged_or_latest-split_registry ref)

-- A reference with both a tag and a digest, `name:t@digest`, is looked up in the registry under its
-- tag, while `tag` gives the default for it.
pub tag-parse_image_ref_pinned :
    (name t digest default : Text)
    → elem b'@' name ≡ false
    → elem b'@' t ≡ false
    → elem b':' t ≡ false
    → elem b'/' t ≡ false
    → ((parse_image_ref ((name ++ b':' ∷ t) ++ b'@' ∷ digest)).tag ≡ t)
      × (tag ((name ++ b':' ∷ t) ++ b'@' ∷ digest) default ≡ default)
unfolding parse_image_ref elem
tag-parse_image_ref_pinned name t digest default hn ht colon slash =
    let at : elem b'@' (name ++ b':' ∷ t) ≡ false =
      ground (arith, elem-append b'@' name (b':' ∷ t)) in
    (
      ground (
        arith,
        before-append b'@' (name ++ b':' ∷ t) digest at,
        before-lacks b'@' (name ++ b':' ∷ t) at,
        tag-parse_image_ref (name ++ b':' ∷ t) at,
        repo_name-tag-append name t latest hn ht colon slash,
      ),
      (repo_name-tag_pinned (name ++ b':' ∷ t) digest default at).1,
    )

-- ===== src/ImageRef/Tagged.antt =====
-- `repo_name` and `tag` of image_ref.py against the text that they take apart.
use ha_docker_compose.Prelude.{
  Bool-cases, Option-cases, Text, arith, before-append, elem, elem-append, false, inl, inr, nat_eq,
  pair_eq, rpartition-append, rpartition-some, some, text_eq, ◌++◌, ◌∷◌, ◌≡◌, ◌⊎◌,
}
use ha_docker_compose.ImageRef.{split_tag, repo_name, tag}

pub split_tag-append :
    (name t : Text)
    → elem b':' t ≡ false
    → elem b'/' t ≡ false
    → split_tag (name ++ b':' ∷ t) ≡ some (name, t)
unfolding split_tag
split_tag-append name t colon slash =
    rw (rpartition-append b':' name t colon, split_tag) (ground arith)

pub split_tag-some :
    (s a b : Text)
    → split_tag s ≡ some (a, b)
    → (s ≡ a ++ b':' ∷ b) × (elem b':' b ≡ false) × (elem b'/' b ≡ false)
unfolding split_tag
split_tag-some s a b h = ground (arith, rpartition-some b':' s a b)

-- A reference that is spelled `name:tag`, with no `@` in it and no `:` or `/` in its tag, has that
-- name and that tag, whatever the default.
pub repo_name-tag-append :
    (name t default : Text)
    → elem b'@' name ≡ false
    → elem b'@' t ≡ false
    → elem b':' t ≡ false
    → elem b'/' t ≡ false
    → (repo_name (name ++ b':' ∷ t) ≡ name) × (tag (name ++ b':' ∷ t) default ≡ t)
unfolding repo_name tag elem
repo_name-tag-append name t default hn ht colon slash =
    ground (arith, elem-append b'@' name (b':' ∷ t), split_tag-append name t colon slash)

-- Every reference without `@` either is its name, a colon and its tag, or has no tag: then the name
-- is the whole reference and the tag is the default.
pub repo_name-tag_exhaustive :
    (ref default : Text)
    → elem b'@' ref ≡ false
    → (ref ≡ repo_name ref ++ b':' ∷ tag ref default)
      ⊎ ((repo_name ref ≡ ref) × (tag ref default ≡ default))
unfolding repo_name tag
repo_name-tag_exhaustive ref default h = elim (Option-cases (split_tag ref)) [
  | inl untagged ↦ inr (ground (arith, untagged), ground (arith, untagged))
  | inr (p, tagged) ↦ inl (ground (arith, split_tag-some ref p.0 p.1, tagged))
]

-- A reference pinned by a digest, `name@digest`, has the name in front of the first `@`, and the
-- default for a tag, though the digest holds a colon.
pub repo_name-tag_pinned :
    (name digest default : Text)
    → elem b'@' name ≡ false
    → (repo_name (name ++ b'@' ∷ digest) ≡ name) × (tag (name ++ b'@' ∷ digest) default ≡ default)
unfolding repo_name tag elem
repo_name-tag_pinned name digest default h =
    ground (arith, elem-append b'@' name (b'@' ∷ digest), before-append b'@' name digest h)

-- The tag of a reference holds no `@`, if the default holds none.
pub tag-Lacks :
    (ref default : Text) → elem b'@' default ≡ false → elem b'@' (tag ref default) ≡ false
unfolding tag elem
tag-Lacks ref default h = elim (Bool-cases (elem b'@' ref)) [
  | inl pinned ↦ ground (arith, pinned)
  | inr plain ↦ elim (Option-cases (split_tag ref)) [
    | inl e ↦ ground (arith, plain, e)
    | inr (p, e) ↦
        ground (arith, plain, e, split_tag-some ref p.0 p.1 e, elem-append b'@' p.0 (b':' ∷ p.1))
  ]
]

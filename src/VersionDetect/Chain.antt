-- ===== src/VersionDetect/Chain.antt =====
-- `detect_version` of version_detect.py: which source a detected version comes from.
use ha_docker_compose.Prelude.{
  Bool-cases, Dict, Option, Option-cases, Text, [], arith, elem, false, inl, inr, nat_eq, none,
  pair_eq, refl, some, subst, text_eq, true, ◌++◌, ◌↔◌, ◌∷◌, ◌≡◌, ◌≢◌,
}
use ha_docker_compose.ImageRef.{tag, latest}
use ha_docker_compose.ImageRef.Tagged.{tag-Lacks}
use ha_docker_compose.Labels.{Origin, resolve_label}
use ha_docker_compose.VersionDetect.{
  oci_version_label, unverified_suffix, starts_with_digit, has_version_structure, is_version_tag,
  normalize_version, trusted_label, detect_version,
}
use ha_docker_compose.ComposeFile.{truthy}
use ha_docker_compose.VersionDetect.Structure.{
  VersionShape, has_version_structure_iff, normalize_version-digit,
}

module _ (image_ref : Text) (image_labels : Dict Text Text)
    (container_labels : Option (Dict Text Text)) (assumed_version : Option Text) where
  abbrev pub resolved : Option (Text × Origin)
  resolved = resolve_label image_labels container_labels oci_version_label

  -- Neither the label nor the tag tells a version.
  pub record IsUnverifiable : Type 0 where
    pub no_label :
        (v : Text) (o : Origin) → resolved ≡ some (v, o) → has_version_structure v ≡ false
    pub no_tag : is_version_tag (tag image_ref latest) ≡ false

  -- Where a detected version comes from.
  pub data Source (v : Text) : Type 0 where
    from_label : (o : Origin) → resolved ≡ some (v, o) → VersionShape v → Source v
    from_tag :
        is_version_tag (tag image_ref latest) ≡ true
        → v ≡ normalize_version (tag image_ref latest)
        → starts_with_digit v ≡ true
        → Source v
    from_last_pull :
        (a : Text)
        → assumed_version ≡ some a
        → a ≢ []
        → v ≡ a ++ unverified_suffix
        → IsUnverifiable
        → Source v

  trusted_label-some :
      (r : Option (Text × Origin)) (v : Text)
      → trusted_label r ≡ some v
      → (o : Origin) × (r ≡ some (v, o)) × (has_version_structure v ≡ true)
  unfolding trusted_label
  trusted_label-some none v h = cc
  trusted_label-some (some (w, o)) v h = (o, ground arith, ground arith)

  trusted_label-none :
      (r : Option (Text × Origin))
      → trusted_label r ≡ none
      → (v : Text) (o : Origin) → r ≡ some (v, o)
      → has_version_structure v ≡ false
  unfolding trusted_label
  trusted_label-none none h v o e = cc
  trusted_label-none (some (w, p)) h v o e = ground arith

  -- Every detected version is either a label with the structure of a version, or the image's tag
  -- without its `v`, which begins with a digit, or the assumption of the last pull: and the last is
  -- marked as unverified, and used only if neither the label nor the tag tells a version.
  pub detect_version-Source :
      (v : Text)
      → detect_version image_ref image_labels container_labels assumed_version ≡ some v
      → Source v
  unfolding detect_version
  detect_version-Source v h = elim (Option-cases (trusted_label resolved)) [
    | inr (w, e) ↦
        let (o, found, shaped) = trusted_label-some resolved w e in
        let same : w ≡ v = ground (arith, e, h) in
        subst Source same (from_label o found ((has_version_structure_iff w).0 shaped))
    | inl e ↦ elim (Bool-cases (is_version_tag (tag image_ref latest))) [
      | inl tagged ↦
          let same : normalize_version (tag image_ref latest) ≡ v = ground (arith, e, tagged, h) in
          subst Source same (
            from_tag tagged refl (
              normalize_version-digit (tag image_ref latest) tagged
                (tag-Lacks image_ref latest (unfold elem in refl))))
      | inr untagged ↦
          let unverifiable : IsUnverifiable = record {
            no_label = trusted_label-none resolved e;
            no_tag = untagged;
          } in
          assumed v assumed_version refl unverifiable (ground (arith, e, untagged, h))
    ]
  ]
    where
      assumed :
          (w : Text) (a : Option Text)
          → assumed_version ≡ a
          → IsUnverifiable
          → elim a [
            | none ↦ none
            | some [] ↦ none
            | some (c ∷ s) ↦ some ((c ∷ s) ++ unverified_suffix)
          ]
            ≡ some w
          → Source w
      assumed w none e u k = cc
      assumed w (some []) e u k = cc
      assumed w (some (c ∷ s)) e u k = from_last_pull (c ∷ s) e (cc) (cc) u

  -- There is nothing to show exactly when neither the label nor the tag tells a version and the last
  -- pull left no assumption.
  pub detect_version-none :
      (detect_version image_ref image_labels container_labels assumed_version ≡ none)
      ↔ (IsUnverifiable × (truthy assumed_version ≡ none))
  unfolding detect_version trusted_label
  detect_version-none = (
    λ h. (
      record { no_label = λ v o e. ground (arith, e, h); no_tag = ground (arith, h) },
      ground (arith, h),
    ),
    λ (u, a). elim (Option-cases resolved) [
      | inl e ↦ ground (arith, e, u.no_tag, a)
      | inr (p, e) ↦ ground (arith, e, u.no_label p.0 p.1 e, u.no_tag, a)
    ],
  )

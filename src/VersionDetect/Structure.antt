-- ===== src/VersionDetect/Structure.antt =====
-- What the patterns of version_detect.py accept.
use ha_docker_compose.Prelude.{
  All, Bool, Bool-cases, Text, [], all, arith, codes, drop_while, elem, false, inl, inr, is_digit,
  nat_eq, pair_eq, refl, rpartition-lacks, text_eq, true, ℕ, ◌++◌, ◌==◌, ◌↔◌, ◌∷◌, ◌≡◌, ◌≢◌, ◌⊎◌,
}
use ha_docker_compose.VersionDetect.{
  starts_with_digit, skip_v, dot_digit, has_version_structure, is_version_tag, normalize_version,
  behind_at,
}

-- An optional `v`, one or more digits, a dot, a digit, and anything behind.
pub record VersionShape (s : Text) : Type 0 where
  pub prefix : Text
  pub major : Text
  pub minor : ℕ
  pub rest : Text
  pub prefix_v : (prefix ≡ []) ⊎ (prefix ≡ codes "v")
  pub major_digits : All (λ c. is_digit c ≡ true) major
  pub major_some : major ≢ []
  pub minor_digit : is_digit minor ≡ true
  pub spelled : s ≡ prefix ++ (major ++ b'.' ∷ minor ∷ rest)

-- `drop_while` cuts a prefix of the class off.
drop_while_split :
    (p : ℕ → Bool) (s : Text)
    → (pre : Text) × All (λ c. p c ≡ true) pre × (s ≡ pre ++ drop_while p s)
unfolding drop_while
drop_while_split p [] = ([], tt, refl)
drop_while_split p (c ∷ s) = elim (Bool-cases (p c)) [
  | inl more ↦
      let (pre, all, e) = drop_while_split p s in (c ∷ pre, (more, all), ground (arith, more, e))
  | inr stop ↦ ([], tt, ground (arith, stop))
]

drop_while-append :
    (p : ℕ → Bool) (pre : Text) (c : ℕ) (s : Text)
    → All (λ d. p d ≡ true) pre
    → p c ≡ false
    → drop_while p (pre ++ c ∷ s) ≡ c ∷ s
unfolding drop_while
drop_while-append p [] c s all stop = rw stop
drop_while-append p (d ∷ pre) c s (h, all) stop =
    ground (arith, h, drop_while-append p pre c s all stop)

skip_v_split : (s : Text) → (v : Text) × ((v ≡ []) ⊎ (v ≡ codes "v")) × (s ≡ v ++ skip_v s)
skip_v_split [] = ([], inl refl, refl)
skip_v_split (c ∷ s) = elim (Bool-cases (c == b'v')) [
  | inl v ↦ (codes "v", inr refl, ground (arith, v))
  | inr other ↦ ([], inl refl, ground (arith, other))
]

dot_digit_split :
    (s : Text)
    → dot_digit s ≡ true
    → (d : ℕ) × (r : Text) × (s ≡ b'.' ∷ d ∷ r) × (is_digit d ≡ true)
dot_digit_split [] h = cc
dot_digit_split (c ∷ []) h = ground arith
dot_digit_split (c ∷ d ∷ r) h = (d, r, ground arith, ground arith)

has_version_structure_sound : (s : Text) → has_version_structure s ≡ true → VersionShape s
unfolding has_version_structure
has_version_structure_sound s h =
    let (v, is_v, whole) = skip_v_split s in
    let (pre, all, digits) = drop_while_split is_digit (skip_v s) in
    let dot : dot_digit (drop_while is_digit (skip_v s)) ≡ true = ground (arith, h) in
    let first : starts_with_digit (skip_v s) ≡ true = ground (arith, h) in
    let (d, r, behind, is_d) = dot_digit_split (drop_while is_digit (skip_v s)) dot in
    record {
      prefix = v;
      major = pre;
      minor = d;
      rest = r;
      prefix_v = is_v;
      major_digits = all;
      major_some = λ empty. ground (arith, digits, behind, empty, first);
      minor_digit = is_d;
      spelled = cc;
    }

has_version_structure_complete : (s : Text) → VersionShape s → has_version_structure s ≡ true
unfolding has_version_structure
has_version_structure_complete s h =
    go h.prefix h.major h.prefix_v h.major_digits h.major_some h.spelled
  where
    go :
        (v m : Text)
        → (v ≡ []) ⊎ (v ≡ codes "v")
        → All (λ c. is_digit c ≡ true) m
        → m ≢ []
        → s ≡ v ++ (m ++ b'.' ∷ h.minor ∷ h.rest)
        → has_version_structure s ≡ true
    go v [] is_v all full spelled = absurd (full refl)
    go v (c ∷ m) (inl e) all full spelled =
        let skipped : skip_v s ≡ c ∷ (m ++ b'.' ∷ h.minor ∷ h.rest) =
          ground (arith, e, spelled, all.0) in
        ground (
          arith,
          skipped,
          all.0,
          h.minor_digit,
          drop_while-append is_digit (c ∷ m) b'.' (h.minor ∷ h.rest) all refl,
        )
    go v (c ∷ m) (inr e) all full spelled =
        let skipped : skip_v s ≡ c ∷ (m ++ b'.' ∷ h.minor ∷ h.rest) = ground (arith, e, spelled) in
        ground (
          arith,
          skipped,
          all.0,
          h.minor_digit,
          drop_while-append is_digit (c ∷ m) b'.' (h.minor ∷ h.rest) all refl,
        )

-- The structural check accepts exactly the texts that begin with an optional `v`, one or more
-- digits, a dot and a digit.
pub has_version_structure_iff : (s : Text) → (has_version_structure s ≡ true) ↔ VersionShape s
has_version_structure_iff s = (has_version_structure_sound s, has_version_structure_complete s)

-- A tag that counts as a version and holds no `@` is normalised to a text that begins with a digit.
pub normalize_version-digit :
    (t : Text)
    → is_version_tag t ≡ true
    → elem b'@' t ≡ false
    → starts_with_digit (normalize_version t) ≡ true
unfolding is_version_tag normalize_version
normalize_version-digit [] h at = cc
normalize_version-digit (c ∷ s) h at =
    let whole : behind_at (c ∷ s) ≡ c ∷ s = rw (rpartition-lacks b'@' (c ∷ s) at, behind_at) refl in
    ground (arith, whole, h)

-- ===== src/ConfigFlow/Sites.antt =====
-- The slugs of the entries: what keeps them apart.
use ha_docker_compose.Prelude.{
  Bool, Option, Text, [], arith, elem, elem-add, eq_iff, false, inl, inr, insert, lookup,
  lookup-insert, nat_eq, none, pair_eq, some, text_eq, true, ◌==◌, ◌∷◌, ◌≡◌, ◌≢◌, ◌⊎◌,
}
use ha_docker_compose.SiteIdentity.{other_site_slugs}
use ha_docker_compose.SiteIdentity.Slug.{IsSlug}
use ha_docker_compose.ConfigFlow.{Entries}

-- Every slug in the options of an entry has the form of a slug, and no two entries share one.
pub record IsSound (entries : Entries) : Type 0 where
  pub formed : (i s : Text) → lookup i entries ≡ some (some s) → IsSlug s
  pub distinct :
      (i j s : Text) → lookup i entries ≡ some (some s) → lookup j entries ≡ some (some s) → i ≡ j

abbrev pub is_excluded : Option Text → Text → Bool
is_excluded none j = false
is_excluded (some i) j = j == i

-- The slugs of the other entries are all counted as taken.
pub other_site_slugs_complete :
    (entries : Entries) (excluded : Option Text) (j s : Text)
    → lookup j entries ≡ some (some s)
    → is_excluded excluded j ≡ false
    → s ≢ []
    → elem s (other_site_slugs entries excluded) ≡ true
unfolding lookup other_site_slugs
other_site_slugs_complete [] excluded j s h out full = cc
other_site_slugs_complete ((i, none) ∷ es) excluded j s h out full =
    ground (arith, other_site_slugs_complete es excluded j s)
other_site_slugs_complete ((i, some []) ∷ es) excluded j s h out full =
    ground (arith, other_site_slugs_complete es excluded j s)
other_site_slugs_complete ((i, some (c ∷ t)) ∷ es) none j s h out full = ground (
  arith,
  other_site_slugs_complete es none j s,
  elem-add (c ∷ t) s (other_site_slugs es none),
  eq_iff (c ∷ t) s,
)
other_site_slugs_complete ((i, some (c ∷ t)) ∷ es) (some x) j s h out full = ground (
  arith,
  other_site_slugs_complete es (some x) j s,
  elem-add (c ∷ t) s (other_site_slugs es (some x)),
  eq_iff (c ∷ t) s,
  eq_iff i j,
)

IsSlug-ne-nil : (s : Text) → IsSlug s → s ≢ []
IsSlug-ne-nil _ (IsSlug.last c h) = cc
IsSlug-ne-nil _ (IsSlug.char c s h k) = cc
IsSlug-ne-nil _ (IsSlug.gap c s h k) = cc

module _ (entries : Entries) (excluded : Option Text) (me s : Text) (sound : IsSound entries)
    (formed : IsSlug s) (free : elem s (other_site_slugs entries excluded) ≡ false)
    (only : (j t : Text)
      → lookup j entries ≡ some (some t)
      → j ≢ me
      → is_excluded excluded j ≡ false) where
  no_other : (j : Text) → lookup j entries ≡ some (some s) → j ≢ me → ⊥
  no_other j h ne =
      let taken =
        other_site_slugs_complete entries excluded j s h (only j s h ne) (IsSlug-ne-nil s formed) in
      cc

  after_insert :
      (i t : Text)
      → lookup i (insert me (some s) entries) ≡ some (some t)
      → ((i ≡ me) × (t ≡ s)) ⊎ ((i ≢ me) × (lookup i entries ≡ some (some t)))
  after_insert i t h = ground (arith, lookup-insert me i (some s) entries, eq_iff me i, h)

  -- Giving an entry a slug that no other entry has keeps the entries sound.
  pub insert-IsSound : IsSound (insert me (some s) entries)
  insert-IsSound = record {
    formed = λ i t h. elim (after_insert i t h) [
      | inl (_, e) ↦ rw e formed
      | inr (_, old) ↦ sound.formed i t old
    ];
    distinct = λ i j t hi hj. elim (after_insert i t hi) [
      | inl (ei, et) ↦ elim (after_insert j t hj) [
        | inl (ej, _) ↦ cc
        | inr (ne, old) ↦ absurd (no_other j (rw et at old) ne)
      ]
      | inr (ni, oldi) ↦ elim (after_insert j t hj) [
        | inl (ej, et) ↦ absurd (no_other i (rw et at oldi) ni)
        | inr (_, oldj) ↦ sound.distinct i j t oldi oldj
      ]
    ];
  }

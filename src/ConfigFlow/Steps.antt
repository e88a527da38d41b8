-- ===== src/ConfigFlow/Steps.antt =====
-- The life of the entries: the flows of config_flow.py create and reconfigure them, and
-- `_resolve_site` of __init__.py gives a slug to an old entry that is set up without one.
use ha_docker_compose.Prelude.{
  Bool-cases, Option, Option-cases, Text, [], arith, elem, eq_iff, false, inl, inr, insert, lookup,
  lookup-insert, lookup-insert_self, lookup-remove, nat_eq, none, pair_eq, refl, remove, some,
  strip, text_eq, ◌∷◌, ◌≡◌, ◌≢◌,
}
use ha_docker_compose.SiteIdentity.{slugify_site_name, resolve_unique_site_slug, other_site_slugs}
use ha_docker_compose.SiteIdentity.Slug.{IsSlug, slugify_site_name-IsSlug}
use ha_docker_compose.SiteIdentity.Suffix.{resolve_unique_site_slug-IsSlug}
use ha_docker_compose.SiteIdentity.Unique.{elem-resolve_unique_site_slug}
use ha_docker_compose.ConfigFlow.{
  Entries, slug, resolve_site_slug, UserInput, Host, create_entry, update_reload_and_abort,
  finish_user, async_step_user, reconfigure_slug, async_step_reconfigure, resolve_site,
}
use ha_docker_compose.ConfigFlow.Sites.{IsSound, is_excluded, insert-IsSound}

-- What can happen to the entries. Home Assistant gives a new entry an id that is not in use; an
-- entry can be removed, or be an old one that has no slug yet.
pub data Step : Entries → Entries → Type 0 where
  created :
      (es : Entries) (host : Host) (input cleaned : UserInput) (id site : Text)
      → lookup id es ≡ none
      → async_step_user host es (some input) ≡ create_entry site cleaned
      → Step es (insert id (some site) es)
  reconfigured :
      (es : Entries) (id site : Text) (input : Option Text)
      → async_step_reconfigure es id input ≡ update_reload_and_abort site
      → Step es (insert id (some site) es)
  loaded : (es : Entries) (id leaf : Text) → Step es (resolve_site es id leaf).1
  removed : (es : Entries) (id : Text) → Step es (remove id es)
  migrated : (es : Entries) (id : Text) → Step es (insert id none es)

pub data Reach (es : Entries) : Entries → Type 0 where
  here : Reach es es
  next : {fs gs : Entries} → Reach es fs → Step fs gs → Reach es gs

-- What a successful resolution says of its slug.
resolve_site_slug-slug :
    (es : Entries) (input default : Text) (excluded : Option Text) (s : Text)
    → resolve_site_slug es input default excluded ≡ slug s
    → IsSlug s × (elem s (other_site_slugs es excluded) ≡ false)
unfolding resolve_site_slug
resolve_site_slug-slug es [] default excluded s h =
    let fresh = resolve_unique_site_slug-IsSlug default (other_site_slugs es excluded) in
    let free =
      elem-resolve_unique_site_slug (slugify_site_name default) (other_site_slugs es excluded) in
    let e : resolve_unique_site_slug (slugify_site_name default) (other_site_slugs es excluded)
        ≡ s =
      cc in
    (rw e at fresh, rw e at free)
resolve_site_slug-slug es (c ∷ input) default excluded s h =
    elim (Bool-cases (elem (slugify_site_name (c ∷ input)) (other_site_slugs es excluded))) [
      | inl used ↦ ground (arith, used)
      | inr free ↦
          let e : slugify_site_name (c ∷ input) ≡ s = ground (arith, free) in
          (rw e at (slugify_site_name-IsSlug (c ∷ input)), rw e at free)
    ]

-- `async_step_user` creates an entry only with a slug that it resolved.
created-slug :
    (es : Entries) (host : Host) (input cleaned : UserInput) (site : Text)
    → async_step_user host es (some input) ≡ create_entry site cleaned
    → (default : Text) × (resolve_site_slug es (strip input.site_name) default none ≡ slug site)
unfolding async_step_user finish_user
created-slug es host input cleaned site h =
    (host.leaf (host.expanduser input.stacks_root), ground (arith, h))

reconfigured-slug :
    (es : Entries) (id site : Text) (input : Option Text)
    → async_step_reconfigure es id input ≡ update_reload_and_abort site
    → (typed : Text) × (resolve_site_slug es typed typed (some id) ≡ slug site)
unfolding async_step_reconfigure reconfigure_slug
reconfigured-slug es id site none h = ground arith
reconfigured-slug es id site (some input) h = (strip input, ground (arith, h))

-- A resolved slug may be given to an entry, if it was resolved against all the other entries.
resolved-IsSound :
    (es : Entries) (input default : Text) (excluded : Option Text) (id s : Text)
    → IsSound es
    → resolve_site_slug es input default excluded ≡ slug s
    → ((j t : Text) → lookup j es ≡ some (some t) → j ≢ id → is_excluded excluded j ≡ false)
    → IsSound (insert id (some s) es)
resolved-IsSound es input default excluded id s sound h only =
    let (formed, free) = resolve_site_slug-slug es input default excluded s h in
    insert-IsSound es excluded id s sound formed free only

other_ids :
    (es : Entries) (id j t : Text)
    → lookup j es ≡ some (some t)
    → j ≢ id
    → is_excluded (some id) j ≡ false
other_ids es id j t h ne = ground (arith, eq_iff j id, ne)

resolve_site-IsSound :
    (es : Entries) (id leaf : Text) → IsSound es → IsSound (resolve_site es id leaf).1
unfolding resolve_site
resolve_site-IsSound es id leaf sound = elim (Option-cases (lookup id es)) [
  | inl absent ↦ rw (absent, resolve_site) given
  | inr (none, empty) ↦ rw (empty, resolve_site) given
  | inr (some site, kept) ↦ rw (kept, resolve_site) sound
]
  where
    given : IsSound (
        insert id
          (some (resolve_unique_site_slug (slugify_site_name leaf) (other_site_slugs es (some id))))
          es)
    given =
        insert-IsSound es (some id) id _ sound
          (resolve_unique_site_slug-IsSlug leaf (other_site_slugs es (some id)))
          (elem-resolve_unique_site_slug (slugify_site_name leaf) (other_site_slugs es (some id)))
          (other_ids es id)

without-IsSound :
    (es fs : Entries)
    → IsSound es
    → ((i s : Text) → lookup i fs ≡ some (some s) → lookup i es ≡ some (some s))
    → IsSound fs
without-IsSound es fs sound back = record {
  formed = λ i s h. sound.formed i s (back i s h);
  distinct = λ i j s hi hj. sound.distinct i j s (back i s hi) (back j s hj);
}

pub Step-IsSound : {es fs : Entries} → IsSound es → Step es fs → IsSound fs
Step-IsSound sound (created es host input cleaned id site fresh h) =
    let (default, resolved) = created-slug es host input cleaned site h in
    resolved-IsSound es (strip input.site_name) default none id site sound resolved
      (λ j t _ _. refl)
Step-IsSound sound (reconfigured es id site input h) =
    let (typed, resolved) = reconfigured-slug es id site input h in
    resolved-IsSound es typed typed (some id) id site sound resolved (other_ids es id)
Step-IsSound sound (loaded es id leaf) = resolve_site-IsSound es id leaf sound
Step-IsSound sound (removed es id) =
    without-IsSound es (remove id es) sound (λ i s h. ground (arith, lookup-remove id i es, h))
Step-IsSound sound (migrated es id) =
    without-IsSound es (insert id none es) sound
      (λ i s h. ground (arith, lookup-insert id i none es, h))

-- Once loaded, the slug of an entry is stored: loading it again gives the same slug and changes
-- nothing, whatever the folder's name is by then.
pub resolve_site_stable :
    (es : Entries) (id leaf other : Text)
    → resolve_site (resolve_site es id leaf).1 id other ≡ resolve_site es id leaf
unfolding resolve_site
resolve_site_stable es id leaf other =
    let fresh = resolve_unique_site_slug (slugify_site_name leaf) (other_site_slugs es (some id)) in
    ground (arith, lookup-insert_self id (some fresh) es)

-- ===== src/ConfigFlow.antt =====
-- custom_components/ha_docker_compose/config_flow.py, and `_resolve_site` of __init__.py: how the
-- entries of the integration, one for each Docker host, come by their site slugs.
mod Tests
pub mod Sites
pub mod Steps
use ha_docker_compose.Prelude.{
  Bool, Dict, Option, Text, [], codes, elem, if◌then◌else◌, insert, lookup, nat_eq, none, not,
  pair_eq, some, starts_with, strip, suc, text_eq, zero, ℕ, ◌||◌, ◌∷◌,
}
use ha_docker_compose.SiteIdentity.{slugify_site_name, resolve_unique_site_slug, other_site_slugs}

-- The entries that Home Assistant keeps: the id of each, with its `site_name` option.
abbrev pub Entries : Type 0
Entries = Dict Text (Option Text)

pub data SlugError : Type 0 where
  site_name_already_used : SlugError

pub data SlugResult : Type 0 where
  slug : Text → SlugResult
  slug_error : SlugError → SlugResult

-- `_resolve_site_slug`: a typed name that collides is refused, a derived one gets a suffix.
unfoldable pub resolve_site_slug : Entries → Text → Text → Option Text → SlugResult
resolve_site_slug entries [] default_source exclude_entry_id = slug (
    resolve_unique_site_slug (slugify_site_name default_source)
      (other_site_slugs entries exclude_entry_id))
resolve_site_slug entries (c ∷ site_name_input) default_source exclude_entry_id =
    let desired_slug = slugify_site_name (c ∷ site_name_input) in
    if elem desired_slug (other_site_slugs entries exclude_entry_id)
    then slug_error site_name_already_used
    else slug desired_slug

pub record UserInput : Type 0 where
  pub stacks_root : Text
  pub docker_host : Text
  pub sidecar_container : Text
  pub poll_interval : ℕ
  pub site_name : Text

-- What the flow asks of its surroundings: `expanduser`, `name` and `is_dir` of a path, whether an
-- entry with this unique id is configured, and the number of stacks that discovery finds (`none`
-- where it raises).
pub record Host : Type 0 where
  pub expanduser : Text → Text
  pub leaf : Text → Text
  pub is_dir : Text → Bool
  pub is_configured : Text → Bool
  pub discover : Text → Option ℕ

pub data FormError : Type 0 where
  stacks_root_not_found invalid_docker_host discovery_failed no_stacks_found : FormError
  site_name_required : FormError
  site_name_error : SlugError → FormError

pub data AbortReason : Type 0 where
  already_configured reconfigure_entry_not_found : AbortReason

pub data FlowResult : Type 0 where
  show_form : Option FormError → FlowResult
  abort : AbortReason → FlowResult
  -- the title and the `site_name` option are the slug
  create_entry : Text → UserInput → FlowResult
  update_reload_and_abort : Text → FlowResult

-- `docker_host.startswith(_VALID_DOCKER_HOST_SCHEMES)`
unfoldable pub is_valid_docker_host : Text → Bool
is_valid_docker_host docker_host =
    starts_with (codes "unix://") docker_host || starts_with (codes "tcp://") docker_host

finish_user : Host → UserInput → SlugResult → FlowResult
finish_user host cleaned (slug_error e) = show_form (some (site_name_error e))
finish_user host cleaned (slug s) =
    if host.is_configured cleaned.stacks_root
    then abort already_configured
    else create_entry s cleaned

after_discovery : Host → Entries → UserInput → Text → Option ℕ → FlowResult
unfolding finish_user
after_discovery host entries cleaned site_name none = show_form (some discovery_failed)
after_discovery host entries cleaned site_name (some zero) = show_form (some no_stacks_found)
after_discovery host entries cleaned site_name (some (suc n)) =
    finish_user host cleaned
      (resolve_site_slug entries (strip site_name) (host.leaf cleaned.stacks_root) none)

unfoldable pub async_step_user : Host → Entries → Option UserInput → FlowResult
unfolding after_discovery is_valid_docker_host
async_step_user host entries none = show_form none
async_step_user host entries (some user_input) =
    let stacks_root = host.expanduser user_input.stacks_root in
    let docker_host = strip user_input.docker_host in
    let cleaned : UserInput = record user_input {
      stacks_root = stacks_root;
      docker_host = docker_host;
    } in
    if not (host.is_dir stacks_root)
    then show_form (some stacks_root_not_found)
    else if not (is_valid_docker_host docker_host)
    then show_form (some invalid_docker_host)
    else after_discovery host entries cleaned user_input.site_name (host.discover stacks_root)

reconfigure_slug : SlugResult → FlowResult
reconfigure_slug (slug_error e) = show_form (some (site_name_error e))
reconfigure_slug (slug s) = update_reload_and_abort s

reconfigure_named : Entries → Text → Text → FlowResult
unfolding reconfigure_slug
reconfigure_named entries entry_id [] = show_form (some site_name_required)
reconfigure_named entries entry_id (c ∷ s) =
    reconfigure_slug (resolve_site_slug entries (c ∷ s) (c ∷ s) (some entry_id))

-- The input is the `site_name` that was submitted; `none` opens the form.
unfoldable pub async_step_reconfigure : Entries → Text → Option Text → FlowResult
unfolding reconfigure_named
async_step_reconfigure entries entry_id input = elim (lookup entry_id entries) [
  | none ↦ abort reconfigure_entry_not_found
  | some _ ↦ elim input [
    | none ↦ show_form none
    | some site_name ↦ reconfigure_named entries entry_id (strip site_name)
  ]
]

-- `_resolve_site`: the slug of an entry that is set up, with the entries after it.
unfoldable pub resolve_site : Entries → Text → Text → Text × Entries
resolve_site entries entry_id leaf_name =
    let taken = other_site_slugs entries (some entry_id) in
    let fresh = resolve_unique_site_slug (slugify_site_name leaf_name) taken in
    elim (lookup entry_id entries) [
      | some (some site) ↦ (site, entries)
      | some none ↦ (fresh, insert entry_id (some fresh) entries)
      | none ↦ (fresh, insert entry_id (some fresh) entries)
    ]

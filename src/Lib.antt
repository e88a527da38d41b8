-- ===== src/Lib.antt =====
-- ha-docker-compose: a Home Assistant integration that watches and updates Docker Compose stacks.
-- Paths below are under custom_components/ha_docker_compose/.
--
-- The parts and how they interact. A config entry stands for one Docker host. config_flow.py creates
-- entries and gives each a site slug by site_identity.py; __init__.py (`_resolve_site`) gives one to
-- an entry without. For each service of a stack, its image reference is taken apart by image_ref.py,
-- its labels are read by protection.py and oci_labels.py, and version_detect.py says which version
-- runs. registry_client.py asks a registry for the digest and the tags of a reference; tag_filter.py
-- picks the newest version among the tags. pull_jobs.py pulls and recreates a stack as a job that
-- survives a restart, and writes the pull history of storage.py at its end, which version_detect.py
-- falls back on. coordinator.py derives the state of each stack from the containers that Docker lists;
-- update_coordinator.py compares digests for the running ones, and triggers tag_walk_coordinator.py
-- when an update appears; device_ids.py says which devices a reload keeps. engine.py asks the Docker
-- Engine for the containers, and runs commands in a sidecar container, attached or detached;
-- compose.py builds `docker compose` commands on it, and discovery.py reads the stacks folder with
-- them. github_coordinator.py looks up releases by github_release.py. The entities of switch.py,
-- button.py, sensor.py and binary_sensor.py show all this and start the actions.
--
-- Which file models which part.
--   Prelude          texts as lists of code points, Python's dictionaries and sets, decimal notation
--   ImageRef         image_ref.py: `repo_name`, `tag`, `parse_image_ref`
--   SiteIdentity     site_identity.py: slugs and the suffix search
--   ConfigFlow       config_flow.py: both steps of the flow; __init__.py: `_resolve_site`
--   ComposeFile      the parts of a compose file that are read
--   Labels           protection.py and oci_labels.py
--   VersionDetect    version_detect.py, each regular expression as a matcher
--   TagFilter        tag_filter.py; `re.compile` and the `packaging` versions are parameters
--   RegistryClient   registry_client.py: an action takes a world, asks it by `get`, and gives a result
--                    or one of the three failures, with the world after it
--   Storage          storage.py: the history as a dictionary of dictionaries
--   Engine           engine.py: what aiodocker answers is a record of actions on a world; Engine/Shell
--                    the line of a detached command, Engine/Exec the execs and the logs, Engine/Images
--                    digests and labels
--   Compose          compose.py: the commands, their errors, the raw read of a compose file
--   Discovery        discovery.py: the record of a stack; Discovery/Scan `discover_stacks`
--   PullJobs         pull_jobs.py: a driver (`_drive`, `_wait_for_step`) is a task, and one poll of it
--                    a function of what Docker answers, an exception that nothing catches among it;
--                    `start` and `resume_all` as functions;
--                    PullJobs/Watching such a poll on the engine
--   Coordinator      coordinator.py: `_async_update_data` and `_derive_stack_state`
--   DeviceIds        device_ids.py; __init__.py: `_async_prune_stale_devices`
--   UpdateCoordinator  update_coordinator.py: the digest check, its summary and its edge trigger
--   TagWalk          tag_walk_coordinator.py: `_find_pull_target_version`, `_check_one`, `_walk_stack`,
--                    the sweep and `async_refresh_stacks`, their concurrent walks taken in turn
--   ContainerTotals  container_totals.py: the floats are a parameter
--   GithubRelease    github_release.py; GithubCoordinator: github_coordinator.py, one cycle
--   Entities         which entities the platforms have; Entities/Actions what they do,
--                    Entities/Values and Entities/Attributes what they show
--
-- Bounds. The suffix search has as many rounds as there are taken slugs, which is enough: that many
-- suffixes and one more cannot all be taken. Decimal notation has n + 1 rounds for n. The tag list has
-- the source's 50 pages. A driver needs no fuel: its polls are bounded by MAX_WAIT_SECONDS.
--
-- Assumptions. Case mapping, whitespace and digits are those of ASCII. A version library has a total
-- and transitive order. Home Assistant gives a new entry an id that is not in use. Only the exceptions
-- that the code catches or raises are modelled, and the steps of one job are taken in order; what
-- happens between the awaits of one call is not. A call to Docker that `wait_for` cuts off is an
-- outcome of the world, and calls that are gathered are taken in turn. A CPU percentage is kept as the
-- operands of its formula, and a JSON field is of its documented type or missing. Each service of a
-- compose document is a mapping, as `docker compose config` prints it; a null one, which a raw read can give, is not modelled.
--
-- Not modelled: logging and the texts of messages, the Docker and HTTP transports, the files on disk,
-- Home Assistant itself and what it does with entities; display names and icons;
-- the wiring of __init__.py.
pub mod Prelude
pub mod ImageRef
pub mod SiteIdentity
pub mod ConfigFlow
pub mod ComposeFile
pub mod Labels
pub mod VersionDetect
pub mod TagFilter
pub mod RegistryClient
pub mod Storage
pub mod Discovery
pub mod Engine
pub mod Compose
pub mod ContainerTotals
pub mod Coordinator
pub mod DeviceIds
pub mod UpdateCoordinator
pub mod TagWalk
pub mod GithubRelease
pub mod GithubCoordinator
pub mod PullJobs
pub mod Entities

-- ===== src/PullJobs.antt =====
-- custom_components/ha_docker_compose/pull_jobs.py: pull and recreate jobs that survive a restart.
-- A driver (`_drive`) is a task; what Docker answers to it comes in as a value.
mod Tests
pub mod Drive
pub mod Watching
pub mod Tracking
pub mod Restart
use ha_docker_compose.Prelude.{
  Bool, Dict, List, Option, Text, [], add, discard, false, if◌then◌else◌, insert, leb, lookup,
  nat_eq, none, or_else, pair_eq, remove, some, text_eq, true, ℕ, ◌+◌, ◌∷◌,
}
use ha_docker_compose.ComposeFile.{ServiceDef, truthy}
use ha_docker_compose.Discovery.{StackInfo, find_stack}
use ha_docker_compose.ImageRef.{latest}
use ha_docker_compose.ImageRef
use ha_docker_compose.Engine.{Raised, Result, returned, raised}
use ha_docker_compose.Engine.Exec.{Handle}
use ha_docker_compose.Storage.{History, or_empty, async_record_pull}

pub data Step : Type 0 where
  pull up : Step

pub record JobRecord : Type 0 where
  pub step : Step
  pub exec_id : Text
  pub log_path : Text

-- Seconds; the source polls every 2.0 of at most 1800.0.
abbrev pub poll_interval : ℕ
poll_interval = 2

abbrev pub max_wait_seconds : ℕ
max_wait_seconds = 1800

-- Why a job ended without success: the texts of the source, by their kinds.
pub data Reason : Type 0 where
  lost_track : Reason
  unreachable : Reason
  still_running : Reason
  exited : Option ℕ → Text → Reason
  up_not_started : Reason

pub record PullError : Type 0 where
  pub failed_at : Text
  pub step : Step
  pub reason : Reason

pub record TagWalkStatus : Type 0 where
  pub latest_registry_tag : Option Text
  pub pull_target_version : Option Text

-- What a runner reads and writes: the persisted jobs and pull history, and of its coordinators the
-- stacks, the tag-walk data, and the two live fields. `refreshes` counts the refreshes requested.
pub record Runner : Type 0 where
  pub jobs : Dict Text JobRecord
  pub history : History
  pub stacks : List StackInfo
  pub tag_walk : Dict Text (Dict Text TagWalkStatus)
  pub pulling_stacks : List Text
  pub last_pull_errors : Dict Text PullError
  pub refreshes : ℕ

pub record Task : Type 0 where
  pub stack_dir : Text
  pub step : Step
  pub exec_id : Text
  pub log_path : Text
  pub elapsed : ℕ

-- What one poll finds: the sidecar cannot be reached, the exec is not known any more, the command
-- still runs, it exited with an error code (`none` if Docker tells none) and its log, or it succeeded. On success of the pull
-- the answer to starting `up -d` comes with it, where `none` is a ComposeCommandError. Any other
-- exception of these calls is caught by nothing.
pub data Answer : Type 0 where
  unavailable not_found running : Answer
  failed : Option ℕ → Text → Answer
  succeeded : Option Handle → Answer
  uncaught_by : Raised → Answer

abbrev pub record_of : Task → JobRecord
record_of t = record { step = t.step; exec_id = t.exec_id; log_path = t.log_path }

-- `PullJobStore.async_set` and `async_clear`
unfoldable pub async_set : Text → Step → Handle → Runner → Runner
async_set stack_name step handle r = record r {
  jobs =
      insert stack_name
        (record { step = step; exec_id = handle.exec_id; log_path = handle.log_path }) r.jobs;
}

unfoldable pub async_clear : Text → Runner → Runner
async_clear stack_name r = record r { jobs = remove stack_name r.jobs }

unfoldable pub end_job : Text → Option PullError → Runner → Runner
unfolding async_clear
end_job stack_name error r =
    let noted : Runner = record r {
      last_pull_errors = elim error [
        | none ↦ r.last_pull_errors
        | some e ↦ insert stack_name e r.last_pull_errors
      ];
    } in
    let cleared = async_clear stack_name noted in
    record cleared { pulling_stacks = discard stack_name cleared.pulling_stacks }

-- The version that is assumed to have been pulled: the digest-verified one first.
unfoldable pub assumed_version_of : Option TagWalkStatus → Option Text
assumed_version_of none = none
assumed_version_of (some status) =
    or_else (truthy status.pull_target_version) (truthy status.latest_registry_tag)

-- `local_digest` is what `get_image_repo_digest` answers for a reference, or raises.
module _ (local_digest : Text → Result (Option Text)) (now : Text) where
  -- What a digest that was asked for adds to the history, and the exception if there is one.
  unfoldable pub record_digest :
      Text
      → Dict Text TagWalkStatus
      → Text
      → Text
      → History
      → Result (Option Text)
      → History × Option Raised
  unfolding assumed_version_of
  record_digest stack_name tag_walk_data service_name image_ref history (raised e) =
      (history, some e)
  record_digest stack_name tag_walk_data service_name image_ref history (returned found) =
      elim (truthy found) [
        | none ↦ (history, none)
        | some digest ↦ (
          async_record_pull history stack_name service_name (ImageRef.tag image_ref latest) digest
              (assumed_version_of (lookup service_name tag_walk_data)) now,
          none,
        )
      ]

  -- One round of the loop over the services: what is recorded for one of them.
  unfoldable pub record_service :
      Text → Dict Text TagWalkStatus → Text → ServiceDef → History → History × Option Raised
  unfolding record_digest
  record_service stack_name tag_walk_data service_name service_def history =
      elim (truthy service_def.image) [
        | none ↦ (history, none)
        | some image_ref ↦
            record_digest stack_name tag_walk_data service_name image_ref history
              (local_digest image_ref)
      ]

  -- An exception leaves the loop, with what is recorded so far.
  unfoldable pub record_services :
      Text → Dict Text TagWalkStatus → Dict Text ServiceDef → History → History × Option Raised
  unfolding record_service
  record_services stack_name tag_walk_data [] history = (history, none)
  record_services stack_name tag_walk_data ((name, service_def) ∷ services) history =
      let (history', problem) = record_service stack_name tag_walk_data name service_def history in
      elim problem [
        | some e ↦ (history', some e)
        | none ↦ record_services stack_name tag_walk_data services history'
      ]

  unfoldable pub recorded : Text → Runner → History × Option Raised
  unfolding record_services
  recorded stack_name r = elim (find_stack stack_name r.stacks) [
    | none ↦ (r.history, none)
    | some stack ↦
        record_services stack_name (or_empty (lookup stack_name r.tag_walk))
          stack.compose_config.services r.history
  ]

  -- The runner, and the exception that leaves it before the job is ended.
  unfoldable pub finish_success : Text → Runner → Runner × Option Raised
  unfolding recorded end_job
  finish_success stack_name r =
      let (history, problem) = recorded stack_name r in
      let noted : Runner = record r { history = history } in
      let ended = end_job stack_name none noted in
      elim problem [
        | some e ↦ (noted, some e)
        | none ↦ (record ended { refreshes = ended.refreshes + 2 }, none)
      ]

  abbrev pub give_up : Text → Step → Reason → Runner → Runner × Option Task
  give_up stack_name step reason r =
      (end_job stack_name (some (record { failed_at = now; step = step; reason = reason })) r, none)

  -- `await asyncio.sleep(POLL_INTERVAL)` and the test of the budget
  unfoldable pub wait_on : Text → Reason → Task → Runner → Runner × Option Task
  wait_on stack_name reason t r =
      let elapsed = t.elapsed + poll_interval in
      if leb max_wait_seconds elapsed
      then give_up stack_name t.step reason r
      else (r, some (record t { elapsed = elapsed }))

  unfoldable pub pull_succeeded : Text → Task → Option Handle → Runner → Runner × Option Task
  pull_succeeded stack_name t none r = give_up stack_name up up_not_started r
  pull_succeeded stack_name t (some handle) r = (
    async_set stack_name up handle r,
    some (record {
      stack_dir = t.stack_dir;
      step = up;
      exec_id = handle.exec_id;
      log_path = handle.log_path;
      elapsed = 0;
    }),
  )

  -- One round of a driver: the poll of `_wait_for_step` and what `_drive` does with its outcome.
  unfoldable pub drive : Text → Task → Answer → Runner → Runner × Option Task
  unfolding wait_on pull_succeeded finish_success end_job async_set
  drive stack_name t unavailable r = wait_on stack_name unreachable t r
  drive stack_name t running r = wait_on stack_name still_running t r
  drive stack_name t not_found r = give_up stack_name t.step lost_track r
  drive stack_name t (failed code log) r = give_up stack_name t.step (exited code log) r
  drive stack_name t (succeeded handle) r = elim t.step [
    | pull ↦ pull_succeeded stack_name t handle r
    | up ↦ ((finish_success stack_name r).0, none)
  ]
  drive stack_name t (uncaught_by e) r = (r, none)

-- `start`, where `none` is a ComposeCommandError: the runner, and the task if it did not raise.
unfoldable pub start : Text → Text → Option Handle → Runner → Runner × Option Task
unfolding async_set
start stack_name stack_dir answer r =
    let pressed : Runner = record r {
      pulling_stacks = add stack_name r.pulling_stacks;
      last_pull_errors = remove stack_name r.last_pull_errors;
    } in
    elim answer [
      | none ↦ (record pressed { pulling_stacks = discard stack_name pressed.pulling_stacks }, none)
      | some handle ↦ (
        async_set stack_name pull handle pressed,
        some (record {
          stack_dir = stack_dir;
          step = pull;
          exec_id = handle.exec_id;
          log_path = handle.log_path;
          elapsed = 0;
        }),
      )
    ]

abbrev pub Tasks : Type 0
Tasks = Dict Text Task

-- The path of a stack that is still on disk.
unfoldable pub path_of : Text → List StackInfo → Option Text
path_of name stacks = elim (find_stack name stacks) [ none ↦ none | some s ↦ s.path ]

abbrev pub resumed : Text → JobRecord → Task
resumed stack_dir job = record {
  stack_dir = stack_dir;
  step = job.step;
  exec_id = job.exec_id;
  log_path = job.log_path;
  elapsed = 0;
}

-- The loop of `resume_all` over the items of the job dictionary. A stale record is dropped from the
-- very dictionary that is iterated over, so the next round of the iteration raises a RuntimeError:
-- the flag says that the call raised.
unfoldable pub resume_jobs : Dict Text JobRecord → Runner → Tasks → Runner × Tasks × Bool
resume_jobs [] r tasks = (r, tasks, false)
resume_jobs ((stack_name, job) ∷ jobs) r tasks = elim (path_of stack_name r.stacks) [
  | none ↦ (async_clear stack_name r, tasks, true)
  | some stack_dir ↦
      resume_jobs jobs (record r { pulling_stacks = add stack_name r.pulling_stacks })
        (insert stack_name (resumed stack_dir job) tasks)
]

unfoldable pub resume_all : Runner → Runner × Tasks × Bool
unfolding resume_jobs
resume_all r = resume_jobs r.jobs r []

-- ===== src/PullJobs/Tests.antt =====
-- Witnesses on pull_jobs.py: a stack with one service, pressed, polled, and restarted.
use ha_docker_compose.Prelude.{
  Bool, List, Option, Text, [], add, arith, codes, elem, false, inl, insert, length, lookup, nat_eq,
  none, pair_eq, refl, some, suc, text_eq, true, zero, ℕ, ◌+◌, ◌<◌, ◌↔◌, ◌∷◌, ◌≡◌, ◌≤◌, ◌⊎◌,
}
use ha_docker_compose.Discovery.{StackInfo}
use ha_docker_compose.Engine.{Result, returned, Docker, Outcome, docker_error, timed_out, done}
use ha_docker_compose.Engine
use ha_docker_compose.Engine.TestDocker.{sample_docker, no_image, hex}
use ha_docker_compose.Compose.{Yaml, falsy, Node, absent}
use ha_docker_compose.PullJobs.Watching.{
  HasEnded, round, round-docker_error, round-timed_out, round-HasEnded,
}
use ha_docker_compose.PullJobs
use ha_docker_compose.PullJobs.{
  end_job, lost_track, poll_interval, max_wait_seconds, pull, JobRecord, Runner, Task, Answer,
  running, not_found, start, drive, resume_all, path_of, async_set,
}
use ha_docker_compose.Engine.Exec.{Handle}
use ha_docker_compose.PullJobs.Drive.{
  IsCut, problem, is_some, run, IsOver, run_ends-IsOver, start-superseded,
}
use ha_docker_compose.PullJobs.Tracking.{System, settle}
use ha_docker_compose.PullJobs.Restart.{resume_all_raises}

abbrev web_stack : StackInfo
web_stack = record {
  name = codes "web";
  path = some (codes "/srv/web");
  compose_filename = codes "compose.yaml";
  has_env_file = false;
  compose_config = record { name = none; services = [] };
  raw_compose_text = [];
}

abbrev idle : Runner
idle = record {
  jobs = [];
  history = [];
  stacks = web_stack ∷ [];
  tag_walk = [];
  pulling_stacks = [];
  last_pull_errors = [];
  refreshes = 0;
}

abbrev idle_system : System
idle_system = record { runner = idle; tasks = [] }

abbrev pull_handle : Handle
pull_handle = record { exec_id = codes "e1"; log_path = codes "/tmp/1" }

abbrev no_digest : Text → Result (Option Text)
no_digest image_ref = returned none

abbrev pressed_system : System
unfolding start async_set insert add elem
pressed_system =
    settle (codes "web") [] (start (codes "web") (codes "/srv/web") (some pull_handle) idle)

-- A task that has just been started, and Docker's answers while its command never ends.
abbrev web_task : Task
web_task = record {
  stack_dir = codes "/srv/web";
  step = pull;
  exec_id = codes "e1";
  log_path = codes "/tmp/1";
  elapsed = 0;
}

repeat : ℕ → Answer → List Answer
repeat zero a = []
repeat (suc n) a = a ∷ repeat n a

length-repeat : (n : ℕ) (a : Answer) → n ≤ length (repeat n a)
unfolding repeat
length-repeat zero a = omega arith
length-repeat (suc n) a = omega (arith, length-repeat n a)

abbrev ended_run : Runner × Option Task
unfolding run
ended_run =
    run no_digest (codes "now") (codes "web") web_task (repeat 1800 running) pressed_system.runner

run_ends-IsOver_example :
    (ended_run.1 ≡ none)
    × (IsOver (codes "web") pressed_system.runner.refreshes ended_run.0
        ⊎ IsCut no_digest (codes "now") (codes "web") (repeat 1800 running))
unfolding ended_run
run_ends-IsOver_example =
    run_ends-IsOver no_digest (codes "now") (codes "web") (repeat 1800 running) web_task
      pressed_system.runner (omega arith) (length-repeat 1800 running)

resume_all_raises_example : ((resume_all pressed_system.runner).2 ≡ false) ↔ (
    (n : Text) (job : JobRecord)
    → lookup n pressed_system.runner.jobs ≡ some job
    → (dir : Text) × (path_of n pressed_system.runner.stacks ≡ some dir))
resume_all_raises_example = resume_all_raises pressed_system.runner

abbrev second_runner : Runner
unfolding start
second_runner =
    (start (codes "web") (codes "/srv/web")
      (some (record { exec_id = codes "e2"; log_path = codes "/tmp/2" })) pressed_system.runner).0

start-superseded_example :
    (is_some (lookup (codes "web") second_runner.jobs) ≡ true)
    × (lookup
          (codes "web")
          (drive no_digest (codes "now") (codes "web") web_task not_found second_runner).0.jobs
        ≡ none)
    × (elem
          (codes "web")
          (drive no_digest
            (codes "now")
            (codes "web")
            web_task
            not_found
            second_runner).0.pulling_stacks
        ≡ false)
unfolding drive second_runner problem
start-superseded_example =
    start-superseded no_digest (codes "now") (codes "web") (codes "/srv/web")
      (record { exec_id = codes "e2"; log_path = codes "/tmp/2" }) web_task not_found
      pressed_system.runner refl refl

abbrev inspecting : Outcome (Bool × Option ℕ) → Docker ℕ
inspecting = sample_docker no_image

abbrev load : Text → Yaml
load t = falsy

abbrev no_files : Text → Text → Node
no_files dir name = absent

-- One round of the driver on a Docker that tells this of every exec.
abbrev round_on : Outcome (Bool × Option ℕ) → (Runner × Option Task) × ℕ
unfolding round
round_on o =
    round load no_files ℕ (inspecting o) (λ s. s) hex (codes "side") no_digest (codes "now")
      (codes "web") web_task pressed_system.runner 0

abbrev refused : ℕ
refused = 500

round-docker_error_example :
    (refused ≡ 404
      → round_on (Engine.failed (docker_error refused)) ≡ (
        (
          end_job
              (codes "web")
              (some (record { failed_at = codes "now"; step = web_task.step; reason = lost_track }))
              pressed_system.runner,
          none,
        ),
        1,
      ))
    × ((refused ≡ 404 → ⊥)
        → web_task.elapsed + poll_interval < max_wait_seconds
        → round_on (Engine.failed (docker_error refused)) ≡ (
          (
            pressed_system.runner,
            some (record web_task { elapsed = web_task.elapsed + poll_interval }),
          ),
          1,
        ))
unfolding round_on
round-docker_error_example =
    round-docker_error load no_files ℕ (inspecting (Engine.failed (docker_error refused))) (λ s. s)
      hex (codes "side") no_digest (codes "now") (codes "web") web_task pressed_system.runner 0 1
      refused refl

round-timed_out_example : round_on (Engine.failed timed_out) ≡ ((pressed_system.runner, none), 1)
unfolding round_on
round-timed_out_example =
    round-timed_out load no_files ℕ (inspecting (Engine.failed timed_out)) (λ s. s) hex
      (codes "side") no_digest (codes "now") (codes "web") web_task pressed_system.runner 0 1 refl

abbrev up_task : Task
up_task = record web_task { step = PullJobs.up }

abbrev up_round : (Runner × Option Task) × ℕ
unfolding round
up_round =
    round load no_files ℕ (inspecting (done (false, some 0))) (λ s. s) hex (codes "side") no_digest
      (codes "now") (codes "web") up_task pressed_system.runner 0

round-HasEnded_example :
    (up_round.0.1 ≡ none)
    × HasEnded load no_files ℕ
        (inspecting (done (false, some 0)))
        (λ s. s)
        hex
        (codes "side")
        no_digest
        (codes "now")
        (codes "web")
        up_task
        pressed_system.runner
        up_round.0.0
unfolding up_round
round-HasEnded_example =
    round-HasEnded load no_files ℕ (inspecting (done (false, some 0))) (λ s. s) hex (codes "side")
      no_digest (codes "now") (codes "web") up_task pressed_system.runner 0 1 (some 0) refl
      (inl refl)

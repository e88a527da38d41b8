-- ===== src/PullJobs/Tracking.antt =====
-- What the runner of pull_jobs.py keeps in step: the persisted jobs, the drivers that watch them, and
-- the stacks that show as being pulled, across presses, polls and restarts.
use ha_docker_compose.Prelude.{
  Bool-cases, Dict, IsDict, List, Option, Option-cases, Text, [], add, arith, elem, elem-add,
  elem-discard, eq_iff, false, if◌then◌else◌, inl, inr, insert, insert-IsDict, leb, lookup,
  lookup-insert, lookup-remove, nat_eq, none, pair_eq, refl, remove, remove-IsDict, some, text_eq,
  true, ℕ, ◌+◌, ◌==◌, ◌≡◌,
}
use ha_docker_compose.Discovery.{StackInfo}
use ha_docker_compose.PullJobs.{
  Runner, Task, Tasks, Answer, unavailable, not_found, running, failed, succeeded, uncaught_by,
  recorded, drive, start, resume_all, wait_on, pull_succeeded, finish_success, end_job, async_set,
  async_clear, record_of, TagWalkStatus, Step, Reason, max_wait_seconds, poll_interval, PullError,
  unreachable, still_running, lost_track, exited, up, up_not_started, give_up,
}
use ha_docker_compose.Engine.{Result}
use ha_docker_compose.Engine.Exec.{Handle}
use ha_docker_compose.PullJobs.Drive.{is_some, record?, Step-cases, problem}

pub record System : Type 0 where
  pub runner : Runner
  pub tasks : Tasks

-- A driver that ended is dropped from the tasks.
abbrev pub settle : Text → Tasks → Runner × Option Task → System
settle n tasks (r, none) = record { runner = r; tasks = remove n tasks }
settle n tasks (r, some t) = record { runner = r; tasks = insert n t tasks }

-- A fresh process: only what is on disk is kept, and the folders are looked at again.
abbrev pub rebooted : List StackInfo → Dict Text (Dict Text TagWalkStatus) → Runner → Runner
rebooted stacks tag_walk r = record {
  jobs = r.jobs;
  history = r.history;
  stacks = stacks;
  tag_walk = tag_walk;
  pulling_stacks = [];
  last_pull_errors = [];
  refreshes = 0;
}

module _ (local_digest : Text → Result (Option Text)) (now : Text) where
  -- A press for a stack that has no driver, which starts a command or raises a ComposeCommandError; a poll
  -- of a driver that no exception leaves; or a restart whose `resume_all` does not raise.
  pub data Event : System → System → Type 0 where
    pressed :
        (s : System) (n stack_dir : Text) (answer : Option Handle)
        → lookup n s.tasks ≡ none
        → Event s (settle n s.tasks (start n stack_dir answer s.runner))
    polled :
        (s : System) (n : Text) (t : Task) (a : Answer)
        → lookup n s.tasks ≡ some t
        → problem local_digest now n t a s.runner ≡ none
        → Event s (settle n s.tasks (drive local_digest now n t a s.runner))
    restarted :
        (s : System) (stacks : List StackInfo) (tag_walk : Dict Text (Dict Text TagWalkStatus))
        → (resume_all (rebooted stacks tag_walk s.runner)).2 ≡ false
        → Event s (record {
          runner = (resume_all (rebooted stacks tag_walk s.runner)).0;
          tasks = (resume_all (rebooted stacks tag_walk s.runner)).1;
        })

  pub data Reach (s : System) : System → Type 0 where
    here : Reach s s
    next : {u v : System} → Reach s u → Event u v → Reach s v

pub record IsTracked (s : System) : Type 0 where
  pub persisted : (n : Text) → lookup n s.runner.jobs ≡ record? (lookup n s.tasks)
  pub shown : (n : Text) → elem n s.runner.pulling_stacks ≡ is_some (lookup n s.tasks)
  pub keyed : IsDict s.runner.jobs

-- What a job's next round leaves: its own record and mark follow the driver, the others stay.
pub record Follows (n : Text) (next : Option Task) (r r' : Runner) : Type 0 where
  persisted : (j : Text) → lookup j r'.jobs ≡ (if n == j then record? next else lookup j r.jobs)
  shown :
      (j : Text)
      → elem j r'.pulling_stacks ≡ (if n == j then is_some next else elem j r.pulling_stacks)
  keyed : IsDict r.jobs → IsDict r'.jobs

module _ (n : Text) where
  end_job-Follows : (e : Option PullError) (r : Runner) → Follows n none r (end_job n e r)
  unfolding end_job async_clear
  end_job-Follows e r = record {
    persisted = λ j. lookup-remove n j r.jobs;
    shown = λ j. elem-discard n j r.pulling_stacks;
    keyed = remove-IsDict n r.jobs;
  }

  async_set-Follows :
      (t : Task) (h : Handle) (r : Runner)
      → elem n r.pulling_stacks ≡ true
      → t.exec_id ≡ h.exec_id
      → t.log_path ≡ h.log_path
      → Follows n (some t) r (async_set n t.step h r)
  unfolding async_set
  async_set-Follows t h r shown exec log = record {
    persisted = λ j. rw (lookup-insert, exec, log) refl;
    shown = λ j. ground (arith, eq_iff n j, shown);
    keyed = insert-IsDict n _ r.jobs;
  }

  stay-Follows :
      (t : Task) (elapsed : ℕ) (r : Runner)
      → lookup n r.jobs ≡ some (record_of t)
      → elem n r.pulling_stacks ≡ true
      → Follows n (some (record t { elapsed = elapsed })) r r
  stay-Follows t elapsed r kept shown = record {
    persisted = λ j. ground (arith, eq_iff n j, kept);
    shown = λ j. ground (arith, eq_iff n j, shown);
    keyed = λ h. h;
  }

module _ (local_digest : Text → Result (Option Text)) (now : Text) (n : Text) where
  given_up-Follows :
      (step : Step) (why : Reason) (r : Runner)
      → Follows n none r (give_up local_digest now n step why r).0
  given_up-Follows step why r =
      end_job-Follows n (some (record { failed_at = now; step = step; reason = why })) r

  wait_on-Follows :
      (why : Reason) (t : Task) (r : Runner)
      → lookup n r.jobs ≡ some (record_of t)
      → elem n r.pulling_stacks ≡ true
      → Follows n (wait_on local_digest now n why t r).1 r (wait_on local_digest now n why t r).0
  unfolding wait_on
  wait_on-Follows why t r kept shown =
      elim (Bool-cases (leb max_wait_seconds (t.elapsed + poll_interval))) [
        | inl over ↦ rw (over, wait_on) (end_job-Follows n _ r)
        | inr more ↦ rw (more, wait_on) (stay-Follows n t _ r kept shown)
      ]

  pub drive-Follows :
      (t : Task) (a : Answer) (r : Runner)
      → lookup n r.jobs ≡ some (record_of t)
      → elem n r.pulling_stacks ≡ true
      → problem local_digest now n t a r ≡ none
      → Follows n (drive local_digest now n t a r).1 r (drive local_digest now n t a r).0
  unfolding drive pull_succeeded finish_success problem
  drive-Follows t unavailable r kept shown quiet = wait_on-Follows unreachable t r kept shown
  drive-Follows t running r kept shown quiet = wait_on-Follows still_running t r kept shown
  drive-Follows t not_found r kept shown quiet = given_up-Follows t.step lost_track r
  drive-Follows t (failed code log) r kept shown quiet = given_up-Follows t.step (exited code log) r
  drive-Follows t (uncaught_by e) r kept shown quiet = absurd (cc)
  drive-Follows t (succeeded handle) r kept shown quiet = elim (Step-cases t.step) [
    | inr is_up ↦
        let done = end_job-Follows n none r in
        let silent : (recorded local_digest now n r).1 ≡ none = rw (is_up, problem) at quiet in
        rw (is_up, drive, finish_success, silent)
          (record { persisted = done.persisted; shown = done.shown; keyed = done.keyed })
    | inl is_pull ↦ elim (Option-cases handle) [
      | inl refused ↦
          rw (is_pull, refused, drive, pull_succeeded) (given_up-Follows up up_not_started r)
      | inr (h, e) ↦
          rw (is_pull, e, drive, pull_succeeded) (async_set-Follows n _ h r shown refl refl)
    ]
  ]

  pub settle-IsTracked :
      (tasks : Tasks) (r r' : Runner) (next : Option Task)
      → IsTracked (record { runner = r; tasks = tasks })
      → Follows n next r r'
      → IsTracked (settle n tasks (r', next))
  settle-IsTracked tasks r r' none tracked f = record {
    persisted = λ j. ground (arith, f.persisted j, tracked.persisted j, lookup-remove n j tasks);
    shown = λ j. ground (arith, f.shown j, tracked.shown j, lookup-remove n j tasks);
    keyed = f.keyed tracked.keyed;
  }
  settle-IsTracked tasks r r' (some t) tracked f = record {
    persisted = λ j. ground (arith, f.persisted j, tracked.persisted j, lookup-insert n j t tasks);
    shown = λ j. ground (arith, f.shown j, tracked.shown j, lookup-insert n j t tasks);
    keyed = f.keyed tracked.keyed;
  }

  pub start-Follows :
      (stack_dir : Text) (answer : Option Handle) (r : Runner)
      → lookup n r.jobs ≡ none
      → Follows n (start n stack_dir answer r).1 r (start n stack_dir answer r).0
  unfolding start async_set
  start-Follows stack_dir none r fresh = record {
    persisted = λ j. ground (arith, eq_iff n j, fresh);
    shown = λ j.
        ground (arith, elem-discard n j (add n r.pulling_stacks), elem-add n j r.pulling_stacks);
    keyed = λ h. h;
  }
  start-Follows stack_dir (some h) r fresh = record {
    persisted = λ j. lookup-insert n j _ r.jobs;
    shown = λ j. elem-add n j r.pulling_stacks;
    keyed = insert-IsDict n _ r.jobs;
  }

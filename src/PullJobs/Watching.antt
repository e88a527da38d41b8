-- ===== src/PullJobs/Watching.antt =====
-- The driver of pull_jobs.py on top of the engine: what one poll of it asks of Docker, and what becomes of
-- the job. A failure that nothing catches ends the driver's task where it stands.
use ha_docker_compose.Prelude.{
  Bool, Option, Option-cases, Text, [], ap, arith, codes, false, if◌then◌else◌, inl, inr, none,
  refl, some, strip, subst, suc, sym, true, zero, ℕ, ◌+◌, ◌<◌, ◌∙◌, ◌∷◌, ◌≡◌, ◌⊎◌,
}
use ha_docker_compose.Engine.{
  Docker, Outcome, docker_error, timed_out, done, failed, Raised, sidecar_not_available,
  exec_not_found, compose_command, Result, returned, raised,
}
use ha_docker_compose.Engine.Exec.{
  Handle, ExecPollResult, poll_exec, poll_failure, continue, caught, give,
}
use ha_docker_compose.Compose.{Yaml, Node, poll, read_log, start_detached}
use ha_docker_compose.PullJobs.{
  Step, pull, up, Runner, Task, Reason, PullError, lost_track, exited, Answer, unavailable,
  not_found, running, succeeded, drive, recorded, finish_success, uncaught_by, wait_on, end_job,
  max_wait_seconds, poll_interval, give_up,
}
use ha_docker_compose.PullJobs
use ha_docker_compose.PullJobs.Drive.{IsOver, drive-IsOver, problem}

-- The outcome of a poll: what is asked next, once the command has ended.
pub data Polled : Type 0 where
  answered : Answer → Polled
  ended : Option ℕ → Polled
  escaped : Raised → Polled

unfoldable pub polled : Result ExecPollResult → Polled
polled (raised sidecar_not_available) = answered unavailable
polled (raised exec_not_found) = answered not_found
polled (raised e) = escaped e
polled (returned info) = if info.running then answered running else ended info.exit_code

-- What `start_detached` gives the driver, where a ComposeCommandError is caught.
unfoldable pub started : Result Handle → Result Answer
started (returned handle) = returned (succeeded (some handle))
started (raised (compose_command args code stderr)) = returned (succeeded none)
started (raised e) = raised e

module _ (safe_load : Text → Yaml) (node : Text → Text → Node) (World : Type 0)
    (docker : Docker World) (decode : Text → Text) (fresh_hex : World → Text × World)
    (sidecar_container : Text) where
  -- Behind a command that has ended: the next command, or the log of the one that failed.
  unfoldable pub behind : Task → Option ℕ → World → Result Answer × World
  unfolding started start_detached read_log
  behind t (some zero) w = elim t.step [
    | up ↦ (returned (succeeded none), w)
    | pull ↦
        let (handle, w') =
          start_detached safe_load node World docker true decode fresh_hex sidecar_container
            t.stack_dir (codes "up" ∷ codes "-d" ∷ []) w in
        (started handle, w')
  ]
  behind t code w =
      let (log, w') =
        read_log safe_load node World docker true decode fresh_hex sidecar_container t.log_path w in
      (returned (PullJobs.failed code (strip log)), w')

  -- One poll of `_wait_for_step`, with what `_drive` asks for at once.
  unfoldable pub after_poll : Task → Polled → World → Result Answer × World
  unfolding behind
  after_poll t (answered a) w = (returned a, w)
  after_poll t (escaped e) w = (raised e, w)
  after_poll t (ended code) w = behind t code w

  unfoldable pub watch : Task → World → Result Answer × World
  unfolding polled after_poll poll
  watch t w =
      let (info, w') =
        poll safe_load node World docker true decode fresh_hex sidecar_container t.exec_id w in
      after_poll t (polled info) w'

  -- One round of a driver, and the world after it.
  module _ (local_digest : Text → Result (Option Text)) (now : Text) (n : Text) (t : Task)
      (r : Runner) where
    unfoldable pub take_answer : Result Answer → Runner × Option Task
    unfolding drive
    take_answer (returned a) = drive local_digest now n t a r
    take_answer (raised e) = drive local_digest now n t (uncaught_by e) r

    unfoldable pub round : World → (Runner × Option Task) × World
    unfolding watch take_answer
    round w = let (answer, w') = watch t w in (take_answer answer, w')

    -- The round, by what the inspected exec comes to.
    abbrev round_of : Outcome (Bool × Option ℕ) × World → (Runner × Option Task) × World
    round_of (o, w) =
        let (info, w1) =
          continue (caught poll_failure o) (λ i. give (record { running = i.0; exit_code = i.1 }))
            w in
        let (answer, w2) = after_poll t (polled info) w1 in (take_answer answer, w2)

    -- The job is over, or the lookup of a digest raised an exception, and the record and the mark stay.
    abbrev pub HasEnded : Runner → Type 0
    HasEnded r' =
        IsOver n r.refreshes r'
        ⊎ ((e : Raised) × ((recorded local_digest now n r).1 ≡ some e)
            × (r'.jobs ≡ r.jobs)
            × (r'.pulling_stacks ≡ r.pulling_stacks))

    -- An answer that leaves no task ends the job.
    take_answer-HasEnded :
        (a : Answer)
        → problem local_digest now n t a r ≡ none
        → (drive local_digest now n t a r).1 ≡ none
        → ((take_answer (returned a)).1 ≡ none) × HasEnded (take_answer (returned a)).0
    unfolding take_answer
    take_answer-HasEnded a quiet h = (h, inl (drive-IsOver local_digest now n t a r quiet h))

    up-HasEnded :
        t.step ≡ up
        → ((take_answer (returned (succeeded none))).1 ≡ none)
          × HasEnded (take_answer (returned (succeeded none))).0
    unfolding take_answer drive finish_success problem
    up-HasEnded is_up = elim (Option-cases (recorded local_digest now n r).1) [
      | inl quiet ↦
          take_answer-HasEnded (succeeded none) (rw (is_up, problem) quiet) (ground (arith, is_up))
      | inr (e, q) ↦ rw (is_up, drive, q, finish_success) (refl, inr (e, refl, refl, refl))
    ]

    behind-up : (w : World) → t.step ≡ up → behind t (some 0) w ≡ (returned (succeeded none), w)
    unfolding behind
    behind-up w is_up = rw is_up

    behind-HasEnded :
        (code : Option ℕ) (w : World)
        → (t.step ≡ up) ⊎ (code ≡ some 0 → ⊥)
        → ((take_answer (behind t code w).0).1 ≡ none)
          × HasEnded (take_answer (behind t code w).0).0
    unfolding behind drive problem
    behind-HasEnded none w h = take_answer-HasEnded (PullJobs.failed none _) refl refl
    behind-HasEnded (some (suc code)) w h =
        take_answer-HasEnded (PullJobs.failed (some (suc code)) _) refl refl
    behind-HasEnded (some zero) w (inl is_up) =
        subst (λ b. ((take_answer b.0).1 ≡ none) × HasEnded (take_answer b.0).0)
          (sym (behind-up w is_up)) (up-HasEnded is_up)
    behind-HasEnded (some zero) w (inr other) = absurd (other refl)

    module _ (w w' : World) where
      round-inspected :
          (o : Outcome (Bool × Option ℕ))
          → docker.inspect_exec t.exec_id w ≡ (o, w')
          → round w ≡ round_of (o, w')
      unfolding round watch poll poll_exec
      round-inspected o e = ap round_of e

      -- A poll that Docker refuses with a 404 ends the job with the error that it is lost. Any other
      -- DockerError leaves it as it is, and it is polled again, while it has waited for less than
      -- `MAX_WAIT_SECONDS`.
      pub round-docker_error :
          (status : ℕ)
          → docker.inspect_exec t.exec_id w ≡ (failed (docker_error status), w')
          → (status ≡ 404
              → round w ≡ (
                (
                  end_job n
                      (some (record { failed_at = now; step = t.step; reason = lost_track }))
                      r,
                  none,
                ),
                w',
              ))
            × ((status ≡ 404 → ⊥)
                → t.elapsed + poll_interval < max_wait_seconds
                → round w ≡ ((r, some (record t { elapsed = t.elapsed + poll_interval })), w'))
      unfolding poll_failure polled after_poll take_answer drive wait_on
      round-docker_error status e = (
        λ h. round-inspected _ e ∙ ground (arith, h),
        λ h lt. round-inspected _ e ∙ ground (arith, h, lt),
      )

      -- A poll that is cut off by a timeout ends the driver where it stands: nothing is noted, and the
      -- record and the pulling mark of the stack stay.
      pub round-timed_out :
          docker.inspect_exec t.exec_id w ≡ (failed timed_out, w') → round w ≡ ((r, none), w')
      unfolding poll_failure polled after_poll take_answer
      round-timed_out e = round-inspected _ e

      -- Once Docker tells that the command has ended, and it was the last one or did not succeed, that
      -- very round ends the driver. The job is over then: its record and the pulling mark are gone, and an
      -- error is noted or both coordinators were refreshed; but if the lookup of a local digest raises an
      -- exception, record and mark stay as they were.
      pub round-HasEnded :
          (code : Option ℕ)
          → docker.inspect_exec t.exec_id w ≡ (done (false, code), w')
          → (t.step ≡ up) ⊎ (code ≡ some 0 → ⊥)
          → ((round w).0.1 ≡ none) × HasEnded (round w).0.0
      unfolding polled after_poll
      round-HasEnded code e h = rw (round-inspected _ e) (behind-HasEnded code w' h)

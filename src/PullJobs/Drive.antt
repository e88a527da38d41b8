-- ===== src/PullJobs/Drive.antt =====
-- The driver of pull_jobs.py, poll after poll: how many there are, and what its end leaves.
use ha_docker_compose.Prelude.{
  Bool, Bool-cases, Dict, List, Option, Option-cases, Text, [], any, ap, arith, before, elem,
  elem-discard, eq_refl, false, inl, inr, leb, length, lookup, lookup-insert_self, lookup-remove,
  nat_eq, none, pair_eq, refl, some, text_eq, true, ℕ, ◌+◌, ◌-◌, ◌/◌, ◌<◌, ◌∷◌, ◌≡◌, ◌≤◌, ◌⊎◌,
}
use ha_docker_compose.PullJobs.{
  Step, pull, up, JobRecord, poll_interval, max_wait_seconds, Reason, PullError, Runner, Task,
  Answer, unavailable, not_found, running, failed, succeeded, uncaught_by, recorded,
  record_services, record_service, record_digest, TagWalkStatus, record_of, drive, wait_on,
  pull_succeeded, finish_success, end_job, async_set, async_clear, unreachable, still_running,
  start,
}
use ha_docker_compose.ComposeFile.{ServiceDef, truthy}
use ha_docker_compose.Storage.{History, or_empty}
use ha_docker_compose.Discovery.{find_stack}
use ha_docker_compose.Engine.{Raised, Result, returned, raised}
use ha_docker_compose.Engine.Exec.{Handle}

abbrev pub is_some {ℓ} : {A : Type ℓ} → Option A → Bool
is_some none = false
is_some (some a) = true

abbrev pub record? : Option Task → Option JobRecord
record? none = none
record? (some t) = some (record_of t)

-- The polls that a task may still make.
abbrev pub rounds : Task → ℕ
rounds t =
    let here = (max_wait_seconds + 1 - t.elapsed) / poll_interval in
    elim t.step [ pull ↦ max_wait_seconds / poll_interval + here | up ↦ here ]

module _ (local_digest : Text → Result (Option Text)) (now : Text) (n : Text) where
  -- A driver fed with the answers to its polls, one after another.
  unfoldable pub run : Task → List Answer → Runner → Runner × Option Task
  run t [] r = (r, some t)
  run t (a ∷ answers) r =
      let (r', next) = drive local_digest now n t a r in
      elim next [ none ↦ (r', none) | some t' ↦ run t' answers r' ]

  drive-rounds :
      (t t' : Task) (a : Answer) (r : Runner)
      → t.elapsed < max_wait_seconds
      → (drive local_digest now n t a r).1 ≡ some t'
      → (t'.elapsed < max_wait_seconds) × (rounds t' < rounds t)
  unfolding drive
  drive-rounds t t' unavailable r lt h = ground arith
  drive-rounds t t' running r lt h = ground arith
  drive-rounds t t' not_found r lt h = cc
  drive-rounds t t' (failed code log) r lt h = cc
  drive-rounds t t' (uncaught_by e) r lt h = cc
  drive-rounds t t' (succeeded none) r lt h = ground arith
  drive-rounds t t' (succeeded (some handle)) r lt h = ground arith

  run_ends :
      (answers : List Answer) (t : Task) (r : Runner)
      → t.elapsed < max_wait_seconds
      → rounds t ≤ length answers
      → (run t answers r).1 ≡ none
  unfolding run
  run_ends [] t r lt h = absurd (ground arith)
  run_ends (a ∷ answers) t r lt h = elim (Option-cases (drive local_digest now n t a r).1) [
    | inl e ↦ rw (e, run)
    | inr (t', e) ↦
        let (lt', less) = drive-rounds t t' a r lt e in
        rw (e, run) (run_ends answers t' (drive local_digest now n t a r).0 lt' (omega arith))
  ]

abbrev pub is_uncaught : Answer → Bool
is_uncaught (uncaught_by e) = true
is_uncaught a = false

Result-cases {ℓ} :
    {A : Type ℓ} (o : Result A) → ((a : A) × (o ≡ returned a)) ⊎ ((e : Raised) × (o ≡ raised e))
Result-cases (returned a) = inl (a, refl)
Result-cases (raised e) = inr (e, refl)

-- A job is over when no record of it is left and its stack does not show as being pulled. It is never
-- over silently: either an error is noted for the stack, or both coordinators were refreshed.
abbrev pub IsOver : Text → ℕ → Runner → Type 0
IsOver n before r' =
    (lookup n r'.jobs ≡ none)
    × (elem n r'.pulling_stacks ≡ false)
    × (((e : PullError) × (lookup n r'.last_pull_errors ≡ some e)) ⊎ (r'.refreshes ≡ before + 2))

-- The exception that leaves a round, if one does: of its calls, or of a digest that is asked for.
unfoldable pub problem :
    (Text → Result (Option Text)) → Text → Text → Task → Answer → Runner → Option Raised
problem local_digest now n t (uncaught_by e) r = some e
problem local_digest now n t (succeeded handle) r = elim t.step [
  | pull ↦ none
  | up ↦ (recorded local_digest now n r).1
]
problem local_digest now n t a r = none

pub Step-cases : (s : Step) → (s ≡ pull) ⊎ (s ≡ up)
Step-cases pull = inl refl
Step-cases up = inr refl

module _ (local_digest : Text → Result (Option Text)) (now : Text) (n : Text) where
  end_job-IsOver : (e : PullError) (r : Runner) → IsOver n r.refreshes (end_job n (some e) r)
  unfolding end_job async_clear
  end_job-IsOver e r = (
    ground (arith, lookup-remove n n r.jobs, eq_refl n),
    ground (arith, elem-discard n n r.pulling_stacks, eq_refl n),
    inl (e, lookup-insert_self n e r.last_pull_errors),
  )

  finish_success-IsOver :
      (r : Runner)
      → (recorded local_digest now n r).1 ≡ none
      → IsOver n r.refreshes (finish_success local_digest now n r).0
  unfolding finish_success end_job async_clear
  finish_success-IsOver r quiet =
      rw (finish_success, quiet)
        (
          ground (arith, lookup-remove n n r.jobs, eq_refl n),
          ground (arith, elem-discard n n r.pulling_stacks, eq_refl n),
          inr refl,
        )

  wait_on-IsOver :
      (why : Reason) (t : Task) (r : Runner)
      → (wait_on local_digest now n why t r).1 ≡ none
      → IsOver n r.refreshes (wait_on local_digest now n why t r).0
  unfolding wait_on
  wait_on-IsOver why t r h = elim (Bool-cases (leb max_wait_seconds (t.elapsed + poll_interval))) [
    | inl over ↦ rw (over, wait_on) (end_job-IsOver _ r)
    | inr more ↦ absurd (ground (arith, more, h))
  ]

  pub drive-IsOver :
      (t : Task) (a : Answer) (r : Runner)
      → problem local_digest now n t a r ≡ none
      → (drive local_digest now n t a r).1 ≡ none
      → IsOver n r.refreshes (drive local_digest now n t a r).0
  unfolding drive pull_succeeded problem
  drive-IsOver t unavailable r quiet h = wait_on-IsOver unreachable t r h
  drive-IsOver t running r quiet h = wait_on-IsOver still_running t r h
  drive-IsOver t not_found r quiet h = end_job-IsOver _ r
  drive-IsOver t (failed code log) r quiet h = end_job-IsOver _ r
  drive-IsOver t (uncaught_by e) r quiet h = absurd (cc)
  drive-IsOver t (succeeded handle) r quiet h = elim (Step-cases t.step) [
    | inr is_up ↦ rw (is_up, drive) (finish_success-IsOver r (rw (is_up, problem) at quiet))
    | inl is_pull ↦ elim (Option-cases handle) [
      | inl refused ↦ rw (is_pull, refused, drive, pull_succeeded) (end_job-IsOver _ r)
      | inr (started, e) ↦ absurd (ground (arith, is_pull, e, h))
    ]
  ]

  drive-refreshes :
      (t t' : Task) (a : Answer) (r : Runner)
      → (drive local_digest now n t a r).1 ≡ some t'
      → (drive local_digest now n t a r).0.refreshes ≡ r.refreshes
  unfolding drive
  drive-refreshes t t' unavailable r h = ground arith
  drive-refreshes t t' running r h = ground arith
  drive-refreshes t t' not_found r h = cc
  drive-refreshes t t' (failed code log) r h = cc
  drive-refreshes t t' (uncaught_by e) r h = cc
  drive-refreshes t t' (succeeded none) r h = ground arith
  drive-refreshes t t' (succeeded (some handle)) r h = ground arith

  -- Why a driver ends before its job is over: an answer was an exception, or a digest raises one.
  abbrev pub IsCut : List Answer → Type 0
  IsCut answers =
      (any is_uncaught answers ≡ true)
      ⊎ ((image_ref : Text) × (e : Raised) × (local_digest image_ref ≡ raised e))

  IsCut-later : (a : Answer) (answers : List Answer) → IsCut answers → IsCut (a ∷ answers)
  unfolding any
  IsCut-later a answers (inl h) = inl (ground (arith, h))
  IsCut-later a answers (inr h) = inr h

  record_service-IsCut :
      (tag_walk_data : Dict Text TagWalkStatus) (name : Text) (d : ServiceDef) (history : History)
      (e : Raised)
      → (record_service local_digest now n tag_walk_data name d history).1 ≡ some e
      → (image_ref : Text) × (e : Raised) × (local_digest image_ref ≡ raised e)
  unfolding record_service record_digest
  record_service-IsCut tag_walk_data name d history e h = elim (Option-cases (truthy d.image)) [
    | inl q ↦ absurd (ground (arith, q, h))
    | inr (image_ref, q) ↦ elim (Result-cases (local_digest image_ref)) [
      | inr (f, p) ↦ (image_ref, f, p)
      | inl (found, p) ↦ elim (Option-cases (truthy found)) [
        | inl o ↦ absurd (ground (arith, q, p, o, h))
        | inr (digest, o) ↦ absurd (ground (arith, q, p, o, h))
      ]
    ]
  ]

  record_services-IsCut :
      (tag_walk_data : Dict Text TagWalkStatus) (services : Dict Text ServiceDef)
      (history : History) (e : Raised)
      → (record_services local_digest now n tag_walk_data services history).1 ≡ some e
      → (image_ref : Text) × (e : Raised) × (local_digest image_ref ≡ raised e)
  unfolding record_services
  record_services-IsCut tag_walk_data [] history e h = absurd (cc)
  record_services-IsCut tag_walk_data ((name, d) ∷ services) history e h =
      let first = record_service local_digest now n tag_walk_data name d history in
      elim (Option-cases first.1) [
        | inl q ↦ record_services-IsCut tag_walk_data services first.0 e (ground (arith, q, h))
        | inr (f, q) ↦ record_service-IsCut tag_walk_data name d history f q
      ]

  problem-IsCut :
      (t : Task) (a : Answer) (answers : List Answer) (r : Runner) (e : Raised)
      → problem local_digest now n t a r ≡ some e
      → IsCut (a ∷ answers)
  unfolding problem any recorded
  problem-IsCut t unavailable answers r e h = absurd (cc)
  problem-IsCut t running answers r e h = absurd (cc)
  problem-IsCut t not_found answers r e h = absurd (cc)
  problem-IsCut t (failed code log) answers r e h = absurd (cc)
  problem-IsCut t (uncaught_by f) answers r e h = inl refl
  problem-IsCut t (succeeded handle) answers r e h = elim (Step-cases t.step) [
    | inl is_pull ↦ absurd (ground (arith, is_pull, h))
    | inr is_up ↦ elim (Option-cases (find_stack n r.stacks)) [
      | inl gone ↦ absurd (ground (arith, is_up, gone, h))
      | inr (stack, found) ↦ inr (
          record_services-IsCut (or_empty (lookup n r.tag_walk)) stack.compose_config.services
            r.history e (ground (arith, is_up, found, h)))
    ]
  ]

  IsOver-cases :
      (t : Task) (a : Answer) (answers : List Answer) (r : Runner)
      → (drive local_digest now n t a r).1 ≡ none
      → IsOver n r.refreshes (drive local_digest now n t a r).0 ⊎ IsCut (a ∷ answers)
  IsOver-cases t a answers r h = elim (Option-cases (problem local_digest now n t a r)) [
    | inl quiet ↦ inl (drive-IsOver t a r quiet h)
    | inr (e, q) ↦ inr (problem-IsCut t a answers r e q)
  ]

  run-IsOver :
      (answers : List Answer) (t : Task) (r : Runner)
      → (run local_digest now n t answers r).1 ≡ none
      → IsOver n r.refreshes (run local_digest now n t answers r).0 ⊎ IsCut answers
  unfolding run
  run-IsOver [] t r h = absurd (ground arith)
  run-IsOver (a ∷ answers) t r h = elim (Option-cases (drive local_digest now n t a r).1) [
    | inl e ↦ rw (e, run) (IsOver-cases t a answers r e)
    | inr (t', e) ↦
        let r' = (drive local_digest now n t a r).0 in
        let same : r'.refreshes ≡ r.refreshes = drive-refreshes t t' a r e in
        elim (run-IsOver answers t' r' (rw (e, run) at h)) [
          | inl rest ↦ rw (e, run) (inl (rw same at rest))
          | inr cut ↦ inr (IsCut-later a answers cut)
        ]
  ]

  rounds_bound : (t : Task) → rounds t ≤ 1800
  rounds_bound t = elim (Step-cases t.step) [
    | inl e ↦ rw e (omega arith)
    | inr e ↦ rw e (omega arith)
  ]

  -- A driver that is started or resumed, and so has waited for less than `MAX_WAIT_SECONDS`, ends
  -- within 1800 polls, whatever Docker answers to each of them. The job is over then, its record and the
  -- pulling mark gone and an error noted or both coordinators refreshed, unless an exception that nothing
  -- catches came as an answer, or the lookup of a local digest raises one.
  pub run_ends-IsOver :
      (answers : List Answer) (t : Task) (r : Runner)
      → t.elapsed < max_wait_seconds
      → 1800 ≤ length answers
      → ((run local_digest now n t answers r).1 ≡ none)
        × (IsOver n r.refreshes (run local_digest now n t answers r).0 ⊎ IsCut answers)
  run_ends-IsOver answers t r lt enough =
      let ended =
        run_ends local_digest now n answers t r lt (omega (arith, rounds_bound t, enough)) in
      (ended, run-IsOver answers t r ended)

  -- A press while an older driver of the stack still runs stores a new record, but when the older
  -- driver ends, however it does but by an exception, that record and the pulling mark are gone too.
  pub start-superseded :
      (stack_dir : Text) (handle : Handle) (older : Task) (a : Answer) (r : Runner)
      → let pressed : Runner = (start n stack_dir (some handle) r).0 in
        problem local_digest now n older a pressed ≡ none
        → (drive local_digest now n older a pressed).1 ≡ none
        → let pressed : Runner = (start n stack_dir (some handle) r).0 in
          let ended : Runner = (drive local_digest now n older a pressed).0 in
          (is_some (lookup n pressed.jobs) ≡ true)
          × (lookup n ended.jobs ≡ none)
          × (elem n ended.pulling_stacks ≡ false)
  unfolding start async_set
  start-superseded stack_dir handle older a r quiet h =
      let pressed : Runner = (start n stack_dir (some handle) r).0 in
      let over = drive-IsOver older a pressed quiet h in
      (ap is_some (lookup-insert_self n _ r.jobs), over.0, over.1)

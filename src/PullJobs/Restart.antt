-- ===== src/PullJobs/Restart.antt =====
-- The restart of pull_jobs.py: what `resume_all` rebuilds, and what stays in step across restarts.
use ha_docker_compose.Prelude.{
  Bool-cases, Dict, IsDict, List, Option, Option-cases, Text, [], add, arith, elem, elem-add,
  eq_iff, eq_refl, false, inl, inr, insert, lookup, lookup-insert, nat_eq, none, pair_eq, refl,
  some, sym, text_eq, true, ◌==◌, ◌↔◌, ◌∷◌, ◌≡◌,
}
use ha_docker_compose.Engine.{Result}
use ha_docker_compose.Discovery.{StackInfo}
use ha_docker_compose.PullJobs.{
  JobRecord, Runner, Task, Tasks, drive, start, resume_jobs, resume_all, path_of, resumed,
  record_of, TagWalkStatus,
}
use ha_docker_compose.PullJobs.Drive.{is_some, record?}
use ha_docker_compose.PullJobs.Tracking.{
  System, rebooted, Event, pressed, polled, restarted, Reach, here, next, IsTracked, drive-Follows,
  settle-IsTracked, start-Follows,
}

-- The task that a record is resumed as.
abbrev pub resumed? : List StackInfo → Text → Option JobRecord → Option Task
resumed? stacks n none = none
resumed? stacks n (some job) = elim (path_of n stacks) [
  | none ↦ none
  | some stack_dir ↦ some (resumed stack_dir job)
]

abbrev pub first_of : Option Task → Option Task → Option Task
first_of none other = other
first_of (some t) other = some t

resume_jobs-lookup :
    (jobs : Dict Text JobRecord) (r : Runner) (tasks : Tasks)
    → IsDict jobs
    → (resume_jobs jobs r tasks).2 ≡ false
    → (n : Text)
    → lookup n (resume_jobs jobs r tasks).1
      ≡ first_of (resumed? r.stacks n (lookup n jobs)) (lookup n tasks)
unfolding resume_jobs lookup
resume_jobs-lookup [] r tasks h ok n = refl
resume_jobs-lookup ((k, job) ∷ jobs) r tasks (fresh, h) ok n =
    elim (Option-cases (path_of k r.stacks)) [
      | inl gone ↦ absurd (ground (arith, gone, ok))
      | inr (dir, e) ↦
          let r' : Runner = record r { pulling_stacks = add k r.pulling_stacks } in
          let rest =
            resume_jobs-lookup jobs r' (insert k (resumed dir job) tasks) h (ground (arith, e, ok))
              n in
          ground (arith, e, rest, eq_iff k n, fresh, lookup-insert k n (resumed dir job) tasks)
    ]

resume_jobs-shown :
    (jobs : Dict Text JobRecord) (r : Runner) (tasks : Tasks)
    → (resume_jobs jobs r tasks).2 ≡ false
    → (n : Text)
    → elem n (resume_jobs jobs r tasks).0.pulling_stacks
      ≡ elim (lookup n jobs) [ none ↦ elem n r.pulling_stacks | some job ↦ true ]
unfolding resume_jobs lookup
resume_jobs-shown [] r tasks ok n = refl
resume_jobs-shown ((k, job) ∷ jobs) r tasks ok n = elim (Option-cases (path_of k r.stacks)) [
  | inl gone ↦ absurd (ground (arith, gone, ok))
  | inr (dir, e) ↦
      let r' : Runner = record r { pulling_stacks = add k r.pulling_stacks } in
      let rest =
        resume_jobs-shown jobs r' (insert k (resumed dir job) tasks) (ground (arith, e, ok)) n in
      ground (arith, e, rest, eq_iff k n, elem-add k n r.pulling_stacks)
]

-- Unless it raises, the loop leaves the rest of the runner, and every job has a folder to run in.
resume_jobs-kept :
    (jobs : Dict Text JobRecord) (r : Runner) (tasks : Tasks)
    → (resume_jobs jobs r tasks).2 ≡ false
    → ((resume_jobs jobs r tasks).0.jobs ≡ r.jobs)
      × ((n : Text) (job : JobRecord)
          → lookup n jobs ≡ some job
          → (dir : Text) × (path_of n r.stacks ≡ some dir))
unfolding resume_jobs lookup
resume_jobs-kept [] r tasks ok = (refl, λ n job h. absurd (ground arith))
resume_jobs-kept ((k, job) ∷ jobs) r tasks ok = elim (Option-cases (path_of k r.stacks)) [
  | inl gone ↦ absurd (ground (arith, gone, ok))
  | inr (dir, e) ↦
      let r' : Runner = record r { pulling_stacks = add k r.pulling_stacks } in
      let (same, paths) =
        resume_jobs-kept jobs r' (insert k (resumed dir job) tasks) (ground (arith, e, ok)) in
      (
        ground (arith, e, same),
        λ n other h. elim (Bool-cases (k == n)) [
          | inl this ↦ let is : k ≡ n = (eq_iff k n).0 this in (dir, rw is at e)
          | inr not_this ↦ paths n other (ground (arith, not_this, h))
        ],
      )
]

resume_jobs-ok :
    (jobs : Dict Text JobRecord) (r : Runner) (tasks : Tasks)
    → ((n : Text) (job : JobRecord)
        → lookup n jobs ≡ some job
        → (dir : Text) × (path_of n r.stacks ≡ some dir))
    → (resume_jobs jobs r tasks).2 ≡ false
unfolding resume_jobs lookup
resume_jobs-ok [] r tasks paths = refl
resume_jobs-ok ((k, job) ∷ jobs) r tasks paths =
    let (dir, e) = paths k job (rw (eq_refl k) refl) in
    let r' : Runner = record r { pulling_stacks = add k r.pulling_stacks } in
    let later : (n : Text) (other : JobRecord)
        → lookup n jobs ≡ some other
        → (dir : Text) × (path_of n r.stacks ≡ some dir) =
      λ n other h. elim (Bool-cases (k == n)) [
        | inl this ↦ (dir, ground (arith, eq_iff k n, this, e))
        | inr not_this ↦ paths n other (ground (arith, not_this, h))
      ] in
    ground (arith, e, resume_jobs-ok jobs r' (insert k (resumed dir job) tasks) later)

-- `resume_all` runs to its end exactly if every job left on disk belongs to a stack that still has
-- its folder: a single stale record makes it raise.
pub resume_all_raises :
    (r : Runner)
    → ((resume_all r).2 ≡ false) ↔ (
        (n : Text) (job : JobRecord)
        → lookup n r.jobs ≡ some job
        → (dir : Text) × (path_of n r.stacks ≡ some dir))
unfolding resume_all
resume_all_raises r =
    (λ ok. (resume_jobs-kept r.jobs r [] ok).1, λ paths. resume_jobs-ok r.jobs r [] paths)

record-resumed :
    (stacks : List StackInfo) (n : Text) (found : Option JobRecord)
    → ((job : JobRecord) → found ≡ some job → (dir : Text) × (path_of n stacks ≡ some dir))
    → (record? (first_of (resumed? stacks n found) none) ≡ found)
      × (is_some (first_of (resumed? stacks n found) none)
          ≡ elim found [ none ↦ false | some job ↦ true ])
record-resumed stacks n none paths = (refl, refl)
record-resumed stacks n (some job) paths =
    let (dir, e) = paths job refl in (ground (arith, e), ground (arith, e))

resume_all-IsTracked :
    (stacks : List StackInfo) (tag_walk : Dict Text (Dict Text TagWalkStatus)) (s : Runner)
    → IsDict s.jobs
    → (resume_all (rebooted stacks tag_walk s)).2 ≡ false
    → IsTracked (record {
      runner = (resume_all (rebooted stacks tag_walk s)).0;
      tasks = (resume_all (rebooted stacks tag_walk s)).1;
    })
unfolding resume_all lookup elem
resume_all-IsTracked stacks tag_walk s keyed ok =
    let r = rebooted stacks tag_walk s in
    let (same, paths) = resume_jobs-kept r.jobs r [] ok in
    let found = λ (n : Text). record-resumed r.stacks n (lookup n r.jobs) (paths n) in
    record {
      persisted = λ n. rw (same, resume_jobs-lookup r.jobs r [] keyed ok n) (sym (found n).0);
      shown = λ n.
          rw (resume_jobs-shown r.jobs r [] ok n, resume_jobs-lookup r.jobs r [] keyed ok n)
            (sym (found n).1);
      keyed = rw same keyed;
    }

module _ (local_digest : Text → Result (Option Text)) (now : Text) where
  Event-IsTracked : {s u : System} → IsTracked s → Event local_digest now s u → IsTracked u
  Event-IsTracked tracked (pressed s n stack_dir answer free) =
      let no_job : lookup n s.runner.jobs ≡ none = ground (arith, tracked.persisted n, free) in
      settle-IsTracked local_digest now n s.tasks s.runner (start n stack_dir answer s.runner).0
        (start n stack_dir answer s.runner).1 tracked
        (start-Follows local_digest now n stack_dir answer s.runner no_job)
  Event-IsTracked tracked (polled s n t a watched quiet) =
      let kept : lookup n s.runner.jobs ≡ some (record_of t) =
        ground (arith, tracked.persisted n, watched) in
      let shown : elem n s.runner.pulling_stacks ≡ true =
        ground (arith, tracked.shown n, watched) in
      settle-IsTracked local_digest now n s.tasks s.runner (drive local_digest now n t a s.runner).0
        (drive local_digest now n t a s.runner).1 tracked
        (drive-Follows local_digest now n t a s.runner kept shown quiet)
  Event-IsTracked tracked (restarted s stacks tag_walk ok) =
      resume_all-IsTracked stacks tag_walk s.runner tracked.keyed ok

  pub Reach-IsTracked : {s u : System} → IsTracked s → Reach local_digest now s u → IsTracked u
  Reach-IsTracked tracked here = tracked
  Reach-IsTracked tracked (next r e) = Event-IsTracked (Reach-IsTracked tracked r) e

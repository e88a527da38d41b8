-- ===== src/Entities/Shown.antt =====
-- What the entities show, against the parts that it comes from.
use ha_docker_compose.Prelude.{
  Bool, Bool-cases, List, Option, Option-cases, Text, arith, codes, elem, eq_iff, false, inl, inr,
  lookup, nat_eq, not, pair_eq, refl, some, sym, text_beq, text_eq, true, ◌&&◌, ◌==◌, ◌↔◌, ◌∙◌, ◌≡◌,
}
use ha_docker_compose.Engine.{Result}
use ha_docker_compose.Coordinator.{StackState, running, partial, stopped, orphaned, Statuses}
use ha_docker_compose.UpdateCoordinator.{ServiceUpdateStatus, update_available}
use ha_docker_compose.PullJobs.Drive.{is_some}
use ha_docker_compose.PullJobs.Tracking.{System, Reach, IsTracked}
use ha_docker_compose.PullJobs.Restart.{Reach-IsTracked}
use ha_docker_compose.Entities.Values.{
  state_text, updating_text, stack_state_value, Updates, update_status, update_is_available,
  update_is_on,
}

differ : (s t : Text) → (s == t) ≡ false → s ≡ t → ⊥
differ s t h e = ground (arith, h, eq_iff s t, e)

state_text-ne : (s : StackState) → state_text s ≡ updating_text → ⊥
unfolding state_text text_beq
state_text-ne running = differ (codes "running") updating_text refl
state_text-ne partial = differ (codes "partial") updating_text refl
state_text-ne stopped = differ (codes "stopped") updating_text refl
state_text-ne orphaned = differ (codes "orphaned") updating_text refl

stack_state_value-updating :
    (pulling_stacks : List Text) (statuses : Statuses) (n : Text)
    → (stack_state_value pulling_stacks statuses n ≡ some updating_text)
      ↔ (elem n pulling_stacks ≡ true)
unfolding stack_state_value
stack_state_value-updating pulling_stacks statuses n = (
  λ h. elim (Bool-cases (elem n pulling_stacks)) [
    | inl e ↦ e
    | inr e ↦ elim (Option-cases (lookup n statuses)) [
      | inl none_there ↦ absurd (ground (arith, e, none_there, h))
      | inr (s, found) ↦ absurd (state_text-ne s.state (ground (arith, e, found, h)))
    ]
  ],
  λ e. ground (arith, e),
)

-- Across presses for a stack that has no driver, polls, and restarts, as long as no press is left by another
-- exception than a ComposeCommandError, no poll or end of a job by one that nothing catches, and no restart
-- by the RuntimeError of `resume_all`: the state sensor of a stack shows `updating` exactly while a driver
-- watches a pull of it, from the press on and no longer than the job.
pub Reach-updating :
    (local_digest : Text → Result (Option Text)) (now : Text) {s u : System} (statuses : Statuses)
    (n : Text)
    → IsTracked s
    → Reach local_digest now s u
    → (stack_state_value u.runner.pulling_stacks statuses n ≡ some updating_text)
      ↔ (is_some (lookup n u.tasks) ≡ true)
Reach-updating local_digest now {u = u} statuses n tracked r =
    let after = Reach-IsTracked local_digest now tracked r in
    let (to, from) = stack_state_value-updating u.runner.pulling_stacks statuses n in
    (λ h. sym (after.shown n) ∙ to h, λ h. from (after.shown n ∙ h))

update_available-Known :
    (s : ServiceUpdateStatus) (b : Bool)
    → update_available s ≡ some b
    → (s.registry_supported && not s.denied) ≡ true
unfolding update_available
update_available-Known s b h = ground (arith, h)

-- An update sensor that is on or off is available, as long as the coordinator's last update succeeded: it
-- is never unavailable and known at once.
pub update_is_on-available :
    (updates : Updates) (stack_name service_name : Text) (b : Bool)
    → update_is_on updates stack_name service_name ≡ some b
    → update_is_available true updates stack_name service_name ≡ true
unfolding update_is_on update_is_available
update_is_on-available updates stack_name service_name b h =
    elim (Option-cases (update_status updates stack_name service_name)) [
      | inl e ↦ absurd (ground (arith, e, h))
      | inr (s, e) ↦
          rw (e, update_is_available) (update_available-Known s b (rw (e, update_is_on) at h))
    ]

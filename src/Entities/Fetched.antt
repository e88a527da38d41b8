-- ===== src/Entities/Fetched.antt =====
-- What a press of the button of button.py that fetches logs leaves in the snapshots.
use ha_docker_compose.Prelude.{
  All, List, Text, [], ap, append-nil, append_assoc, arith, elem, eq_iff, false, lookup,
  lookup-insert, lookup-insert_self, map, nat_eq, pair_eq, refl, some, sym, text_eq, ◌++◌, ◌∙◌, ◌∷◌,
  ◌≡◌,
}
use ha_docker_compose.Engine.{Docker, ContainerInfo, done, returned}
use ha_docker_compose.Engine.Exec.{get_container_logs}
use ha_docker_compose.Compose.{Yaml, Node}
use ha_docker_compose.Coordinator.{Statuses}
use ha_docker_compose.UpdateCoordinator.{Key}
use ha_docker_compose.Entities.Actions.{
  Ended, completed, without_newlines, join_lines, Logs, take_logs, known_container,
  press_fetch_logs,
}
use ha_docker_compose.Entities.Values.{last_fetched_value, log_text_value}

unfoldable pub concat : List Text → Text
concat [] = []
concat (t ∷ ts) = t ++ concat ts

-- A line of output, with its line feed.
abbrev pub line : Text → Text
line s = s ++ 10 ∷ []

abbrev pub HasNoFeed : Text → Type 0
HasNoFeed s = elem 10 s ≡ false

without_newlines-line : (s : Text) → HasNoFeed s → without_newlines (line s) ≡ s
unfolding without_newlines elem
without_newlines-line [] h = refl
without_newlines-line (c ∷ []) h = ground (arith, h)
without_newlines-line (c ∷ d ∷ s) h = rw (without_newlines-line (d ∷ s) (ground (arith, h))) refl

-- The joined lines and a line feed are the output.
join_lines-line :
    (s : Text) (bare : List Text)
    → All HasNoFeed (s ∷ bare)
    → join_lines (map line (s ∷ bare)) ++ 10 ∷ [] ≡ concat (map line (s ∷ bare))
unfolding join_lines concat
join_lines-line s [] (h, rest) = rw (without_newlines-line s h, append-nil (line s)) refl
join_lines-line s (t ∷ bare) (h, rest) =
    let later = join_lines-line t bare rest in
    rw (without_newlines-line s h) (
      append_assoc s (10 ∷ join_lines (map line (t ∷ bare))) (10 ∷ [])
      ∙ ap (λ x. s ++ 10 ∷ x) later
      ∙ sym (append_assoc s (10 ∷ []) (concat (map line (t ∷ bare)))))

-- What the press ends with: completed, a snapshot of the key that is of this moment and holds the output less
-- its last line feed, and the same snapshots of other keys.
unfoldable pub HasSnapshot : Key → Text → Text → Logs → Ended × Logs → Type 0
HasSnapshot key now output logs (end, logs') =
    (end ≡ completed)
    × (last_fetched_value logs' key.0 key.1 ≡ some now)
    × ((text : Text) × (log_text_value logs' key.0 key.1 ≡ some text) × (line text ≡ output))
    × ((other : Key) → (other ≡ key → ⊥) → lookup other logs' ≡ lookup other logs)

abbrev pub ended : {W : Type 0} → Ended × Logs × W → Ended × Logs
ended pressed = (pressed.0, pressed.1)

module _ (safe_load : Text → Yaml) (node : Text → Text → Node) (World : Type 0)
    (docker : Docker World) (decode : Text → Text) (fresh_hex : World → Text × World)
    (sidecar_container : Text) (statuses : Statuses) (stack_name : Text) where
  take_logs-HasSnapshot :
      (key : Key) (now s : Text) (bare : List Text) (logs : Logs)
      → All HasNoFeed (s ∷ bare)
      → HasSnapshot key now
          (concat (map line (s ∷ bare)))
          logs
          (take_logs key now (returned (map line (s ∷ bare))) logs)
  unfolding take_logs HasSnapshot last_fetched_value log_text_value
  take_logs-HasSnapshot (a, b) now s bare logs h =
      let text = join_lines (map line (s ∷ bare)) in
      (
        refl,
        rw (last_fetched_value, lookup-insert_self),
        (text, rw (log_text_value, lookup-insert_self), join_lines-line s bare h),
        λ other differs. ground (
          arith,
          lookup-insert (a, b) other (record { fetched_at = now; log_text = text }) logs,
          eq_iff (a, b) other,
          differs,
        ),
      )

  -- A press for the logs of a service that has a container, of which Docker gives the last 100 lines, one at
  -- least and each with its line feed: it completes, and the snapshot of the service is of this moment and
  -- holds just that output, less the last line feed. The snapshots of other services stay.
  pub press_fetch_logs-HasSnapshot :
      (service_name now : Text) (logs : Logs) (w w' : World) (c : ContainerInfo) (s : Text)
      (bare : List Text)
      → known_container (lookup stack_name statuses) service_name ≡ some c
      → All HasNoFeed (s ∷ bare)
      → docker.log c.name 100 w ≡ (done (map line (s ∷ bare)), w')
      → HasSnapshot
          (stack_name, service_name)
          now
          (concat (map line (s ∷ bare)))
          logs
          (ended (
            press_fetch_logs safe_load node World docker decode fresh_hex sidecar_container statuses
              stack_name service_name now logs w))
  unfolding press_fetch_logs get_container_logs
  press_fetch_logs-HasSnapshot service_name now logs w w' c s bare known plain told =
      rw (known, press_fetch_logs, told, get_container_logs)
        (take_logs-HasSnapshot (stack_name, service_name) now s bare logs plain)

-- ===== src/Engine/Exec.antt =====
-- engine.py: commands that are run in the sidecar, attached or detached, and the logs of a container. The
-- timeouts are the world's: a call that `wait_for` cuts off is an outcome `timed_out`.
pub mod Inversion
use ha_docker_compose.Prelude.{
  Bool, List, Option, Text, [], codes, if◌then◌else◌, keep, nat_eq, none, not, pair_eq, some,
  text_eq, ℕ, ◌++◌, ◌==◌, ◌∷◌,
}
use ha_docker_compose.Engine.{
  Failure, docker_error, timed_out, other_error, Outcome, done, failed, Raised, not_connected,
  sidecar_not_available, exec_not_found, logs_unavailable, uncaught, Result, returned, raised,
  Docker,
}
use ha_docker_compose.Engine.Shell.{redirected}

-- The exit code is `none` for the -1 that stands for a missing one.
pub record ExecResult : Type 0 where
  pub exit_code : Option ℕ
  pub stdout : Text
  pub stderr : Text

-- `DetachedExecHandle`
pub record Handle : Type 0 where
  pub exec_id : Text
  pub log_path : Text

pub record ExecPollResult : Type 0 where
  pub running : Bool
  pub exit_code : Option ℕ

-- The `except` clauses of the methods.
unfoldable pub attached_failure : Failure → Raised
attached_failure (docker_error status) = sidecar_not_available
attached_failure timed_out = sidecar_not_available
attached_failure other_error = uncaught other_error

unfoldable pub detached_failure : Failure → Raised
detached_failure (docker_error status) = sidecar_not_available
detached_failure e = uncaught e

unfoldable pub poll_failure : Failure → Raised
poll_failure (docker_error status) = if status == 404 then exec_not_found else sidecar_not_available
poll_failure e = uncaught e

unfoldable pub log_failure : Failure → Raised
log_failure (docker_error status) = logs_unavailable
log_failure timed_out = logs_unavailable
log_failure other_error = uncaught other_error

-- `b"".join(…)` over the messages of the stream: stderr is stream 2, all else is stdout.
abbrev pub is_stderr : ℕ × Text → Bool
is_stderr (stream, chunk) = stream == 2

unfoldable pub joined : List (ℕ × Text) → Text
joined [] = []
joined ((stream, chunk) ∷ messages) = chunk ++ joined messages

abbrev pub log_path_of : Text → Text
log_path_of hex = codes "/tmp/ha_docker_compose_exec_" ++ (hex ++ codes ".log")

-- A method, on the world that it works in.
abbrev pub Action : Type 0 → Type 0 → Type 0
Action World A = World → Result A × World

abbrev pub caught : {A : Type 0} → (Failure → Raised) → Outcome A → Result A
caught f (done a) = returned a
caught f (failed e) = raised (f e)

module _ {World : Type 0} where
  abbrev pub continue : {A B : Type 0} → Result A → (A → Action World B) → Action World B
  continue (returned a) f w = f a w
  continue (raised e) f w = (raised e, w)

  infixl 10 ◌>>=◌
  abbrev pub ◌>>=◌ : {A B : Type 0} → Action World A → (A → Action World B) → Action World B
  ◌>>=◌ m f w = let (r, w') = m w in continue r f w'

  abbrev pub give : {A : Type 0} → A → Action World A
  give a w = (returned a, w)

  -- A call of aiodocker, with the `except` clauses around it.
  abbrev pub attempt :
      {A : Type 0} → (Failure → Raised) → (World → Outcome A × World) → Action World A
  attempt f call w = let (outcome, w') = call w in (caught f outcome, w')

  -- A call that answers nothing gives the id it was called for.
  abbrev pub quietly : (World → Option Failure × World) → Text → World → Outcome Text × World
  quietly call id w =
      let (problem, w') = call w in elim problem [ none ↦ (done id, w') | some e ↦ (failed e, w') ]

-- The world that the client works in, its connection, and two functions of Python: how bytes are
-- decoded, and the fresh `uuid.uuid4().hex`.
module _ (World : Type 0) (docker : Docker World) (connected : Bool) (decode : Text → Text)
    (fresh_hex : World → Text × World) where
  abbrev pub guarded : {A : Type 0} → Action World A → Action World A
  guarded m w = if connected then m w else (raised not_connected, w)

  unfoldable pub exec_in_container : Text → List Text → Option Text → Action World ExecResult
  unfolding attached_failure joined keep
  exec_in_container container_name cmd workdir = guarded do
    id ← attempt attached_failure (docker.create_exec container_name cmd workdir)
    messages ← attempt attached_failure (docker.start_exec id)
    info ← attempt attached_failure (docker.inspect_exec id)
    give (record {
      exit_code = info.1;
      stdout = decode (joined (keep (λ m. not (is_stderr m)) messages));
      stderr = decode (joined (keep is_stderr messages));
    })

  abbrev hex : Action World Text
  hex w = let (text, w') = fresh_hex w in (returned text, w')

  unfoldable pub exec_start_detached : Text → List Text → Option Text → Action World Handle
  unfolding detached_failure redirected
  exec_start_detached container_name cmd workdir = guarded do
    text ← hex
    let log_path = log_path_of text
    let wrapped_cmd = codes "sh" ∷ codes "-c" ∷ redirected cmd log_path ∷ []
    id ← attempt detached_failure (docker.create_exec container_name wrapped_cmd workdir)
    started ← attempt detached_failure (quietly (docker.start_exec_detached id) id)
    give (record { exec_id = started; log_path = log_path })

  unfoldable pub poll_exec : Text → Action World ExecPollResult
  unfolding poll_failure
  poll_exec exec_id = guarded do
    info ← attempt poll_failure (docker.inspect_exec exec_id)
    give (record { running = info.0; exit_code = info.1 })

  -- Whatever goes wrong is passed over, and there is no log then.
  unfoldable pub read_exec_log : Text → Text → World → Text × World
  unfolding exec_in_container
  read_exec_log container_name log_path w =
      let read : Action World ExecResult =
        exec_in_container container_name (codes "cat" ∷ log_path ∷ []) none >>= (λ result.
          exec_in_container container_name (codes "rm" ∷ codes "-f" ∷ log_path ∷ []) none
          >>= (λ _. give result)) in
      let (result, w') = read w in elim result [ returned r ↦ (r.stdout, w') | raised e ↦ ([], w') ]

  unfoldable pub get_container_logs : Text → ℕ → Action World (List Text)
  unfolding log_failure
  get_container_logs container_name tail =
      guarded (attempt log_failure (docker.log container_name tail))

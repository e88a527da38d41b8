-- ===== src/Compose/Detached.antt =====
-- `start_detached` of compose.py down to what Docker is asked and what the shell of the sidecar reads.
use ha_docker_compose.Prelude.{List, Option, Text, [], ap, codes, none, some, subst, true, ◌∷◌, ◌≡◌}
use ha_docker_compose.Engine.{Docker, done, sidecar_not_available, Result, returned, raised}
use ha_docker_compose.Engine.Exec.{
  Action, ◌>>=◌, attempt, give, quietly, Handle, detached_failure, log_path_of, exec_start_detached,
}
use ha_docker_compose.Engine.Exec.Inversion.{bind-returned, attempt-returned, quietly-done}
use ha_docker_compose.Engine.Shell.{redirected}
use ha_docker_compose.Engine.Shell.Reading.{shell_tokens, meant, shell_tokens-redirected}
use ha_docker_compose.Compose.{Yaml, Node, detached_result, start_detached}

detached_result-returned :
    (args : List Text) (r : Result Handle) (handle : Handle)
    → detached_result args r ≡ returned handle
    → r ≡ returned handle
unfolding detached_result
detached_result-returned args (returned a) handle h = h
detached_result-returned args (raised sidecar_not_available) handle h = cc
detached_result-returned args (raised e) handle h = h

module _ (World : Type 0) (docker : Docker World) (decode : Text → Text)
    (fresh_hex : World → Text × World) where
  -- What a detached exec that was started has asked of Docker.
  exec_start_detached-returned :
      (container_name : Text) (cmd : List Text) (workdir : Option Text) (handle : Handle)
      (w w' : World)
      → exec_start_detached World docker true decode fresh_hex container_name cmd workdir w
        ≡ (returned handle, w')
      → (w1 : World) × (docker.create_exec container_name
            (codes "sh" ∷ codes "-c" ∷ redirected cmd handle.log_path ∷ [])
            workdir
            (fresh_hex w).1
          ≡ (done handle.exec_id, w1))
        × (docker.start_exec_detached handle.exec_id w1 ≡ (none, w'))
  unfolding exec_start_detached
  exec_start_detached-returned container_name cmd workdir handle w w' h =
      let log_path : Text = log_path_of (fresh_hex w).0 in
      let line : List Text = codes "sh" ∷ codes "-c" ∷ redirected cmd log_path ∷ [] in
      let asking = attempt detached_failure (docker.create_exec container_name line workdir) in
      let launching : Text → Action World Text =
        λ id. attempt detached_failure (quietly (docker.start_exec_detached id) id) in
      let handing : Text → Action World Handle =
        λ started. give (record { exec_id = started; log_path = log_path }) in
      let (id, w1, created, rest) =
        bind-returned asking (λ id. launching id >>= handing) (fresh_hex w).1 w' handle h in
      let (started, w2, launched, given) = bind-returned (launching id) handing w1 w' handle rest in
      let asked =
        attempt-returned detached_failure (docker.create_exec container_name line workdir)
          (fresh_hex w).1 w1 id created in
      let (same_id, quiet) = quietly-done (docker.start_exec_detached id) id started w1 w2 (
        attempt-returned detached_failure (quietly (docker.start_exec_detached id) id) w1 w2 started
          launched) in
      let same : ◌≡◌ {A = Handle} (record { exec_id = id; log_path = log_path }) handle = cc in
      (
        w1,
        subst
            (λ k.
              docker.create_exec container_name
                (codes "sh" ∷ codes "-c" ∷ redirected cmd k.log_path ∷ []) workdir (fresh_hex w).1
              ≡ (done k.exec_id, w1))
            same asked,
        subst (λ k. docker.start_exec_detached k.exec_id w1 ≡ (none, w')) same (cc),
      )

module _ (safe_load : Text → Yaml) (node : Text → Text → Node) (World : Type 0)
    (docker : Docker World) (decode : Text → Text) (fresh_hex : World → Text × World)
    (sidecar_container : Text) where
  start_detached-returned :
      (stack_dir : Text) (args : List Text) (handle : Handle) (w w' : World)
      → start_detached safe_load node World docker true decode fresh_hex sidecar_container stack_dir
          args w
        ≡ (returned handle, w')
      → exec_start_detached World docker true decode fresh_hex sidecar_container
          (codes "docker" ∷ codes "compose" ∷ args)
          (some stack_dir)
          w
        ≡ (returned handle, w')
  unfolding start_detached
  start_detached-returned stack_dir args handle w w' h =
      let o : Result Handle × World =
        exec_start_detached World docker true decode fresh_hex sidecar_container
          (codes "docker" ∷ codes "compose" ∷ args) (some stack_dir) w in
      let same = detached_result-returned args o.0 handle (ap (λ p. p.0) h) in
      let after : o.1 ≡ w' = ap (λ p. p.1) h in cc

  -- A detached command that was started is an exec in the sidecar, in the folder of the stack. A POSIX
  -- shell reads its line as exactly `docker compose` and the arguments, whatever characters they hold,
  -- with output 1 sent to the log of the handle and output 2 to where output 1 goes; and it was started
  -- under the id of the handle.
  pub start_detached-Meant :
      (stack_dir : Text) (args : List Text) (handle : Handle) (w w' : World)
      → start_detached safe_load node World docker true decode fresh_hex sidecar_container stack_dir
          args w
        ≡ (returned handle, w')
      → (line : Text) × (w1 : World) × (docker.create_exec sidecar_container
            (codes "sh" ∷ codes "-c" ∷ line ∷ [])
            (some stack_dir)
            (fresh_hex w).1
          ≡ (done handle.exec_id, w1))
        × (docker.start_exec_detached handle.exec_id w1 ≡ (none, w'))
        × (shell_tokens line
            ≡ some (meant (codes "docker" ∷ codes "compose" ∷ args) handle.log_path))
  start_detached-Meant stack_dir args handle w w' h =
      let cmd : List Text = codes "docker" ∷ codes "compose" ∷ args in
      let (w1, asked, launched) =
        exec_start_detached-returned World docker decode fresh_hex sidecar_container cmd
          (some stack_dir) handle w w' (start_detached-returned stack_dir args handle w w' h) in
      (
        redirected cmd handle.log_path,
        w1,
        asked,
        launched,
        shell_tokens-redirected (codes "docker") (codes "compose" ∷ args) handle.log_path,
      )

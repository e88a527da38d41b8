-- ===== src/Compose/Config.antt =====
-- `get_compose_config` of compose.py against the ways in which Docker fails.
use ha_docker_compose.Prelude.{
  List, Option, Text, [], codes, none, refl, some, suc, true, zero, ℕ, ◌∷◌, ◌≡◌,
}
use ha_docker_compose.Engine.{
  Docker, docker_error, timed_out, other_error, Outcome, done, failed, sidecar_not_available,
  compose_command, uncaught, Result, returned, raised,
}
use ha_docker_compose.Engine.Exec.{
  Action, continue, ◌>>=◌, attempt, caught, ExecResult, attached_failure, exec_in_container,
}
use ha_docker_compose.Compose.{
  Yaml, mapping, falsy, other_value, malformed, Node, absent, directory, unreadable, undecodable,
  contents, Document, or_empty, read_first, read_raw_compose_file, run_result, run, config_result,
  get_compose_config, compose_filenames, empty_config,
}

-- A method has answered, or has found no sidecar to ask.
abbrev pub IsHandled : {A : Type 0} → Result A → Type 0
IsHandled (returned a) = Unit
IsHandled (raised sidecar_not_available) = Unit
IsHandled (raised e) = ⊥

-- A call of aiodocker that fails, if it does, by a DockerError or a timeout.
abbrev pub IsExpected : {A : Type 0} → Outcome A → Type 0
IsExpected (failed other_error) = ⊥
IsExpected _ = Unit

abbrev pub HasAnswered : Result Document → Type 0
HasAnswered r = (d : Document) × (r ≡ returned d)

module _ {World : Type 0} where
  bind-IsHandled :
      {A B : Type 0} (m : Action World A) (f : A → Action World B) (w : World)
      → IsHandled (m w).0
      → ((a : A) (w' : World) → IsHandled (f a w').0)
      → IsHandled ((m >>= f) w).0
  bind-IsHandled {A = A} {B = B} m f w h k = go (m w).0 (m w).1 h
    where
      go : (r : Result A) (w' : World) → IsHandled r → IsHandled (continue r f w').0
      go (returned a) w' h = k a w'
      go (raised sidecar_not_available) w' h = tt
      go (raised e) w' h = h

  attempt-IsHandled :
      {A : Type 0} (call : World → Outcome A × World) (w : World)
      → IsExpected (call w).0
      → IsHandled (attempt attached_failure call w).0
  unfolding attached_failure
  attempt-IsHandled {A = A} call w h = go (call w).0 h
    where
      go : (o : Outcome A) → IsExpected o → IsHandled (caught attached_failure o)
      go (done a) h = tt
      go (failed (docker_error status)) h = tt
      go (failed timed_out) h = tt
      go (failed other_error) h = absurd h

-- No exec call of this Docker fails but by a DockerError or a timeout.
pub record IsExpecting {World : Type 0} (docker : Docker World) : Type 0 where
  pub create :
      (name : Text) (cmd : List Text) (dir : Option Text) (w : World)
      → IsExpected (docker.create_exec name cmd dir w).0
  pub start : (id : Text) (w : World) → IsExpected (docker.start_exec id w).0
  pub inspect : (id : Text) (w : World) → IsExpected (docker.inspect_exec id w).0

module _ (World : Type 0) (docker : Docker World) (decode : Text → Text)
    (fresh_hex : World → Text × World) (expecting : IsExpecting docker) where
  pub exec_in_container-IsHandled :
      (container_name : Text) (cmd : List Text) (workdir : Option Text) (w : World)
      → IsHandled
          (exec_in_container World docker true decode fresh_hex container_name cmd workdir w).0
  unfolding exec_in_container
  exec_in_container-IsHandled container_name cmd workdir w =
      bind-IsHandled (attempt attached_failure (docker.create_exec container_name cmd workdir)) _ w
        (attempt-IsHandled (docker.create_exec container_name cmd workdir) w
          (expecting.create container_name cmd workdir w))
        (λ id w1.
          bind-IsHandled (attempt attached_failure (docker.start_exec id)) _ w1
            (attempt-IsHandled (docker.start_exec id) w1 (expecting.start id w1))
            (λ messages w2.
              bind-IsHandled (attempt attached_failure (docker.inspect_exec id)) _ w2
                (attempt-IsHandled (docker.inspect_exec id) w2 (expecting.inspect id w2))
                (λ info w3. tt)))

module _ (safe_load : Text → Yaml) where
  -- What stands at the path of a compose file can be read as YAML, if anything does.
  abbrev pub IsReadable : Node → Type 0
  IsReadable absent = Unit
  IsReadable (contents t) = safe_load t ≡ malformed → ⊥
  IsReadable _ = ⊥

  -- A command that succeeds has printed YAML, which `docker compose config` does.
  abbrev pub HasPrinted : Result ExecResult → Type 0
  HasPrinted (returned result) = result.exit_code ≡ some 0 → safe_load result.stdout ≡ malformed → ⊥
  HasPrinted (raised e) = Unit

module _ (safe_load : Text → Yaml) (node : Text → Text → Node) where
  or_empty-HasAnswered : (y : Yaml) → (y ≡ malformed → ⊥) → HasAnswered (or_empty y)
  unfolding or_empty
  or_empty-HasAnswered (mapping config) h = (some config, refl)
  or_empty-HasAnswered falsy h = (some empty_config, refl)
  or_empty-HasAnswered other_value h = (none, refl)
  or_empty-HasAnswered malformed h = absurd (h refl)

  read_first-HasAnswered :
      (dir : Text) (names : List Text)
      → ((name : Text) → IsReadable safe_load (node dir name))
      → HasAnswered (read_first safe_load node dir names)
  unfolding read_first
  read_first-HasAnswered dir [] h = (some empty_config, refl)
  read_first-HasAnswered dir (name ∷ names) h =
      go (node dir name) (h name) (read_first-HasAnswered dir names h)
    where
      go :
          (n : Node)
          → IsReadable safe_load n
          → HasAnswered (read_first safe_load node dir names)
          → HasAnswered (elim n [
            | absent ↦ read_first safe_load node dir names
            | contents text ↦ or_empty (safe_load text)
            | directory ↦ raised (uncaught other_error)
            | unreadable ↦ raised (uncaught other_error)
            | undecodable ↦ raised (uncaught other_error)
          ])
      go absent h' rest = rest
      go (contents t) h' rest = or_empty-HasAnswered (safe_load t) h'
      go directory h' rest = absurd h'
      go unreadable h' rest = absurd h'
      go undecodable h' rest = absurd h'

  config_result-HasAnswered :
      (dir : Text) (args : List Text) (r : Result ExecResult)
      → ((name : Text) → IsReadable safe_load (node dir name))
      → IsHandled r
      → HasPrinted safe_load r
      → HasAnswered (config_result safe_load node dir (run_result args r))
  unfolding config_result run_result read_raw_compose_file
  config_result-HasAnswered dir args (returned result) h k printed = go result.exit_code printed
    where
      go :
          (code : Option ℕ)
          → (code ≡ some 0 → safe_load result.stdout ≡ malformed → ⊥)
          → HasAnswered (
              config_result safe_load node dir (elim code [
                | some zero ↦ returned result.stdout
                | some (suc code) ↦ raised (compose_command args (some (suc code)) result.stderr)
                | none ↦ raised (compose_command args none result.stderr)
              ]))
      go (some zero) p = or_empty-HasAnswered (safe_load result.stdout) (p refl)
      go (some (suc code)) p = read_first-HasAnswered dir compose_filenames h
      go none p = read_first-HasAnswered dir compose_filenames h
  config_result-HasAnswered dir args (raised sidecar_not_available) h k printed =
      read_first-HasAnswered dir compose_filenames h
  config_result-HasAnswered dir args (raised e) h k printed = absurd k

  -- The config of a stack is answered with a document, whatever Docker does, as long as no exec call fails
  -- but by a DockerError or a timeout, `docker compose config` prints YAML if it succeeds, and the compose
  -- files that exist can be read and are YAML.
  pub get_compose_config-HasAnswered :
      (World : Type 0) (docker : Docker World) (decode : Text → Text)
      (fresh_hex : World → Text × World) (sidecar_container dir : Text) (w : World)
      → IsExpecting docker
      → ((name : Text) → IsReadable safe_load (node dir name))
      → HasPrinted safe_load
          (exec_in_container World docker true decode fresh_hex sidecar_container
            (codes "docker" ∷ codes "compose" ∷ codes "config" ∷ [])
            (some dir)
            w).0
      → HasAnswered
          (get_compose_config safe_load node World docker true decode fresh_hex sidecar_container
            dir w).0
  unfolding get_compose_config run
  get_compose_config-HasAnswered World docker decode fresh_hex sidecar_container dir w expecting h
        printed =
      config_result-HasAnswered dir (codes "config" ∷ [])
        (exec_in_container World docker true decode fresh_hex sidecar_container
          (codes "docker" ∷ codes "compose" ∷ codes "config" ∷ []) (some dir) w).0
        h
        (exec_in_container-IsHandled World docker decode fresh_hex expecting sidecar_container
          (codes "docker" ∷ codes "compose" ∷ codes "config" ∷ []) (some dir) w)
        printed

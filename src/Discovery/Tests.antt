-- ===== src/Discovery/Tests.antt =====
-- Witnesses on discovery.py: two folders, of which one has a compose file.
use ha_docker_compose.Prelude.{
  Bool, List, Text, [], codes, elem, false, if◌then◌else◌, keep, map, nat_eq, none, not, pair_eq,
  refl, some, text_beq, text_eq, true, ℕ, ◌++◌, ◌+◌, ◌==◌, ◌∷◌, ◌≡◌,
}
use ha_docker_compose.Engine.{Result, returned}
use ha_docker_compose.Compose.{Node, absent, contents, Document, empty_config}
use ha_docker_compose.Discovery.{StackInfo}
use ha_docker_compose.Discovery.Scan.{escaped, discover_stacks, compose_file_of}
use ha_docker_compose.Discovery.Found.{
  AreDistinct, IsStrict, has_stack, path, discover_stacks-paths, discover_stacks-escapes,
}

abbrev node : Text → Text → Node
node dir filename = if filename == codes "compose.yml" then contents (codes "services:") else absent

abbrev is_dir : Text → Bool
is_dir entry = not (entry == codes "notes.txt")

abbrev resolved : Text → ℕ → Result Document × ℕ
resolved dir w = (returned (some empty_config), w + 1)

abbrev a_text : Text → ℕ → Result Document × ℕ
a_text dir w = (returned none, w)

abbrev listed : List Text
listed = codes "web" ∷ codes "notes.txt" ∷ codes "db" ∷ []

abbrev stack : Text → StackInfo
stack name = record {
  name = name;
  path = some (codes "/srv/" ++ name);
  compose_filename = codes "compose.yml";
  has_env_file = false;
  compose_config = empty_config;
  raw_compose_text = codes "services:";
}

listed-Distinct : AreDistinct listed
unfolding elem text_beq
listed-Distinct = (refl, (refl, (refl, tt)))

discover_stacks-paths_example :
    (names : List Text) × IsStrict names
    × ((x : Text) → elem x names ≡ elem x listed)
    × (map (λ s. s.path) (stack (codes "db") ∷ stack (codes "web") ∷ [])
        ≡ map
            (path ℕ node is_dir resolved (codes "/srv"))
            (keep (has_stack ℕ node is_dir resolved (codes "/srv")) names))
unfolding discover_stacks text_beq
discover_stacks-paths_example =
    discover_stacks-paths ℕ node is_dir resolved (codes "/srv") listed 0 2
      (stack (codes "db") ∷ stack (codes "web") ∷ []) listed-Distinct refl

discover_stacks-escapes_example :
    (discover_stacks ℕ node is_dir a_text (codes "/srv") true listed 0).0 ≡ escaped
unfolding elem text_beq compose_file_of
discover_stacks-escapes_example =
    discover_stacks-escapes ℕ node is_dir a_text (codes "/srv") (codes "db") listed 0 refl refl
      (λ v. refl)

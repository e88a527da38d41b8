-- ===== src/Discovery/Scan.antt =====
-- discovery.py: the scan of the stacks folder. What stands in it is a parameter, as is the way that a
-- compose config is resolved: by the executor, or by a raw read where there is none.
use ha_docker_compose.Prelude.{
  Bool, List, Option, Text, [], codes, false, if◌then◌else◌, leb, nat_eq, none, pair_eq, some,
  text_eq, true, ◌++◌, ◌==◌, ◌∷◌,
}
use ha_docker_compose.ComposeFile.{truthy}
use ha_docker_compose.Engine.{Result, returned, raised}
use ha_docker_compose.Compose.{
  Node, absent, directory, undecodable, contents, Document, empty_config, compose_filenames,
}
use ha_docker_compose.Discovery.{StackInfo}

-- `sorted`, on paths of one folder: by their names, code point by code point.
unfoldable pub text_leb : Text → Text → Bool
text_leb [] t = true
text_leb (c ∷ s) [] = false
text_leb (c ∷ s) (d ∷ t) = let rest = text_leb s t in if c == d then rest else leb c d

unfoldable pub place : Text → List Text → List Text
unfolding text_leb
place name [] = name ∷ []
place name (other ∷ names) =
    let rest = place name names in
    if text_leb name other then name ∷ other ∷ names else other ∷ rest

unfoldable pub sorted : List Text → List Text
unfolding place
sorted [] = []
sorted (name ∷ names) = place name (sorted names)

-- `is_file`
abbrev pub is_file : Node → Bool
is_file absent = false
is_file directory = false
is_file _ = true

-- What the scan comes to: the stacks, the FileNotFoundError of a missing root, or another exception.
pub data Scanned : Type 0 where
  found : List StackInfo → Scanned
  file_not_found escaped : Scanned

-- `_read_raw_compose_text`, where an OSError is caught and `none` is the UnicodeDecodeError
unfoldable pub read_raw_compose_text : Node → Option Text
read_raw_compose_text (contents text) = some text
read_raw_compose_text undecodable = none
read_raw_compose_text _ = some []

-- An exception while a config is resolved is caught, and the config is empty then.
abbrev pub config_or_empty : Result Document → Document
config_or_empty (returned document) = document
config_or_empty (raised e) = some empty_config

-- A stack that is appended, in front of those that follow.
abbrev pub and_then : Option StackInfo → Scanned → Scanned
and_then none rest = escaped
and_then (some stack) (found stacks) = found (stack ∷ stacks)
and_then (some stack) rest = rest

module _ (World : Type 0) (node : Text → Text → Node) (is_dir : Text → Bool)
    (resolve : Text → World → Result Document × World) (stacks_root : Text) where
  abbrev pub path_of : Text → Text
  path_of entry = stacks_root ++ b'/' ∷ entry

  -- `_find_compose_file`
  unfoldable pub first_file : Text → List Text → Option Text
  first_file dir [] = none
  first_file dir (filename ∷ filenames) =
      let rest = first_file dir filenames in
      if is_file (node dir filename) then some filename else rest

  unfoldable pub find_compose_file : Text → Option Text
  unfolding first_file
  find_compose_file dir = first_file dir compose_filenames

  -- The record of a stack; `none` is an exception: the config is no mapping and has no `get`, or the
  -- text of the file is no UTF-8.
  unfoldable pub stack_of : Text → Text → Document → Option StackInfo
  unfolding read_raw_compose_text
  stack_of entry filename none = none
  stack_of entry filename (some config) =
      elim (read_raw_compose_text (node (path_of entry) filename)) [
        | none ↦ none
        | some text ↦ some (record {
          name = elim (truthy config.name) [ none ↦ entry | some name ↦ name ];
          path = some (path_of entry);
          compose_filename = filename;
          has_env_file = is_file (node (path_of entry) (codes ".env"));
          compose_config = config;
          raw_compose_text = text;
        })
      ]

  -- The name of the compose file, of a folder that has one.
  unfoldable pub compose_file_of : Text → Option Text
  unfolding find_compose_file
  compose_file_of entry = if is_dir entry then find_compose_file (path_of entry) else none

  -- The loop over the entries, which an exception leaves.
  unfoldable pub scan : List Text → World → Scanned × World
  unfolding compose_file_of stack_of
  scan [] w = (found [], w)
  scan (entry ∷ entries) w = elim (compose_file_of entry) [
    | none ↦ scan entries w
    | some filename ↦
        let (answer, w1) = resolve (path_of entry) w in
        elim (stack_of entry filename (config_or_empty answer)) [
          | none ↦ (escaped, w1)
          | some stack ↦ let (rest, w2) = scan entries w1 in (and_then (some stack) rest, w2)
        ]
  ]

  unfoldable pub discover_stacks : Bool → List Text → World → Scanned × World
  unfolding scan sorted
  discover_stacks root_exists entries w =
      if root_exists then scan (sorted entries) w else (file_not_found, w)

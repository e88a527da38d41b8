-- ===== src/Coordinator/Polls.antt =====
-- `_async_update_data` of coordinator.py against what it is to find for each stack.
use ha_docker_compose.Prelude.{
  Bool, Bool-cases, IsDict, List, Option, Option-cases, Text, [], append-nil, append_assoc, arith,
  eq_iff, false, inl, inr, insert, insert-IsDict, keep, lookup, lookup-insert, lookup-remove,
  nat_eq, none, pair_eq, refl, remove, remove-IsDict, some, text_eq, ◌++◌, ◌==◌, ◌∷◌, ◌≡◌,
}
use ha_docker_compose.ComposeFile.{truthy}
use ha_docker_compose.Engine.{ContainerInfo}
use ha_docker_compose.Discovery.{StackInfo, find_stack}
use ha_docker_compose.Coordinator.{
  StackStatus, or_none, Projects, add_container, group_containers, Statuses, status_of, orphan,
  place_stacks, place_orphans, async_update_data,
}

-- The containers of a project, in the order of Docker's list.
abbrev pub is_of : Text → ContainerInfo → Bool
is_of project c = elim (truthy c.project) [ none ↦ false | some p ↦ p == project ]

abbrev pub containers_of : Text → List ContainerInfo → List ContainerInfo
containers_of project = keep (is_of project)

-- The status of a name, told directly: a discovered stack with its containers, or the containers of a
-- project without a folder, or nothing.
abbrev pub unknown : Text → List ContainerInfo → Option StackStatus
unknown name [] = none
unknown name (c ∷ cs) = some (orphan name (c ∷ cs))

abbrev pub expected_status : List StackInfo → List ContainerInfo → Text → Option StackStatus
expected_status stacks containers name = elim (find_stack name stacks) [
  | some stack ↦ some (status_of stack (containers_of name containers))
  | none ↦ unknown name (containers_of name containers)
]

-- The folders of one directory have different names.
abbrev pub AreDistinct : List StackInfo → Type 0
AreDistinct [] = Unit
AreDistinct (stack ∷ stacks) = (find_stack stack.name stacks ≡ none) × AreDistinct stacks

abbrev joined : Option (List ContainerInfo) → List ContainerInfo → Option (List ContainerInfo)
joined none [] = none
joined none (c ∷ cs) = some (c ∷ cs)
joined (some xs) ys = some (xs ++ ys)

group-lookup :
    (n : Text) (cs : List ContainerInfo) (d : Projects)
    → lookup n (group_containers cs d) ≡ joined (lookup n d) (containers_of n cs)
unfolding group_containers add_container keep
group-lookup n [] d = elim (Option-cases (lookup n d)) [
  | inl e ↦ rw e refl
  | inr (xs, e) ↦ ground (arith, e, append-nil xs)
]
group-lookup n (c ∷ cs) d = elim (Option-cases (truthy c.project)) [
  | inl e ↦ ground (arith, e, group-lookup n cs d)
  | inr (p, e) ↦
      let rest = group-lookup n cs (insert p (or_none (lookup p d) ++ c ∷ []) d) in
      let after = lookup-insert p n (or_none (lookup p d) ++ c ∷ []) d in
      elim (Bool-cases (p == n)) [
        | inr other ↦ ground (arith, e, rest, after, other)
        | inl here ↦
            let is : p ≡ n = (eq_iff p n).0 here in
            elim (Option-cases (lookup n d)) [
              | inl absent ↦ ground (arith, e, rest, after, is, here, absent)
              | inr (xs, found) ↦ ground (
                arith,
                e,
                rest,
                after,
                is,
                here,
                found,
                append_assoc xs (c ∷ []) (containers_of n cs),
              )
            ]
      ]
]

group-IsDict : (cs : List ContainerInfo) (d : Projects) → IsDict d → IsDict (group_containers cs d)
unfolding group_containers add_container
group-IsDict [] d h = h
group-IsDict (c ∷ cs) d h = elim (Option-cases (truthy c.project)) [
  | inl e ↦ rw (e, group_containers, add_container) (group-IsDict cs d h)
  | inr (p, e) ↦ rw (e, group_containers, add_container) (group-IsDict cs _ (insert-IsDict p _ d h))
]

place_stacks-lookup :
    (n : Text) (stacks : List StackInfo) (d : Projects) (result : Statuses)
    → AreDistinct stacks
    → (lookup n (place_stacks stacks d result).0
        ≡ elim (find_stack n stacks) [ none ↦ lookup n d | some s ↦ none ])
      × (lookup n (place_stacks stacks d result).1 ≡ elim (find_stack n stacks) [
        | none ↦ lookup n result
        | some s ↦ some (status_of s (or_none (lookup n d)))
      ])
unfolding place_stacks find_stack
place_stacks-lookup n [] d result h = (refl, refl)
place_stacks-lookup n (s ∷ stacks) d result (fresh, h) =
    let placed = status_of s (or_none (lookup s.name d)) in
    let rest = place_stacks-lookup n stacks (remove s.name d) (insert s.name placed result) h in
    (
      ground (arith, rest.0, eq_iff s.name n, lookup-remove s.name n d, fresh),
      ground (
        arith,
        rest.1,
        eq_iff s.name n,
        lookup-remove s.name n d,
        lookup-insert s.name n placed result,
        fresh,
      ),
    )

place_stacks-IsDict :
    (stacks : List StackInfo) (d : Projects) (result : Statuses)
    → IsDict d
    → IsDict (place_stacks stacks d result).0
unfolding place_stacks
place_stacks-IsDict [] d result h = h
place_stacks-IsDict (s ∷ stacks) d result h =
    place_stacks-IsDict stacks _ _ (remove-IsDict s.name d h)

place_orphans-lookup :
    (n : Text) (d : Projects) (result : Statuses)
    → IsDict d
    → lookup n (place_orphans d result)
      ≡ elim (lookup n d) [ none ↦ lookup n result | some cs ↦ some (orphan n cs) ]
unfolding place_orphans lookup
place_orphans-lookup n [] result h = refl
place_orphans-lookup n ((p, cs) ∷ d) result (fresh, h) =
    let rest = place_orphans-lookup n d (insert p (orphan p cs) result) h in
    ground (arith, rest, eq_iff p n, lookup-insert p n (orphan p cs) result, fresh)

-- A poll that reaches the engine gives data, for discovered stacks of pairwise different names: each
-- discovered stack has its own containers, in the engine's order, and the state derived from them; each
-- other project that has containers is orphaned, with all of them; and nothing else has a status.
pub async_update_data-expected :
    (stacks : List StackInfo) (containers : List ContainerInfo)
    → AreDistinct stacks
    → (data' : Statuses) × (async_update_data stacks (some containers) ≡ some data')
      × ((n : Text) → lookup n data' ≡ expected_status stacks containers n)
unfolding async_update_data lookup
async_update_data-expected stacks containers distinct =
    let grouped = group_containers containers [] in
    let placed = place_stacks stacks grouped [] in
    (
      place_orphans placed.0 placed.1,
      refl,
      λ n.
          let (left, found) = place_stacks-lookup n stacks grouped [] distinct in
          let all_left = group-lookup n containers [] in
          let keyed = place_stacks-IsDict stacks grouped [] (group-IsDict containers [] tt) in
          let orphans = place_orphans-lookup n placed.0 placed.1 keyed in
          elim (Option-cases (find_stack n stacks)) [
            | inr (s, e) ↦ ground (arith, e, left, found, all_left, orphans)
            | inl e ↦ ground (arith, e, left, found, all_left, orphans)
          ],
    )

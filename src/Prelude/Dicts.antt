-- ===== src/Prelude/Dicts.antt =====
-- Python's `dict` and `set`: an association list in insertion order, and a list without repetition.
use mathlib.Core.Path.{◌≡◌, refl, sym, subst}
use mathlib.Core.List.{List, [], ◌∷◌, map, ◌++◌}
use mathlib.Core.Bool.{Bool, true, false, not}
use mathlib.Core.Option.{Option, none, some}
use native.Mathlib.Omega.{arith}
use mathlib.Core.Logic.{inl, inr}
use ha_docker_compose.Prelude.Tests.{if◌then◌else◌, Bool-cases}
use ha_docker_compose.Prelude.Lists.{keep, All}
use ha_docker_compose.Prelude.Equality.{Eq, ◌==◌, eq_iff, eq_refl}

abbrev pub Dict {ℓ κ} : Type ℓ → Type κ → Type (ℓ ⊔ κ)
Dict K V = List (K × V)

module _ {ℓ κ} {K : Type ℓ} {V : Type κ} ⦃e : Eq K⦄ where
  -- `d.get(k)`
  unfoldable pub lookup : K → Dict K V → Option V
  lookup k [] = none
  lookup k ((j, v) ∷ d) = if j == k then some v else lookup k d

  -- `d[k] = v`: an old key keeps its place
  unfoldable pub insert : K → V → Dict K V → Dict K V
  insert k v [] = (k, v) ∷ []
  insert k v ((j, w) ∷ d) = let rest = insert k v d in if j == k then (j, v) ∷ d else (j, w) ∷ rest

  -- `d.pop(k, None)`, the dictionary that is left
  unfoldable pub remove : K → Dict K V → Dict K V
  remove k [] = []
  remove k ((j, v) ∷ d) = let rest = remove k d in if j == k then rest else (j, v) ∷ rest

  pub lookup-insert :
      (k j : K) (v : V) (d : Dict K V)
      → lookup j (insert k v d) ≡ (if k == j then some v else lookup j d)
  unfolding lookup insert
  lookup-insert k j v [] = refl
  lookup-insert k j v ((i, w) ∷ d) =
      ground (arith, eq_iff k j, eq_iff i k, eq_iff i j, lookup-insert k j v d)

  pub lookup-insert_self : (k : K) (v : V) (d : Dict K V) → lookup k (insert k v d) ≡ some v
  lookup-insert_self k v d = rw (lookup-insert, eq_refl k)

  pub lookup-remove :
      (k j : K) (d : Dict K V) → lookup j (remove k d) ≡ (if k == j then none else lookup j d)
  unfolding lookup remove
  lookup-remove k j [] = ground arith
  lookup-remove k j ((i, w) ∷ d) =
      ground (arith, eq_iff k j, eq_iff i k, eq_iff i j, lookup-remove k j d)

  -- The keys of a Python dictionary are pairwise different.
  abbrev pub IsDict : Dict K V → Type κ
  IsDict [] = Unit
  IsDict ((k, v) ∷ d) = (lookup k d ≡ none) × IsDict d

  pub insert-IsDict : (k : K) (v : V) (d : Dict K V) → IsDict d → IsDict (insert k v d)
  unfolding insert lookup
  insert-IsDict k v [] h = (refl, tt)
  insert-IsDict k v ((j, w) ∷ d) (fresh, h) =
      ground (arith, eq_iff j k, eq_iff k j, lookup-insert k j v d, fresh, h, insert-IsDict k v d h)

  pub remove-IsDict : (k : K) (d : Dict K V) → IsDict d → IsDict (remove k d)
  unfolding remove
  remove-IsDict k [] h = tt
  remove-IsDict k ((j, w) ∷ d) (fresh, h) =
      ground (arith, lookup-remove k j d, fresh, h, remove-IsDict k d h)

abbrev pub keys {ℓ κ} : {K : Type ℓ} {V : Type κ} → Dict K V → List K
keys = map (λ p. p.0)

abbrev pub values {ℓ κ} : {K : Type ℓ} {V : Type κ} → Dict K V → List V
values = map (λ p. p.1)

module _ {ℓ} {A : Type ℓ} ⦃e : Eq A⦄ where
  -- `x in s`
  unfoldable pub elem : A → List A → Bool
  elem x [] = false
  elem x (y ∷ s) = if y == x then true else elem x s

  -- `s.add(x)`
  unfoldable pub add : A → List A → List A
  add x s = if elem x s then s else x ∷ s

  -- `s.discard(x)`
  unfoldable pub discard : A → List A → List A
  discard x = keep (λ y. not (y == x))

  pub elem-add : (x y : A) (s : List A) → elem y (add x s) ≡ (if x == y then true else elem y s)
  unfolding add elem
  elem-add x y s = ground (arith, eq_iff x y)

  pub elem-discard :
      (x y : A) (s : List A) → elem y (discard x s) ≡ (if x == y then false else elem y s)
  unfolding discard elem keep
  elem-discard x y [] = ground arith
  elem-discard x y (z ∷ s) = ground (arith, eq_iff x y, eq_iff z x, eq_iff z y, elem-discard x y s)

  pub elem-append : (x : A) (s t : List A) → elem x (s ++ t) ≡ (if elem x s then true else elem x t)
  unfolding elem
  elem-append x [] t = refl
  elem-append x (y ∷ s) t = ground (arith, elem-append x s t)

  pub elem-keep :
      (p : A → Bool) (x : A) (s : List A) → elem x (keep p s) ≡ (if p x then elem x s else false)
  unfolding elem keep
  elem-keep p x [] = ground arith
  elem-keep p x (y ∷ s) = elim (Bool-cases (y == x)) [
    | inl same ↦
        let e' : y ≡ x = (eq_iff y x).0 same in
        ground (arith, elem-keep p x s, eq_iff y x, e', same)
    | inr other ↦ ground (arith, elem-keep p x s, other)
  ]

module _ {ℓ κ ι} {K : Type ℓ} {V : Type κ} ⦃e : Eq K⦄ (P : K × V → Type ι) where
  -- What holds of all entries still holds when one is put for which it holds.
  pub All-insert : (k : K) (v : V) (d : Dict K V) → P (k, v) → All P d → All P (insert k v d)
  unfolding insert
  All-insert k v [] h hd = (h, tt)
  All-insert k v ((j, w) ∷ d) h (hj, hd) = elim (Bool-cases (j == k)) [
    | inl same ↦ rw (same) (subst (λ x. P (x, v)) (sym ((eq_iff j k).0 same)) h, hd)
    | inr other ↦ rw (other) (hj, All-insert k v d h hd)
  ]

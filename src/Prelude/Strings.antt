-- ===== src/Prelude/Strings.antt =====
-- The methods of Python's `str` that the source calls, on lists of code points. The case mapping
-- and the white space are those of the code points below 128.
use Prim.Native.Nat.{ℕ, ◌+◌}
use mathlib.Core.Path.{◌≡◌, refl}
use mathlib.Core.List.{List, [], ◌∷◌, ◌++◌, map, reverse}
use mathlib.Core.Bool.{Bool, true, false, ◌||◌, ◌&&◌}
use mathlib.Core.Option.{Option, none, some}
use native.Mathlib.Omega.{arith}
use ha_docker_compose.Prelude.Tests.{if◌then◌else◌, leb}
use ha_docker_compose.Prelude.Equality.{Text, ◌==◌, nat_eq}
use ha_docker_compose.Prelude.Dicts.{elem}

-- `s.partition(c)`: the text before and behind the first `c`
unfoldable pub partition : ℕ → Text → Option (Text × Text)
partition c [] = none
partition c (x ∷ s) =
    let rest = partition c s in
    if x == c then some ([], s) else elim rest [ none ↦ none | some (a, b) ↦ some (x ∷ a, b) ]

-- `s.rpartition(c)`: the text before and behind the last `c`
unfoldable pub rpartition : ℕ → Text → Option (Text × Text)
rpartition c [] = none
rpartition c (x ∷ s) = elim (rpartition c s) [
  | some (a, b) ↦ some (x ∷ a, b)
  | none ↦ if x == c then some ([], s) else none
]

-- `s.split(c, 1)[0]`
unfoldable pub before : ℕ → Text → Text
unfolding partition
before c s = elim (partition c s) [ none ↦ s | some (a, b) ↦ a ]

-- `s.startswith(p)`
unfoldable pub starts_with : Text → Text → Bool
starts_with [] s = true
starts_with (c ∷ p) [] = false
starts_with (c ∷ p) (d ∷ s) = let rest = starts_with p s in if c == d then rest else false

abbrev pub lower_char : ℕ → ℕ
lower_char c = if leb b'A' c && leb c b'Z' then c + 32 else c

-- `s.lower()`
abbrev pub lower : Text → Text
lower = map lower_char

-- `s.lstrip(…)`: drops the characters of a class from the front
unfoldable pub drop_while : (ℕ → Bool) → Text → Text
drop_while p [] = []
drop_while p (c ∷ s) = if p c then drop_while p s else c ∷ s

-- `s.strip(…)`
unfoldable pub strip_class : (ℕ → Bool) → Text → Text
unfolding drop_while
strip_class p s = reverse (drop_while p (reverse (drop_while p s)))

abbrev pub is_space : ℕ → Bool
is_space c = (leb 9 c && leb c 13) || (leb 28 c && leb c 32)

-- `s.strip()`
abbrev pub strip : Text → Text
strip = strip_class is_space

-- Cuts a text at each character of a class: `re.split` by a one-character class.
unfoldable pub split_class : (ℕ → Bool) → Text → List Text
split_class p [] = [] ∷ []
split_class p (c ∷ s) = elim (split_class p s) [
  | [] ↦ [] ∷ []
  | w ∷ ws ↦ if p c then [] ∷ w ∷ ws else (c ∷ w) ∷ ws
]

module _ (c : ℕ) where
  pub rpartition-none : (s : Text) → rpartition c s ≡ none → elem c s ≡ false
  unfolding rpartition elem
  rpartition-none [] h = refl
  rpartition-none (x ∷ s) h = ground (arith, rpartition-none s)

  pub rpartition-some :
      (s a b : Text) → rpartition c s ≡ some (a, b) → (s ≡ a ++ c ∷ b) × (elem c b ≡ false)
  unfolding rpartition
  rpartition-some [] a b h = cc
  rpartition-some (x ∷ s) [] b h = ground (arith, rpartition-none s)
  rpartition-some (x ∷ s) (y ∷ a) b h = ground (arith, rpartition-some s a b)

  pub rpartition-lacks : (s : Text) → elem c s ≡ false → rpartition c s ≡ none
  unfolding rpartition elem
  rpartition-lacks [] h = refl
  rpartition-lacks (x ∷ s) h = ground (arith, rpartition-lacks s)

  pub rpartition-append : (a b : Text) → elem c b ≡ false → rpartition c (a ++ c ∷ b) ≡ some (a, b)
  unfolding rpartition
  rpartition-append [] b h = ground (arith, rpartition-lacks b h)
  rpartition-append (x ∷ a) b h = rw (rpartition-append a b h)

  pub partition-lacks : (s : Text) → elem c s ≡ false → partition c s ≡ none
  unfolding partition elem
  partition-lacks [] h = refl
  partition-lacks (x ∷ s) h = ground (arith, partition-lacks s)

  pub partition-append : (a b : Text) → elem c a ≡ false → partition c (a ++ c ∷ b) ≡ some (a, b)
  unfolding partition elem
  partition-append [] b h = ground arith
  partition-append (x ∷ a) b h = ground (arith, partition-append a b)

  pub partition-some :
      (s a b : Text) → partition c s ≡ some (a, b) → (s ≡ a ++ c ∷ b) × (elem c a ≡ false)
  unfolding partition elem
  partition-some [] a b h = cc
  partition-some (x ∷ s) [] b h = ground arith
  partition-some (x ∷ s) (y ∷ a) b h = ground (arith, partition-some s a b)

  pub before-append : (a b : Text) → elem c a ≡ false → before c (a ++ c ∷ b) ≡ a
  unfolding before
  before-append a b h = rw (partition-append a b h, before)

  pub before-lacks : (s : Text) → elem c s ≡ false → before c s ≡ s
  unfolding before
  before-lacks s h = rw (partition-lacks s h, before)

  pub before-Lacks : (s : Text) → elem c (before c s) ≡ false
  unfolding before partition elem
  before-Lacks [] = refl
  before-Lacks (x ∷ s) = ground (arith, before-Lacks s)

  pub rpartition-append_found :
      (a b x y : Text) → rpartition c b ≡ some (x, y) → rpartition c (a ++ b) ≡ some (a ++ x, y)
  unfolding rpartition
  rpartition-append_found [] b x y h = h
  rpartition-append_found (d ∷ a) b x y h = rw (rpartition-append_found a b x y h)

  pub rpartition-append_missing :
      (a b : Text)
      → rpartition c b ≡ none
      → rpartition c (a ++ b)
        ≡ elim (rpartition c a) [ none ↦ none | some (x, y) ↦ some (x, y ++ b) ]
  unfolding rpartition
  rpartition-append_missing [] b h = h
  rpartition-append_missing (d ∷ a) b h = ground (arith, rpartition-append_missing a b h)

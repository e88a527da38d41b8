-- ===== src/Prelude/Equality.antt =====
-- Equality tests as an interface, with the instances for numbers, texts, and pairs of texts.
-- A Python `str` is the list of its code points.
use Prim.Native.Nat.{ℕ}
use Prim.Native.Char.{code}
use Prim.Native.String.{String}
use mathlib.Core.Path.{◌≡◌, refl}
use mathlib.Core.Logic.{◌↔◌}
use mathlib.Core.List.{List, [], ◌∷◌}
use mathlib.Core.Bool.{Bool, true, false}
use native.Mathlib.Omega.{arith}
use ha_docker_compose.Prelude.Tests.{nat_beq, nat_beq_iff, if◌then◌else◌}

-- A type whose values can be compared by a test.
pub record Eq {ℓ} (K : Type ℓ) : Type ℓ where
  pub equal : K → K → Bool
  pub equal_iff : (x y : K) → (equal x y ≡ true) ↔ (x ≡ y)

module _ {ℓ} {K : Type ℓ} ⦃k : Eq K⦄ where
  infix 50 ◌==◌
  abbrev pub ◌==◌ : K → K → Bool
  ◌==◌ x y = k.equal x y

  pub eq_iff : (x y : K) → ((x == y) ≡ true) ↔ (x ≡ y)
  eq_iff x y = k.equal_iff x y

  pub eq_refl : (x : K) → (x == x) ≡ true
  eq_refl x = (eq_iff x x).1 refl

abbrev pub Text : Type 0
Text = List ℕ

-- The code points of a literal.
abbrev pub codes : String → Text
codes String.[] = []
codes (String.◌∷◌ c s) = code c ∷ codes s

unfoldable pub text_beq : Text → Text → Bool
text_beq [] [] = true
text_beq (c ∷ s) (d ∷ t) = let rest = text_beq s t in if nat_beq c d then rest else false
text_beq _ _ = false

pub text_beq-eq : (s t : Text) → text_beq s t ≡ true → s ≡ t
unfolding text_beq
text_beq-eq [] [] h = refl
text_beq-eq [] (d ∷ t) h = cc
text_beq-eq (c ∷ s) [] h = cc
text_beq-eq (c ∷ s) (d ∷ t) h = ground (arith, text_beq-eq s t)

text_beq_self : (s : Text) → text_beq s s ≡ true
unfolding text_beq
text_beq_self [] = refl
text_beq_self (c ∷ s) = ground (arith, text_beq_self s)

pub text_beq_iff : (s t : Text) → (text_beq s t ≡ true) ↔ (s ≡ t)
text_beq_iff s t = (text_beq-eq s t, λ e. rw e (text_beq_self t))

abbrev pub pair_beq : Text × Text → Text × Text → Bool
pair_beq (a, b) (c, d) = if text_beq a c then text_beq b d else false

pub pair_beq_iff : (p q : Text × Text) → (pair_beq p q ≡ true) ↔ (p ≡ q)
pair_beq_iff (a, b) (c, d) = ground (arith, text_beq_iff a c, text_beq_iff b d)

instance abbrev pub nat_eq : Eq ℕ
nat_eq = record { equal = nat_beq; equal_iff = nat_beq_iff }

instance abbrev pub text_eq : Eq Text
text_eq = record { equal = text_beq; equal_iff = text_beq_iff }

instance abbrev pub pair_eq : Eq (Text × Text)
pair_eq = record { equal = pair_beq; equal_iff = pair_beq_iff }

-- ===== src/Prelude/Decimal.antt =====
-- `str(n)` of a natural number.
use Prim.Native.Nat.{ℕ, zero, suc, ◌+◌, ◌-◌, ◌*◌, ◌/◌, ◌%◌, ◌<◌}
use mathlib.Core.Path.{◌≡◌, refl, sym, ◌∙◌, ap}
use mathlib.Core.List.{[], ◌∷◌, ◌++◌, foldl, foldl-append}
use mathlib.Core.Bool.{true, Bool, ◌&&◌}
use native.Mathlib.Omega.{arith}
use ha_docker_compose.Prelude.Tests.{if◌then◌else◌, leb, ltb}
use ha_docker_compose.Prelude.Lists.{All, All-append}
use ha_docker_compose.Prelude.Equality.{Text, codes}

-- The fuel bounds the number of digits; `n + 1` is enough.
digits : ℕ → ℕ → Text
digits zero n = []
digits (suc f) n =
    let more = digits f (n / 10) in
    if ltb n 10 then (b'0' + n) ∷ [] else more ++ (b'0' + n % 10) ∷ []

unfoldable pub decimal : ℕ → Text
unfolding digits
decimal n = digits (suc n) n

abbrev pub is_digit : ℕ → Bool
is_digit c = leb b'0' c && leb c b'9'

-- The number that digits spell.
unfoldable pub value : Text → ℕ
value = foldl (λ n c. n * 10 + (c - b'0')) 0

value_empty : value [] ≡ 0
unfolding value
value_empty = refl

value-append_digit : (s : Text) (c : ℕ) → value (s ++ c ∷ []) ≡ value s * 10 + (c - b'0')
unfolding value
value-append_digit s c = rw foldl-append

value-digits : (f n : ℕ) → n < f → value (digits f n) ≡ n
unfolding digits
value-digits zero n h = elim h [ ]
value-digits (suc f) n h = ground (
  arith,
  value-digits f (n / 10),
  value-append_digit [] (b'0' + n),
  value-append_digit (digits f (n / 10)) (b'0' + n % 10),
  value_empty,
)

pub value-decimal : (n : ℕ) → value (decimal n) ≡ n
unfolding decimal
value-decimal n = value-digits (suc n) n (omega arith)

-- Different numbers are printed differently.
pub decimal-injective : (m n : ℕ) → decimal m ≡ decimal n → m ≡ n
decimal-injective m n h = sym (value-decimal m) ∙ ap value h ∙ value-decimal n

decimal_tests : decimal 207 ≡ codes "207"
unfolding decimal
decimal_tests = refl

digits-All : (f n : ℕ) → All (λ c. is_digit c ≡ true) (digits f n)
unfolding digits
digits-All zero n = tt
digits-All (suc f) n =
    let last : is_digit (b'0' + n % 10) ≡ true = ground arith in
    let more =
      All-append (λ c. is_digit c ≡ true) (digits f (n / 10)) ((b'0' + n % 10) ∷ [])
        (digits-All f (n / 10)) (last, tt) in
    ground (arith, more)

pub decimal-All : (n : ℕ) → All (λ c. is_digit c ≡ true) (decimal n)
unfolding decimal
decimal-All n = digits-All (suc n) n

concat-ne-nil : (s : Text) (c : ℕ) → s ++ c ∷ [] ≡ [] → ⊥
concat-ne-nil [] c h = cc
concat-ne-nil (d ∷ s) c h = cc

decimal-ne-nil : (n : ℕ) → decimal n ≡ [] → ⊥
unfolding decimal digits
decimal-ne-nil n h = ground (arith, concat-ne-nil (digits n (n / 10)) (b'0' + n % 10))

-- The digits of a number are never empty.
pub decimal-cons : (n : ℕ) → (c : ℕ) × (s : Text) × (decimal n ≡ c ∷ s)
decimal-cons n = go (decimal n) refl
  where
    go : (s : Text) → decimal n ≡ s → (c : ℕ) × (t : Text) × (decimal n ≡ c ∷ t)
    go (c ∷ t) e = (c, t, e)
    go [] e = absurd (decimal-ne-nil n e)

-- ===== src/Engine/Exec/Inversion.antt =====
-- What is known of the steps of an action of engine.py that has returned.
use ha_docker_compose.Prelude.{Option, Text, none, refl, some, ◌≡◌}
use ha_docker_compose.Engine.{Failure, Outcome, done, failed, Raised, Result, returned, raised}
use ha_docker_compose.Engine.Exec.{Action, continue, caught, attempt, quietly, ◌>>=◌}

module _ {World : Type 0} where
  pub bind-returned :
      {A B : Type 0} (m : Action World A) (f : A → Action World B) (w w' : World) (b : B)
      → (m >>= f) w ≡ (returned b, w')
      → (a : A) × (w1 : World) × (m w ≡ (returned a, w1)) × (f a w1 ≡ (returned b, w'))
  bind-returned {A = A} {B = B} m f w w' b h = go (m w) refl h
    where
      go :
          (o : Result A × World)
          → m w ≡ o
          → continue o.0 f o.1 ≡ (returned b, w')
          → (a : A) × (w1 : World) × (m w ≡ (returned a, w1)) × (f a w1 ≡ (returned b, w'))
      go (returned a, w1) e k = (a, w1, e, k)
      go (raised x, w1) e k = absurd (cc)

  pub attempt-returned :
      {A : Type 0} (f : Failure → Raised) (call : World → Outcome A × World) (w w' : World) (a : A)
      → attempt f call w ≡ (returned a, w')
      → call w ≡ (done a, w')
  attempt-returned {A = A} f call w w' a h = go (call w) h
    where
      go :
          (o : Outcome A × World)
          → ◌≡◌ {A = Result A × World} (caught f o.0, o.1) (returned a, w')
          → o ≡ (done a, w')
      go (done x, w1) k = cc
      go (failed e, w1) k = absurd (cc)

  pub quietly-done :
      (call : World → Option Failure × World) (id started : Text) (w w' : World)
      → quietly call id w ≡ (done started, w')
      → (started ≡ id) × (call w ≡ (none, w'))
  quietly-done call id started w w' h = go (call w) refl h
    where
      go :
          (o : Option Failure × World)
          → call w ≡ o
          → ◌≡◌ {A = Outcome Text × World}
              (elim o.0 [ none ↦ (done id, o.1) | some e ↦ (failed e, o.1) ])
              (done started, w')
          → (started ≡ id) × (call w ≡ (none, w'))
      go (none, w1) e k = (cc, cc)
      go (some x, w1) e k = absurd (cc)

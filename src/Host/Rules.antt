-- ===== src/Host/Rules.antt =====
-- What a run ends with, and the rules for a bind.
use mathlib.Core.Path.{◌≡◌, refl, ap, sym, subst}
use mathlib.Core.Logic.{◌⊎◌, inl, inr}
use rust_lib.Host.Effect.{Host, World, Outcome, returned, panicked, Run, ◌>>=◌}

module _ ⦃h : Host⦄ where
  -- It returns, with a value and a world of which `P` holds.
  abbrev pub Returns : {A : Type 0} → (A → World → Type 0) → Outcome A × World → Type 0
  Returns P (returned a, w) = P a w
  Returns P (panicked, w) = ⊥

  pub Returns-bind :
      {A B : Type 0} (P : A → World → Type 0) (Q : B → World → Type 0) (m : Run A) (f : A → Run B)
      (w : World)
      → Returns P (m w)
      → ((a : A) (w' : World) → P a w' → Returns Q (f a w'))
      → Returns Q ((m >>= f) w)
  Returns-bind {A} P Q m f w r k = go (m w) r
    where
      go :
          (o : Outcome A × World)
          → Returns P o
          → Returns Q (elim o.0 [ returned a ↦ f a o.1 | panicked ↦ (panicked, o.1) ])
      go (returned a, w') p = k a w' p
      go (panicked, w') p = absurd p

  -- A bind whose first part returns.
  pub >>=-returned :
      {A B : Type 0} (m : Run A) (f : A → Run B) {a : A} {w w' : World}
      → m w ≡ (returned a, w')
      → (m >>= f) w ≡ f a w'
  >>=-returned {A} {B} m f e =
      ap
        (λ (o : Outcome A × World). elim o.0 as (λ _. Outcome B × World) [
          | returned a ↦ f a o.1
          | panicked ↦ (panicked, o.1)
        ])
        e

  pub Returns-next :
      {A B : Type 0} (Q : B → World → Type 0) (m : Run A) (f : A → Run B) {a : A} {w w' : World}
      → m w ≡ (returned a, w')
      → Returns Q (f a w')
      → Returns Q ((m >>= f) w)
  Returns-next Q m f e next = subst (Returns Q) (sym (>>=-returned m f e)) next

  pub Returns-weaken :
      {A : Type 0} (P Q : A → World → Type 0) (o : Outcome A × World)
      → Returns P o
      → ((a : A) (w : World) → P a w → Q a w)
      → Returns Q o
  Returns-weaken P Q (returned a, w) p k = k a w p
  Returns-weaken P Q (panicked, w) p k = absurd p

-- To split on how a run ended, with the equation.
pub Outcome-cases : {A : Type 0} (o : Outcome A) → (o ≡ panicked) ⊎ ((a : A) × (o ≡ returned a))
Outcome-cases panicked = inl refl
Outcome-cases (returned a) = inr (a, refl)

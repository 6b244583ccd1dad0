-- ===== src/Host/Effect.antt =====
-- The runtime is a parameter: a state of its own, and an answer to each call. A guest process has, on
-- top of it, the one `static mut` of the library (src/tag.rs) and the calls that it has made.
use mathlib.Core.List.{List, ◌∷◌}
use Prim.Native.Nat.{ℕ}
use rust_lib.Host.Calls.{Call, Answer}

pub record Host : Type 1 where
  pub State : Type 0
  pub answer : (c : Call) → State → Answer c × State

-- `calls` holds the newest call first.
pub record World ⦃h : Host⦄ : Type 0 where
  pub host : h.State
  pub counter : ℕ
  pub calls : List Call

-- A panic ends the process: wasm32-wasi aborts, so nothing is dropped.
pub data Outcome (A : Type 0) : Type 0 where
  returned : A → Outcome A
  panicked : Outcome A

module _ ⦃h : Host⦄ where
  abbrev pub Run : Type 0 → Type 0
  Run A = World → Outcome A × World

  abbrev pub pure : {A : Type 0} → A → Run A
  pure a w = (returned a, w)

  abbrev pub panic : {A : Type 0} → Run A
  panic w = (panicked, w)

  infixl 5 ◌>>=◌ ◌>>◌
  abbrev pub ◌>>=◌ : {A B : Type 0} → Run A → (A → Run B) → Run B
  ◌>>=◌ m f w = let (r, w') = m w in elim r [ returned a ↦ f a w' | panicked ↦ (panicked, w') ]

  abbrev pub ◌>>◌ : {B : Type 0} → Run (Unit {0}) → Run B → Run B
  m >> k = m >>= λ _. k

  -- What the runtime answers to a call made in `w`, and the world after it.
  abbrev pub answer_to : (c : Call) → World → Answer c
  answer_to c w = (h.answer c w.host).0

  abbrev pub after : Call → World → World
  after c w = record w { host = (h.answer c w.host).1; calls = c ∷ w.calls }

  abbrev pub invoke : (c : Call) → Run (Answer c)
  invoke c w = (returned (answer_to c w), after c w)

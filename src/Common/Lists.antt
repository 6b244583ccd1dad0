-- ===== src/Common/Lists.antt =====
-- Lists over the native numbers.
use Prim.Native.Nat.{ℕ, zero, suc, ◌+◌, ◌%◌, ◌<◌}
use mathlib.Core.Path.{◌≡◌, refl, ap}
use mathlib.Core.List.{List, [], ◌∷◌, ◌++◌, map}
use mathlib.Core.Option
use mathlib.Core.Option.{Option, none, some}
use native.Mathlib.Omega.{arith}

module _ {ℓ} {A : Type ℓ} where
  abbrev pub length : List A → ℕ
  length [] = 0
  length (x ∷ xs) = suc (length xs)

  abbrev pub All {κ} : (A → Type κ) → List A → Type κ
  All P [] = Unit
  All P (x ∷ xs) = P x × All P xs

  pub length-append : (xs ys : List A) → length (xs ++ ys) ≡ length xs + length ys
  length-append [] ys = omega arith
  length-append (x ∷ xs) ys = omega (arith, length-append xs ys)

  pub All-append {κ} : (P : A → Type κ) (xs ys : List A) → All P xs → All P ys → All P (xs ++ ys)
  All-append P [] ys h k = k
  All-append P (x ∷ xs) ys h k = (h.0, All-append P xs ys h.1 k)

  abbrev pub replicate : ℕ → A → List A
  replicate zero a = []
  replicate (suc n) a = a ∷ replicate n a

  abbrev pub get_or : A → List A → ℕ → A
  get_or d [] i = d
  get_or d (x ∷ xs) zero = x
  get_or d (x ∷ xs) (suc i) = get_or d xs i

  abbrev pub get_elem? : List A → ℕ → Option A
  get_elem? [] i = none
  get_elem? (x ∷ xs) zero = some x
  get_elem? (x ∷ xs) (suc i) = get_elem? xs i

  -- A place before the end has an element.
  pub get_elem?-some : (xs : List A) (i : ℕ) → i < length xs → (x : A) × (get_elem? xs i ≡ some x)
  get_elem?-some [] i b = absurd (omega arith)
  get_elem?-some (x ∷ xs) zero b = (x, refl)
  get_elem?-some (x ∷ xs) (suc i) b = get_elem?-some xs i (omega arith)

  abbrev pub take : ℕ → List A → List A
  take zero xs = []
  take (suc n) [] = []
  take (suc n) (x ∷ xs) = x ∷ take n xs

  abbrev pub concat : List (List A) → List A
  concat [] = []
  concat (xs ∷ xss) = xs ++ concat xss

pub get_elem?-map {ℓ κ} :
    {A : Type ℓ} {B : Type κ} (f : A → B) (xs : List A) (i : ℕ) (x : A)
    → get_elem? xs i ≡ some x
    → get_elem? (map f xs) i ≡ some (f x)
get_elem?-map f [] i x e = cc
get_elem?-map f (y ∷ xs) zero x e = ap (Option.map f) e
get_elem?-map f (y ∷ xs) (suc i) x e = get_elem?-map f xs i x e

-- A buffer of `u8` after the runtime has written to its front.
abbrev pub fill : List ℕ → List ℕ → List ℕ
fill [] written = []
fill (b ∷ buff) [] = b ∷ buff
fill (b ∷ buff) (x ∷ written) = (x % 256) ∷ fill buff written

pub length-fill : (buff written : List ℕ) → length (fill buff written) ≡ length buff
length-fill [] written = refl
length-fill (b ∷ buff) [] = refl
length-fill (b ∷ buff) (x ∷ written) = omega (arith, length-fill buff written)

pub fill-IsByte :
    (buff written : List ℕ) → All (λ b. b < 256) buff → All (λ b. b < 256) (fill buff written)
fill-IsByte [] written h = tt
fill-IsByte (b ∷ buff) [] h = h
fill-IsByte (b ∷ buff) (x ∷ written) (byte, h) = (omega arith, fill-IsByte buff written h)

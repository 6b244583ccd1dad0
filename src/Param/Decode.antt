-- ===== src/Param/Decode.antt =====
-- An independent reader of encoded parameters, and the round trip.
use mathlib.Core.Option
use rust_lib.Common.{
  ℕ, zero, suc, ◌*◌, ◌/◌, ◌^◌, ◌<◌, ◌≡◌, ◌∙◌, refl, sym, List, [], ◌∷◌, ◌++◌, append_assoc,
  append-nil, Option, none, some, length, length-append, All, All-append, ◌==◌, if◌then◌else◌,
  arith,
}
use rust_lib.Common.Bytes.{
  IsByte, to_le_bytes, from_le_bytes, length-to_le_bytes, to_le_bytes-IsByte, from-to_le_bytes,
}
use rust_lib.Common.Int.{ℤ, signed, fits}
use rust_lib.Param.{Param, i32, i64, v128, as_u128, encode, push_params, params_to_vec}

-- The value fits the width of its type.
abbrev pub IsParam : Param → Type 0
IsParam (i32 v) = v < 2 ^ 32
IsParam (i64 v) = v < 2 ^ 64
IsParam (v128 v) = v < 2 ^ 128

-- What a parameter stands for.
pub data Value : Type 0 where
  int32 : ℤ → Value
  int64 : ℤ → Value
  vector : ℕ → Value

abbrev pub meaning : Param → Value
meaning (i32 v) = int32 (signed 32 v)
meaning (i64 v) = int64 (signed 64 v)
meaning (v128 v) = vector v

-- The type byte and the number behind it, which is an `i128` for the integers.
pub read_value : ℕ → ℕ → Option Value
read_value t v =
    if t == 0x7F
    then (if fits 32 (signed 128 v) then some (int32 (signed 128 v)) else none)
    else if t == 0x7E
    then (if fits 64 (signed 128 v) then some (int64 (signed 128 v)) else none)
    else if t == 0x7B
    then some (vector v)
    else none

pub split_at : ℕ → List ℕ → Option (List ℕ × List ℕ)
split_at zero bytes = some ([], bytes)
split_at (suc n) [] = none
split_at (suc n) (b ∷ bytes) = Option.map (λ p. (b ∷ p.0, p.1)) (split_at n bytes)

abbrev read_one :
    (List ℕ → Option (List Value)) → ℕ → Option (List ℕ × List ℕ) → Option (List Value)
read_one more t none = none
read_one more t (some (bytes, rest)) =
    Option.bind (read_value t (from_le_bytes bytes)) (λ v. Option.map (λ vs. v ∷ vs) (more rest))

-- `n` parameters of 17 bytes each, and nothing behind them.
pub read_values : ℕ → List ℕ → Option (List Value)
read_values zero [] = some []
read_values zero (b ∷ bytes) = none
read_values (suc n) [] = none
read_values (suc n) (t ∷ bytes) = read_one (read_values n) t (split_at 16 bytes)

unfoldable pub read_params : List ℕ → Option (List Value)
unfolding read_values read_value split_at
read_params bytes = read_values (length bytes / 17) bytes

split_at-append : (n : ℕ) (xs ys : List ℕ) → length xs ≡ n → split_at n (xs ++ ys) ≡ some (xs, ys)
unfolding split_at
split_at-append zero [] ys e = refl
split_at-append zero (x ∷ xs) ys e = absurd (omega arith)
split_at-append (suc n) [] ys e = absurd (omega arith)
split_at-append (suc n) (x ∷ xs) ys e = rw (split_at-append n xs ys (omega arith))

-- One parameter in front of others.
read_values-cons :
    (n t v : ℕ) (x : Value) (rest : List ℕ)
    → v < 2 ^ 128
    → read_value t v ≡ some x
    → read_values (suc n) (t ∷ to_le_bytes 16 v ++ rest)
      ≡ Option.map (λ vs. x ∷ vs) (read_values n rest)
unfolding read_values Option.bind
read_values-cons n t v x rest small e =
    rw (split_at-append 16 (to_le_bytes 16 v) rest (length-to_le_bytes 16 v))
      (rw (from-to_le_bytes 16 v small) (rw e))

read_value-i32 : (v : ℕ) → v < 2 ^ 32 → read_value 0x7F (as_u128 32 v) ≡ some (int32 (signed 32 v))
unfolding read_value as_u128
read_value-i32 v h = ground arith

read_value-i64 : (v : ℕ) → v < 2 ^ 64 → read_value 0x7E (as_u128 64 v) ≡ some (int64 (signed 64 v))
unfolding read_value as_u128
read_value-i64 v h = ground arith

as_u128-lt : (w v : ℕ) → v < 2 ^ w → 2 ^ w < 2 ^ 128 → as_u128 w v < 2 ^ 128
unfolding as_u128
as_u128-lt w v h k = ground arith

read_values-encode :
    (n : ℕ) (p : Param) (rest : List ℕ)
    → IsParam p
    → read_values (suc n) (encode p ++ rest)
      ≡ Option.map (λ vs. meaning p ∷ vs) (read_values n rest)
unfolding encode read_value
read_values-encode n (i32 v) rest h =
    read_values-cons n 0x7F (as_u128 32 v) (int32 (signed 32 v)) rest
      (as_u128-lt 32 v h (omega arith)) (read_value-i32 v h)
read_values-encode n (i64 v) rest h =
    read_values-cons n 0x7E (as_u128 64 v) (int64 (signed 64 v)) rest
      (as_u128-lt 64 v h (omega arith)) (read_value-i64 v h)
read_values-encode n (v128 v) rest h = read_values-cons n 0x7B v (vector v) rest h refl

-- The encodings one after the other.
encodings : List Param → List ℕ
encodings [] = []
encodings (p ∷ params) = encode p ++ encodings params

push_params-encodings :
    (result : List ℕ) (params : List Param) → push_params result params ≡ result ++ encodings params
unfolding push_params encodings
push_params-encodings result [] = sym (append-nil result)
push_params-encodings result (p ∷ params) =
    push_params-encodings (result ++ encode p) params
    ∙ append_assoc result (encode p) (encodings params)

params_to_vec-encodings : (params : List Param) → params_to_vec params ≡ encodings params
unfolding params_to_vec
params_to_vec-encodings params = push_params-encodings [] params

length-encode : (p : Param) → length (encode p) ≡ 17
unfolding encode
length-encode (i32 v) = omega (arith, length-to_le_bytes 16 (as_u128 32 v))
length-encode (i64 v) = omega (arith, length-to_le_bytes 16 (as_u128 64 v))
length-encode (v128 v) = omega (arith, length-to_le_bytes 16 v)

length-encodings : (params : List Param) → length (encodings params) ≡ 17 * length params
unfolding encodings
length-encodings [] = refl
length-encodings (p ∷ params) =
    omega
      (arith, length-append (encode p) (encodings params), length-encode p, length-encodings params)

encode-IsByte : (p : Param) → All IsByte (encode p)
unfolding encode
encode-IsByte (i32 v) = (omega arith, to_le_bytes-IsByte 16 (as_u128 32 v))
encode-IsByte (i64 v) = (omega arith, to_le_bytes-IsByte 16 (as_u128 64 v))
encode-IsByte (v128 v) = (omega arith, to_le_bytes-IsByte 16 v)

encodings-IsByte : (params : List Param) → All IsByte (encodings params)
unfolding encodings
encodings-IsByte [] = tt
encodings-IsByte (p ∷ params) =
    All-append IsByte (encode p) (encodings params) (encode-IsByte p) (encodings-IsByte params)

-- The vector holds bytes, and exactly 17 for each parameter, which is what `with_capacity` has
-- reserved.
pub params_to_vec_shape :
    (params : List Param)
    → (length (params_to_vec params) ≡ 17 * length params) × All IsByte (params_to_vec params)
params_to_vec_shape params =
    rw (params_to_vec-encodings params) (length-encodings params, encodings-IsByte params)

abbrev pub meanings : List Param → List Value
meanings [] = []
meanings (p ∷ params) = meaning p ∷ meanings params

read_values-encodings :
    (params : List Param)
    → All IsParam params
    → read_values (length params) (encodings params) ≡ some (meanings params)
unfolding encodings
read_values-encodings [] h = unfold read_values in refl
read_values-encodings (p ∷ params) (hp, h) =
    read_values-encode (length params) p (encodings params) hp ∙ rw (read_values-encodings params h)

-- Decoding the vector of parameters, each of which is in the range of its type, gives the signed
-- and unsigned numbers that they stand for, in order.
pub read_params-params_to_vec :
    (params : List Param)
    → All IsParam params
    → read_params (params_to_vec params) ≡ some (meanings params)
unfolding read_params
read_params-params_to_vec params h =
    let n : length (encodings params) / 17 ≡ length params =
      omega (arith, length-encodings params) in
    rw (params_to_vec-encodings params) (rw n (read_values-encodings params h))

-- ===== src/Param.antt =====
-- Arguments of a spawned function, and their encoding (src/environment.rs).
pub mod Decode
use rust_lib.Common.{ℕ, ◌+◌, ◌-◌, ◌^◌, List, [], ◌∷◌, ◌++◌, ltb, if◌then◌else◌}
use rust_lib.Common.Bytes.{to_le_bytes}

-- Each value is its bit pattern, of 32, 64 or 128 bits.
pub data Param : Type 0 where
  i32 : ℕ → Param
  i64 : ℕ → Param
  v128 : ℕ → Param

-- `*value as u128` of a signed integer of `w` bits: it extends the sign.
unfoldable pub as_u128 : ℕ → ℕ → ℕ
as_u128 w v = if ltb v (2 ^ (w - 1)) then v else v + (2 ^ 128 - 2 ^ w)

-- What the closure of `for_each` adds for one parameter.
unfoldable pub encode : Param → List ℕ
encode (i32 v) = 0x7F ∷ to_le_bytes 16 (as_u128 32 v)
encode (i64 v) = 0x7E ∷ to_le_bytes 16 (as_u128 64 v)
encode (v128 v) = 0x7B ∷ to_le_bytes 16 v

-- The loop of `params_to_vec` over what it has pushed so far.
unfoldable pub push_params : List ℕ → List Param → List ℕ
push_params result [] = result
push_params result (p ∷ params) = push_params (result ++ encode p) params

unfoldable pub params_to_vec : List Param → List ℕ
params_to_vec params = push_params [] params

-- ===== src/Spawn/Calls.antt =====
-- What a spawning call asks of the runtime (src/process.rs).
use rust_lib.Common.{ℕ, ◌%◌, ◌^◌, ◌<◌, ◌≡◌, refl, [], ◌∷◌, Option, none, some, arith}
use rust_lib.Common.Int.{signed}
use rust_lib.Host.{Host, World, returned, after, answer_to, ProcessCall, process}
use rust_lib.Param.{i32, params_to_vec}
use rust_lib.Param.Decode.{int32, read_params, read_params-params_to_vec}
use rust_lib.Serde.{Rmp, Serde}
use rust_lib.Spawn.{
  Context, with_context, without, FunctionTable, entry_params, entry_point, link_or_0, param_of,
  spawn_call,
}
use rust_lib.Tag.{Tag}

read_indexes :
    (x y : ℕ)
    → x < 2 ^ 32
    → y < 2 ^ 32
    → read_params (params_to_vec (param_of x ∷ param_of y ∷ []))
      ≡ some (int32 (signed 32 x) ∷ int32 (signed 32 y) ∷ [])
read_indexes x y a b =
    let keep : x % 2 ^ 32 ≡ x = omega arith in
    let keep' : y % 2 ^ 32 ≡ y = omega arith in
    rw (keep, keep') (read_params-params_to_vec (i32 x ∷ i32 y ∷ []) (a, (b, tt)))

module _ ⦃table : FunctionTable⦄ {C T : Type 0} where
  -- The type helper that the child is to call, and the function that it is to hand it.
  abbrev pub helper : Context C T → ℕ
  helper (with_context func context) = table.wrapper_context
  helper (without func) = table.wrapper

  abbrev pub entry : Context C T → ℕ
  entry (with_context func context) = func
  entry (without func) = func

  -- The parameters of the exported function are the indexes of the type helper and of the entry
  -- function: where both are below 2 ^ 32, decoding them gives the two `i32`s of the same 32 bits.
  read_params-entry_params :
      (context : Context C T)
      → helper context < 2 ^ 32
      → entry context < 2 ^ 32
      → read_params (entry_params context)
        ≡ some (int32 (signed 32 (helper context)) ∷ int32 (signed 32 (entry context)) ∷ [])
  unfolding entry_params
  read_params-entry_params (with_context func context) a b =
      read_indexes table.wrapper_context func a b
  read_params-entry_params (without func) a b = read_indexes table.wrapper func a b

module _ ⦃h : Host⦄ ⦃r : Rmp⦄ ⦃table : FunctionTable⦄ {C T : Type 0} ⦃s : Serde C⦄ where
  -- The status and the number that the runtime answers to the one spawning call, and the world
  -- after it.
  abbrev pub spawn_answer : Option ℕ → Option Tag → Context C T → World → ℕ × ℕ
  spawn_answer (some module_id) link context w =
      answer_to
        (process
          (ProcessCall.spawn (link_or_0 link) module_id entry_point (entry_params context) 0))
        w
  spawn_answer none link context w =
      answer_to
        (process (ProcessCall.inherit_spawn (link_or_0 link) entry_point (entry_params context) 0))
        w

  abbrev pub spawn_world : Option ℕ → Option Tag → Context C T → World → World
  spawn_world (some module_id) link context w =
      after
        (process
          (ProcessCall.spawn (link_or_0 link) module_id entry_point (entry_params context) 0))
        w
  spawn_world none link context w =
      after
        (process (ProcessCall.inherit_spawn (link_or_0 link) entry_point (entry_params context) 0))
        w

  pub spawn_call_lem :
      (module_id : Option ℕ) (link : Option Tag) (context : Context C T) (w : World)
      → spawn_call module_id link context w
        ≡ (returned (spawn_answer module_id link context w), spawn_world module_id link context w)
  unfolding spawn_call
  spawn_call_lem none link context w = refl
  spawn_call_lem (some module_id) link context w = refl

-- ===== src/Spawn.antt =====
-- Spawning processes (src/process.rs). A function pointer is its index in the WebAssembly table.
pub mod Family
pub mod Entry
pub mod Calls
pub mod Links
pub mod Child
pub mod Contexts
pub mod Watching
use rust_lib.Common.{
  ℕ, ◌%◌, ◌^◌, List, [], ◌∷◌, Result, ok, err, Option, none, some, ◌==◌, if◌then◌else◌,
}
use rust_lib.Common.Text.{codes}
use rust_lib.Host.{Host, Run, pure, ◌>>=◌, ◌>>◌, invoke, process, ProcessCall}
use rust_lib.LunaticError
use rust_lib.LunaticError.{LunaticError}
use rust_lib.Param.{Param, i32, params_to_vec}
use rust_lib.Process
use rust_lib.Process.{Process}
use rust_lib.Serde.{Rmp, Serde}
use rust_lib.Tag.{Tag}

-- `enum Context`: the entry function, and what it gets besides its mailbox.
pub data Context (C T : Type 0) : Type 0 where
  with_context : ℕ → C → Context C T
  without : ℕ → Context C T

-- `Context::<(), _>::Without(function)`
abbrev pub no_context : {T : Type 0} → ℕ → Context Unit T
no_context function = without function

-- Where the linker has put `type_helper_wrapper::<T>` and `type_helper_wrapper_context::<C, T>`.
pub record FunctionTable : Type 0 where
  pub wrapper : ℕ
  pub wrapper_context : ℕ

abbrev pub entry_point : List ℕ
entry_point = codes "_lunatic_spawn_by_index"

-- `as i32` of an index: the low 32 bits.
abbrev pub param_of : ℕ → Param
param_of index = i32 (index % 2 ^ 32)

abbrev pub link_or_0 : Option Tag → ℕ
link_or_0 none = 0
link_or_0 (some tag) = tag.id

module _ ⦃table : FunctionTable⦄ {C T : Type 0} where
  -- `let params = params_to_vec(&[Param::I32(type_helper as i32), Param::I32(func as i32)])`
  unfoldable pub entry_params : Context C T → List ℕ
  entry_params (with_context func _) =
      params_to_vec (param_of table.wrapper_context ∷ param_of func ∷ [])
  entry_params (without func) = params_to_vec (param_of table.wrapper ∷ param_of func ∷ [])

module _ ⦃h : Host⦄ ⦃r : Rmp⦄ ⦃table : FunctionTable⦄ {C T : Type 0} ⦃s : Serde C⦄ where
  -- The `match module_id`, with `id` at 0 before the call.
  unfoldable pub spawn_call : Option ℕ → Option Tag → Context C T → Run (ℕ × ℕ)
  spawn_call (some module_id) link context =
      invoke (
        process (ProcessCall.spawn (link_or_0 link) module_id entry_point (entry_params context) 0))
  spawn_call none link context =
      invoke
        (process (ProcessCall.inherit_spawn (link_or_0 link) entry_point (entry_params context) 0))

  -- The branch `result == 0`: a context is the first message.
  unfoldable pub start_child : ℕ → Context C T → Run (Process T)
  start_child id (with_context _ context) =
      Process.send (let child : Process C = Process.from id in child) context
      >> pure (Process.from id)
  start_child id (without _) = pure (Process.from id)

  -- A context that was not sent is dropped when the function returns.
  unfoldable pub drop_context : Context C T → Run Unit
  drop_context (with_context _ context) = s.drop context
  drop_context (without _) = pure tt

  unfoldable pub spawn_ :
      Option ℕ → Option Tag → Context C T → Run (Result (Process T) LunaticError)
  spawn_ module_id link context = do
    (result, id) ← spawn_call module_id link context
    if result == 0
        then (do child ← start_child id context; pure (ok child))
        else (do drop_context context; pure (err (LunaticError.from id)))

-- ===== src/Environment.antt =====
-- Environments and their registry of processes (src/environment.rs, `this_env` of src/process.rs).
pub mod Registry
pub mod Names
use rust_lib.Common.{
  ℕ, List, Result, ok, err, Option, none, some, ◌==◌, if◌then◌else◌, Bool, true, false,
}
use rust_lib.Common.Text.{codes}
use rust_lib.Config
use rust_lib.Config.{Config}
use rust_lib.Host.{Host, Run, pure, panic, ◌>>=◌, ◌>>◌, invoke, process, ProcessCall}
use rust_lib.LunaticError
use rust_lib.LunaticError.{LunaticError}
use rust_lib.Module.{Module}
use rust_lib.Process
use rust_lib.Process.{Process}
use rust_lib.ThisModule.{ThisModule}

pub data RegistryError : Type 0 where
  incorrect_semver incorrect_query not_found : RegistryError

-- `Display::fmt`, which is the derived `Debug`.
unfoldable pub fmt : RegistryError → List ℕ
fmt incorrect_semver = codes "IncorrectSemver"
fmt incorrect_query = codes "IncorrectQuery"
fmt not_found = codes "NotFound"

pub record Environment : Type 0 where
  pub id : ℕ

abbrev pub from : ℕ → Environment
from id = record { id = id }

module _ ⦃h : Host⦄ where
  unfoldable pub drop : Environment → Run Unit
  drop e = invoke (process (ProcessCall.drop_environment e.id))

  -- `process::this_env`
  unfoldable pub this_env : Run Environment
  this_env = do i ← invoke (process ProcessCall.this_env); pure (from i)

  -- `Environment::new` consumes the configuration.
  unfoldable pub new : Config → Run (Result Environment LunaticError)
  unfolding Config.drop
  new config = do
    (result, env_or_error_id) ← invoke (process (ProcessCall.create_environment config.id 0))
    Config.drop config
    pure
        (if result == 0 then ok (from env_or_error_id) else err (LunaticError.from env_or_error_id))

  unfoldable pub add_module : Environment → List ℕ → Run (Result Module LunaticError)
  add_module e bytes = do
    (result, module_or_error_id) ← invoke (process (ProcessCall.add_module e.id bytes 0))
    pure (
        if result == 0
        then ok (record { id = module_or_error_id })
        else err (LunaticError.from module_or_error_id))

  unfoldable pub add_this_module : Environment → Run (Result ThisModule LunaticError)
  add_this_module e = do
    (result, module_or_error_id) ← invoke (process (ProcessCall.add_this_module e.id 0))
    pure (
        if result == 0
        then ok (record { id = module_or_error_id })
        else err (LunaticError.from module_or_error_id))

  module _ {T : Type 0} where
    -- `register` consumes the handle; `unreachable!` panics first.
    unfoldable pub register :
        Environment → List ℕ → List ℕ → Process T → Run (Result Unit RegistryError)
    register e name version p = do
      status ← invoke (process (ProcessCall.register name version e.id p.id))
      if status == 0
          then (do Process.drop p; pure (ok tt))
          else if status == 1
          then (do Process.drop p; pure (err incorrect_semver))
          else panic

  unfoldable pub unregister : Environment → List ℕ → List ℕ → Run (Result Unit RegistryError)
  unregister e name version = do
    status ← invoke (process (ProcessCall.unregister name version e.id))
    if status == 0
        then pure (ok tt)
        else if status == 1
        then pure (err incorrect_semver)
        else if status == 2
        then pure (err not_found)
        else panic

  -- `environment::lookup`
  unfoldable pub lookup :
      {T : Type 0} → List ℕ → List ℕ → Run (Result (Option (Process T)) RegistryError)
  lookup name query = do
    (status, process_id) ← invoke (process (ProcessCall.lookup name query 0))
    if status == 0
        then pure (ok (some (Process.from process_id)))
        else if status == 1
        then pure (err incorrect_semver)
        else if status == 2
        then pure (ok none)
        else panic

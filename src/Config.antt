-- ===== src/Config.antt =====
-- Configurations of environments (src/environment.rs).
use rust_lib.Common.{ℕ, List, Result, ok, err, Option, ◌==◌, if◌then◌else◌}
use rust_lib.Host.{Host, Run, pure, ◌>>=◌, invoke, process, ProcessCall}
use rust_lib.LunaticError
use rust_lib.LunaticError.{LunaticError}
use mathlib.Core.Option

pub record Config : Type 0 where
  pub id : ℕ

module _ ⦃h : Host⦄ where
  unfoldable pub drop : Config → Run Unit
  drop c = invoke (process (ProcessCall.drop_config c.id))

  unfoldable pub new : ℕ → Option ℕ → Run Config
  new max_memory max_fuel = do
    i ← invoke (process (ProcessCall.create_config max_memory (Option.get_or max_fuel 0)))
    pure (record { id = i })

  unfoldable pub allow_namespace : Config → List ℕ → Run Unit
  allow_namespace c namespace = invoke (process (ProcessCall.allow_namespace c.id namespace))

  unfoldable pub add_plugin : Config → List ℕ → Run (Result Unit LunaticError)
  add_plugin c plugin = do
    (result, error_id) ← invoke (process (ProcessCall.add_plugin c.id plugin 0))
    pure (if result == 0 then ok tt else err (LunaticError.from error_id))

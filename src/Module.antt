-- ===== src/Module.antt =====
-- `Module`, a compiled WebAssembly module (src/environment.rs).
pub mod Links
use rust_lib.Common.{ℕ, List, Result, ok, err, ◌==◌, if◌then◌else◌}
use rust_lib.Host.{Host, Run, pure, ◌>>=◌, invoke, process, ProcessCall}
use rust_lib.LinkMailbox.{LinkMailbox, TransformMailbox}
use rust_lib.LunaticError
use rust_lib.LunaticError.{LunaticError}
use rust_lib.Param.{Param, params_to_vec}
use rust_lib.Process
use rust_lib.Process.{Process}

pub record Module : Type 0 where
  pub id : ℕ

module _ ⦃h : Host⦄ where
  unfoldable pub drop : Module → Run Unit
  drop m = invoke (process (ProcessCall.drop_module m.id))

  module _ {T : Type 0} where
    unfoldable pub spawn : Module → List ℕ → List Param → Run (Result (Process T) LunaticError)
    spawn m function params = do
      (result, process_or_error_id) ←
          invoke (process (ProcessCall.spawn 0 m.id function (params_to_vec params) 0))
      pure (
          if result == 0
          then ok (Process.from process_or_error_id)
          else err (LunaticError.from process_or_error_id))

    unfoldable pub spawn_link :
        {P M : Type 0} ⦃t : TransformMailbox P M⦄
        → Module
        → M
        → List ℕ
        → List Param
        → Run (Result (Process T × LinkMailbox P) LunaticError)
    spawn_link ⦃t⦄ m mailbox function params = do
      mailbox' ← t.catch_link_panic mailbox
      (result, process_or_error_id) ←
          invoke (process (ProcessCall.spawn 1 m.id function (params_to_vec params) 0))
      pure (
          if result == 0
          then ok (Process.from process_or_error_id, mailbox')
          else err (LunaticError.from process_or_error_id))

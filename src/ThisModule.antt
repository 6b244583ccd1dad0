-- ===== src/ThisModule.antt =====
-- `ThisModule`, the current module added to an environment (src/environment.rs).
use rust_lib.Common.{Result, ok, none, some, ℕ}
use rust_lib.Host.{Host, Run, pure, ◌>>=◌, invoke, process, ProcessCall}
use rust_lib.LinkMailbox.{LinkMailbox, TransformMailbox}
use rust_lib.LunaticError.{LunaticError}
use rust_lib.Mailbox.{Mailbox}
use rust_lib.Process.{Process}
use rust_lib.Serde.{Rmp, Serde, and_then, unit_serde}
use rust_lib.Spawn.{with_context, no_context, FunctionTable, spawn_}
use rust_lib.Tag
use rust_lib.Tag.{Tag}

pub record ThisModule : Type 0 where
  pub id : ℕ

unfoldable pub drop : ⦃h : Host⦄ → ThisModule → Run Unit
drop m = invoke (process (ProcessCall.drop_module m.id))

module _ ⦃h : Host⦄ ⦃r : Rmp⦄ ⦃table : FunctionTable⦄ {T : Type 0} where
  unfoldable pub spawn : ThisModule → ℕ → Run (Result (Process T) LunaticError)
  spawn m function = spawn_ (some m.id) none (no_context function)

  module _ {P M : Type 0} ⦃t : TransformMailbox P M⦄ where
    unfoldable pub spawn_link :
        ThisModule → M → ℕ → Run (Result (Process T × Tag × LinkMailbox P) LunaticError)
    spawn_link m mailbox function = do
      mailbox' ← t.catch_link_panic mailbox
      tag ← Tag.new
      and_then (spawn_ (some m.id) (some tag) (no_context function))
          λ proc. pure (ok (proc, tag, mailbox'))

    unfoldable pub spawn_link_unwrap :
        ThisModule → M → ℕ → Run (Result (Process T × Mailbox P) LunaticError)
    spawn_link_unwrap m mailbox function = do
      mailbox' ← t.panic_if_link_panics mailbox
      tag ← Tag.new
      and_then (spawn_ (some m.id) (some tag) (no_context function))
          λ proc. pure (ok (proc, mailbox'))

  module _ {C : Type 0} ⦃s : Serde C⦄ where
    unfoldable pub spawn_with : ThisModule → C → ℕ → Run (Result (Process T) LunaticError)
    spawn_with m context function = spawn_ (some m.id) none (with_context function context)

    module _ {P M : Type 0} ⦃t : TransformMailbox P M⦄ where
      unfoldable pub spawn_link_with :
          ThisModule → M → C → ℕ → Run (Result (Process T × Tag × LinkMailbox P) LunaticError)
      spawn_link_with m mailbox context function = do
        mailbox' ← t.catch_link_panic mailbox
        tag ← Tag.new
        and_then (spawn_ (some m.id) (some tag) (with_context function context))
            λ proc. pure (ok (proc, tag, mailbox'))

      unfoldable pub spawn_link_unwrap_with :
          ThisModule → M → C → ℕ → Run (Result (Process T × Mailbox P) LunaticError)
      spawn_link_unwrap_with m mailbox context function = do
        mailbox' ← t.panic_if_link_panics mailbox
        tag ← Tag.new
        and_then (spawn_ (some m.id) (some tag) (with_context function context))
            λ proc. pure (ok (proc, mailbox'))

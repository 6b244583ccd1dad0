-- ===== src/Spawn/Family.antt =====
-- The six public spawning functions of src/process.rs, into the current module and environment.
use rust_lib.Common.{Result, ok, none, some, ℕ}
use rust_lib.Host.{Host, Run, pure, ◌>>=◌}
use rust_lib.LinkMailbox.{LinkMailbox, TransformMailbox}
use rust_lib.LunaticError.{LunaticError}
use rust_lib.Mailbox.{Mailbox}
use rust_lib.Process.{Process}
use rust_lib.Serde.{Rmp, Serde, and_then, unit_serde}
use rust_lib.Spawn.{with_context, no_context, FunctionTable, spawn_}
use rust_lib.Tag
use rust_lib.Tag.{Tag}

module _ ⦃h : Host⦄ ⦃r : Rmp⦄ ⦃table : FunctionTable⦄ {T : Type 0} where
  unfoldable pub spawn : ℕ → Run (Result (Process T) LunaticError)
  spawn function = spawn_ none none (no_context function)

  module _ {P M : Type 0} ⦃t : TransformMailbox P M⦄ where
    unfoldable pub spawn_link : M → ℕ → Run (Result (Process T × Tag × LinkMailbox P) LunaticError)
    spawn_link mailbox function = do
      mailbox' ← t.catch_link_panic mailbox
      tag ← Tag.new
      and_then (spawn_ none (some tag) (no_context function))
          λ proc. pure (ok (proc, tag, mailbox'))

    unfoldable pub spawn_link_unwrap : M → ℕ → Run (Result (Process T × Mailbox P) LunaticError)
    spawn_link_unwrap mailbox function = do
      mailbox' ← t.panic_if_link_panics mailbox
      tag ← Tag.new
      and_then (spawn_ none (some tag) (no_context function)) λ proc. pure (ok (proc, mailbox'))

  module _ {C : Type 0} ⦃s : Serde C⦄ where
    unfoldable pub spawn_with : C → ℕ → Run (Result (Process T) LunaticError)
    spawn_with context function = spawn_ none none (with_context function context)

    module _ {P M : Type 0} ⦃t : TransformMailbox P M⦄ where
      unfoldable pub spawn_link_with :
          M → C → ℕ → Run (Result (Process T × Tag × LinkMailbox P) LunaticError)
      spawn_link_with mailbox context function = do
        mailbox' ← t.catch_link_panic mailbox
        tag ← Tag.new
        and_then (spawn_ none (some tag) (with_context function context))
            λ proc. pure (ok (proc, tag, mailbox'))

      unfoldable pub spawn_link_unwrap_with :
          M → C → ℕ → Run (Result (Process T × Mailbox P) LunaticError)
      spawn_link_unwrap_with mailbox context function = do
        mailbox' ← t.panic_if_link_panics mailbox
        tag ← Tag.new
        and_then (spawn_ none (some tag) (with_context function context))
            λ proc. pure (ok (proc, mailbox'))

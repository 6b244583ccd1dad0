-- ===== src/Programs/Links.antt =====
-- Programs that wait for their linked children to die: examples/link.rs and examples/environment.rs.
pub mod Child
pub mod Calls
use rust_lib.Common.{ℕ, some}
use rust_lib.Common.Text.{codes}
use rust_lib.Config
use rust_lib.Config.{Config}
use rust_lib.Environment
use rust_lib.Environment.{add_this_module}
use rust_lib.Host.{Host, Run, pure, panic, ◌>>=◌, ◌>>◌}
use rust_lib.LinkMailbox
use rust_lib.LinkMailbox.{
  LinkMailbox, TransformMailbox, is_signal, mailbox_transform, link_mailbox_transform,
}
use rust_lib.Mailbox.{Mailbox}
use rust_lib.Process
use rust_lib.Process.{Process}
use rust_lib.Programs.{assert}
use rust_lib.Serde.{Rmp, unit_serde, unwrap}
use rust_lib.Spawn.{FunctionTable}
use rust_lib.Spawn.Family.{spawn_link}
use rust_lib.ThisModule
use rust_lib.ThisModule.{ThisModule}

-- The child of examples/link.rs panics.
unfoldable pub link_child : ⦃h : Host⦄ → Mailbox Unit → Run Unit
link_child _ = panic

module _ ⦃h : Host⦄ ⦃r : Rmp⦄ ⦃table : FunctionTable⦄ where
  -- `main` of examples/link.rs, where `child` has the index `child`.
  unfoldable pub link_main : ℕ → Mailbox Unit → Run Unit
  link_main child inbox = do
    (_child, _tag, inbox') ← unwrap (spawn_link {T = Unit {0}} {P = Unit {0}} inbox child)
    received ← LinkMailbox.receive {T = Unit {0}} inbox'
    assert (is_signal received)
    Process.drop _child

  -- A child of examples/environment.rs, in the new environment, which is to fail.
  unfoldable pub expect_signal :
      {M : Type 0} ⦃t : TransformMailbox Unit M⦄ → ThisModule → M → ℕ → Run (LinkMailbox Unit)
  expect_signal module_ m function = do
    (child, _, m') ← unwrap (ThisModule.spawn_link {T = Unit {0}} {P = Unit {0}} module_ m function)
    Process.drop child
    received ← LinkMailbox.receive {T = Unit {0}} m'
    assert (is_signal received)
    pure m'

  -- `main` of examples/environment.rs, with the indexes of the three closures.
  unfoldable pub environment_main : ℕ → ℕ → ℕ → Mailbox Unit → Run Unit
  environment_main prints allocates loops m = do
    config ← Config.new 1_200_000 (some 1)
    Config.allow_namespace config (codes "wasi_snapshot_preview1::environ")
    env ← unwrap (Environment.new config)
    module_ ← unwrap (add_this_module env)
    m₁ ← expect_signal module_ m prints
    m₂ ← expect_signal module_ m₁ allocates
    _ ← expect_signal module_ m₂ loops
    ThisModule.drop module_
    Environment.drop env

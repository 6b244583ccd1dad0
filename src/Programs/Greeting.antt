-- ===== src/Programs/Greeting.antt =====
-- Programs whose child tells them that it has finished: examples/spawn.rs and examples/messaging.rs.
pub mod Told
use rust_lib.Common.{ℕ, List, ◌++◌}
use rust_lib.Common.Text.{codes}
use rust_lib.Host.{Host, Run, pure, ◌>>=◌, ◌>>◌}
use rust_lib.LinkMailbox.{mailbox_transform}
use rust_lib.Mailbox
use rust_lib.Mailbox.{Mailbox}
use rust_lib.Process
use rust_lib.Process.{Process, process_serde}
use rust_lib.Programs.{Console}
use rust_lib.Serde.{Rmp, Serde, unit_serde, unwrap}
use rust_lib.Spawn.{FunctionTable}
use rust_lib.Spawn.Family.{spawn_with}

module _ ⦃h : Host⦄ ⦃r : Rmp⦄ ⦃io : Console⦄ where
  -- The closure of examples/spawn.rs.
  unfoldable pub spawn_child : Process Unit → Mailbox Unit → Run Unit
  spawn_child parent _ = do
    io.println (codes "Hello world from a process!")
    Process.send parent tt
    Process.drop parent

  -- `String`, as `serde` treats it, is a parameter: the bytes of the text.
  module _ ⦃text : Serde (List ℕ)⦄ where
    -- The closure of examples/messaging.rs. The text and then the handle are dropped.
    unfoldable pub messaging_child : Process Unit → Mailbox (List ℕ) → Run Unit
    messaging_child parent inbox = do
      message ← unwrap (Mailbox.receive inbox)
      io.println (codes "Hello " ++ message)
      Process.send parent tt
      text.drop message
      Process.drop parent

module _ ⦃h : Host⦄ ⦃r : Rmp⦄ ⦃table : FunctionTable⦄ where
  -- The start of either `main`: a child that is given a handle of this process.
  unfoldable pub start : {T : Type 0} → ℕ → Mailbox Unit → Run (Process T)
  start closure m = do this ← Process.this {T = Unit {0}} m; unwrap (spawn_with this closure)

  -- `main` of examples/spawn.rs, where the closure has the index `closure`.
  unfoldable pub spawn_main : ℕ → Mailbox Unit → Run Unit
  spawn_main closure m = do
    child ← start {T = Unit {0}} closure m
    Process.drop child
    _ignore ← Mailbox.receive m
    pure tt

  module _ ⦃text : Serde (List ℕ)⦄ where
    -- `main` of examples/messaging.rs.
    unfoldable pub messaging_main : ℕ → Mailbox Unit → Run Unit
    messaging_main closure m = do
      proc ← start {T = List ℕ} closure m
      Process.send proc (codes "World!")
      _ignore ← Mailbox.receive m
      Process.drop proc

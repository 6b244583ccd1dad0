-- ===== src/Spawn/Entry.antt =====
-- Where a spawned process begins (src/process.rs): the exported `_lunatic_spawn_by_index`.
use rust_lib.Common.{ℕ}
use rust_lib.Host.{Host, Run, ◌>>=◌}
use rust_lib.Mailbox.{Mailbox, mailbox, receive}
use rust_lib.Serde.{Rmp, Serde, unwrap}

-- What the WebAssembly table holds at an index, at the type that a `transmute` gives it.
pub record Table ⦃h : Host⦄ (F : Type 0) : Type 0 where
  pub at : ℕ → F

module _ ⦃h : Host⦄ where
  unfoldable pub type_helper_wrapper :
      (T : Type 0) ⦃f : Table (Mailbox T → Run Unit)⦄ → ℕ → Run Unit
  type_helper_wrapper T ⦃f⦄ function = f.at function mailbox

  unfoldable pub type_helper_wrapper_context :
      (C T : Type 0) ⦃r : Rmp⦄ ⦃s : Serde C⦄ ⦃f : Table (C → Mailbox T → Run Unit)⦄ → ℕ → Run Unit
  type_helper_wrapper_context C T ⦃f⦄ function = do
    context ← unwrap (receive (let m : Mailbox C = mailbox in m))
    f.at function context mailbox

  -- `_lunatic_spawn_by_index`
  unfoldable pub lunatic_spawn_by_index : ⦃f : Table (ℕ → Run Unit)⦄ → ℕ → ℕ → Run Unit
  lunatic_spawn_by_index ⦃f⦄ type_helper function = f.at type_helper function

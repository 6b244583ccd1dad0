-- ===== src/Delivery/Contexts.antt =====
-- The context of a child, from `spawn_` to the child's function (src/process.rs).
use rust_lib.Common.{ℕ, ◌≡◌, none}
use rust_lib.Delivery.Codec.{Codec}
use rust_lib.Delivery.Runtime.{Sight, Lawful}
use rust_lib.Host.{Host, World, Run, after}
use rust_lib.Mailbox.{Mailbox, mailbox}
use rust_lib.Mailbox.Branches.{receive_call}
use rust_lib.MessageRw
use rust_lib.Serde.{Rmp, Serde}
use rust_lib.Spawn.{Context, with_context, FunctionTable}
use rust_lib.Spawn.Entry.{Table, lunatic_spawn_by_index}
use rust_lib.Tag.{Tag}

module _ ⦃h : Host⦄ ⦃r : Rmp⦄ ⦃table : FunctionTable⦄ {sight : Sight} (law : Lawful sight)
    {C A : Type 0} (T : Type 0) ⦃s : Serde C⦄ (k : Codec sight s A) where
  abbrev begin : ℕ → C → Context C T
  begin func context = with_context func context

  abbrev first : World → World
  first v = after (receive_call none none) v

  -- The child's function is run on a context that stands for `a`.
  abbrev pub Runs :
      ⦃helpers : Table (ℕ → Run Unit)⦄ ⦃taking : Table (C → Mailbox T → Run Unit)⦄
      → ℕ
      → A
      → World
      → Type 0
  Runs ⦃helpers⦄ ⦃taking⦄ func a v =
      (m : C) × (v' : World) × k.Means v'.host m a
      × (lunatic_spawn_by_index table.wrapper_context func v ≡ taking.at func m mailbox v')

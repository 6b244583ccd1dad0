-- ===== src/Programs/Greeting/Told.antt =====
-- What the child of examples/spawn.rs tells the process that spawned it.
use rust_lib.Common.{ℕ, ◌≡◌, List, ◌∷◌, Result, ok, err, none, some}
use rust_lib.Delivery.Codec.{Format, Codec, envelope}
use rust_lib.Delivery.Handles.{process_codec}
use rust_lib.Delivery.Runtime.{Letter, Sight, Lawful, Keeps}
use rust_lib.Host.{Host, World, Run, Returns, pure, panic, after, answer_to, process, ProcessCall}
use rust_lib.LunaticError.{LunaticError}
use rust_lib.Mailbox.{Mailbox}
use rust_lib.Process
use rust_lib.Process.{Process, process_serde}
use rust_lib.Programs.{Console}
use rust_lib.Serde.{Rmp, unit_serde}
use rust_lib.Spawn.{Context, with_context, FunctionTable}
use rust_lib.Spawn.Calls.{spawn_world}
use rust_lib.Spawn.Entry.{Table}

-- Printing sends nothing and gives no handle away.
pub record Prints ⦃h : Host⦄ (sight : Sight) (io : Console) : Type 0 where
  pub prints :
      (text : List ℕ) (w : World)
      → Returns
          (λ _ w'. (sight.view w'.host ≡ sight.view w.host) × Keeps sight w.host w'.host)
          (io.println text w)

module _ ⦃h : Host⦄ ⦃r : Rmp⦄ {sight : Sight} (law : Lawful sight) (format : Format sight r)
    ⦃io : Console⦄ (quiet : Prints sight io) (unit : Codec sight unit_serde Unit)
    (plain : ((st : h.State) → unit.Means st tt tt) × ((id : ℕ) → unit.Apart tt id)) where
  abbrev Told : ℕ → World → World → Type 0
  Told pid w w' =
      (sight.view w'.host).posted ≡ (pid, envelope unit 0 tt) ∷ (sight.view w.host).posted

  abbrev handles : Codec sight (process_serde {T = Unit {0}}) ℕ
  handles = process_codec law format Unit

  -- A process that was told as the last thing that the run has posted.
  abbrev pub LastTold : ℕ → World → Type 0
  LastTold pid w' =
      (others : List (ℕ × Letter)) × ((sight.view w'.host).posted
        ≡ (pid, envelope unit 0 tt) ∷ others)

  -- The world in which the child is asked for, and the context that it is given.
  abbrev named : World → World
  named w = after (process ProcessCall.this) w

  abbrev given : ℕ → World → Context (Process Unit) Unit
  given closure w = with_context closure (Process.from (answer_to (process ProcessCall.this) w))

  module _ ⦃table : FunctionTable⦄ ⦃helpers : Table (ℕ → Run Unit)⦄
      ⦃functions : Table (Mailbox Unit → Run Unit)⦄
      ⦃taking : Table (Process Unit → Mailbox Unit → Run Unit)⦄ where
    -- One letter was posted, with a handle of this process, to the process that the child's handle is
    -- of when the child was started.
    abbrev pub Asked : ℕ → World → Process Unit → World → Type 0
    Asked closure w child w' =
        (pid : ℕ) × (sight.process_of (spawn_world none none (given closure w) (named w)).host
            child.id
          ≡ some pid)
        × ((sight.view w'.host).posted
            ≡ (pid, envelope handles 0 (sight.self w.host)) ∷ (sight.view w.host).posted)

    abbrev unwrapped : Result (Process Unit) LunaticError → Run (Process Unit)
    unwrapped child = elim child as (λ _. Run (Process Unit)) [
      | ok proc ↦ pure proc
      | err e ↦ panic
    ]

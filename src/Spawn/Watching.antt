-- ===== src/Spawn/Watching.antt =====
-- A process that links children and is told of those that fail: `spawn_link` (src/process.rs) with
-- `LinkMailbox::receive` (src/mailbox.rs), as tests/process_test.rs uses them.
pub mod Signals
use mathlib.Core.List.{map, map-append}
use rust_lib.Common.{
  ℕ, zero, suc, ◌+◌, ◌%◌, ◌^◌, ◌<◌, ◌≡◌, ◌∙◌, ap, ap₂, sym, subst, refl, List, [], ◌∷◌, ◌++◌,
  length, length-append, get_elem?, get_elem?-some, get_elem?-map, Option, none, some, Result, ok,
  err, ◌==◌, if◌then◌else◌, true, false, arith,
}
use rust_lib.Host.{
  Host, World, Run, Returns, Returns-bind, Returns-weaken, pure, panic, ◌>>=◌, ◌>>◌, after,
  answer_to, Call, process, message, ProcessCall, MessageCall,
}
use rust_lib.LinkMailbox
use rust_lib.LinkMailbox.{LinkMailbox, link_mailbox, Message, signalled, link_mailbox_transform}
use rust_lib.LunaticError
use rust_lib.LunaticError.{LunaticError}
use rust_lib.Mailbox.{signal, timed_out}
use rust_lib.Process
use rust_lib.Process.{Process}
use rust_lib.Serde.{Rmp, Serde, unit_serde, unwrap, and_then}
use rust_lib.Spawn.{
  FunctionTable, no_context, entry_params, entry_point, spawn_call, start_child, drop_context,
  spawn_,
}
use rust_lib.Spawn.Family.{spawn_link}
use rust_lib.Tag
use rust_lib.Tag.{Tag}
use rust_lib.Timeout.{timeout_ms}

-- What a runtime is asked for: the links of the process, oldest first, each the tag with the handle of
-- the child; and which of them, by their places, fail, in the order in which the process is told. A
-- child that is asked for is started and linked. A receive while a failure waits answers a signal, and
-- the tag of the message is that of the link.
pub record Links ⦃h : Host⦄ : Type 0 where
  pub linked : h.State → List (ℕ × ℕ)
  pub failures : h.State → List ℕ
  pub links :
      (tag : ℕ) (function params : List ℕ) (s : h.State)
      → let c = process (ProcessCall.inherit_spawn tag function params 0) in
        ((h.answer c s).0.0 ≡ 0)
        × (linked (h.answer c s).1 ≡ linked s ++ (tag, (h.answer c s).0.1) ∷ [])
        × (failures (h.answer c s).1 ≡ failures s)
  pub tells :
      (i : ℕ) (later : List ℕ) (link : ℕ × ℕ) (s : h.State)
      → failures s ≡ i ∷ later
      → get_elem? (linked s) i ≡ some link
      → let c = message (MessageCall.receive 0 0) in
        let s₁ = (h.answer c s).1 in
        let g = message MessageCall.get_tag in
        ((h.answer c s).0 ≡ signal)
        × ((h.answer g s₁).0 ≡ link.0)
        × (linked (h.answer g s₁).1 ≡ linked s)
        × (failures (h.answer g s₁).1 ≡ later)

-- What a process does, and what it gets.
pub data Action : Type 0 where
  link : ℕ → Action
  hear : Action

pub data Told (T P D : Type 0) : Type 0 where
  child : Process T → Tag → Told T P D
  heard : Message P D → Told T P D

-- Whether there is a failure of a link for each time that the process hears, when `n` links are made.
abbrev pub Enough : ℕ → List ℕ → List Action → Type 0
Enough n is [] = Unit
Enough n is (link function ∷ actions) = Enough (suc n) is actions
Enough n [] (hear ∷ actions) = ⊥
Enough n (i ∷ is) (hear ∷ actions) = (i < n) × Enough n is actions

-- Each child has a tag above those before it, the first above `low`; what is heard is the signal with
-- the tag that came with the child that fails next. The children so far are `known`, oldest first.
abbrev pub Follows :
    {T P D : Type 0}
    → ℕ
    → List (Process T × Tag)
    → List ℕ
    → List Action
    → List (Told T P D)
    → Type 0
Follows low known is [] told = told ≡ []
Follows low known is (link function ∷ actions) [] = ⊥
Follows low known is (link function ∷ actions) (heard m ∷ told) = ⊥
Follows low known is (link function ∷ actions) (child p tag ∷ told) =
    (low < tag.id) × Follows tag.id (known ++ (p, tag) ∷ []) is actions told
Follows low known is (hear ∷ actions) [] = ⊥
Follows low known is (hear ∷ actions) (child p tag ∷ told) = ⊥
Follows low known [] (hear ∷ actions) (heard m ∷ told) = ⊥
Follows {T} low known (i ∷ is) (hear ∷ actions) (heard m ∷ told) =
    ((c : Process T × Tag) × (get_elem? known i ≡ some c) × (m ≡ signalled c.1))
    × Follows low known is actions told

module _ ⦃h : Host⦄ ⦃r : Rmp⦄ ⦃table : FunctionTable⦄ (T : Type 0) {P : Type 0} ⦃s : Serde P⦄ where
  unfoldable pub watch : LinkMailbox P → List Action → Run (List (Told T P r.DecodeError))
  watch mb [] = pure []
  watch mb (link function ∷ actions) = do
    (p, tag, mb') ← unwrap (spawn_link {T = T} mb function)
    told ← watch mb' actions
    pure (child p tag ∷ told)
  watch mb (hear ∷ actions) = do
    m ← LinkMailbox.receive mb
    told ← watch mb actions
    pure (heard m ∷ told)

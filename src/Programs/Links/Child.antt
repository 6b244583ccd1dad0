-- ===== src/Programs/Links/Child.antt =====
-- What a child of examples/environment.rs asks of the runtime, where it fails.
use rust_lib.Common.{
  ◌∙◌, ℕ, ◌+◌, ◌%◌, ◌^◌, ◌<◌, ◌≡◌, inl, inr, ap, List, ok, err, none, ◌==◌, if◌then◌else◌, arith,
}
use rust_lib.Host.{
  >>=-returned, Host, World, Run, returned, pure, ◌>>=◌, ◌>>◌, after, answer_to, Call, message,
  process, MessageCall, ProcessCall,
}
use rust_lib.LinkMailbox
use rust_lib.LinkMailbox.{
  LinkMailbox, link_mailbox, is_signal, signalled, mailbox_transform, link_mailbox_transform,
}
use rust_lib.LinkMailbox.Laws.{receive__agrees}
use rust_lib.LunaticError
use rust_lib.LunaticError.{LunaticError}
use rust_lib.Mailbox.{mailbox, signal}
use rust_lib.Process
use rust_lib.Process.{Process}
use rust_lib.Programs.{assert}
use rust_lib.Programs.Links.{expect_signal}
use rust_lib.Serde.{Rmp, unit_serde, unwrap, and_then}
use rust_lib.Spawn.{
  FunctionTable, no_context, entry_params, entry_point, spawn_call, start_child, drop_context,
  spawn_,
}
use rust_lib.Tag
use rust_lib.Tag.{Tag}
use rust_lib.ThisModule
use rust_lib.ThisModule.{ThisModule}
use rust_lib.Timeout.{timeout_ms}

-- A runtime in which every child of a new environment is started and fails: the calls that make the
-- environment, its module and the children have status 0, and each receive answers a signal. The
-- numbers of what is made are its own, and may differ from call to call.
pub record Failing ⦃h : Host⦄ : Type 0 where
  pub creates :
      (config : ℕ) (s : h.State)
      → (h.answer (process (ProcessCall.create_environment config 0)) s).0.0 ≡ 0
  pub adds :
      (env : ℕ) (s : h.State) → (h.answer (process (ProcessCall.add_this_module env 0)) s).0.0 ≡ 0
  pub spawns :
      (tag module_id : ℕ) (function params : List ℕ) (s : h.State)
      → (h.answer (process (ProcessCall.spawn tag module_id function params 0)) s).0.0 ≡ 0
  pub fails : (s : h.State) → (h.answer (message (MessageCall.receive 0 0)) s).0 ≡ signal

abbrev pub here : ℕ → ThisModule
here module_id = record { id = module_id }

module _ ⦃h : Host⦄ ⦃table : FunctionTable⦄ where
  abbrev spawning : ℕ → ℕ → ℕ → Call
  spawning n module_id function = process (
      ProcessCall.spawn n module_id entry_point (entry_params (no_context {T = Unit {0}} function))
        0)

  abbrev told : World → World
  told w = after (message MessageCall.get_tag) (after (message (MessageCall.receive 0 0)) w)

  -- The world after a child was started under the tag `n`, its handle was dropped, and its signal and
  -- the tag of that came.
  abbrev pub failed_under : ℕ → ℕ → ℕ → World → World
  failed_under n module_id function w =
      let c = spawning n module_id function in
      let v : World = record w { counter = n } in
      told (after (process (ProcessCall.drop_process (answer_to c v).1)) (after c v))

  abbrev pub failed : ℕ → ℕ → World → World
  failed module_id function w = failed_under (w.counter + 1) module_id function w

module _ ⦃h : Host⦄ ⦃r : Rmp⦄ ⦃table : FunctionTable⦄ (law : Failing) (module_id : ℕ) where
  -- What `spawn_link` does with the runtime's answer, under the tag `n`.
  finish : ℕ → ℕ → ℕ × ℕ → Run (Process (Unit {0}) × Tag × LinkMailbox (Unit {0}))
  finish n function a = unwrap (
      and_then
        (if a.0 == 0
          then (do started ← start_child a.1 (no_context function); pure (ok started))
          else (do
            drop_context (no_context {T = Unit {0}} function)
            pure (err (LunaticError.from a.1))))
        λ proc. pure (ok (proc, Tag.from n, link_mailbox)))

  linked :
      (function : ℕ) (w : World)
      → let n = (w.counter + 1) % 2 ^ 64 in
        let c = spawning n module_id function in
        let v : World = record w { counter = n } in
        unwrap
          (ThisModule.spawn_link {T = Unit {0}} {P = Unit {0}} {M = LinkMailbox (Unit {0})}
            (here module_id)
            link_mailbox
            function)
          w
        ≡ (returned (Process.from (answer_to c v).1, Tag.from n, link_mailbox), after c v)
  unfolding finish ThisModule.spawn_link spawn_ spawn_call start_child Tag.new
  linked function w =
      let n = (w.counter + 1) % 2 ^ 64 in
      let c = spawning n module_id function in
      let v : World = record w { counter = n } in
      ap (λ status. finish n function (status, (answer_to c v).1) (after c v))
        (law.spawns n module_id entry_point (entry_params (no_context {T = Unit {0}} function))
          w.host)

  heard :
      (w : World)
      → LinkMailbox.receive {T = Unit {0}} link_mailbox w ≡ (
        returned (
            signalled (
              Tag.from (
                answer_to
                  (message MessageCall.get_tag)
                  (after (message (MessageCall.receive 0 0)) w)))),
        told w,
      )
  unfolding LinkMailbox.receive timeout_ms
  heard w = elim (receive__agrees {T = Unit {0}} link_mailbox mailbox none none w) [
    | inl (_, e, _) ↦ e
    | inr (other_answer, _) ↦ absurd (other_answer (law.fails w.host))
  ]

  -- A child is started, and fails.
  pub expect_signal-failed :
      (function : ℕ) (w : World)
      → w.counter + 1 < 2 ^ 64
      → expect_signal
          (here module_id)
          (let m : LinkMailbox (Unit {0}) = link_mailbox in m)
          function
          w
        ≡ (returned link_mailbox, failed module_id function w)
  unfolding expect_signal Process.drop is_signal
  expect_signal-failed function w small =
      let n = (w.counter + 1) % 2 ^ 64 in
      let next : n ≡ w.counter + 1 = omega arith in
      let c = spawning n module_id function in
      let v : World = record w { counter = n } in
      let w₁ = after (process (ProcessCall.drop_process (answer_to c v).1)) (after c v) in
      >>=-returned
        (unwrap (
          ThisModule.spawn_link {T = Unit {0}} {P = Unit {0}} {M = LinkMailbox (Unit {0})}
            (here module_id) link_mailbox function))
        (λ (child, _, m').
          Process.drop child
          >> (LinkMailbox.receive {T = Unit {0}} m' >>= λ received.
              assert (is_signal received) >> pure m'))
        (linked function w)
      ∙ >>=-returned (LinkMailbox.receive {T = Unit {0}} link_mailbox)
          (λ received. assert (is_signal received) >> pure link_mailbox) (heard w₁)
      ∙ ap (λ k. (returned link_mailbox, failed_under k module_id function w)) next

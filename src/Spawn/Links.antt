-- ===== src/Spawn/Links.antt =====
-- Links, their tags and the trap mode, for `spawn_link` and `spawn_link_unwrap` (src/process.rs).
use rust_lib.Common.{
  ℕ, ◌+◌, ◌%◌, ◌^◌, ◌<◌, ◌≡◌, ◌≢◌, ◌⊎◌, inl, inr, subst, Result, ok, err, ◌==◌, if◌then◌else◌, true,
  false, arith, Bool-cases, ==→eq, ==-false→ne,
}
use rust_lib.Host.{
  Host, World, Run, returned, pure, ◌>>=◌, ◌>>◌, after, answer_to, Call, ProcessCall, process,
}
use rust_lib.LinkMailbox.{LinkMailbox, link_mailbox, mailbox_transform, link_mailbox_transform}
use rust_lib.LunaticError
use rust_lib.LunaticError.{LunaticError}
use rust_lib.Mailbox.{Mailbox}
use rust_lib.Process
use rust_lib.Process.{Process}
use rust_lib.Serde.{Rmp, unit_serde, and_then}
use rust_lib.Spawn.{
  FunctionTable, no_context, entry_params, entry_point, spawn_call, start_child, drop_context,
  spawn_,
}
use rust_lib.Spawn.Family.{spawn_link, spawn_link_unwrap}
use rust_lib.Tag
use rust_lib.Tag.{Tag}
use rust_lib.Trace.{traps}

-- The world in which the child of `spawn_link` is asked for: link panics are caught from then on,
-- and the tag `n` was made.
abbrev pub caught : ⦃h : Host⦄ → ℕ → World → World
caught n w = record (after (process (ProcessCall.die_when_link_dies 0)) w) { counter = n }

abbrev pub link_call : ⦃table : FunctionTable⦄ → Type 0 → ℕ → ℕ → Call
link_call T tag function =
    process
      (ProcessCall.inherit_spawn tag entry_point (entry_params (no_context {T = T} function)) 0)

module _ ⦃h : Host⦄ ⦃r : Rmp⦄ ⦃table : FunctionTable⦄ (T : Type 0) {P : Type 0} where
  -- The two ends of `spawn_link` under the link tag `n`, by the status that the runtime answers.
  abbrev pub LinkedUnder : ℕ → Mailbox P → ℕ → World → Type 0
  LinkedUnder n m function w =
      let c = link_call T n function in
      let status = (answer_to c (caught n w)).0 in
      let id = (answer_to c (caught n w)).1 in
      (status ≡ 0)
        × (spawn_link {T = T} {P = P} m function w
            ≡ (returned (ok (Process.from id, Tag.from n, link_mailbox)), after c (caught n w)))
      ⊎ (status ≢ 0)
        × (spawn_link {T = T} {P = P} m function w
            ≡ (returned (err (LunaticError.from id)), after c (caught n w)))

  -- What `spawn_link` does with the runtime's answer.
  finish : ℕ → ℕ → ℕ × ℕ → Run (Result (Process T × Tag × LinkMailbox P) LunaticError)
  finish n function a =
      and_then
        (if a.0 == 0
          then (do child ← start_child a.1 (no_context function); pure (ok child))
          else (do drop_context (no_context {T = T} function); pure (err (LunaticError.from a.1))))
        λ proc. pure (ok (proc, Tag.from n, link_mailbox))

  finished :
      (n function : ℕ) (a : ℕ × ℕ) (w : World)
      → (a.0 ≡ 0)
          × (finish n function a w
              ≡ (returned (ok (Process.from a.1, Tag.from n, link_mailbox)), w))
        ⊎ (a.0 ≢ 0) × (finish n function a w ≡ (returned (err (LunaticError.from a.1)), w))
  unfolding finish start_child drop_context
  finished n function (status, id) w = elim (Bool-cases (status == 0)) [
    | inl zero_status ↦ inl (==→eq status 0 zero_status, rw zero_status)
    | inr failed ↦ inr (==-false→ne status 0 failed, rw failed)
  ]

  -- `spawn_link` turns link panics into signals and asks for a child that is linked under a tag
  -- not made before, as long as fewer than 2 ^ 63 tags were made. At status 0 it returns the child,
  -- that same tag and a link mailbox; at any other status it returns the number as the error.
  pub spawn_link_lem :
      (m : Mailbox P) (function : ℕ) (w : World)
      → w.counter + 1 < 2 ^ 63
      → LinkedUnder (w.counter + 1) m function w
  unfolding spawn_link spawn_ spawn_call finish Tag.new
  spawn_link_lem m function w small =
      let n = (w.counter + 1) % 2 ^ 64 in
      let c = link_call T n function in
      let next : (w.counter + 1) % 2 ^ 64 ≡ w.counter + 1 = omega arith in
      subst (λ k. LinkedUnder k m function w) next
        (finished n function (answer_to c (caught n w)) (after c (caught n w)))

  -- The process dies with its links after `spawn_link_unwrap` and does not after `spawn_link`,
  -- however the call ends; where the mailbox is already of the kind that is returned, the mode is
  -- left as it was.
  pub traps_follow :
      (m : Mailbox P) (l : LinkMailbox P) (function : ℕ) (w : World)
      → (traps (spawn_link {T = T} {P = P} m function w).1.calls ≡ false)
        × (traps (spawn_link {T = T} {P = P} l function w).1.calls ≡ traps w.calls)
        × (traps (spawn_link_unwrap {T = T} {P = P} l function w).1.calls ≡ true)
        × (traps (spawn_link_unwrap {T = T} {P = P} m function w).1.calls ≡ traps w.calls)
  unfolding spawn_link spawn_link_unwrap spawn_ spawn_call start_child drop_context Tag.new
  traps_follow m l function w = (ground arith, ground arith, ground arith, ground arith)

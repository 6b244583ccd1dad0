-- ===== src/Spawn/Child.antt =====
-- What a spawned process does first (src/process.rs), where its function table is the parent's.
use rust_lib.Common.{ℕ, ◌≡◌, ◌≢◌, ◌∙◌, ap, none, ok, err, inl, inr}
use rust_lib.Host.{Host, World, Run, returned, panic, pure, >>=-returned, after, answer_to}
use rust_lib.Mailbox.{
  Mailbox, mailbox, Received, receive, receive_, decode, deserialization_failed, signal, timed_out,
}
use rust_lib.Mailbox.Branches.{receive_call, receive__branches}
use rust_lib.MessageRw
use rust_lib.Serde.{Rmp, Serde, unwrap}
use rust_lib.Spawn.{FunctionTable}
use rust_lib.Spawn.Entry.{
  Table, type_helper_wrapper, type_helper_wrapper_context, lunatic_spawn_by_index,
}

module _ ⦃h : Host⦄ ⦃r : Rmp⦄ ⦃table : FunctionTable⦄ (C T : Type 0) ⦃s : Serde C⦄
    ⦃helpers : Table (ℕ → Run Unit)⦄ ⦃functions : Table (Mailbox T → Run Unit)⦄
    ⦃taking : Table (C → Mailbox T → Run Unit)⦄ where
  received :
      (context : C) (w w' : World)
      → answer_to (receive_call none none) w ≢ signal
      → answer_to (receive_call none none) w ≢ timed_out
      → s.deserialize MessageRw.read (after (receive_call none none) w)
        ≡ (returned (ok context), w')
      → receive (let m : Mailbox C = mailbox in m) w ≡ (returned (ok context), w')
  unfolding receive receive_ decode
  received context w w' message_comes in_time decoded =
      elim (receive__branches (let m : Mailbox C = mailbox in m) none none w) [
        | inl e ↦ absurd (message_comes e.0)
        | inr rest ↦ elim rest [
          | inl e ↦ absurd (in_time e.0)
          | inr e ↦
              e.2
              ∙ >>=-returned (s.deserialize MessageRw.read)
                  (λ result. elim result as (λ _. Run (Received C)) [
                    | ok context' ↦ pure (ok context')
                    | err d ↦ pure (err (deserialization_failed d))
                  ])
                  decoded
        ]
      ]

  -- Where the table holds the two type helpers at their indexes, `_lunatic_spawn_by_index` on the
  -- first of them runs the function of the given index on a mailbox; and on the second, where the
  -- first message is neither a signal nor a time-out and decodes to a context, it runs the function
  -- on that context and a mailbox, in the world after that message.
  pub child-runs :
      (func : ℕ) (context : C) (w w' : World)
      → helpers.at table.wrapper ≡ type_helper_wrapper T
      → helpers.at table.wrapper_context ≡ type_helper_wrapper_context C T
      → answer_to (receive_call none none) w ≢ signal
      → answer_to (receive_call none none) w ≢ timed_out
      → s.deserialize MessageRw.read (after (receive_call none none) w)
        ≡ (returned (ok context), w')
      → (lunatic_spawn_by_index table.wrapper func w ≡ functions.at func mailbox w)
        × (lunatic_spawn_by_index table.wrapper_context func w ≡ taking.at func context mailbox w')
  unfolding lunatic_spawn_by_index type_helper_wrapper type_helper_wrapper_context
  child-runs func context w w' plain taken message_comes in_time decoded =
      let box : Mailbox C = mailbox in
      let first : unwrap (receive box) w ≡ (returned context, w') =
        >>=-returned (receive box)
          (λ result. elim result as (λ _. Run C) [ ok context' ↦ pure context' | err d ↦ panic ])
          (received context w w' message_comes in_time decoded) in
      (
        ap (λ (g : ℕ → Run Unit). g func w) plain,
        ap (λ (g : ℕ → Run Unit). g func w) taken
            ∙ >>=-returned (unwrap (receive box)) (λ context'. taking.at func context' mailbox)
                first,
      )

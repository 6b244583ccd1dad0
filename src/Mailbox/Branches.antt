-- ===== src/Mailbox/Branches.antt =====
-- Every way in which the receiving functions of a mailbox can end (src/mailbox.rs).
use rust_lib.Common.{ℕ, ◌%◌, ◌^◌, ◌≡◌, ◌≢◌, ◌⊎◌, Option, err, arith}
use rust_lib.Host.{Host, World, returned, panicked, Call, answer_to, after, message, MessageCall}
use rust_lib.Serde.{Rmp, Serde}
use rust_lib.Mailbox.{
  Mailbox, timeout, signal, timed_out, tag_or_0, decode, receive_, receive, receive_timeout,
}
use rust_lib.Timeout.{Duration, as_millis, timeout_ms, timeout_ms_zero}

abbrev pub receive_call : Option ℕ → Option Duration → Call
receive_call tag limit = message (MessageCall.receive (tag_or_0 tag) (timeout_ms limit))

module _ ⦃h : Host⦄ ⦃r : Rmp⦄ {T : Type 0} ⦃s : Serde T⦄ where
  -- The ends of `Mailbox::receive_` by what the runtime answers to the one `receive`: a signal
  -- panics, a time-out is the error and reads nothing, and any other answer decodes the message.
  pub receive__branches :
      (m : Mailbox T) (tag : Option ℕ) (limit : Option Duration) (w : World)
      → let c = receive_call tag limit in
        let kind = answer_to c w in
        let w' = after c w in
        (kind ≡ signal) × (receive_ m tag limit w ≡ (panicked, w'))
        ⊎ (kind ≡ timed_out) × (receive_ m tag limit w ≡ (returned (err timeout), w'))
        ⊎ (kind ≢ signal) × (kind ≢ timed_out) × (receive_ m tag limit w ≡ decode w')
  unfolding receive_
  receive__branches m tag limit w = ground arith

  -- With a time limit that is a whole multiple of 2 ^ 32 milliseconds, and not below one millisecond,
  -- `receive_timeout` is `receive`, which waits without a limit.
  pub receive_timeout_endless :
      (m : Mailbox T) (limit : Duration) (w : World)
      → as_millis limit ≢ 0
      → as_millis limit % 2 ^ 32 ≡ 0
      → receive_timeout m limit w ≡ receive m w
  unfolding receive_timeout receive receive_ timeout_ms
  receive_timeout_endless m limit w more whole =
      rw ((timeout_ms_zero limit).1 (more, whole), receive_)

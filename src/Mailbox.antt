-- ===== src/Mailbox.antt =====
-- The mailbox of a process that is not linked, or that dies with its links (src/mailbox.rs).
-- A mailbox is a marker with no content: the messages are the runtime's.
pub mod Branches
use mathlib.Core.Option
use rust_lib.Common.{ℕ, Result, ok, err, Option, none, some, Bool, true, false, ◌==◌, if◌then◌else◌}
use rust_lib.Host.{Host, Run, pure, panic, ◌>>=◌, invoke, message, MessageCall}
use rust_lib.Serde.{Rmp, Serde, and_then}
use rust_lib.MessageRw
use rust_lib.Tag
use rust_lib.Tag.{Tag}
use rust_lib.Timeout.{Duration, timeout_ms}

-- `SIGNAL` and `TIMEOUT`
abbrev pub signal : ℕ
signal = 1

abbrev pub timed_out : ℕ
timed_out = 9027

pub data Mailbox (T : Type 0) : Type 0 where
  mailbox : Mailbox T

-- `ReceiveError`, over the decoder's type of errors.
pub data ReceiveError (D : Type 0) : Type 0 where
  deserialization_failed : D → ReceiveError D
  timeout : ReceiveError D

-- `tag.unwrap_or(0)`
abbrev pub tag_or_0 : Option ℕ → ℕ
tag_or_0 tag = Option.get_or tag 0

module _ ⦃h : Host⦄ ⦃r : Rmp⦄ where
  abbrev pub Received : Type 0 → Type 0
  Received T = Result T (ReceiveError r.DecodeError)

  module _ {T : Type 0} ⦃s : Serde T⦄ where
    -- `match rmp_serde::from_read(MessageRw {})`
    unfoldable pub decode : Run (Received T)
    decode = s.deserialize MessageRw.read >>= elim [
      | ok received ↦ pure (ok received)
      | err e ↦ pure (err (deserialization_failed e))
    ]

    unfoldable pub receive_ : Mailbox T → Option ℕ → Option Duration → Run (Received T)
    receive_ _ tag limit = do
      message_type ← invoke (message (MessageCall.receive (tag_or_0 tag) (timeout_ms limit)))
      if message_type == signal
          then panic
          else if message_type == timed_out
          then pure (err timeout)
          else decode

    unfoldable pub receive : Mailbox T → Run (Received T)
    receive m = receive_ m none none

    unfoldable pub receive_timeout : Mailbox T → Duration → Run (Received T)
    receive_timeout m limit = receive_ m none (some limit)

    unfoldable pub receive_with_tag : Mailbox T → Run (Received (T × Tag))
    receive_with_tag m = and_then (receive_ m none none) λ received. do
      tag ← invoke (message MessageCall.get_tag)
      pure (ok (received, Tag.from tag))

    unfoldable pub tag_receive : Mailbox T → Tag → Run (Received T)
    tag_receive m tag = receive_ m (some tag.id) none

    unfoldable pub tag_receive_timeout : Mailbox T → Tag → Duration → Run (Received T)
    tag_receive_timeout m tag limit = receive_ m (some tag.id) (some limit)

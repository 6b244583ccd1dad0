-- ===== src/LinkMailbox.antt =====
-- The mailbox of a linked process, and the change from one kind to the other (src/mailbox.rs).
pub mod Laws
use rust_lib.Common.{Result, err, ok, Option, none, some, Bool, true, false, ◌==◌, if◌then◌else◌, ℕ}
use rust_lib.Host.{
  Host, Run, pure, panic, ◌>>=◌, ◌>>◌, invoke, message, process, MessageCall, ProcessCall,
}
use rust_lib.Serde.{Rmp, Serde}
use rust_lib.Mailbox.{
  Mailbox, mailbox, ReceiveError, timeout, signal, timed_out, tag_or_0, Received, decode,
}
use rust_lib.Tag
use rust_lib.Tag.{Tag}
use rust_lib.Timeout.{Duration, timeout_ms}

pub data LinkMailbox (T : Type 0) : Type 0 where
  link_mailbox : LinkMailbox T

-- `enum Message`, over the decoder's type of errors.
pub data Message (T D : Type 0) : Type 0 where
  normal : Result T (ReceiveError D) → Message T D
  signalled : Tag → Message T D

unfoldable pub is_signal : {T D : Type 0} → Message T D → Bool
is_signal (normal _) = false
is_signal (signalled _) = true

module _ ⦃h : Host⦄ where
  unfoldable pub normal_or_unwrap : {T D : Type 0} → Message T D → Run (Result T (ReceiveError D))
  normal_or_unwrap (normal m) = pure m
  normal_or_unwrap (signalled _) = panic

module _ ⦃h : Host⦄ ⦃r : Rmp⦄ {T : Type 0} ⦃s : Serde T⦄ where
  unfoldable pub receive_ :
      LinkMailbox T → Option ℕ → Option Duration → Run (Message T r.DecodeError)
  receive_ _ tag limit = do
    message_type ← invoke (message (MessageCall.receive (tag_or_0 tag) (timeout_ms limit)))
    if message_type == signal
        then (do t ← invoke (message MessageCall.get_tag); pure (signalled (Tag.from t)))
        else if message_type == timed_out
        then pure (normal (err timeout))
        else (do received ← decode; pure (normal received))

  unfoldable pub receive : LinkMailbox T → Run (Message T r.DecodeError)
  receive m = receive_ m none none

  unfoldable pub receive_timeout : LinkMailbox T → Duration → Run (Message T r.DecodeError)
  receive_timeout m limit = receive_ m none (some limit)

  unfoldable pub tag_receive : LinkMailbox T → Tag → Run (Message T r.DecodeError)
  tag_receive m tag = receive_ m (some tag.id) none

  unfoldable pub tag_receive_timeout :
      LinkMailbox T → Tag → Duration → Run (Message T r.DecodeError)
  tag_receive_timeout m tag limit = receive_ m (some tag.id) (some limit)

-- The trait `TransformMailbox<T>` of a mailbox type `M`.
pub record TransformMailbox ⦃h : Host⦄ (T M : Type 0) : Type 0 where
  pub catch_link_panic : M → Run (LinkMailbox T)
  pub panic_if_link_panics : M → Run (Mailbox T)

-- `impl TransformMailbox<T> for Mailbox<T>`, and for `LinkMailbox<T>`.
instance abbrev pub mailbox_transform : ⦃h : Host⦄ {T : Type 0} → TransformMailbox T (Mailbox T)
mailbox_transform = record {
  catch_link_panic = λ _. invoke (process (ProcessCall.die_when_link_dies 0)) >> pure link_mailbox;
  panic_if_link_panics = λ m. pure m;
}

instance abbrev pub link_mailbox_transform :
    ⦃h : Host⦄ {T : Type 0} → TransformMailbox T (LinkMailbox T)
link_mailbox_transform = record {
  catch_link_panic = λ m. pure m;
  panic_if_link_panics = λ _. invoke (process (ProcessCall.die_when_link_dies 1)) >> pure mailbox;
}

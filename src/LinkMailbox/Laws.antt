-- ===== src/LinkMailbox/Laws.antt =====
-- A link mailbox against a plain one, and the trap mode of the process (src/mailbox.rs).
use rust_lib.Common.{ℕ, ◌≡◌, ◌≢◌, ◌⊎◌, Option, arith}
use rust_lib.Host.{
  Host, World, returned, panicked, answer_to, after, message, MessageCall, ◌>>=◌, pure,
}
use rust_lib.Serde.{Rmp, Serde}
use rust_lib.Mailbox
use rust_lib.Mailbox.{Mailbox, signal, timed_out, tag_or_0}
use rust_lib.Mailbox.Branches.{receive_call}
use rust_lib.LinkMailbox.{
  LinkMailbox, normal, signalled, receive_, mailbox_transform, link_mailbox_transform,
}
use rust_lib.Tag
use rust_lib.Timeout.{Duration}

module _ ⦃h : Host⦄ ⦃r : Rmp⦄ {T : Type 0} ⦃s : Serde T⦄ where
  -- Where the runtime answers a signal, a link mailbox receives the signal with the tag that the
  -- runtime gives next, and a plain one panics; on any other answer the link mailbox receives what
  -- the plain one does.
  pub receive__agrees :
      (l : LinkMailbox T) (m : Mailbox T) (tag : Option ℕ) (limit : Option Duration) (w : World)
      → let c = receive_call tag limit in
        let w' = after c w in
        let g = message MessageCall.get_tag in
        (answer_to c w ≡ signal)
          × (receive_ l tag limit w
              ≡ (returned (signalled (Tag.from (answer_to g w'))), after g w'))
          × (Mailbox.receive_ m tag limit w ≡ (panicked, w'))
        ⊎ (answer_to c w ≢ signal)
          × (receive_ l tag limit w
              ≡ (Mailbox.receive_ m tag limit >>= λ received. pure (normal received)) w)
  unfolding receive_ Mailbox.receive_
  receive__agrees l m tag limit w = ground arith

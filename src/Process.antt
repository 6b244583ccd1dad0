-- ===== src/Process.antt =====
-- Handles to processes (src/process.rs).
pub mod Handle
pub mod Release
use rust_lib.Common.{
  ℕ, List, Result, ok, err, Option, none, some, Bool, true, false, replicate, fill, if◌then◌else◌,
}
use rust_lib.Common.Bytes.{from_le_bytes, bytes_eq}
use rust_lib.Common.Text.{codes}
use rust_lib.Host.{Host, Run, pure, ◌>>=◌, ◌>>◌, invoke, message, process, MessageCall, ProcessCall}
use rust_lib.LunaticError.{IoError}
use rust_lib.Serde.{Rmp, Serde, Writer, Reader, and_then, unwrap}
use rust_lib.MessageRw
use rust_lib.Mailbox.{tag_or_0}
use rust_lib.LinkMailbox.{TransformMailbox}
use rust_lib.Tag
use rust_lib.Tag.{Tag}

-- `consumed` is the cell that serializing sets.
pub record Process (T : Type 0) : Type 0 where
  pub id : ℕ
  pub consumed : Bool

abbrev pub from : {T : Type 0} → ℕ → Process T
from id = record { id = id; consumed = false }

module _ ⦃h : Host⦄ where
  -- `let mut uuid: [u8; 16] = [0; 16]; host_api::process::id(...)`
  unfoldable pub uuid : ℕ → Run (List ℕ)
  uuid process_id = do
    written ← invoke (process (ProcessCall.id process_id))
    pure (fill (replicate 16 0) written)

  -- `Process::this`
  unfoldable pub this : {T M : Type 0} ⦃t : TransformMailbox T M⦄ → M → Run (Process T)
  this _ = do i ← invoke (process ProcessCall.this); pure (from i)

  -- `sleep`
  unfoldable pub sleep : ℕ → Run Unit
  sleep milliseconds = invoke (process (ProcessCall.sleep_ms milliseconds))

  module _ {T : Type 0} where
    -- `PartialEq::eq`
    unfoldable pub eq : Process T → Process T → Run Bool
    eq p q = do uuid_self ← uuid p.id; uuid_other ← uuid q.id; pure (bytes_eq uuid_self uuid_other)

    -- `Process::id`
    unfoldable pub process_id : Process T → Run ℕ
    process_id p = do u ← uuid p.id; pure (from_le_bytes u)

    -- `Debug::fmt`, where `finish` is what the formatter does with a struct of one field.
    unfoldable pub debug : {R : Type 0} → (List ℕ → List ℕ → ℕ → Run R) → Process T → Run R
    debug finish p = do u ← uuid p.id; finish (codes "Process") (codes "uuid") (from_le_bytes u)

    unfoldable pub clone : Process T → Run (Process T)
    clone p = do i ← invoke (process (ProcessCall.clone_process p.id)); pure (from i)

    unfoldable pub drop : Process T → Run Unit
    drop p = if p.consumed then pure tt else invoke (process (ProcessCall.drop_process p.id))

    unfoldable pub link : Process T → Run Tag
    unfolding Tag.new
    link p = do tag ← Tag.new; invoke (process (ProcessCall.link tag.id p.id)); pure tag

    unfoldable pub unlink : Process T → Run Unit
    unlink p = invoke (process (ProcessCall.unlink p.id))

module _ ⦃h : Host⦄ ⦃r : Rmp⦄ {T : Type 0} where
  unfoldable pub serialize : Writer → Process T → Run (Result Unit r.EncodeError × Process T)
  serialize writer p = do
    let consumed : Process T = record p { consumed = true }
    index ← invoke (message (MessageCall.push_process p.id))
    written ← r.serialize_u64 writer index
    pure (written, consumed)

  -- `ProcessVisitor::visit_u64`
  unfoldable pub visit_u64 : ℕ → Run (Result (Process T) r.DecodeError)
  visit_u64 index = do i ← invoke (message (MessageCall.take_process index)); pure (ok (from i))

  unfoldable pub deserialize : Reader → Run (Result (Process T) r.DecodeError)
  unfolding visit_u64
  deserialize reader = and_then (r.deserialize_u64 reader) visit_u64

  instance abbrev pub process_serde : Serde (Process T)
  process_serde = record { serialize = serialize; deserialize = deserialize; drop = drop }

  module _ ⦃s : Serde T⦄ where
    -- `rmp_serde::encode::write(&mut MessageRw {}, &message).unwrap()`: the message with its cells set.
    unfoldable pub write_message : T → Run T
    write_message m = do
      (written, m') ← s.serialize MessageRw.write m
      unwrap (pure written)
      pure m'

    unfoldable pub send_ : Process T → Option ℕ → T → Run Unit
    unfolding write_message
    send_ p tag m = do
      invoke (message (MessageCall.create_data (tag_or_0 tag) 0))
      m' ← write_message m
      invoke (message (MessageCall.send p.id))
      s.drop m'

    unfoldable pub send : Process T → T → Run Unit
    send p m = send_ p none m

    unfoldable pub tag_send : Process T → Tag → T → Run Unit
    tag_send p tag m = send_ p (some tag.id) m

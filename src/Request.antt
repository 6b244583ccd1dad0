-- ===== src/Request.antt =====
-- Requests and replies (src/request.rs, and `request_` of src/process.rs).
pub mod Reply
pub mod Send
pub mod Call
use rust_lib.Common.{ℕ, Result, ok, err, Option, none, some}
use rust_lib.Host.{Host, Run, pure, ◌>>=◌, ◌>>◌, invoke, message, MessageCall}
use rust_lib.Serde.{Rmp, Serde, Writer, Reader}
use rust_lib.MessageRw
use rust_lib.Mailbox.{Mailbox, mailbox}
use rust_lib.LinkMailbox.{mailbox_transform}
use rust_lib.Process
use rust_lib.Process.{Process, process_serde, write_message}
use rust_lib.Tag
use rust_lib.Tag.{Tag}
use rust_lib.Timeout.{Duration, timeout_ms}

pub record Request (T U : Type 0) : Type 0 where
  pub body : T
  pub tag : Tag
  pub sender_process : Process U

-- `Request::new`
abbrev pub new : {T U : Type 0} → T → Tag → Process U → Request T U
new body tag sender_process = record { body = body; tag = tag; sender_process = sender_process }

module _ {T U : Type 0} where
  -- `Request::data`, and what `data_mut` lets the caller put there.
  unfoldable pub get_data : Request T U → T
  get_data q = q.body

  unfoldable pub set_data : Request T U → T → Request T U
  set_data q body = record q { body = body }

  unfoldable pub sender : Request T U → Process U
  sender q = q.sender_process

module _ ⦃h : Host⦄ ⦃r : Rmp⦄ {T U : Type 0} ⦃s : Serde T⦄ where
  -- The fields in the order of the declaration, as the derived code of `serde` treats them; a field
  -- that fails ends it, and what was decoded before is dropped.
  unfoldable pub serialize : Writer → Request T U → Run (Result Unit r.EncodeError × Request T U)
  serialize writer q = do
    header ← r.serialize_struct writer 3
    elim header [
      | err e ↦ pure (err e, q)
      | ok _ ↦ (do
        (first, body) ← s.serialize writer q.body
        elim first [
          | err e ↦ pure (err e, record q { body = body })
          | ok _ ↦ (do
            second ← r.serialize_i64 writer q.tag.id
            elim second [
              | err e ↦ pure (err e, record q { body = body })
              | ok _ ↦ (do
                (third, sender_process) ← Process.serialize writer q.sender_process
                pure (third, new body q.tag sender_process))
            ])
        ])
    ]

  unfoldable pub drop : Request T U → Run Unit
  drop q = do s.drop q.body; Process.drop q.sender_process

  unfoldable pub deserialize : Reader → Run (Result (Request T U) r.DecodeError)
  deserialize reader = do
    header ← r.deserialize_struct reader 3
    elim header [
      | err e ↦ pure (err e)
      | ok _ ↦ (do
        first ← s.deserialize reader
        elim first [
          | err e ↦ pure (err e)
          | ok body ↦ (do
            second ← r.deserialize_i64 reader
            elim second [
              | err e ↦ s.drop body >> pure (err e)
              | ok tag ↦ (do
                third ← Process.deserialize reader
                elim third [
                  | err e ↦ s.drop body >> pure (err e)
                  | ok sender_process ↦ pure (ok (new body (Tag.from tag) sender_process))
                ])
            ])
        ])
    ]

  instance abbrev pub request_serde : Serde (Request T U)
  request_serde = record { serialize = serialize; deserialize = deserialize; drop = drop }

  module _ ⦃u : Serde U⦄ where
    -- `Request::reply` consumes the request.
    unfoldable pub reply : Request T U → U → Run Unit
    reply q answer = do Process.tag_send q.sender_process q.tag answer; drop q

    -- `Process<Request<T, U>>::request_`. The answer of `send_receive_skip_search` is not read.
    unfoldable pub request_ :
        Process (Request T U) → T → Option Duration → Run (Result U r.DecodeError)
    request_ p body limit = do
      sender_process ← Process.this (let m : Mailbox U = mailbox in m)
      tag ← Tag.new
      let request = new body tag sender_process
      invoke (message (MessageCall.create_data tag.id 0))
      request' ← write_message request
      _ ← invoke (message (MessageCall.send_receive_skip_search p.id (timeout_ms limit)))
      reply ← u.deserialize MessageRw.read
      drop request'
      pure reply

    unfoldable pub request : Process (Request T U) → T → Run (Result U r.DecodeError)
    request p body = request_ p body none

    unfoldable pub request_timeout :
        Process (Request T U) → T → Duration → Run (Result U r.DecodeError)
    request_timeout p body limit = request_ p body (some limit)

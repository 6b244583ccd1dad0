-- ===== src/Net/TcpStream.antt =====
-- TCP connections (src/net/tcp_stream.rs).
pub mod Handle
pub mod Connect
pub mod Order
pub mod Connecting
pub mod Transfer
use rust_lib.Common.{
  ℕ, ◌%◌, ◌^◌, List, [], ◌∷◌, Result, ok, err, Option, none, some, Bool, true, false, length,
  replicate, fill, ◌==◌, if◌then◌else◌,
}
use rust_lib.Host.{Host, Run, pure, ◌>>=◌, invoke, message, networking, MessageCall, NetworkingCall}
use rust_lib.LunaticError
use rust_lib.LunaticError.{LunaticError, IoError, other}
use rust_lib.Net.Attempts.{first_success}
use rust_lib.Net.SocketAddr.{SocketAddr, to_host}
use rust_lib.Net.ToSocketAddrs.{ToSocketAddrs}
use rust_lib.Serde.{Rmp, Serde, Writer, Reader, and_then}
use rust_lib.Timeout.{Duration, as_millis, timeout_ms}

-- The time limits are in milliseconds.
pub record TcpStream : Type 0 where
  pub id : ℕ
  pub read_timeout : ℕ
  pub write_timeout : ℕ
  pub consumed : Bool

abbrev pub from : ℕ → TcpStream
from id = record { id = id; read_timeout = 0; write_timeout = 0; consumed = false }

-- The `match duration` of the two setters.
unfoldable pub duration_ms : Option Duration → ℕ
duration_ms none = 0
duration_ms (some d) = as_millis d % 2 ^ 32

unfoldable pub set_read_timeout : TcpStream → Option Duration → TcpStream
set_read_timeout c limit = record c { read_timeout = duration_ms limit }

unfoldable pub set_write_timeout : TcpStream → Option Duration → TcpStream
set_write_timeout c limit = record c { write_timeout = duration_ms limit }

module _ ⦃h : Host⦄ where
  unfoldable pub drop : TcpStream → Run Unit
  drop c = if c.consumed then pure tt else invoke (networking (NetworkingCall.drop_tcp_stream c.id))

  unfoldable pub clone : TcpStream → Run TcpStream
  clone c = do
    i ← invoke (networking (NetworkingCall.clone_tcp_stream c.id))
    pure (record c { id = i; consumed = false })

  -- The call that `connect_timeout_` makes for one address.
  unfoldable pub connect_attempt : Option Duration → SocketAddr → ℕ → Run (ℕ × ℕ)
  connect_attempt limit addr id =
      invoke (networking (NetworkingCall.tcp_connect (to_host addr) (timeout_ms limit) id))

  module _ {A : Type 0} ⦃t : ToSocketAddrs A⦄ where
    unfoldable pub connect_timeout_ :
        ℕ → A → Option Duration → Run (Option (Result TcpStream IoError))
    connect_timeout_ fuel addr limit = first_success (connect_attempt limit) from fuel addr

    unfoldable pub connect : ℕ → A → Run (Option (Result TcpStream IoError))
    connect fuel addr = connect_timeout_ fuel addr none

    unfoldable pub connect_timeout : ℕ → A → Duration → Run (Option (Result TcpStream IoError))
    connect_timeout fuel addr limit = connect_timeout_ fuel addr (some limit)

  -- A count is cast to `usize`, which has 32 bits on wasm32.
  unfoldable pub write_vectored : TcpStream → List (List ℕ) → Run (Result ℕ IoError)
  write_vectored c bufs = do
    (result, nwritten_or_error_id) ←
        invoke (networking (NetworkingCall.tcp_write_vectored c.id bufs c.write_timeout 0))
    pure (
        if result == 0
        then ok (nwritten_or_error_id % 2 ^ 32)
        else err (other (LunaticError.from nwritten_or_error_id)))

  unfoldable pub write : TcpStream → List ℕ → Run (Result ℕ IoError)
  write c buf = write_vectored c (buf ∷ [])

  unfoldable pub flush : TcpStream → Run (Result Unit IoError)
  flush c = do
    (result, error_id) ← invoke (networking (NetworkingCall.tcp_flush c.id 0))
    pure (if result == 0 then ok tt else err (other (LunaticError.from error_id)))

  -- The count that is read, and the buffer after it.
  unfoldable pub read : TcpStream → List ℕ → Run (Result ℕ IoError × List ℕ)
  read c buf = do
    (result, nread_or_error_id, written) ←
        invoke (networking (NetworkingCall.tcp_read c.id (length buf) c.read_timeout 0))
    pure (
      (if result == 0
          then ok (nread_or_error_id % 2 ^ 32)
          else err (other (LunaticError.from nread_or_error_id))),
      fill buf written,
    )

module _ ⦃h : Host⦄ ⦃r : Rmp⦄ where
  unfoldable pub serialize : Writer → TcpStream → Run (Result Unit r.EncodeError × TcpStream)
  serialize writer c = do
    let consumed : TcpStream = record c { consumed = true }
    index ← invoke (message (MessageCall.push_tcp_stream c.id))
    written ← r.serialize_u64 writer index
    pure (written, consumed)

  -- `TcpStreamVisitor::visit_u64`
  unfoldable pub visit_u64 : ℕ → Run (Result TcpStream r.DecodeError)
  visit_u64 index = do i ← invoke (message (MessageCall.take_tcp_stream index)); pure (ok (from i))

  unfoldable pub deserialize : Reader → Run (Result TcpStream r.DecodeError)
  deserialize reader = and_then (r.deserialize_u64 reader) visit_u64

  instance abbrev pub tcp_stream_serde : Serde TcpStream
  tcp_stream_serde = record { serialize = serialize; deserialize = deserialize; drop = drop }

-- ===== src/Net/TcpListener.antt =====
-- TCP servers (src/net/tcp_listener.rs).
pub mod Accept
use rust_lib.Common.{ℕ, Result, ok, err, Option, none, some, ◌==◌, if◌then◌else◌}
use rust_lib.Host.{Host, Run, pure, panic, ◌>>=◌, ◌>>◌, invoke, networking, NetworkingCall}
use rust_lib.LunaticError
use rust_lib.LunaticError.{LunaticError, IoError, other}
use rust_lib.Net.Attempts.{first_success}
use rust_lib.Net.Resolver
use rust_lib.Net.SocketAddr.{SocketAddr, to_host}
use rust_lib.Net.TcpStream
use rust_lib.Net.TcpStream.{TcpStream}
use rust_lib.Net.ToSocketAddrs.{ToSocketAddrs}

pub record TcpListener : Type 0 where
  pub id : ℕ

abbrev pub from : ℕ → TcpListener
from id = record { id = id }

module _ ⦃h : Host⦄ where
  unfoldable pub drop : TcpListener → Run Unit
  drop l = invoke (networking (NetworkingCall.drop_tcp_listener l.id))

  -- The call that `bind` makes for one address.
  unfoldable pub bind_attempt : SocketAddr → ℕ → Run (ℕ × ℕ)
  bind_attempt addr id = invoke (networking (NetworkingCall.tcp_bind (to_host addr) id))

  unfoldable pub bind :
      {A : Type 0} ⦃t : ToSocketAddrs A⦄ → ℕ → A → Run (Option (Result TcpListener IoError))
  bind fuel addr = first_success bind_attempt from fuel addr

  -- The peer is the one element of an iterator that is dropped on the way out.
  unfoldable pub accept : TcpListener → Run (Result (TcpStream × SocketAddr) IoError)
  accept l = do
    (result, tcp_stream_or_error_id, dns_iter_id) ←
        invoke (networking (NetworkingCall.tcp_accept l.id 0 0))
    if result == 0
        then (do
          let dns_iter = Resolver.from dns_iter_id
          peer ← Resolver.next dns_iter
          elim peer [
            | none ↦ panic
            | some addr ↦ (do
              Resolver.drop dns_iter
              pure (ok (TcpStream.from tcp_stream_or_error_id, addr)))
          ])
        else pure (err (other (LunaticError.from tcp_stream_or_error_id)))

-- ===== src/Net/Resolver.antt =====
-- DNS resolution (src/net/resolver.rs).
use rust_lib.Common.{ℕ, List, Result, ok, err, Option, none, some, ◌==◌, if◌then◌else◌}
use rust_lib.Host.{Host, Run, pure, ◌>>=◌, invoke, networking, NetworkingCall}
use rust_lib.LunaticError
use rust_lib.LunaticError.{LunaticError}
use rust_lib.Net.SocketAddr.{SocketAddr, from_host}
use rust_lib.Timeout.{Duration, timeout_ms}

pub record SocketAddrIterator : Type 0 where
  pub id : ℕ

abbrev pub from : ℕ → SocketAddrIterator
from id = record { id = id }

module _ ⦃h : Host⦄ where
  unfoldable pub drop : SocketAddrIterator → Run Unit
  drop i = invoke (networking (NetworkingCall.drop_dns_iterator i.id))

  -- `Iterator::next`
  unfoldable pub next : SocketAddrIterator → Run (Option SocketAddr)
  next i = do
    found ← invoke (networking (NetworkingCall.resolve_next i.id))
    if found.status == 0 then from_host found else pure none

  unfoldable pub resolve_timeout_ :
      List ℕ → Option Duration → Run (Result SocketAddrIterator LunaticError)
  resolve_timeout_ name limit = do
    (result, dns_iter_or_error_id) ←
        invoke (networking (NetworkingCall.resolve name (timeout_ms limit) 0))
    pure (
        if result == 0
        then ok (from dns_iter_or_error_id)
        else err (LunaticError.from dns_iter_or_error_id))

  unfoldable pub resolve : List ℕ → Run (Result SocketAddrIterator LunaticError)
  resolve name = resolve_timeout_ name none

  unfoldable pub resolve_timeout : List ℕ → Duration → Run (Result SocketAddrIterator LunaticError)
  resolve_timeout name limit = resolve_timeout_ name (some limit)

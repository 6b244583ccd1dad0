-- ===== src/Net/SocketAddr.antt =====
-- Socket addresses, and the two conversions between them and the runtime's arguments
-- (src/net/tcp_stream.rs and tcp_listener.rs one way, src/net/resolver.rs the other).
pub mod RoundTrip
use rust_lib.Common.{
  ℕ, List, [], ◌∷◌, Option, none, some, get_or, replicate, fill, ◌==◌, if◌then◌else◌,
}
use rust_lib.Host.{Host, Run, pure, panic, ◌>>=◌, HostAddr, NextAddr}

-- `std::net::SocketAddr`. The octets of an IPv4 address are four numbers, those of an IPv6 address a
-- list of sixteen.
pub data SocketAddr : Type 0 where
  v4 : ℕ → ℕ → ℕ → ℕ → ℕ → SocketAddr
  v6 : List ℕ → ℕ → ℕ → ℕ → SocketAddr

-- The arguments in the two arms of `match addr` in `bind` and `connect_timeout_`.
unfoldable pub to_host : SocketAddr → HostAddr
to_host (v4 a b c d port) = record {
  addr_type = 4;
  addr = a ∷ b ∷ c ∷ d ∷ [];
  port = port;
  flow_info = 0;
  scope_id = 0;
}
to_host (v6 ip port flow_info scope_id) = record {
  addr_type = 6;
  addr = ip;
  port = port;
  flow_info = flow_info;
  scope_id = scope_id;
}

module _ ⦃h : Host⦄ where
  -- The arm `next == 0` of `next`, over the cells that the runtime has written. The buffer of the
  -- address has sixteen bytes.
  unfoldable pub from_host : NextAddr → Run (Option SocketAddr)
  from_host n =
      let addr : List ℕ = fill (replicate 16 0) n.addr in
      if n.addr_type == 4
      then pure
          (some (v4 (get_or 0 addr 0) (get_or 0 addr 1) (get_or 0 addr 2) (get_or 0 addr 3) n.port))
      else if n.addr_type == 6
      then pure (some (v6 addr n.port n.flow_info n.scope_id))
      else panic

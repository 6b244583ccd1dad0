-- ===== src/Net/SocketAddr/RoundTrip.antt =====
-- An address that goes to the runtime and comes back (src/net).
use rust_lib.Common.{
  ℕ, ◌%◌, ◌≡◌, refl, sym, List, [], ◌∷◌, some, length, All, replicate, fill, arith,
}
use rust_lib.Common.Bytes.{IsByte}
use rust_lib.Host.{Host, World, returned, HostAddr, NextAddr}
use rust_lib.Net.SocketAddr.{SocketAddr, v4, v6, to_host, from_host}

-- The octets are bytes, four or sixteen of them.
abbrev pub IsSocketAddr : SocketAddr → Type 0
IsSocketAddr (v4 a b c d port) = IsByte a × IsByte b × IsByte c × IsByte d
IsSocketAddr (v6 ip port flow_info scope_id) = (length ip ≡ 16) × All IsByte ip

-- What `resolve_next` writes for an address that `tcp_connect` or `tcp_bind` was given.
abbrev pub answered : HostAddr → NextAddr
answered a = record {
  status = 0;
  addr_type = a.addr_type;
  addr = a.addr;
  port = a.port;
  flow_info = a.flow_info;
  scope_id = a.scope_id;
}

pub fill-whole :
    (buff bytes : List ℕ) → length buff ≡ length bytes → All IsByte bytes → fill buff bytes ≡ bytes
fill-whole [] [] e h = refl
fill-whole [] (x ∷ bytes) e h = absurd (omega arith)
fill-whole (b ∷ buff) [] e h = absurd (omega arith)
fill-whole (b ∷ buff) (x ∷ bytes) e (byte, h) =
    let keep : x % 256 ≡ x = omega arith in rw (keep, fill-whole buff bytes (omega arith) h)

module _ ⦃h : Host⦄ where
  -- The iterator reads a socket address, whose four or sixteen octets are bytes, back from the
  -- arguments that the connecting and binding calls make of it.
  pub from_host-to_host :
      (addr : SocketAddr) (w : World)
      → IsSocketAddr addr
      → from_host (answered (to_host addr)) w ≡ (returned (some addr), w)
  unfolding from_host to_host
  from_host-to_host (v4 a b c d port) w (ha, hb, hc, hd) =
      let ea : a % 256 ≡ a = omega arith in
      let eb : b % 256 ≡ b = omega arith in
      let ec : c % 256 ≡ c = omega arith in
      let ed : d % 256 ≡ d = omega arith in rw (ea, eb, ec, ed)
  from_host-to_host (v6 ip port flow_info scope_id) w (len, bytes) =
      rw (fill-whole (replicate 16 0) ip (sym len) bytes)

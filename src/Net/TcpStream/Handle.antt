-- ===== src/Net/TcpStream/Handle.antt =====
-- Time limits and handles of TCP streams (src/net/tcp_stream.rs).
use rust_lib.Common.{ℕ, ◌%◌, ◌^◌, ◌≡◌, refl, ap, List, Result, ok, err, none, some, arith, false}
use rust_lib.Host.{Host, World, Returns}
use rust_lib.Net.TcpStream.{
  TcpStream, duration_ms, set_read_timeout, set_write_timeout, clone, visit_u64, read, write,
}
use rust_lib.Serde.{Rmp}
use rust_lib.Timeout.{Duration, as_millis, timeout_ms}

abbrev pub IsUnlimited : {E : Type 0} → Result TcpStream E → Type 0
IsUnlimited (ok d) = (d.read_timeout ≡ 0) × (d.write_timeout ≡ 0)
IsUnlimited (err e) = Unit

module _ ⦃h : Host⦄ where
  -- A limit below one millisecond, which `timeout_ms` of the other waiting calls makes 1, is set as
  -- no limit at all: reads and writes then do what they do after setting `None`.
  pub short_limit_endless :
      (c : TcpStream) (limit : Duration) (buf : List ℕ) (w : World)
      → as_millis limit ≡ 0
      → (read (set_read_timeout c (some limit)) buf w ≡ read (set_read_timeout c none) buf w)
        × (write (set_write_timeout c (some limit)) buf w ≡ write (set_write_timeout c none) buf w)
        × (timeout_ms (some limit) ≡ 1)
  unfolding set_read_timeout set_write_timeout duration_ms timeout_ms
  short_limit_endless c limit buf w short =
      let none_ms : as_millis limit % 2 ^ 32 ≡ 0 = omega arith in
      (
        ap (λ (n : ℕ). read (record c { read_timeout = n }) buf w) none_ms,
        ap (λ (n : ℕ). write (record c { write_timeout = n }) buf w) none_ms,
        ground arith,
      )

module _ ⦃h : Host⦄ ⦃r : Rmp⦄ where
  -- A clone has the limits of the stream and was not sent away; a stream that comes out of a message
  -- has no limits.
  limits_kept :
      (c : TcpStream) (index : ℕ) (w w' : World)
      → Returns
          (λ d _.
            (d.read_timeout ≡ c.read_timeout)
            × (d.write_timeout ≡ c.write_timeout)
            × (d.consumed ≡ false))
          (clone c w)
        × Returns (λ d _. IsUnlimited d) (visit_u64 index w')
  unfolding clone visit_u64
  limits_kept c index w w' = ((refl, refl, refl), (refl, refl))

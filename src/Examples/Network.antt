-- ===== src/Examples/Network.antt =====
-- The network at concrete data, over a runtime that lets every call succeed.
use rust_lib.Common.{
  ℕ, ◌<◌, ◌≡◌, ◌≢◌, ◌⊎◌, inl, inr, refl, List, [], ◌∷◌, none, some, err, length, true, false, arith,
}
use rust_lib.Common.Utf8.{is_utf8}
use rust_lib.Common.{fill, replicate}
use rust_lib.Examples.Fixture.{runtime, fresh, plain_rmp}
use rust_lib.Host.{
  Host, World, Returns, returned, panicked, pure, after, answer_to, networking, NetworkingCall,
  error, ErrorCall,
}
use rust_lib.LunaticError
use rust_lib.LunaticError.{LunaticError, other, fmt}
use rust_lib.LunaticError.Text.{fmt_branches}
use rust_lib.Net.Attempts.{out_of_fuel, attempts}
use rust_lib.Net.Attempts.Outcomes.{IfReturns, RunsOut, attempts-ne-out_of_fuel}
use rust_lib.Net.Resolver
use rust_lib.Net.Attempts.Drops.{DropsIterator}
use rust_lib.Net.ToSocketAddrs.{HostName, name_addrs}
use rust_lib.Common.{◌^◌, ◌≤◌, ok}
use rust_lib.Net.SocketAddr.{SocketAddr, v4, to_host, from_host}
use rust_lib.Net.SocketAddr.RoundTrip.{answered, from_host-to_host}
use rust_lib.Net.TcpListener
use rust_lib.Net.TcpListener.{TcpListener, bind_attempt}
use rust_lib.Net.TcpListener.Accept.{accept_branches, accept-peer, with_peer}
use rust_lib.Net.TcpStream
use rust_lib.Net.TcpStream.{
  TcpStream, connect_attempt, connect_timeout_, read, write, set_read_timeout, set_write_timeout,
  clone, visit_u64,
}
use rust_lib.Net.TcpStream.Connect.{connect-drops}
use rust_lib.Net.TcpStream.Connecting.{Connected, connect-Connects}
use rust_lib.Net.TcpStream.Handle.{short_limit_endless}
use rust_lib.Net.ToSocketAddrs.{list_addrs, list_next}
use rust_lib.Timeout.{Duration, as_millis, timeout_ms, timeout_ms_bounds}

instance abbrev plain : Host
plain = runtime 0

abbrev local : SocketAddr
local = v4 127 0 0 1 80

abbrev both : List SocketAddr
both = local ∷ v4 10 0 0 1 443 ∷ []

-- A tenth of a millisecond.
abbrev blink : Duration
blink = record { secs = 0; nanos = 100_000 }

connect-Connects_example :
    Returns
      (Connected (some blink) both 0 (fresh tt))
      (connect_timeout_ 3 both (some blink) (fresh tt))
connect-Connects_example = connect-Connects (some blink) 3 both (fresh tt) (omega arith)

list_used :
    (addrs : List SocketAddr) (w : World)
    → IfReturns (λ found _. (found.0 ≡ none) ⊎ (length found.1 < length addrs)) (list_next addrs w)
unfolding list_next
list_used [] w = inl refl
list_used (addr ∷ addrs) w = inr (omega arith)

list-RunsOut : RunsOut list_next (connect_attempt none) (λ addrs _. length addrs)
unfolding connect_attempt
list-RunsOut = record { next_uses = list_used; attempt_keeps = λ addrs addr id w. omega arith }

attempts-ne-out_of_fuel_example :
    IfReturns
      (λ ended _. ended ≢ out_of_fuel)
      (attempts list_next (λ _. pure tt) (connect_attempt none) 3 both 0 (fresh tt))
attempts-ne-out_of_fuel_example =
    attempts-ne-out_of_fuel list_next (λ _. pure tt) (connect_attempt none)
      (λ addrs _. length addrs) list-RunsOut 3 both 0 (fresh tt) (omega arith)

from_host-to_host_example :
    from_host (answered (to_host local)) (fresh tt) ≡ (returned (some local), fresh tt)
from_host-to_host_example =
    from_host-to_host local (fresh tt) (omega arith, omega arith, omega arith, omega arith)

abbrev server : TcpListener
server = record { id = 3 }

accept_branches_example :
    let c = networking (NetworkingCall.tcp_accept 3 0 0) in
    let status : ℕ = (answer_to c (fresh tt)).0 in
    let id = (answer_to c (fresh tt)).1 in
    let iter = (answer_to c (fresh tt)).2 in
    let run = TcpListener.accept server (fresh tt) in
    (status ≢ 0) × (run ≡ (returned (err (other (LunaticError.from id))), after c (fresh tt)))
    ⊎ (status ≡ 0)
      × (run ≡ with_peer id iter (Resolver.next (Resolver.from iter) (after c (fresh tt))))
accept_branches_example = accept_branches server (fresh tt)

abbrev line : TcpStream
line = record { id = 7; read_timeout = 20; write_timeout = 30; consumed = false }

short_limit_endless_example :
    (read (set_read_timeout line (some blink)) (0 ∷ []) (fresh tt)
      ≡ read (set_read_timeout line none) (0 ∷ []) (fresh tt))
    × (write (set_write_timeout line (some blink)) (0 ∷ []) (fresh tt)
        ≡ write (set_write_timeout line none) (0 ∷ []) (fresh tt))
    × (timeout_ms (some blink) ≡ 1)
short_limit_endless_example = short_limit_endless line blink (0 ∷ []) (fresh tt) refl

abbrev failure : LunaticError
failure = record { id = 9 }

fmt_branches_example :
    let c = error (ErrorCall.string_size 9) in
    let d = error (ErrorCall.to_string 9) in
    let size : ℕ = answer_to c (fresh tt) in
    let buff : List ℕ = fill (replicate size 0) (answer_to d (after c (fresh tt))) in
    (length buff ≡ size)
    × ((is_utf8 buff ≡ true)
          × (fmt failure (fresh tt) ≡ (returned buff, after d (after c (fresh tt))))
        ⊎ (is_utf8 buff ≡ false)
          × (fmt failure (fresh tt) ≡ (panicked, after d (after c (fresh tt)))))
fmt_branches_example = fmt_branches failure (fresh tt)

abbrev site : HostName
site = record { text = 97 ∷ 46 ∷ 98 ∷ [] }

connect-drops_example :
    IfReturns (DropsIterator site (fresh tt)) (connect_timeout_ 3 site (some blink) (fresh tt))
connect-drops_example = connect-drops 3 site (some blink) (fresh tt)

accept-peer_example :
    let c = networking (NetworkingCall.tcp_accept 3 0 0) in
    let n = networking (NetworkingCall.resolve_next 20) in
    let d = networking (NetworkingCall.drop_dns_iterator 20) in
    TcpListener.accept server (fresh tt)
    ≡ (returned (ok (TcpStream.from 22, local)), after d (after n (after c (fresh tt))))
accept-peer_example =
    accept-peer server local 22 20 (fresh tt) (omega arith, omega arith, omega arith, omega arith)
      refl (unfold to_host in refl)

timeout_ms_bounds_example :
    ((as_millis blink < 1) × (timeout_ms (some blink) ≡ 1)
      ⊎ (1 ≤ as_millis blink) × (timeout_ms (some blink) ≡ as_millis blink))
    × (timeout_ms (some blink) ≢ 0)
    × (timeout_ms (some blink) < 2 ^ 32)
timeout_ms_bounds_example = timeout_ms_bounds blink (omega arith)

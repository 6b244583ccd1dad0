-- ===== src/Net/TcpStream/Connect.antt =====
-- `TcpStream::connect_timeout_` and `TcpListener::bind` over a list of addresses (src/net).
use rust_lib.Common.{ℕ, ◌<◌, ◌≡◌, ap, List, Result, Option, length}
use rust_lib.Host.{Host, World, Run, Outcome, returned, panicked, pure, ◌>>=◌}
use rust_lib.LunaticError.{IoError}
use rust_lib.Net.Attempts.{Attempted, first_success, report}
use rust_lib.Net.Attempts.Drops.{DropsIterator, first_success-drops}
use rust_lib.Net.ToSocketAddrs.{HostName, name_addrs}
use rust_lib.Common.{refl}
use rust_lib.Net.Attempts.Outcomes.{IfReturns, try_all, attempts-try_all}
use rust_lib.Net.SocketAddr.{SocketAddr}
use rust_lib.Net.TcpStream
use rust_lib.Net.TcpStream.{TcpStream, connect_attempt, connect_timeout_}
use rust_lib.Net.ToSocketAddrs.{list_addrs}
use rust_lib.Timeout.{Duration}

module _ ⦃h : Host⦄ where
  pub first_success-try_all :
      {B : Type 0} (attempt : SocketAddr → ℕ → Run (ℕ × ℕ)) (make : ℕ → B) (fuel : ℕ)
      (addrs : List SocketAddr) (w : World)
      → length addrs < fuel
      → first_success attempt make fuel addrs w
        ≡ (try_all attempt addrs 0 >>= λ ended. pure (report make ended)) w
  unfolding first_success
  first_success-try_all {B} attempt make fuel addrs w enough =
      ap
        (λ (o : Outcome Attempted × World).
          elim o.0 as (λ _. Outcome (Option (Result B IoError)) × World) [
            | returned ended ↦ (returned (report make ended), o.1)
            | panicked ↦ (panicked, o.1)
          ])
        (attempts-try_all attempt fuel addrs 0 w enough)

  -- Over a list of fewer addresses than the fuel, `connect_timeout_` tries them in order, with one
  -- `tcp_connect` each, up to the first that succeeds, and returns that stream; if none does, it
  -- returns the error that the last attempt left, and number 0 if there was no attempt.
  pub connect-try_all :
      (fuel : ℕ) (addrs : List SocketAddr) (limit : Option Duration) (w : World)
      → length addrs < fuel
      → connect_timeout_ fuel addrs limit w
        ≡ (try_all (connect_attempt limit) addrs 0 >>= λ ended. pure (report TcpStream.from ended))
            w
  unfolding connect_timeout_
  connect-try_all fuel addrs limit w enough =
      first_success-try_all (connect_attempt limit) TcpStream.from fuel addrs w enough

  -- Over a host name, where `connect_timeout_` returns and its fuel sufficed, it has dropped the
  -- iterator that `resolve` gave, once, and no other; if `resolve` failed, it has dropped none.
  pub connect-drops :
      (fuel : ℕ) (name : HostName) (limit : Option Duration) (w : World)
      → IfReturns (DropsIterator name w) (connect_timeout_ fuel name limit w)
  unfolding connect_timeout_ connect_attempt
  connect-drops fuel name limit w =
      first_success-drops (connect_attempt limit) (λ addr id w'. refl) TcpStream.from fuel name w

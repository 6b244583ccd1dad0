-- ===== src/Net/TcpStream/Connecting.antt =====
-- How `connect_timeout_` goes over its addresses (src/net/tcp_stream.rs).
use rust_lib.Common.{
  ℕ, ◌<◌, ◌≡◌, ◌≢◌, refl, sym, subst, List, [], ◌∷◌, length, Result, ok, err, Option, some, ◌==◌,
  true, false, Bool, ==→eq, ==-false→ne,
}
use rust_lib.Host.{
  Host, World, Run, Returns, Returns-bind, Returns-weaken, pure, after, answer_to, Call,
  NetworkingCall, networking,
}
use rust_lib.LunaticError
use rust_lib.LunaticError.{IoError, other}
use rust_lib.Net.Attempts.{Attempted, report, success}
use rust_lib.Net.Attempts.Outcomes.{try_all}
use rust_lib.Net.SocketAddr.{SocketAddr, to_host}
use rust_lib.Net.TcpStream
use rust_lib.Net.TcpStream.{TcpStream, connect_attempt, connect_timeout_}
use rust_lib.Net.TcpStream.Connect.{connect-try_all}
use rust_lib.Net.ToSocketAddrs.{list_addrs}
use rust_lib.Timeout.{Duration, timeout_ms}

abbrev pub connecting : Option Duration → SocketAddr → ℕ → Call
connecting limit addr id =
    networking (NetworkingCall.tcp_connect (to_host addr) (timeout_ms limit) id)

-- How connecting goes on from a cell with the number `id`: with no address left, the number is the
-- error; an attempt of status 0 gives a stream of the number that comes with it; at any other status
-- the next address is tried, with that number in the cell.
pub data Connects ⦃h : Host⦄ (limit : Option Duration)
    : List SocketAddr → ℕ → World → Result TcpStream IoError → World → Type 0 where
  none_left : {id : ℕ} {w : World} → Connects limit [] id w (err (other (LunaticError.from id))) w
  connected :
      {addr : SocketAddr} {addrs : List SocketAddr} {id : ℕ} {w : World}
      → (answer_to (connecting limit addr id) w).0 ≡ 0
      → Connects limit
          (addr ∷ addrs)
          id
          w
          (ok (TcpStream.from (answer_to (connecting limit addr id) w).1))
          (after (connecting limit addr id) w)
  refused :
      {addr : SocketAddr} {addrs : List SocketAddr} {id : ℕ} {w w' : World}
      {result : Result TcpStream IoError}
      → (answer_to (connecting limit addr id) w).0 ≢ 0
      → Connects limit addrs
          (answer_to (connecting limit addr id) w).1
          (after (connecting limit addr id) w)
          result
          w'
      → Connects limit (addr ∷ addrs) id w result w'

module _ ⦃h : Host⦄ (limit : Option Duration) where
  abbrev pub Connected :
      List SocketAddr → ℕ → World → Option (Result TcpStream IoError) → World → Type 0
  Connected addrs id w result w' =
      (r : Result TcpStream IoError) × (result ≡ some r) × Connects limit addrs id w r w'

  Reported : List SocketAddr → ℕ → World → Attempted → World → Type 0
  Reported addrs id w ended w' = Connected addrs id w (report TcpStream.from ended) w'

  one_more :
      (addr : SocketAddr) (addrs : List SocketAddr) (id : ℕ) (w : World) (done : Bool)
      → let c = connecting limit addr id in
        let (status, id') = answer_to c w in
        (status == 0) ≡ done
        → Returns
            (Reported addrs id' (after c w))
            (try_all (connect_attempt limit) addrs id' (after c w))
        → Returns (Reported (addr ∷ addrs) id w) (
            (elim done as (λ _. Run Attempted) [
              | true ↦ pure (success id')
              | false ↦ try_all (connect_attempt limit) addrs id'
            ])
              (after c w))
  unfolding Reported
  one_more addr addrs id w true fine ih =
      let a = answer_to (connecting limit addr id) w in
      (ok (TcpStream.from a.1), refl, connected (==→eq a.0 0 fine))
  one_more addr addrs id w false failed ih =
      let c = connecting limit addr id in
      let a = answer_to c w in
      Returns-weaken (Reported addrs a.1 (after c w)) (Reported (addr ∷ addrs) id w)
        (try_all (connect_attempt limit) addrs a.1 (after c w)) ih
        (λ ended w' (r, e, goes). (r, e, refused (==-false→ne a.0 0 failed) goes))

  try_all-Reported :
      (addrs : List SocketAddr) (id : ℕ) (w : World)
      → Returns (Reported addrs id w) (try_all (connect_attempt limit) addrs id w)
  unfolding try_all connect_attempt Reported
  try_all-Reported [] id w = (err (other (LunaticError.from id)), refl, none_left)
  try_all-Reported (addr ∷ addrs) id w =
      let c = connecting limit addr id in
      let (status, id') = answer_to c w in
      one_more addr addrs id w (status == 0) refl (try_all-Reported addrs id' (after c w))

  -- Over a list of fewer addresses than the fuel, `connect_timeout_` tries them in order, with one
  -- `tcp_connect` each that has the time limit, up to the first of status 0, and returns the stream of
  -- the number that comes with that; if there is none, it returns the number that the last attempt
  -- left as the error, and number 0 if there was no attempt.
  pub connect-Connects :
      (fuel : ℕ) (addrs : List SocketAddr) (w : World)
      → length addrs < fuel
      → Returns (Connected addrs 0 w) (connect_timeout_ fuel addrs limit w)
  unfolding Reported
  connect-Connects fuel addrs w enough =
      subst (Returns (Connected addrs 0 w)) (sym (connect-try_all fuel addrs limit w enough)) (
        Returns-bind (Reported addrs 0 w) (Connected addrs 0 w)
          (try_all (connect_attempt limit) addrs 0) (λ ended. pure (report TcpStream.from ended)) w
          (try_all-Reported addrs 0 w) (λ ended w' g. g))

-- ===== src/Net/TcpStream/Order.antt =====
-- The order in which `connect` tries addresses (src/net/tcp_stream.rs).
use rust_lib.Common.{ℕ, ◌≡◌, Result, ok, err, some, ◌⊎◌, List, [], ◌∷◌, ◌++◌, Option}
use rust_lib.Host.{Host, World, Call, NetworkingCall, HostAddr, networking}
use rust_lib.Net.Attempts.{Attempted, success, exhausted, out_of_fuel}
use rust_lib.Net.SocketAddr.{SocketAddr, to_host}
use rust_lib.LunaticError
use rust_lib.LunaticError.{IoError, other}
use rust_lib.Net.TcpStream
use rust_lib.Net.TcpStream.{TcpStream}
use rust_lib.Net.ToSocketAddrs.{list_addrs}
use rust_lib.Timeout.{Duration}

-- The addresses that `tcp_connect` was called with, newest first.
abbrev pub tried : List Call → List HostAddr
tried [] = []
tried (networking (NetworkingCall.tcp_connect addr limit id) ∷ calls) = addr ∷ tried calls
tried (c ∷ calls) = tried calls

-- The addresses of a list on top of others, the last one newest.
abbrev pub pile : List SocketAddr → List HostAddr → List HostAddr
pile [] others = others
pile (addr ∷ addrs) others = pile addrs (to_host addr ∷ others)

abbrev pub IsAll : Attempted → List SocketAddr → Type 0
IsAll (success id) back = Unit
IsAll (exhausted id) back = back ≡ []
IsAll out_of_fuel back = ⊥

module _ ⦃h : Host⦄ (limit : Option Duration) where
  abbrev pub TriedInOrder : List SocketAddr → World → Attempted → World → Type 0
  TriedInOrder addrs w ended w' =
      (front : List SocketAddr) × (back : List SocketAddr) × (addrs ≡ front ++ back)
      × (tried w'.calls ≡ pile front (tried w.calls))
      × IsAll ended back

  -- The addresses that were tried are a front part of the list, in its order; all of them where no
  -- connection came of it.
  abbrev pub ConnectTried :
      List SocketAddr → World → Option (Result TcpStream IoError) → World → Type 0
  ConnectTried addrs w result w' =
      (front : List SocketAddr) × (back : List SocketAddr) × (addrs ≡ front ++ back)
      × (tried w'.calls ≡ pile front (tried w.calls))
      × (((id : ℕ) × (result ≡ some (ok (TcpStream.from id))))
          ⊎ ((id : ℕ) × (result ≡ some (err (other (LunaticError.from id))))) × (back ≡ []))

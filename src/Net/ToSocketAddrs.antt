-- ===== src/Net/ToSocketAddrs.antt =====
-- The trait `ToSocketAddrs` and its implementations (src/net/mod.rs).
use rust_lib.Common.{ℕ, List, [], ◌∷◌, Result, ok, err, Option, none, some}
use rust_lib.Host.{Host, Run, pure, ◌>>=◌}
use rust_lib.LunaticError.{IoError, other}
use rust_lib.Net.Resolver
use rust_lib.Net.Resolver.{SocketAddrIterator}
use rust_lib.Net.SocketAddr.{SocketAddr}

-- `next` gives the iterator back; `drop` is what dropping it does.
pub record ToSocketAddrs ⦃h : Host⦄ (A : Type 0) : Type 1 where
  pub Iter : Type 0
  pub to_socket_addrs : A → Run (Result Iter IoError)
  pub next : Iter → Run (Option SocketAddr × Iter)
  pub drop : Iter → Run Unit

-- A host name: its bytes, in a `&str` or a `String`.
pub record HostName : Type 0 where
  pub text : List ℕ

module _ ⦃h : Host⦄ where
  -- `Err(err) => Err(Error::new(ErrorKind::Other, err))`
  unfoldable pub resolve_name : HostName → Run (Result SocketAddrIterator IoError)
  resolve_name name = do
    found ← Resolver.resolve name.text
    pure (elim found [ ok iter ↦ ok iter | err e ↦ err (other e) ])

  instance abbrev pub name_addrs : ToSocketAddrs HostName
  name_addrs = record {
    Iter = SocketAddrIterator;
    to_socket_addrs = resolve_name;
    next = λ i. (do a ← Resolver.next i; pure (a, i));
    drop = Resolver.drop;
  }

  -- The iterators of the standard library hold the addresses themselves.
  unfoldable pub list_next : List SocketAddr → Run (Option SocketAddr × List SocketAddr)
  list_next [] = pure (none, [])
  list_next (a ∷ rest) = pure (some a, rest)

  -- `&[SocketAddr]`, and `SocketAddr`, which stands for the list of itself.
  instance abbrev pub list_addrs : ToSocketAddrs (List SocketAddr)
  list_addrs = record {
    Iter = List SocketAddr;
    to_socket_addrs = λ addrs. pure (ok addrs);
    next = list_next;
    drop = λ _. pure tt;
  }

  instance abbrev pub socket_addrs : ToSocketAddrs SocketAddr
  socket_addrs = record {
    Iter = List SocketAddr;
    to_socket_addrs = λ addr. pure (ok (addr ∷ []));
    next = list_next;
    drop = λ _. pure tt;
  }

  -- The implementations that only forward to the standard library, whose conversion is `std_addrs`: an
  -- `IpAddr`, an `Ipv4Addr` or an `Ipv6Addr` with a port, a `SocketAddrV4` and a `SocketAddrV6`.
  abbrev pub forwarded_addrs :
      {A : Type 0} → (A → Result (List SocketAddr) IoError) → ToSocketAddrs A
  forwarded_addrs std_addrs = record {
    Iter = List SocketAddr;
    to_socket_addrs = λ addr. pure (std_addrs addr);
    next = list_next;
    drop = λ _. pure tt;
  }

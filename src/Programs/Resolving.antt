-- ===== src/Programs/Resolving.antt =====
-- The program of examples/resolve.rs, which prints the addresses of a host.
use rust_lib.Common.{ℕ, zero, suc, List, Option, none, some, ◌++◌}
use rust_lib.Common.Text.{codes}
use rust_lib.Host.{Host, Run, pure, ◌>>=◌, ◌>>◌}
use rust_lib.Net.Resolver
use rust_lib.Net.Resolver.{SocketAddrIterator, resolve}
use rust_lib.Net.SocketAddr.{SocketAddr}
use rust_lib.Programs.{Console}
use rust_lib.Serde.{unwrap}

module _ ⦃h : Host⦄ ⦃io : Console⦄ (debug : SocketAddr → List ℕ) where
  -- The `for` over the iterator, which it drops at the end. `debug` formats an address.
  unfoldable pub print_all : ℕ → SocketAddrIterator → Run (Option Unit)
  print_all zero addrs = pure none
  print_all (suc fuel) addrs = do
    found ← Resolver.next addrs
    elim found [
      | none ↦ Resolver.drop addrs >> pure (some tt)
      | some addr ↦
          io.println (codes "wikipedia.org resolves to " ++ debug addr) >> print_all fuel addrs
    ]

  unfoldable pub main : ℕ → Run (Option Unit)
  main fuel = do wikipedia ← unwrap (resolve (codes "wikipedia.org:80")); print_all fuel wikipedia

-- ===== src/Net/TcpListener/Accept.antt =====
-- Binding and accepting (src/net/tcp_listener.rs).
use rust_lib.Common.{
  ℕ, ◌<◌, ◌≡◌, ◌≢◌, ◌⊎◌, inl, inr, refl, ap, ◌∙◌, List, Result, ok, err, Option, none, some, length,
  ◌==◌, if◌then◌else◌, Bool-cases, ==→eq, ==-false→ne,
}
use rust_lib.Host.{
  Host, World, Run, Outcome, returned, panicked, pure, panic, ◌>>=◌, ◌>>◌, invoke, after, answer_to,
  NetworkingCall, networking, NextAddr, >>=-returned,
}
use rust_lib.LunaticError
use rust_lib.LunaticError.{IoError, other}
use rust_lib.Net.Attempts.{report}
use rust_lib.Net.Attempts.Drops.{DropsIterator, first_success-drops}
use rust_lib.Net.ToSocketAddrs.{HostName, name_addrs}
use rust_lib.Net.Attempts.Outcomes.{IfReturns, try_all}
use rust_lib.Net.Resolver
use rust_lib.Net.SocketAddr.{SocketAddr, to_host, from_host}
use rust_lib.Net.SocketAddr.RoundTrip.{IsSocketAddr, answered, from_host-to_host}
use rust_lib.Net.TcpListener.{TcpListener, accept, bind, bind_attempt, from}
use rust_lib.Net.TcpStream
use rust_lib.Net.TcpStream.{TcpStream}
use rust_lib.Net.TcpStream.Connect.{first_success-try_all}
use rust_lib.Net.ToSocketAddrs.{list_addrs}

module _ ⦃h : Host⦄ where
  -- Over a list of fewer addresses than the fuel, `bind` tries them in order, with one `tcp_bind`
  -- each, up to the first that succeeds, and returns that listener; if none does, it returns the
  -- error that the last attempt left, and number 0 if there was no attempt.
  bind-try_all :
      (fuel : ℕ) (addrs : List SocketAddr) (w : World)
      → length addrs < fuel
      → bind fuel addrs w ≡ (try_all bind_attempt addrs 0 >>= λ ended. pure (report from ended)) w
  unfolding bind
  bind-try_all fuel addrs w enough = first_success-try_all bind_attempt from fuel addrs w enough

  -- What comes of what `next` gave: a connection with its peer, whose iterator is dropped, or a panic.
  abbrev pub with_peer :
      ℕ
      → ℕ
      → Outcome (Option SocketAddr) × World
      → Outcome (Result (TcpStream × SocketAddr) IoError) × World
  with_peer id iter (returned (some addr), w) = (
    returned (ok (TcpStream.from id, addr)),
    after (networking (NetworkingCall.drop_dns_iterator iter)) w,
  )
  with_peer id iter (returned none, w) = (panicked, w)
  with_peer id iter (panicked, w) = (panicked, w)

  -- The part of `accept` after `next`.
  abbrev go_on : ℕ → ℕ → Option SocketAddr → Run (Result (TcpStream × SocketAddr) IoError)
  go_on id iter peer = elim peer as (λ _. Run (Result (TcpStream × SocketAddr) IoError)) [
    | none ↦ panic
    | some addr ↦
        invoke (networking (NetworkingCall.drop_dns_iterator iter))
        >> pure (ok (TcpStream.from id, addr))
  ]

  go_on-with_peer :
      (id iter : ℕ) (o : Outcome (Option SocketAddr) × World)
      → (elim o.0 as (λ _. Outcome (Result (TcpStream × SocketAddr) IoError) × World) [
        | returned peer ↦ go_on id iter peer o.1
        | panicked ↦ (panicked, o.1)
      ])
        ≡ with_peer id iter o
  go_on-with_peer id iter (returned (some addr), w) = refl
  go_on-with_peer id iter (returned none, w) = refl
  go_on-with_peer id iter (panicked, w) = refl

  -- `accept` where the runtime has no connection to give returns the error, and asks nothing else.
  -- Where it has one, the peer is the first address of the iterator that came with it, and the
  -- iterator is dropped before `accept` returns; no address is a panic.
  pub accept_branches :
      (l : TcpListener) (w : World)
      → let c = networking (NetworkingCall.tcp_accept l.id 0 0) in
        let status = (answer_to c w).0 in
        let id = (answer_to c w).1 in
        let iter = (answer_to c w).2 in
        (status ≢ 0) × (accept l w ≡ (returned (err (other (LunaticError.from id))), after c w))
        ⊎ (status ≡ 0)
          × (accept l w ≡ with_peer id iter (Resolver.next (Resolver.from iter) (after c w)))
  unfolding accept Resolver.drop
  accept_branches l w =
      let c = networking (NetworkingCall.tcp_accept l.id 0 0) in settle (answer_to c w) (after c w)
    where
      settle :
          (a : ℕ × ℕ × ℕ) (w' : World)
          → let run =
              if a.0 == 0
              then (Resolver.next (Resolver.from a.2) >>= go_on a.1 a.2)
              else pure (err (other (LunaticError.from a.1))) in
            (a.0 ≢ 0) × (run w' ≡ (returned (err (other (LunaticError.from a.1))), w'))
            ⊎ (a.0 ≡ 0) × (run w' ≡ with_peer a.1 a.2 (Resolver.next (Resolver.from a.2) w'))
      settle (status, id, iter) w' = elim (Bool-cases (status == 0)) [
        | inl e ↦ inr (
          ==→eq status 0 e,
          rw e (go_on-with_peer id iter (Resolver.next (Resolver.from iter) w')),
        )
        | inr e ↦ inl (==-false→ne status 0 e, rw e)
      ]

  -- Where the runtime has a connection, and the iterator that came with it gives what a socket address
  -- with bytes for octets is passed as, `accept` returns the stream with that address, and the last
  -- thing that it does is to drop the iterator.
  pub accept-peer :
      (l : TcpListener) (addr : SocketAddr) (id iter : ℕ) (w : World)
      → IsSocketAddr addr
      → let c = networking (NetworkingCall.tcp_accept l.id 0 0) in
        let n = networking (NetworkingCall.resolve_next iter) in
        let d = networking (NetworkingCall.drop_dns_iterator iter) in
        answer_to c w ≡ (0, id, iter)
        → answer_to n (after c w) ≡ answered (to_host addr)
        → accept l w ≡ (returned (ok (TcpStream.from id, addr)), after d (after n (after c w)))
  unfolding accept Resolver.drop Resolver.next
  accept-peer l addr id iter w octets connected found =
      let w₁ = after (networking (NetworkingCall.tcp_accept l.id 0 0)) w in
      let w₂ = after (networking (NetworkingCall.resolve_next iter)) w₁ in
      let given : Resolver.next (Resolver.from iter) w₁ ≡ (returned (some addr), w₂) =
        ap (λ (x : NextAddr). (if x.status == 0 then from_host x else pure none) w₂) found
        ∙ from_host-to_host addr w₂ octets in
      ap
        (λ (a : ℕ × ℕ × ℕ).
          (if a.0 == 0
              then (Resolver.next (Resolver.from a.2) >>= go_on a.1 a.2)
              else pure (err (other (LunaticError.from a.1))))
            w₁)
        connected
      ∙ >>=-returned (Resolver.next (Resolver.from iter)) (go_on id iter) given

  -- Over a host name, where `bind` returns and its fuel sufficed, it has dropped the iterator that
  -- `resolve` gave, once, and no other; if `resolve` failed, it has dropped none.
  pub bind-drops :
      (fuel : ℕ) (name : HostName) (w : World) → IfReturns (DropsIterator name w) (bind fuel name w)
  unfolding bind bind_attempt
  bind-drops fuel name w = first_success-drops bind_attempt (λ addr id w'. refl) from fuel name w

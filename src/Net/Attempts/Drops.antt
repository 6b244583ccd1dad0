-- ===== src/Net/Attempts/Drops.antt =====
-- What becomes of the iterator of `connect` and `bind` over a host name (src/net).
use rust_lib.Common.{
  ℕ, zero, suc, ◌≡◌, ◌≢◌, ◌⊎◌, ◌∙◌, inl, inr, refl, ap, List, [], ◌∷◌, Option, none, some, Result,
  ok, err, Bool, true, false, ◌==◌, if◌then◌else◌, Bool-cases, ==→eq, ==-false→ne,
}
use rust_lib.Host.{
  Host, World, Run, Outcome, returned, panicked, pure, ◌>>=◌, ◌>>◌, after, answer_to, Call,
  NetworkingCall, NextAddr, networking,
}
use rust_lib.LunaticError
use rust_lib.LunaticError.{IoError, other}
use rust_lib.Net.Attempts.{
  Attempted, success, exhausted, out_of_fuel, attempts, first_success, report,
}
use rust_lib.Net.Attempts.Outcomes.{IfReturns, IfReturns-bind}
use rust_lib.Net.Resolver
use rust_lib.Timeout.{timeout_ms}
use rust_lib.Net.Resolver.{SocketAddrIterator}
use rust_lib.Net.SocketAddr.{SocketAddr, from_host}
use rust_lib.Net.ToSocketAddrs.{HostName, name_addrs, resolve_name}

-- The iterators that were dropped, newest first.
abbrev pub dns_drops : List Call → List ℕ
dns_drops [] = []
dns_drops (networking (NetworkingCall.drop_dns_iterator id) ∷ calls) = id ∷ dns_drops calls
dns_drops (c ∷ calls) = dns_drops calls

module _ ⦃h : Host⦄ where
  abbrev pub SameDrops : World → World → Type 0
  SameDrops w w' = dns_drops w'.calls ≡ dns_drops w.calls

  from_host-SameDrops :
      (n : NextAddr) (w : World) → IfReturns (λ _ w'. SameDrops w w') (from_host n w)
  unfolding from_host
  from_host-SameDrops n w = elim (Bool-cases (n.addr_type == 4)) [
    | inl e ↦ rw e refl
    | inr e ↦ elim (Bool-cases (n.addr_type == 6)) [
      | inl e' ↦ rw (e, e') refl
      | inr e' ↦ rw (e, e') tt
    ]
  ]

  next-SameDrops :
      (i : SocketAddrIterator) (w : World)
      → IfReturns (λ x w'. (x.1 ≡ i) × SameDrops w w') (name_addrs.next i w)
  unfolding Resolver.next
  next-SameDrops i w =
      let c = networking (NetworkingCall.resolve_next i.id) in
      IfReturns-bind (λ _ w'. SameDrops w w') (λ x w'. (x.1 ≡ i) × SameDrops w w') (Resolver.next i)
        (λ a. pure (a, i)) w
        (elim (Bool-cases ((answer_to c w).status == 0)) [
          | inl e ↦ rw e (from_host-SameDrops (answer_to c w) (after c w))
          | inr e ↦ rw e refl
        ])
        (λ a w' same. (refl, same))

  -- An attempt drops no iterator.
  abbrev pub KeepsDrops : (SocketAddr → ℕ → Run (ℕ × ℕ)) → Type 0
  KeepsDrops attempt =
      (addr : SocketAddr) (id : ℕ) (w : World)
      → IfReturns (λ _ w'. SameDrops w w') (attempt addr id w)

  abbrev Dropped : SocketAddrIterator → World → Attempted → World → Type 0
  Dropped i w ended w' = (ended ≡ out_of_fuel) ⊎ (dns_drops w'.calls ≡ i.id ∷ dns_drops w.calls)

  -- Where the fuel sufficed, a resolved name had its iterator dropped, and no other; where the name
  -- was not resolved, none was.
  abbrev pub DropsIterator :
      {B : Type 0} → HostName → World → Option (Result B IoError) → World → Type 0
  DropsIterator name w result w' =
      let c = networking (NetworkingCall.resolve name.text 0 0) in
      let id = (answer_to c w).1 in
      (result ≡ none)
      ⊎ ((answer_to c w).0 ≡ 0) × (dns_drops w'.calls ≡ id ∷ dns_drops w.calls)
      ⊎ ((answer_to c w).0 ≢ 0) × (dns_drops w'.calls ≡ dns_drops w.calls)

  module _ (attempt : SocketAddr → ℕ → Run (ℕ × ℕ)) (keeps : KeepsDrops attempt) where
    -- The loop goes on from a world in which the same iterators were dropped.
    moved :
        (i : SocketAddrIterator) (w w' : World) (o : Outcome Attempted × World)
        → SameDrops w w'
        → IfReturns (Dropped i w') o
        → IfReturns (Dropped i w) o
    moved i w w' (returned ended, w'') same (inl e) = inl e
    moved i w w' (returned ended, w'') same (inr e) = inr (e ∙ ap (λ ids. i.id ∷ ids) same)
    moved i w w' (panicked, w'') same p = tt

    abbrev loop : ℕ → SocketAddrIterator → ℕ → Run Attempted
    loop fuel i id = attempts name_addrs.next Resolver.drop attempt fuel i id

    -- What the loop does with an attempt's answer, and with what `next` gives.
    abbrev on_answer : ℕ → SocketAddrIterator → ℕ × ℕ → Run Attempted
    on_answer fuel i x = elim (x.0 == 0) as (λ _. Run Attempted) [
      | true ↦ Resolver.drop i >> pure (success x.1)
      | false ↦ loop fuel i x.1
    ]

    abbrev on_found : ℕ → ℕ → Option SocketAddr × SocketAddrIterator → Run Attempted
    on_found fuel id x = elim x.0 as (λ _. Run Attempted) [
      | none ↦ Resolver.drop x.1 >> pure (exhausted id)
      | some addr ↦ attempt addr id >>= on_answer fuel x.1
    ]

    answered :
        (fuel : ℕ) (i : SocketAddrIterator) (id : ℕ) (done : Bool) (w : World)
        → IfReturns (Dropped i w) (loop fuel i id w)
        → IfReturns (Dropped i w) (
            (elim done as (λ _. Run Attempted) [
              | true ↦ Resolver.drop i >> pure (success id)
              | false ↦ loop fuel i id
            ])
              w)
    unfolding Resolver.drop
    answered fuel i id true w ih = inr refl
    answered fuel i id false w ih = ih

    found_one :
        (fuel id : ℕ) (found : Option SocketAddr) (i : SocketAddrIterator) (w : World)
        → ((id' : ℕ) (w' : World) → IfReturns (Dropped i w') (loop fuel i id' w'))
        → IfReturns (Dropped i w) (on_found fuel id (found, i) w)
    unfolding Resolver.drop
    found_one fuel id none i w ih = inr refl
    found_one fuel id (some addr) i w ih =
        IfReturns-bind (λ _ w'. SameDrops w w') (Dropped i w) (attempt addr id) (on_answer fuel i) w
          (keeps addr id w)
          (λ x w' same.
            moved i w w' (on_answer fuel i x w') same
              (answered fuel i x.1 (x.0 == 0) w' (ih x.1 w')))

    name_attempts-drops :
        (fuel : ℕ) (i : SocketAddrIterator) (id : ℕ) (w : World)
        → IfReturns (Dropped i w) (loop fuel i id w)
    unfolding attempts
    name_attempts-drops zero i id w = inl refl
    name_attempts-drops (suc fuel) i id w =
        IfReturns-bind (λ x w'. (x.1 ≡ i) × SameDrops w w') (Dropped i w) (name_addrs.next i)
          (on_found fuel id) w (next-SameDrops i w)
          (λ x w' p.
            moved i w w' (on_found fuel id x w') p.1
              (rw p.0 (found_one fuel id x.0 i w' (λ id' w''. name_attempts-drops fuel i id' w''))))

    -- The rest of the function, after the answer to `resolve`.
    abbrev on_resolved :
        {B : Type 0}
        → (ℕ → B)
        → ℕ
        → Result SocketAddrIterator IoError
        → Run (Option (Result B IoError))
    on_resolved {B} make fuel resolved = elim resolved as (λ _. Run (Option (Result B IoError))) [
      | err e ↦ pure (some (err e))
      | ok i ↦ loop fuel i 0 >>= λ ended. pure (report make ended)
    ]

    settled :
        {B : Type 0} (make : ℕ → B) (fuel : ℕ) (name : HostName) (done : Bool) (w w' : World)
        → let c = networking (NetworkingCall.resolve name.text 0 0) in
          let id = (answer_to c w).1 in
          ((answer_to c w).0 == 0) ≡ done
          → SameDrops w w'
          → IfReturns (DropsIterator name w) (
              on_resolved make fuel
                (elim (if done then ok (Resolver.from id) else err (LunaticError.from id))
                  as (λ _. Result SocketAddrIterator IoError) [
                    | ok iter ↦ ok iter
                    | err e ↦ err (other e)
                  ])
                w')
    settled {B} make fuel name true w w' zero_status same =
        let c = networking (NetworkingCall.resolve name.text 0 0) in
        let i = Resolver.from (answer_to c w).1 in
        IfReturns-bind (Dropped i w) (DropsIterator name w) (loop fuel i 0)
          (λ ended. pure (report make ended)) w'
          (moved i w w' (loop fuel i 0 w') same (name_attempts-drops fuel i 0 w'))
          (λ ended w'' p. elim p [
            | inl e ↦ inl (ap (report make) e)
            | inr e ↦ inr (inl (==→eq (answer_to c w).0 0 zero_status, e))
          ])
    settled {B} make fuel name false w w' failed same =
        let c = networking (NetworkingCall.resolve name.text 0 0) in
        inr (inr (==-false→ne (answer_to c w).0 0 failed, same))

    pub first_success-drops :
        {B : Type 0} (make : ℕ → B) (fuel : ℕ) (name : HostName) (w : World)
        → IfReturns (DropsIterator name w) (first_success attempt make fuel name w)
    unfolding first_success resolve_name Resolver.resolve Resolver.resolve_timeout_ timeout_ms
    first_success-drops make fuel name w =
        let c = networking (NetworkingCall.resolve name.text 0 0) in
        settled make fuel name ((answer_to c w).0 == 0) w (after c w) refl refl

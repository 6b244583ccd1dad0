-- ===== src/Net/Attempts/Outcomes.antt =====
-- The loop over the addresses ends, and tries them in order up to the first success.
use mathlib.Core.Path.{fun_ext}
use rust_lib.Common.{
  Bool, ap, ℕ, zero, suc, ◌≤◌, ◌<◌, ◌≡◌, ◌≢◌, ◌⊎◌, inl, inr, refl, List, [], ◌∷◌, Option, none,
  some, ◌==◌, true, false, length, arith,
}
use rust_lib.Host.{Host, World, Run, Outcome, returned, panicked, pure, ◌>>=◌, ◌>>◌}
use rust_lib.Net.Attempts.{Attempted, success, exhausted, out_of_fuel, attempts}
use rust_lib.Net.SocketAddr.{SocketAddr}
use rust_lib.Net.ToSocketAddrs.{list_next}

-- However a run ended, if it returned then with a value of which `P` holds.
abbrev pub IfReturns : ⦃h : Host⦄ {A : Type 0} → (A → World → Type 0) → Outcome A × World → Type 0
IfReturns P (returned a, w) = P a w
IfReturns P (panicked, w) = Unit

module _ ⦃h : Host⦄ (attempt : SocketAddr → ℕ → Run (ℕ × ℕ)) where
  -- The loop as the documentation states it: try the addresses in order until one succeeds.
  unfoldable pub try_all : List SocketAddr → ℕ → Run Attempted
  try_all [] id = pure (exhausted id)
  try_all (addr ∷ addrs) id = do
    (result, id') ← attempt addr id
    elim (result == 0) [ true ↦ pure (success id') | false ↦ try_all addrs id' ]

  -- Over the addresses of a list, any fuel above their number lets the loop do just that.
  pub attempts-try_all :
      (fuel : ℕ) (addrs : List SocketAddr) (id : ℕ) (w : World)
      → length addrs < fuel
      → attempts list_next (λ _. pure tt) attempt fuel addrs id w ≡ try_all addrs id w
  unfolding attempts try_all list_next
  attempts-try_all zero addrs id w h = absurd (omega arith)
  attempts-try_all (suc fuel) [] id w h = refl
  attempts-try_all (suc fuel) (addr ∷ addrs) id w h =
      ap (λ (k : ℕ × ℕ → Run Attempted). (attempt addr id >>= k) w)
        (fun_ext λ x.
          fun_ext λ w'. branch (x.0 == 0) x.1 w' (attempts-try_all fuel addrs x.1 w' (omega arith)))
    where
      branch :
          (b : Bool) (id' : ℕ) (w' : World)
          → attempts list_next (λ _. pure tt) attempt fuel addrs id' w' ≡ try_all addrs id' w'
          → (elim b as (λ _. Run Attempted) [
            | true ↦ pure tt >> pure (success id')
            | false ↦ attempts list_next (λ _. pure tt) attempt fuel addrs id'
          ])
              w'
            ≡ (elim b as (λ _. Run Attempted) [
              | true ↦ pure (success id')
              | false ↦ try_all addrs id'
            ])
                w'
      branch true id' w' ih = refl
      branch false id' w' ih = ih

module _ ⦃h : Host⦄ where
  pub IfReturns-bind :
      {A B : Type 0} (P : A → World → Type 0) (Q : B → World → Type 0) (m : Run A) (f : A → Run B)
      (w : World)
      → IfReturns P (m w)
      → ((a : A) (w' : World) → P a w' → IfReturns Q (f a w'))
      → IfReturns Q ((m >>= f) w)
  IfReturns-bind {A} {B} P Q m f w r k = go (m w) r
    where
      go :
          (o : Outcome A × World)
          → IfReturns P o
          → IfReturns Q (elim o.0 as (λ _. Outcome B × World) [
            | returned a ↦ f a o.1
            | panicked ↦ (panicked, o.1)
          ])
      go (returned a, w') p = k a w' p
      go (panicked, w') p = tt

  pub IfReturns-any : {A : Type 0} (o : Outcome A × World) → IfReturns (λ _ _. Unit {0}) o
  IfReturns-any (returned a, w) = tt
  IfReturns-any (panicked, w) = tt

-- A number of addresses that the iterator can still give: `next` uses one up, and neither it nor an
-- attempt makes more of them.
pub record RunsOut ⦃h : Host⦄ {Iter : Type 0} (next : Iter → Run (Option SocketAddr × Iter))
    (attempt : SocketAddr → ℕ → Run (ℕ × ℕ)) (left : Iter → World → ℕ) : Type 0 where
  pub next_uses :
      (iter : Iter) (w : World)
      → IfReturns (λ found w'. (found.0 ≡ none) ⊎ (left found.1 w' < left iter w)) (next iter w)
  pub attempt_keeps :
      (iter : Iter) (addr : SocketAddr) (id : ℕ) (w : World)
      → IfReturns (λ _ w'. left iter w' ≤ left iter w) (attempt addr id w)

module _ ⦃h : Host⦄ {Iter : Type 0} (next : Iter → Run (Option SocketAddr × Iter))
    (finish : Iter → Run Unit) (attempt : SocketAddr → ℕ → Run (ℕ × ℕ)) (left : Iter → World → ℕ)
    (run_out : RunsOut next attempt left) where
  abbrev Ended : Attempted → World → Type 0
  Ended ended _ = ended ≢ out_of_fuel

  leave :
      (iter : Iter) (ended : Attempted) (w : World)
      → ended ≢ out_of_fuel
      → IfReturns Ended ((finish iter >> pure ended) w)
  leave iter ended w ne =
      IfReturns-bind (λ _ _. Unit) Ended (finish iter) (λ _. pure ended) w
        (IfReturns-any (finish iter w)) (λ _ _ _. ne)

  -- What the loop does with an attempt's answer, and with what `next` gives.
  abbrev on_answer : ℕ → Iter → ℕ × ℕ → Run Attempted
  on_answer fuel iter x = elim (x.0 == 0) as (λ _. Run Attempted) [
    | true ↦ finish iter >> pure (success x.1)
    | false ↦ attempts next finish attempt fuel iter x.1
  ]

  abbrev on_found : ℕ → ℕ → Option SocketAddr × Iter → Run Attempted
  on_found fuel id x = elim x.0 as (λ _. Run Attempted) [
    | none ↦ finish x.1 >> pure (exhausted id)
    | some addr ↦ attempt addr id >>= on_answer fuel x.1
  ]

  answered :
      (fuel : ℕ) (iter : Iter) (id : ℕ) (done : Bool) (w : World)
      → IfReturns Ended (attempts next finish attempt fuel iter id w)
      → IfReturns Ended (
          (elim done as (λ _. Run Attempted) [
            | true ↦ finish iter >> pure (success id)
            | false ↦ attempts next finish attempt fuel iter id
          ])
            w)
  answered fuel iter id true w ih = leave iter (success id) w (λ d. cc)
  answered fuel iter id false w ih = ih

  found_one :
      (fuel id : ℕ) (found : Option SocketAddr) (iter' : Iter) (bound : ℕ) (w : World)
      → bound < suc fuel
      → (found ≡ none) ⊎ (left iter' w < bound)
      → ((id' : ℕ) (w' : World)
          → left iter' w' < fuel
          → IfReturns Ended (attempts next finish attempt fuel iter' id' w'))
      → IfReturns Ended (on_found fuel id (found, iter') w)
  found_one fuel id none iter' bound w b p ih = leave iter' (exhausted id) w (λ d. cc)
  found_one fuel id (some addr) iter' bound w b (inl e) ih = cc
  found_one fuel id (some addr) iter' bound w b (inr less) ih =
      IfReturns-bind (λ _ w'. left iter' w' ≤ left iter' w) Ended (attempt addr id)
        (on_answer fuel iter') w (run_out.attempt_keeps iter' addr id w)
        (λ x w' keeps. answered fuel iter' x.1 (x.0 == 0) w' (ih x.1 w' (omega arith)))

  -- With more fuel than the iterator has addresses left, the loop does not run out of it, where each
  -- `next` gives `None` or uses an address up and no attempt makes more of them (`RunsOut`).
  pub attempts-ne-out_of_fuel :
      (fuel : ℕ) (iter : Iter) (id : ℕ) (w : World)
      → left iter w < fuel
      → IfReturns (λ ended _. ended ≢ out_of_fuel) (attempts next finish attempt fuel iter id w)
  unfolding attempts
  attempts-ne-out_of_fuel zero iter id w b = absurd (omega arith)
  attempts-ne-out_of_fuel (suc fuel) iter id w b =
      IfReturns-bind (λ found w'. (found.0 ≡ none) ⊎ (left found.1 w' < left iter w)) Ended
        (next iter) (on_found fuel id) w (run_out.next_uses iter w)
        (λ found w' p.
          found_one fuel id found.0 found.1 (left iter w) w' b p
            (λ id' w'' less. attempts-ne-out_of_fuel fuel found.1 id' w'' less))

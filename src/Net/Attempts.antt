-- ===== src/Net/Attempts.antt =====
-- The loop `for addr in addr.to_socket_addrs()?` of `bind` (src/net/tcp_listener.rs) and of
-- `connect_timeout_` (src/net/tcp_stream.rs), over the call that it makes for an address.
pub mod Outcomes
pub mod Drops
use rust_lib.Common.{ℕ, zero, suc, Result, ok, err, Option, none, some, true, false, ◌==◌}
use rust_lib.Host.{Host, Run, pure, ◌>>=◌, ◌>>◌}
use rust_lib.LunaticError
use rust_lib.LunaticError.{LunaticError, IoError, other}
use rust_lib.Net.SocketAddr.{SocketAddr}
use rust_lib.Net.ToSocketAddrs.{ToSocketAddrs}

-- How the loop ends: an attempt succeeded and gave `id`, no address is left and `id` is the cell, or
-- the fuel ran out.
pub data Attempted : Type 0 where
  success : ℕ → Attempted
  exhausted : ℕ → Attempted
  out_of_fuel : Attempted

-- What the functions return: the value made of a success, or the error of the last attempt.
abbrev pub report : {B : Type 0} → (ℕ → B) → Attempted → Option (Result B IoError)
report make (success id) = some (ok (make id))
report make (exhausted id) = some (err (other (LunaticError.from id)))
report make out_of_fuel = none

module _ ⦃h : Host⦄ {Iter : Type 0} (next : Iter → Run (Option SocketAddr × Iter))
    (finish : Iter → Run Unit) (attempt : SocketAddr → ℕ → Run (ℕ × ℕ)) where
  -- `attempt addr id` is the host call, given what the `id` cell holds. Leaving the loop drops the
  -- iterator.
  unfoldable pub attempts : ℕ → Iter → ℕ → Run Attempted
  attempts zero iter id = pure out_of_fuel
  attempts (suc fuel) iter id = do
    (found, iter') ← next iter
    elim found [
      | none ↦ finish iter' >> pure (exhausted id)
      | some addr ↦ (do
        (result, id') ← attempt addr id
        elim (result == 0) [
          | true ↦ finish iter' >> pure (success id')
          | false ↦ attempts fuel iter' id'
        ])
    ]

module _ ⦃h : Host⦄ {A : Type 0} ⦃t : ToSocketAddrs A⦄
    (attempt : SocketAddr → ℕ → Run (ℕ × ℕ)) where
  -- The whole body, over what is made of the number of a success; `none` is no fuel left.
  unfoldable pub first_success : {B : Type 0} → (ℕ → B) → ℕ → A → Run (Option (Result B IoError))
  first_success make fuel addr = do
    resolved ← t.to_socket_addrs addr
    elim resolved [
      | err e ↦ pure (some (err e))
      | ok iter ↦ (do ended ← attempts t.next t.drop attempt fuel iter 0; pure (report make ended))
    ]

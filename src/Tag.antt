-- ===== src/Tag.antt =====
-- Message tags and the counter behind them (src/tag.rs).
pub mod Order
use rust_lib.Common.{ℕ, ◌+◌, ◌%◌, ◌^◌}
use rust_lib.Host.{Host, Run, World, returned}

-- The `i64` as its bit pattern.
pub record Tag : Type 0 where
  pub id : ℕ

abbrev pub from : ℕ → Tag
from id = record { id = id }

module _ ⦃h : Host⦄ where
  -- `Tag::new`, where `COUNTER += 1` wraps, as it does in a build without overflow checks.
  unfoldable pub new : Run Tag
  new w = let next = (w.counter + 1) % 2 ^ 64 in (returned (from next), record w { counter = next })

  -- `Default::default`
  unfoldable pub default : Run Tag
  unfolding new
  default = new

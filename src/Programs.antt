-- ===== src/Programs.antt =====
-- The programs of examples and tests, which are clients of the library. What they use of the standard
-- library's output is a parameter.
pub mod Links
pub mod Greeting
pub mod Adder
pub mod Echo
pub mod Resolving
pub mod Fibonacci
use rust_lib.Common.{ℕ, List, Bool, if◌then◌else◌, Result, ok, err}
use rust_lib.Host.{Host, Run, pure, panic}
use rust_lib.LunaticError
use rust_lib.LunaticError.{IoError, other}

-- `println!`, of the text that was formatted.
pub record Console ⦃h : Host⦄ : Type 0 where
  pub println : List ℕ → Run Unit

module _ ⦃h : Host⦄ where
  -- `assert!`
  abbrev pub assert : Bool → Run Unit
  assert holds = if holds then pure tt else panic

  -- Dropping an `std::io::Error` drops the error inside.
  abbrev pub drop_io : IoError → Run Unit
  drop_io (other e) = LunaticError.drop e

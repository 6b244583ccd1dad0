-- ===== src/LunaticError.antt =====
-- The opaque error of the runtime (src/error.rs).
pub mod Text
use rust_lib.Common.{ℕ, List, Option, none, some, replicate, fill, if◌then◌else◌}
use rust_lib.Common.Utf8.{is_utf8}
use rust_lib.Host.{Host, Run, pure, panic, ◌>>=◌, invoke, error, ErrorCall}

pub record LunaticError : Type 0 where
  pub id : ℕ

abbrev pub from : ℕ → LunaticError
from id = record { id = id }

-- `std::io::Error::new(ErrorKind::Other, error)`
pub data IoError : Type 0 where
  other : LunaticError → IoError

module _ ⦃h : Host⦄ where
  unfoldable pub drop : LunaticError → Run Unit
  drop e = invoke (error (ErrorCall.drop e.id))

  -- `Debug::fmt` and `Display::fmt`, which are the same: the UTF-8 text that they write.
  unfoldable pub fmt : LunaticError → Run (List ℕ)
  fmt e = do
    size ← invoke (error (ErrorCall.string_size e.id))
    written ← invoke (error (ErrorCall.to_string e.id))
    let buff = fill (replicate size 0) written
    if is_utf8 buff then pure buff else panic

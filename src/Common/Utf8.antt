-- ===== src/Common/Utf8.antt =====
-- `std::str::from_utf8`: whether bytes are well-formed UTF-8.
use Prim.Native.Nat.{ℕ, zero, suc}
use mathlib.Core.Bool.{Bool, true, false}
use mathlib.Core.Option.{Option, none, some}
use mathlib.Core.List.{List, [], ◌∷◌}
use rust_lib.Common.Tests.{ltb, ◌==◌, if◌then◌else◌}

abbrev between : ℕ → ℕ → ℕ → Bool
between low high b = if ltb b low then false else if ltb high b then false else true

-- How many continuation bytes are due, and the range of the next one.
record Due : Type 0 where
  left : ℕ
  low : ℕ
  high : ℕ

abbrev due : ℕ → ℕ → ℕ → Option Due
due left low high = some (record { left = left; low = low; high = high })

-- The table of well-formed sequences, by their first byte.
first_byte : ℕ → Option Due
first_byte b =
    if ltb b 0x80
    then due 0 0 0
    else if between 0xC2 0xDF b
    then due 1 0x80 0xBF
    else if b == 0xE0
    then due 2 0xA0 0xBF
    else if b == 0xED
    then due 2 0x80 0x9F
    else if between 0xE1 0xEF b
    then due 2 0x80 0xBF
    else if b == 0xF0
    then due 3 0x90 0xBF
    else if between 0xF1 0xF3 b
    then due 3 0x80 0xBF
    else if b == 0xF4
    then due 3 0x80 0x8F
    else none

next_byte : Due → ℕ → Option Due
next_byte d b = elim d.left [
  | zero ↦ first_byte b
  | suc left ↦ if between d.low d.high b then due left 0x80 0xBF else none
]

utf8_loop : List ℕ → Option Due → Bool
utf8_loop bytes none = false
utf8_loop [] (some d) = d.left == 0
utf8_loop (b ∷ bytes) (some d) = utf8_loop bytes (next_byte d b)

unfoldable pub is_utf8 : List ℕ → Bool
unfolding utf8_loop next_byte first_byte
is_utf8 bytes = utf8_loop bytes (due 0 0 0)

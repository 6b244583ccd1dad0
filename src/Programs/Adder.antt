-- ===== src/Programs/Adder.antt =====
-- The client and the server of examples/request_replay.rs. The `serde` code of the pair and of the sum
-- is a parameter.
pub mod Sums
use rust_lib.Common.{
  ℕ, zero, suc, ◌+◌, ◌%◌, ◌^◌, Result, ok, err, Option, none, some, ◌==◌, if◌then◌else◌, true,
  false,
}
use rust_lib.Host.{Host, Run, pure, panic, ◌>>=◌, ◌>>◌}
use rust_lib.Mailbox
use rust_lib.Mailbox.{Mailbox}
use rust_lib.Process
use rust_lib.Process.{Process}
use rust_lib.Programs.{assert}
use rust_lib.Request
use rust_lib.Request.{Request, reply, get_data, request, request_serde}
use rust_lib.Serde.{Rmp, Serde, unwrap}
use rust_lib.Spawn.{FunctionTable}
use rust_lib.Spawn.Family.{spawn}

-- Of two `i32`s, as their bit patterns, in a build without overflow checks.
unfoldable pub sum_of : ℕ × ℕ → ℕ
sum_of (a, b) = (a + b) % 2 ^ 32

module _ ⦃h : Host⦄ ⦃r : Rmp⦄ ⦃pair : Serde (ℕ × ℕ)⦄ ⦃sum : Serde ℕ⦄ where
  -- A round of the server's `loop`.
  unfoldable pub serve : Mailbox (Request (ℕ × ℕ) ℕ) → Run Unit
  serve inbox = do
    request ← unwrap (Mailbox.receive inbox)
    reply request (sum_of (get_data request))

  -- `assert_eq!(add_server.request(numbers).unwrap(), expected)`
  unfoldable pub assert_sum : Process (Request (ℕ × ℕ) ℕ) → ℕ × ℕ → ℕ → Run Unit
  assert_sum add_server numbers expected = do
    answer ← unwrap (request add_server numbers)
    assert (answer == expected)

  -- `main`, where the server's closure has the index `closure`.
  unfoldable pub main : ⦃table : FunctionTable⦄ → ℕ → Mailbox Unit → Run Unit
  main closure _ = do
    add_server ← unwrap (spawn {T = Request (ℕ × ℕ) ℕ} closure)
    assert_sum add_server (1, 1) 2
    assert_sum add_server (1, 2) 3
    Process.drop add_server

-- ===== src/Examples/Starting.antt =====
-- The start of a child at concrete data.
use rust_lib.Common.{ℕ, ◌≡◌, ◌==◌, refl, ok, none, if◌then◌else◌, arith}
use rust_lib.Common.Bytes.{from_le_bytes}
use rust_lib.Examples.Fixture.{runtime, fresh, table, plain_rmp, number_serde}
use rust_lib.Host.{Host, World, Run, invoke, after, process, ProcessCall, returned}
use rust_lib.Mailbox.{Mailbox, mailbox}
use rust_lib.Mailbox.Branches.{receive_call}
use rust_lib.MessageRw
use rust_lib.Spawn.Child.{child-runs}
use rust_lib.Spawn.Entry.{
  Table, type_helper_wrapper, type_helper_wrapper_context, lunatic_spawn_by_index,
}

instance abbrev plain : Host
plain = runtime 0

-- Functions that sleep: for their own index, or for the number that they are handed.
instance abbrev functions : Table (Mailbox ℕ → Run Unit)
functions = record { at = λ n _. invoke (process (ProcessCall.sleep_ms n)) }

instance abbrev taking : Table (ℕ → Mailbox ℕ → Run Unit)
taking = record { at = λ n context _. invoke (process (ProcessCall.sleep_ms context)) }

instance abbrev helpers : Table (ℕ → Run Unit)
helpers = record {
  at = λ n. if n == 3 then type_helper_wrapper ℕ else type_helper_wrapper_context ℕ ℕ;
}

abbrev at_function : World
at_function =
    (number_serde.deserialize MessageRw.read (after (receive_call none none) (fresh tt))).1

is_decoded :
    number_serde.deserialize MessageRw.read (after (receive_call none none) (fresh tt))
    ≡ (returned (ok 42), at_function)
unfolding MessageRw.read from_le_bytes
is_decoded = refl

child-runs_example :
    (lunatic_spawn_by_index 3 70 (fresh tt) ≡ functions.at 70 mailbox (fresh tt))
    × (lunatic_spawn_by_index 4 70 (fresh tt) ≡ taking.at 70 42 mailbox at_function)
child-runs_example =
    child-runs ℕ ℕ 70 42 (fresh tt) at_function refl refl (omega arith) (omega arith) is_decoded

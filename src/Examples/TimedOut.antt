-- ===== src/Examples/TimedOut.antt =====
-- A request over a runtime in which every wait ends by its time limit.
use rust_lib.Common.{ℕ, ◌≡◌, refl, true, false, ok, some}
use rust_lib.Examples.Fixture.{runtime, fresh, plain_rmp, number_serde}
use rust_lib.Host.{Host, World, returned, after, answer_to}
use rust_lib.Mailbox.{timed_out}
use rust_lib.MessageRw
use rust_lib.Process
use rust_lib.Process.{Process, write_message}
use rust_lib.Request
use rust_lib.Common.Bytes.{from_le_bytes}
use rust_lib.Request.{Request, request_, request_serde}
use rust_lib.Request.Call.{opened, made, search, request_-timed_out}
use rust_lib.Timeout.{Duration}

instance abbrev late : Host
late = runtime 9027

abbrev server : Process (Request ℕ ℕ)
server = record { id = 5; consumed = false }

abbrev second : Duration
second = record { secs = 1; nanos = 0 }

abbrev asked : Request ℕ ℕ
asked = made 42 (fresh tt)

-- The request once it is written: its handle has been moved into the message.
abbrev moved : Request ℕ ℕ
moved = Request.new 42 asked.tag (record { id = 1; consumed = true })

abbrev at_write : World
at_write = (write_message asked (opened (fresh tt))).1

abbrev at_search : World
at_search = after (search server (some second)) at_write

abbrev at_read : World
at_read = (number_serde.deserialize MessageRw.read at_search).1

abbrev at_drop : World
at_drop = (Request.drop moved at_read).1

is_written : write_message asked (opened (fresh tt)) ≡ (returned moved, at_write)
unfolding write_message Request.serialize Process.serialize MessageRw.write
is_written = refl

is_late : answer_to (search server (some second)) at_write ≡ timed_out
is_late = refl

is_decoded : number_serde.deserialize MessageRw.read at_search ≡ (returned (ok 42), at_read)
unfolding MessageRw.read from_le_bytes
is_decoded = refl

is_dropped : Request.drop moved at_read ≡ (returned tt, at_drop)
unfolding Request.drop Process.drop
is_dropped = refl

request_-timed_out_example :
    request_ server 42 (some second) (fresh tt) ≡ (returned (ok 42), at_drop)
request_-timed_out_example =
    request_-timed_out server 42 (some second) 42 moved (fresh tt) at_write at_read at_drop
      is_written is_late is_decoded is_dropped

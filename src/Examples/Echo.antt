-- ===== src/Examples/Echo.antt =====
-- A connection that is handed to a child as its context, as in examples/tcp_echo_server.rs.
use rust_lib.Common.{◌+◌, ℕ, ◌==◌, refl, [], ◌∷◌, none, some, arith, if◌then◌else◌}
use rust_lib.Delivery.Codec.{Codec, envelope}
use rust_lib.Delivery.Handles.{stream_codec}
use rust_lib.Examples.Delivered.{state}
use rust_lib.Examples.Fixture.{fresh, plain_rmp, table}
use rust_lib.Examples.Numbers.{plain_format}
use rust_lib.Examples.Post.{post, post_sight}
use rust_lib.Examples.Post.Laws.{post-Lawful}
use rust_lib.Delivery.Starting.{Ends, spawn_-Ends}
use rust_lib.Spawn.Calls.{spawn_answer, spawn_world}
use rust_lib.Spawn.Contexts.{BothLinked, spawn_link_with_branches}
use rust_lib.Host.{World, Run, Returns, pure}
use rust_lib.Mailbox.{Mailbox, mailbox}
use rust_lib.Net.TcpStream
use rust_lib.Net.TcpStream.{TcpStream, tcp_stream_serde}
use rust_lib.Spawn.{Context, with_context, spawn_}
use rust_lib.Spawn.Entry.{Table, type_helper_wrapper, type_helper_wrapper_context}

abbrev connections : Codec post_sight tcp_stream_serde ℕ
connections = stream_codec post-Lawful (plain_format post-Lawful)

instance abbrev plain_functions : Table (Mailbox ℕ → Run Unit)
plain_functions = record { at = λ n m. pure tt }

-- The child's function closes the connection.
instance abbrev handlers : Table (TcpStream → Mailbox ℕ → Run Unit)
handlers = record { at = λ n stream m. TcpStream.drop stream }

instance abbrev helpers : Table (ℕ → Run Unit)
helpers = record {
  at = λ n. if n == 3 then type_helper_wrapper ℕ else type_helper_wrapper_context TcpStream ℕ;
}

abbrev listener : World
listener = fresh (record (state 1 [] []) { streams = some 77 ∷ [] })

abbrev handler : World
handler = fresh (state 50 [] (envelope connections 0 77 ∷ []))

abbrev start : Context TcpStream ℕ
start = with_context 70 (TcpStream.from 0)

spawn_-Ends_example :
    Returns
      (Ends post-Lawful ℕ connections start
        (spawn_answer (some 5) none start listener)
        77
        listener
        (spawn_world (some 5) none start listener))
      (spawn_ (some 5) none start listener)
unfolding stream_codec
spawn_-Ends_example = spawn_-Ends post-Lawful ℕ connections (some 5) none start 77 listener refl

spawn_link_with_branches_example :
    BothLinked post-Lawful ℕ ℕ connections
      (0 + 1)
      mailbox
      (record { id = 34 })
      (TcpStream.from 0)
      77
      70
      listener
unfolding stream_codec
spawn_link_with_branches_example =
    spawn_link_with_branches post-Lawful ℕ ℕ connections mailbox (record { id = 34 })
      (TcpStream.from 0) 77 70 listener refl (omega arith)

-- ===== src/Lib.antt =====
-- rust-lib, the library with which a Rust program compiled to WebAssembly uses the Lunatic runtime:
-- processes, messages between them, environments of modules, and TCP.
--
-- The program and its parts. A program under Lunatic is a set of processes, and the code here runs
-- inside one of them. All that it can do to the outside is a call of the runtime's functions; what it
-- keeps is a counter of tags and handles, which are numbers that the runtime gave, with a destructor
-- that gives them back. Processes send one another values, which serde writes into a scratch buffer
-- of the runtime and reads back, and a handle in a message goes through a table of the runtime. A tag
-- chooses among the messages of a mailbox, and links the death of a process to a signal. Spawning
-- calls an exported function of the module by its name, with the indexes of two functions as
-- parameters, and sends the child its context as the first message.
--
-- The model is a state monad. `Host` (Host/Effect) is the runtime: a state of its own, and an
-- answer to each call. It is a parameter, as it is not code of this repository, and what it answers
-- is assumed only where a theorem says so. `World` holds its state, the counter of src/tag.rs, and
-- the calls that were made, newest first. `Run A` takes a world to an outcome and a world. The
-- outcome is a value or a panic; a panic ends the process, so nothing is dropped after it. Where
-- Rust drops a value at the end of a scope the model calls its `drop`. A `Cell` of a handle that a
-- method changes is a field, and the method returns the handle with the new value.
--
-- The files, and the code that each is about:
--   Common            lists, bytes, integers of fixed width, UTF-8, texts as bytes
--   Host              src/host_api.rs: `Call` has a constructor for every imported function; a pointer
--                     with a length is the list of bytes, an out pointer a part of the answer, and
--                     integers are their unsigned bit patterns; `usize` has 32 bits, as on wasm32
--   Trace             what the calls say from outside: messages sent, handles given back, whether the
--                     process dies with its links; Trace/Quiet has the hypotheses on serializers
--   Tag               src/tag.rs: `Tag::new` is `Tag.new`, `Tag::from` is `Tag.from`
--   LunaticError      src/error.rs: `fmt` is the `Display` of an error
--   Timeout           the `match timeout` that src/mailbox.rs, src/process.rs, src/net/resolver.rs and
--                     src/net/tcp_stream.rs spell alike: `timeout_ms`
--   Serde             `Rmp` and `Serde`, the methods of rmp_serde and of a type's serde code
--   MessageRw         `MessageRw` of src/mailbox.rs
--   Mailbox           `Mailbox` of src/mailbox.rs
--   LinkMailbox       `LinkMailbox`, `Message` and `TransformMailbox` of src/mailbox.rs
--   Process           handles of src/process.rs: `==`, `id`, `clone`, drop, serde, `send_`, links,
--                     `this`, `sleep`; Process/Handle and Process/Release have what holds of them
--   Request           src/request.rs, and `request_` of src/process.rs
--   Param             `Param` and `params_to_vec` of src/environment.rs; Param/Decode is a decoder,
--                     written from the layout alone
--   Spawn             `spawn_` of src/process.rs, in the steps `spawn_call`, `start_child` and
--                     `drop_context`; Spawn/Family has the six `spawn` functions over it, Spawn/Entry
--                     the exported `_lunatic_spawn_by_index` and the two type helpers, Spawn/Child
--                     what a child does first, Spawn/Watching a process that hears of its children
--   ThisModule, Module, Config, Environment
--                     the types of these names in src/environment.rs; Environment/Names says what a
--                     runtime is asked for of names
--   Net               src/net: Resolver is resolver.rs, ToSocketAddrs is mod.rs, SocketAddr the two
--                     conversions of addresses, TcpStream is tcp_stream.rs, TcpListener is
--                     tcp_listener.rs, Attempts the loop over addresses that the last two share;
--                     TcpStream/Transfer says what a runtime is asked for of the bytes of connections
--   Delivery          messages from end to end. Delivery/Runtime says what a runtime is asked for
--                     (`Lawful`), Delivery/Codec what is asked of a type's serde code (`Codec`), which
--                     Delivery/Handles and Delivery/Requests show of handles and requests.
--                     Delivery/Sending, Delivery/Replies, Delivery/Starting and Delivery/Contexts are
--                     messages, requests with their replies, children that are started, and their
--                     contexts; `serve` of Delivery/Serving is a turn of a
--                     server in general, of which that of examples/request_replay.rs is
--                     one; Delivery/Order is about the messages that wait in a mailbox
--   Macros            lunatic-macros/src/lib.rs: `main`, `test` and `parse` are the macros, `run_main`,
--                     `run_test` and `with_mailbox` what the generated functions do
--   Programs          programs over the library. Links is examples/link.rs and examples/environment.rs,
--                     Greeting examples/spawn.rs and examples/messaging.rs, Adder
--                     examples/request_replay.rs, Echo examples/tcp_echo_server.rs, Resolving
--                     examples/resolve.rs, Fibonacci the function of tests/process_test.rs. The
--                     closures of a program are definitions, and their indexes arguments of its `main`
--   Examples          runs and theorems at concrete data, over runtimes written for them
--
-- Loops. The loop over the addresses of `connect` and `bind` has an iterator that may be the
-- runtime's, which could go on for ever, so that it runs on fuel and gives `none` where that runs
-- out; one more than the number of addresses is enough. So does the loop of the echo server over
-- the lines of a connection, for which more than the number of its lines is enough, its loop over
-- connections and the one that prints addresses. The endless loop of the server of sums is modelled
-- by its round. The loop over the attributes of a test is a recursion on their list.
--
-- Not modelled: src/lib.rs, which has documentation and names passed on; examples/print_env.rs,
-- which uses the standard library alone; of the tests all but `fibonacci`. The tokens of syn and
-- quote, the standard library's conversion of addresses and its formatter are parameters, as they
-- are not code of this repository. Of serde, rmp_serde, uuid and std::time the methods are the
-- parameters `Rmp` and `Serde`, a comparison of two numbers, and seconds with nanoseconds. The
-- indexes of functions and the types that a `transmute` gives them are parameters too,
-- `FunctionTable` and `Table`. `Console` is `println!`, `LineReader` is `BufReader`.
pub mod Common
pub mod Host
pub mod Tag
pub mod Trace
pub mod Timeout
pub mod LunaticError
pub mod Serde
pub mod MessageRw
pub mod Mailbox
pub mod LinkMailbox
pub mod Process
pub mod Request
pub mod Param
pub mod Spawn
pub mod ThisModule
pub mod Config
pub mod Module
pub mod Environment
pub mod Net
pub mod Delivery
pub mod Macros
pub mod Programs
mod Examples

-- ===== src/Programs/Echo.antt =====
-- The server of examples/tcp_echo_server.rs. `BufReader` is of the standard library, and a parameter.
pub mod Reading
pub mod Lines
pub mod Calm
pub mod Serving
use mathlib.Core.Bool.{◌||◌}
use rust_lib.Common.{
  ℕ, zero, suc, List, [], ◌∷◌, Result, ok, err, Option, none, some, Bool, true, false, ◌==◌,
  if◌then◌else◌,
}
use rust_lib.Common.Text.{codes}
use rust_lib.Host.{Host, Run, pure, ◌>>=◌, ◌>>◌}
use rust_lib.LunaticError.{IoError}
use rust_lib.Mailbox.{Mailbox}
use rust_lib.Net.SocketAddr.{SocketAddr}
use rust_lib.Net.TcpListener
use rust_lib.Net.TcpListener.{TcpListener}
use rust_lib.Net.TcpStream
use rust_lib.Net.TcpStream.{TcpStream, tcp_stream_serde}
use rust_lib.Net.ToSocketAddrs.{HostName, name_addrs}
use rust_lib.Process
use rust_lib.Process.{Process}
use rust_lib.Programs.{drop_io}
use rust_lib.Serde.{Rmp, unwrap}
use rust_lib.Spawn.{FunctionTable}
use rust_lib.Spawn.Family.{spawn_with}

-- `BufReader<TcpStream>`: `read_line` of an empty buffer gives the count, the buffer and the reader.
pub record LineReader ⦃h : Host⦄ : Type 1 where
  pub Reader : Type 0
  pub new : TcpStream → Reader
  pub read_line : Reader → Run (Result ℕ IoError × List ℕ × Reader)
  pub drop : Reader → Run Unit

-- `str::contains`
abbrev pub starts_with : List ℕ → List ℕ → Bool
starts_with text [] = true
starts_with [] (c ∷ pattern) = false
starts_with (b ∷ text) (c ∷ pattern) = if b == c then starts_with text pattern else false

abbrev pub contains : List ℕ → List ℕ → Bool
contains [] pattern = starts_with [] pattern
contains (b ∷ text) pattern = starts_with (b ∷ text) pattern || contains text pattern

-- `buffer.contains("exit") || read == 0`
unfoldable pub is_last : ℕ → List ℕ → Bool
is_last count buffer = contains buffer (codes "exit") || (count == 0)

module _ ⦃h : Host⦄ ⦃lines : LineReader⦄ where
  -- The `loop`, which ends with the reader, or with `none` where the fuel runs out.
  unfoldable pub echo : ℕ → lines.Reader → TcpStream → Run (Option lines.Reader)
  echo zero buf_reader tcp_stream = pure none
  echo (suc fuel) buf_reader tcp_stream = do
    (result, buffer, buf_reader') ← lines.read_line buf_reader
    count ← unwrap (pure result)
    elim (is_last count buffer) [
      | true ↦ pure (some buf_reader')
      | false ↦ unwrap (TcpStream.write tcp_stream buffer) >>= λ _. echo fuel buf_reader' tcp_stream
    ]

  unfoldable pub handle : ℕ → TcpStream → Mailbox Unit → Run (Option Unit)
  handle fuel tcp_stream _ = do
    copy ← TcpStream.clone tcp_stream
    ended ← echo fuel (lines.new copy) tcp_stream
    elim ended [
      | none ↦ pure none
      | some buf_reader ↦ lines.drop buf_reader >> TcpStream.drop tcp_stream >> pure (some tt)
    ]

module _ ⦃h : Host⦄ ⦃r : Rmp⦄ ⦃table : FunctionTable⦄ where
  -- The `while let` of `main`, where `handle` has the index `function`.
  unfoldable pub accept_all : ℕ → TcpListener → ℕ → Run (Option Unit)
  accept_all zero listener function = pure none
  accept_all (suc fuel) listener function = do
    accepted ← TcpListener.accept listener
    elim accepted [
      | err e ↦ drop_io e >> pure (some tt)
      | ok (tcp_stream, _peer) ↦ (do
        child ← unwrap (spawn_with {T = Unit {0}} tcp_stream function)
        Process.drop child
        accept_all fuel listener function)
    ]

  -- `main`; the first fuel is that of `bind`.
  unfoldable pub main : ℕ → ℕ → ℕ → Run (Option Unit)
  main addresses fuel function = do
    bound ←
        TcpListener.bind addresses
          (let addr : HostName = record { text = codes "127.0.0.1:1337" } in addr)
    elim bound [
      | none ↦ pure none
      | some result ↦ (do
        listener ← unwrap (pure result)
        ended ← accept_all fuel listener function
        elim ended [ none ↦ pure none | some _ ↦ TcpListener.drop listener >> pure (some tt) ])
    ]

-- ===== src/Programs/Echo/Reading.antt =====
-- What examples/tcp_echo_server.rs relies on, and what is to be echoed.
use rust_lib.Common.{ℕ, ◌≡◌, List, [], ◌∷◌, ◌++◌, length, take, ok, if◌then◌else◌}
use rust_lib.Common.Text.{codes}
use rust_lib.Host.{Host, World, Returns, NetworkingCall, networking}
use rust_lib.Net.TcpStream.Transfer.{Sockets}
use rust_lib.Programs.Echo.{LineReader, contains}

-- The lines that are to be echoed: those before the first with `exit` in it.
abbrev pub echoes : List (List ℕ) → List (List ℕ)
echoes [] = []
echoes (line ∷ lines) = if contains line (codes "exit") then [] else line ∷ echoes lines

-- Of each line, one after the other, the bytes in front that a count of bytes says, of which `Counts`
-- holds.
abbrev pub Fronts : (List ℕ → ℕ → Type 0) → List (List ℕ) → List ℕ → Type 0
Fronts Counts [] bytes = bytes ≡ []
Fronts Counts (line ∷ lines) bytes =
    (n : ℕ) × (rest : List ℕ) × Counts line n
    × (bytes ≡ take n line ++ rest)
    × Fronts Counts lines rest

-- What the program relies on: the reader gives the lines that come on its stream, and then a count of 0;
-- neither it nor a clone or a drop of a handle sends anything, and a write takes no line away.
pub record Lines ⦃h : Host⦄ (sockets : Sockets) (reader : LineReader) : Type 0 where
  pub lines_of : reader.Reader → h.State → List (List ℕ)
  pub reads :
      (r : reader.Reader) (line : List ℕ) (lines : List (List ℕ)) (w : World)
      → lines_of r w.host ≡ line ∷ lines
      → Returns
          (λ x w'.
            (x ≡ (ok (length line), line, x.2))
            × (lines_of x.2 w'.host ≡ lines)
            × ((id : ℕ) → sockets.accepted w'.host id ≡ sockets.accepted w.host id))
          (reader.read_line r w)
  pub ends :
      (r : reader.Reader) (w : World)
      → lines_of r w.host ≡ []
      → Returns
          (λ x w'.
            (x ≡ (ok 0, [], x.2))
            × ((id : ℕ) → sockets.accepted w'.host id ≡ sockets.accepted w.host id))
          (reader.read_line r w)
  pub write_keeps :
      (r : reader.Reader) (id : ℕ) (bufs : List (List ℕ)) (limit : ℕ) (s : h.State)
      → lines_of r (h.answer (networking (NetworkingCall.tcp_write_vectored id bufs limit 0)) s).1
        ≡ lines_of r s
  pub clones :
      (id j : ℕ) (s : h.State)
      → sockets.accepted (h.answer (networking (NetworkingCall.clone_tcp_stream id)) s).1 j
        ≡ sockets.accepted s j
  pub drops :
      (id j : ℕ) (s : h.State)
      → sockets.accepted (h.answer (networking (NetworkingCall.drop_tcp_stream id)) s).1 j
        ≡ sockets.accepted s j
  pub drops_reader :
      (r : reader.Reader) (w : World)
      → Returns
          (λ _ w'. (id : ℕ) → sockets.accepted w'.host id ≡ sockets.accepted w.host id)
          (reader.drop r w)

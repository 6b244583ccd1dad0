-- ===== src/Examples/Echoed.antt =====
-- A connection that examples/tcp_echo_server.rs answers, at concrete data.
use rust_lib.Common.{
  ℕ, ◌≡◌, refl, ap, append-nil, ◌≤◌, List, [], ◌∷◌, ◌++◌, Result, ok, length, take, concat, arith,
}
use rust_lib.Common.Text.{codes}
use rust_lib.Examples.Fixture.{any_answer, fresh}
use rust_lib.Host.{Host, World, Returns, returned, pure, Call, Answer, networking, NetworkingCall}
use rust_lib.LunaticError.{IoError}
use rust_lib.Mailbox.{mailbox}
use rust_lib.Net.TcpStream
use rust_lib.Net.TcpStream.{TcpStream}
use rust_lib.Net.TcpStream.Transfer.{Sockets, Streams}
use rust_lib.Programs.Echo.{LineReader, handle}
use rust_lib.Programs.Echo.Reading.{Lines}
use rust_lib.Programs.Echo.Lines.{Handled, handle-Handled}

-- What was accepted, and the lines that are to come.
pub record Talk : Type 0 where
  pub accepted : List ℕ
  pub lines : List (List ℕ)

-- Two bytes are accepted at a time, where there are two.
abbrev accepting : List ℕ → ℕ
accepting [] = 0
accepting (x ∷ []) = 1
accepting (x ∷ y ∷ bytes) = 2

accepting_bounds : (bytes : List ℕ) → accepting bytes ≤ length bytes
accepting_bounds [] = omega arith
accepting_bounds (x ∷ []) = omega arith
accepting_bounds (x ∷ y ∷ bytes) = omega arith

abbrev talk_answer : (c : Call) → Talk → Answer c × Talk
talk_answer (networking (NetworkingCall.tcp_write_vectored id bufs limit cell)) s = (
  (0, accepting (concat bufs)),
  record s { accepted = s.accepted ++ take (accepting (concat bufs)) (concat bufs) },
)
talk_answer (networking (NetworkingCall.tcp_read id space limit cell)) s = ((1, 9, []), s)
talk_answer c s = (any_answer 0 c, s)

instance abbrev talk : Host
talk = record { State = Talk; answer = talk_answer }

abbrev talk_sockets : Sockets
talk_sockets = record { accepted = λ s id. s.accepted; coming = λ s id. [] }

talk-Streams : Streams talk_sockets
talk-Streams = record {
  writes = λ id bufs limit s e. (refl, refl, accepting_bounds (concat bufs));
  write_fails = λ id bufs limit s ne. absurd (ne refl);
  reads = λ id space limit s e. absurd (omega arith);
  read_fails = λ id space limit s ne. (refl, refl);
  flushes = λ id s. (refl, refl);
}

abbrev next_line : List (List ℕ) → World → Result ℕ IoError × List ℕ × Unit {0}
next_line [] w = (ok 0, [], tt)
next_line (line ∷ lines) w = (ok (length line), line, tt)

abbrev other_lines : List (List ℕ) → List (List ℕ)
other_lines [] = []
other_lines (line ∷ lines) = lines

abbrev without_line : World → World
without_line w = record w { host = record (w.host) { lines = other_lines w.host.lines } }

-- A reader that finds its lines in the state of the runtime.
instance abbrev talk_reader : LineReader
talk_reader = record {
  Reader = Unit {0};
  new = λ c. tt;
  read_line = λ r w. (returned (next_line w.host.lines w), without_line w);
  drop = λ r. pure tt;
}

talk-Lines : Lines talk_sockets talk_reader
talk-Lines = record {
  lines_of = λ r s. s.lines;
  reads = λ r line lines w e. rw e (refl, refl, λ id. refl);
  ends = λ r w e. rw e (refl, λ id. refl);
  write_keeps = λ r id bufs limit s. refl;
  clones = λ id j s. refl;
  drops = λ id j s. refl;
  drops_reader = λ r w id. refl;
}

abbrev caller : TcpStream
caller = TcpStream.from 4

-- The counts: of a line of more than one byte, two.
abbrev Counted : List ℕ → ℕ → Type 0
Counted line n = n ≡ accepting line

talk_counts :
    (line : List ℕ) (s : Talk)
    → let (status, n) =
        (talk.answer (networking (NetworkingCall.tcp_write_vectored 4 (line ∷ []) 0 0)) s).0 in
      (status ≡ 0) × Counted line n
talk_counts line s = (refl, ap accepting (append-nil line))

abbrev said : List (List ℕ)
said = codes "hi!" ∷ codes "exit" ∷ codes "ho!" ∷ []

abbrev called : World
called = fresh (record { accepted = []; lines = said })

handle-Handled_example :
    Returns
      (λ ended w'. Handled talk-Streams talk-Lines caller Counted talk_counts said called ended w')
      (handle 4 caller mailbox called)
unfolding talk-Lines
handle-Handled_example =
    handle-Handled talk-Streams talk-Lines caller Counted talk_counts 4 said mailbox called refl
      (omega arith) (omega arith, (omega arith, (omega arith, tt))) refl

-- Two bytes of the first line come back, and none of those behind `exit`.
talk_bytes : (handle 4 caller mailbox called).1.host.accepted ≡ codes "hi"
unfolding handle rust_lib.Programs.Echo.echo rust_lib.Programs.Echo.is_last TcpStream.write
    TcpStream.write_vectored TcpStream.clone TcpStream.drop
talk_bytes = refl

-- ===== src/Examples/Transferred.antt =====
-- A connection over which a few bytes go both ways, at concrete data.
use rust_lib.Common.{
  ℕ, zero, suc, ◌≡◌, ◌≢◌, ◌≤◌, refl, List, [], ◌∷◌, ◌++◌, length, take, concat, replicate, All,
  arith,
}
use rust_lib.Common.Bytes.{IsByte}
use rust_lib.Examples.Fixture.{any_answer, fresh}
use rust_lib.Host.{Host, World, Returns, Call, Answer, networking, NetworkingCall}
use rust_lib.Net.TcpStream
use rust_lib.Net.TcpStream.{TcpStream}
use rust_lib.Net.TcpStream.Transfer.{
  Sockets, Streams, Action, put, put_vectored, get, flushed, Moved, sent_of, read_of, all_of,
  act_all, act_all-Moved,
}

-- What was accepted, and how many bytes are to come, each of them 7.
pub record Line : Type 0 where
  pub accepted : List ℕ
  pub left : ℕ

-- Two bytes are accepted at a time, where there are two.
abbrev accepting : List ℕ → ℕ
accepting [] = 0
accepting (x ∷ []) = 1
accepting (x ∷ y ∷ bytes) = 2

accepting_bounds : (bytes : List ℕ) → accepting bytes ≤ length bytes
accepting_bounds [] = omega arith
accepting_bounds (x ∷ []) = omega arith
accepting_bounds (x ∷ y ∷ bytes) = omega arith

abbrev writing : List (List ℕ) → Line → (ℕ × ℕ) × Line
writing bufs s = (
  (0, accepting (concat bufs)),
  record s { accepted = s.accepted ++ take (accepting (concat bufs)) (concat bufs) },
)

-- A byte is given at a time, and a read with none to come, or without space, fails.
abbrev reading : ℕ → List ℕ → ℕ → (ℕ × ℕ × List ℕ) × Line
reading zero accepted left = ((1, 9, []), record { accepted = accepted; left = left })
reading (suc space) accepted zero = ((1, 9, []), record { accepted = accepted; left = 0 })
reading (suc space) accepted (suc left) =
    ((0, 1, 7 ∷ []), record { accepted = accepted; left = left })

abbrev line_answer : (c : Call) → Line → Answer c × Line
line_answer (networking (NetworkingCall.tcp_write_vectored id bufs limit cell)) s = writing bufs s
line_answer (networking (NetworkingCall.tcp_read id space limit cell)) s =
    reading space s.accepted s.left
line_answer c s = (any_answer 0 c, s)

instance abbrev line : Host
line = record { State = Line; answer = line_answer }

abbrev line_sockets : Sockets
line_sockets = record { accepted = λ s id. s.accepted; coming = λ s id. replicate s.left 7 }

abbrev IsRead : ℕ → List ℕ → ℕ → (ℕ × ℕ × List ℕ) × Line → Type 0
IsRead space accepted left ((status, n, bytes), s') =
    (length bytes ≡ n)
    × (n ≤ space)
    × All IsByte bytes
    × (replicate left 7 ≡ bytes ++ replicate s'.left 7)
    × (s'.accepted ≡ accepted)

reading-IsRead :
    (space : ℕ) (accepted : List ℕ) (left : ℕ)
    → (reading space accepted left).0.0 ≡ 0
    → IsRead space accepted left (reading space accepted left)
reading-IsRead zero accepted left e = absurd (omega arith)
reading-IsRead (suc space) accepted zero e = absurd (omega arith)
reading-IsRead (suc space) accepted (suc left) e =
    (refl, omega arith, (omega arith, tt), refl, refl)

reading_fails :
    (space : ℕ) (accepted : List ℕ) (left : ℕ)
    → (reading space accepted left).0.0 ≢ 0
    → ((reading space accepted left).1.accepted ≡ accepted)
      × (replicate {A = ℕ} (reading space accepted left).1.left 7 ≡ replicate left 7)
reading_fails zero accepted left ne = (refl, refl)
reading_fails (suc space) accepted zero ne = (refl, refl)
reading_fails (suc space) accepted (suc left) ne = absurd (ne refl)

line-Streams : Streams line_sockets
line-Streams = record {
  writes = λ id bufs limit s e. (refl, refl, accepting_bounds (concat bufs));
  write_fails = λ id bufs limit s ne. absurd (ne refl);
  reads = λ id space limit s e. reading-IsRead space s.accepted s.left e;
  read_fails = λ id space limit s ne. reading_fails space s.accepted s.left ne;
  flushes = λ id s. (refl, refl);
}

abbrev peer : TcpStream
peer = TcpStream.from 4

abbrev session : List Action
session =
    put (1 ∷ 2 ∷ 3 ∷ [])
    ∷ get (0 ∷ 0 ∷ [])
    ∷ put_vectored ((4 ∷ []) ∷ (5 ∷ 6 ∷ []) ∷ [])
    ∷ flushed
    ∷ get (0 ∷ [])
    ∷ []

abbrev opening : World
opening = fresh (record { accepted = []; left = 1 })

act_all-Moved_example :
    Returns
      (λ told w'. Moved line-Streams 4 opening (all_of sent_of told) (all_of read_of told) w')
      (act_all peer session opening)
act_all-Moved_example =
    act_all-Moved line-Streams peer session opening
      (omega arith, (omega arith, (omega arith, (tt, (omega arith, tt)))))

-- Four bytes were accepted, and one was read.
session_bytes : (act_all peer session opening).1.host.accepted ≡ 1 ∷ 2 ∷ 4 ∷ 5 ∷ []
unfolding act_all rust_lib.Net.TcpStream.Transfer.act TcpStream.write TcpStream.write_vectored
    TcpStream.read TcpStream.flush
session_bytes = refl

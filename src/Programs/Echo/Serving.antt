-- ===== src/Programs/Echo/Serving.antt =====
-- The loop of examples/tcp_echo_server.rs over the connections that come.
use rust_lib.Common.{
  ℕ, zero, suc, ◌<◌, ◌≡◌, ◌≢◌, ◌∙◌, ap, sym, subst, refl, inl, inr, List, [], ◌∷◌, length, All,
  Result, ok, err, Option, none, some, arith,
}
use rust_lib.Delivery.Codec.{Format, Returns-ok, envelope}
use rust_lib.Delivery.Starting.{Started, spawn_-Started}
use rust_lib.Delivery.Handles.{stream_codec, process_codec}
use rust_lib.Delivery.Runtime.{Letter, View, Sight, Lawful, next_state}
use rust_lib.Host.{
  Host, World, Run, returned, panic, pure, Returns, Returns-bind, Returns-weaken, >>=-returned,
  ◌>>=◌, ◌>>◌, after, answer_to, Call, error, networking, process, ErrorCall, NetworkingCall,
  ProcessCall,
}
use rust_lib.LunaticError
use rust_lib.LunaticError.{LunaticError, IoError, other}
use rust_lib.MessageRw
use rust_lib.Net.SocketAddr.{SocketAddr, to_host}
use rust_lib.Net.SocketAddr.RoundTrip.{IsSocketAddr, answered}
use rust_lib.Net.TcpListener
use rust_lib.Net.TcpListener.{TcpListener}
use rust_lib.Net.TcpListener.Accept.{accept_branches, accept-peer}
use rust_lib.Net.TcpStream
use rust_lib.Net.TcpStream.{TcpStream, tcp_stream_serde}
use rust_lib.Process
use rust_lib.Process.{Process}
use rust_lib.Programs.{drop_io}
use rust_lib.Programs.Echo.{accept_all}
use rust_lib.Programs.Echo.Calm.{Leaving, Same, Calm, Returns-Same, Calm-spawn_, Calm-drop_process}
use rust_lib.Serde.{Rmp, unwrap}
use rust_lib.Spawn.{Context, FunctionTable, with_context, entry_point, entry_params, spawn_}
use rust_lib.Spawn.Calls.{spawn_answer, spawn_world}
use rust_lib.Spawn.Family.{spawn_with}

-- What the program relies on: the connections that wait at its listener, each with its number and its
-- peer, of which `accept` gives the first, and fails where there is none; children are started; and
-- no other call takes a connection that waits.
pub record Listening ⦃h : Host⦄ (sight : Sight) (l : TcpListener) : Type 0 where
  pub waiting : h.State → List (ℕ × SocketAddr)
  pub accepts :
      (sid : ℕ) (addr : SocketAddr) (others : List (ℕ × SocketAddr)) (s : h.State)
      → waiting s ≡ (sid, addr) ∷ others
      → let c = networking (NetworkingCall.tcp_accept l.id 0 0) in
        let (status, id, iter) = (h.answer c s).0 in
        let n = networking (NetworkingCall.resolve_next iter) in
        let s₂ = next_state n (next_state c s) in
        let s₃ = next_state (networking (NetworkingCall.drop_dns_iterator iter)) s₂ in
        (status ≡ 0)
        × ((h.answer n (next_state c s)).0 ≡ answered (to_host addr))
        × (sight.stream_of s₃ id ≡ some sid)
        × (sight.view s₃ ≡ sight.view s)
        × (waiting s₃ ≡ others)
  pub closes :
      (s : h.State)
      → waiting s ≡ []
      → let c = networking (NetworkingCall.tcp_accept l.id 0 0) in
        let (status, id, iter) = (h.answer c s).0 in
        (status ≢ 0)
        × (sight.view (next_state (error (ErrorCall.drop id)) (next_state c s)) ≡ sight.view s)
  pub starts :
      (link : ℕ) (function params : List ℕ) (s : h.State)
      → (h.answer (process (ProcessCall.inherit_spawn link function params 0)) s).0.0 ≡ 0
  pub leaves : (c : Call) → Leaving c → (s : h.State) → waiting (next_state c s) ≡ waiting s

module _ ⦃h : Host⦄ ⦃r : Rmp⦄ ⦃table : FunctionTable⦄ {sight : Sight} (law : Lawful sight)
    (format : Format sight r) (l : TcpListener) (hall : Listening sight l)
    (writes : (n : ℕ) → Calm hall.waiting (r.serialize_u64 MessageRw.write n)) where
  -- From the letters that were posted before, one more for each connection, in order, with the
  -- connection in it.
  abbrev pub HandedOver : List (ℕ × SocketAddr) → List (ℕ × Letter) → List (ℕ × Letter) → Type 0
  HandedOver [] before now = now ≡ before
  HandedOver ((sid, _) ∷ others) before now =
      (pid : ℕ) × HandedOver others ((pid, envelope (stream_codec law format) 0 sid) ∷ before) now

  abbrev posted : World → List (ℕ × Letter)
  posted w = (sight.view w.host).posted

  abbrev Done : List (ℕ × SocketAddr) → World → Option (Unit {0}) → World → Type 0
  Done comers w ended w' = (ended ≡ some tt) × HandedOver comers (posted w) (posted w')

  abbrev Given : ℕ → World → World → Type 0
  Given sid w w' =
      (pid : ℕ) × (posted w' ≡ (pid, envelope (stream_codec law format) 0 sid) ∷ posted w)
      × Same hall.waiting w w'

  -- A connection is handed to a child.
  given :
      (function sid : ℕ) (c : TcpStream) (w : World)
      → sight.stream_of w.host c.id ≡ some sid
      → Returns
          (λ x w'. (p : Process Unit) × (x ≡ ok p) × Given sid w w')
          (spawn_with {T = Unit {0}} c function w)
  unfolding spawn_with stream_codec
  given function sid c w known =
      let start : Context TcpStream Unit = with_context function c in
      let child = spawn_answer none none start w in
      Returns-weaken
        (λ x w'.
          Started law Unit (stream_codec law format) start child.1 sid w
            (spawn_world none none start w) x w'
          × Same hall.waiting w w')
        (λ x w'. (p : Process Unit) × (x ≡ ok p) × Given sid w w') (spawn_ none none start w)
        (Returns-Same hall.waiting
          (Started law Unit (stream_codec law format) start child.1 sid w
            (spawn_world none none start w))
          w (spawn_ none none start w)
          (spawn_-Started law Unit (stream_codec law format) none none start sid w known
            (hall.starts 0 entry_point (entry_params start) w.host))
          (Calm-spawn_ hall.waiting hall.leaves writes Unit c function w))
        (λ x w' ((pid, _, is_ok, posts), same). (Process.from child.1, is_ok, (pid, posts, same)))

  dropped :
      (p : Process Unit) (w : World)
      → Returns (λ _ w'. (posted w' ≡ posted w) × Same hall.waiting w w') (Process.drop p w)
  dropped p w =
      Returns-weaken
        (λ _ w'.
          ((sight.view w'.host ≡ sight.view w.host) × (w'.counter ≡ w.counter))
          × Same hall.waiting w w')
        (λ _ w'. (posted w' ≡ posted w) × Same hall.waiting w w') (Process.drop p w)
        (Returns-Same hall.waiting
          (λ _ w'. (sight.view w'.host ≡ sight.view w.host) × (w'.counter ≡ w.counter)) w
          (Process.drop p w) ((process_codec law format Unit).drops p w)
          (Calm-drop_process hall.waiting hall.leaves writes p w))
        (λ _ w' ((view, _), same). (ap (λ (v : View). v.posted) view, same))

  -- The body of the loop, where a connection was accepted, and the rest.
  turn : ℕ → ℕ → TcpStream → Run (Option Unit)
  turn fuel function c = do
    child ← unwrap (spawn_with {T = Unit {0}} c function)
    Process.drop child
    accept_all fuel l function

  abbrev come : ℕ → ℕ → Result (TcpStream × SocketAddr) IoError → Run (Option Unit)
  come fuel function accepted = elim accepted as (λ _. Run (Option Unit)) [
    | err e ↦ drop_io e >> pure (some tt)
    | ok (tcp_stream, _peer) ↦ turn fuel function tcp_stream
  ]

  handed :
      (fuel function sid : ℕ) (addr : SocketAddr) (others : List (ℕ × SocketAddr)) (c : TcpStream)
      (w : World)
      → sight.stream_of w.host c.id ≡ some sid
      → hall.waiting w.host ≡ others
      → ((w' : World)
          → hall.waiting w'.host ≡ others
          → Returns (Done others w') (accept_all fuel l function w'))
      → Returns (Done ((sid, addr) ∷ others) w) (turn fuel function c w)
  unfolding turn
  handed fuel function sid addr others c w known here rest =
      Returns-bind (λ p w₁. Given sid w w₁) (Done ((sid, addr) ∷ others) w)
        (unwrap (spawn_with {T = Unit {0}} c function))
        (λ p. Process.drop p >> accept_all fuel l function) w
        (Returns-ok (λ p w₁. Given sid w w₁) (λ p w₁. Given sid w w₁)
          (spawn_with {T = Unit {0}} c function)
          (λ x. elim x as (λ _. Run (Process Unit)) [ ok a ↦ pure a | err e ↦ panic ]) w
          (given function sid c w known) (λ p w₁ g. g))
        (λ p w₁ (pid, posts, same).
          Returns-bind (λ _ w₂. (posted w₂ ≡ posted w₁) × Same hall.waiting w₁ w₂)
            (Done ((sid, addr) ∷ others) w) (Process.drop p) (λ _. accept_all fuel l function) w₁
            (dropped p w₁)
            (λ _ w₂ (posts', same').
              Returns-weaken (Done others w₂) (Done ((sid, addr) ∷ others) w)
                (accept_all fuel l function w₂) (rest w₂ (same' ∙ same ∙ here))
                (λ ended w₃ (e, over). (
                  e,
                  (
                    pid,
                    subst (λ before. HandedOver others before (posted w₃)) (posts' ∙ posts) over,
                  ),
                ))))

  -- For every connection that waits at its listener the program posts one letter with that connection
  -- in it, in the order in which they come, and posts nothing else; and it leaves the loop when `accept`
  -- fails, which it does after the last of them. The fuel is more than the number of connections, each
  -- comes with a peer whose octets are bytes, every child is started, writing a number takes no
  -- connection, and the runtime and the serializer keep to `Lawful`, `Listening` and `Format`.
  pub accept_all-HandedOver :
      (fuel function : ℕ) (comers : List (ℕ × SocketAddr)) (w : World)
      → length comers < fuel
      → All (λ (c : ℕ × SocketAddr). IsSocketAddr c.1) comers
      → hall.waiting w.host ≡ comers
      → Returns (Done comers w) (accept_all fuel l function w)
  unfolding accept_all turn LunaticError.drop
  accept_all-HandedOver zero function comers w enough octets here = absurd (omega arith)
  accept_all-HandedOver (suc fuel) function [] w enough octets here =
      let (fails, view) = hall.closes w.host here in
      elim (accept_branches l w) [
        | inl (_, e) ↦
            subst (Returns (Done [] w))
              (sym (>>=-returned (TcpListener.accept l) (come fuel function) e))
              (refl, ap (λ (v : View). v.posted) view)
        | inr (fine, _) ↦ absurd (fails fine)
      ]
  accept_all-HandedOver (suc fuel) function ((sid, addr) ∷ others) w enough (octet, octets) here =
      let c = networking (NetworkingCall.tcp_accept l.id 0 0) in
      let id = (answer_to c w).1 in
      let iter = (answer_to c w).2 in
      let (fine, found, known, view, left) = hall.accepts sid addr others w.host here in
      let w₂ = after (networking (NetworkingCall.resolve_next iter)) (after c w) in
      let w₃ = after (networking (NetworkingCall.drop_dns_iterator iter)) w₂ in
      let accepted : TcpListener.accept l w ≡ (returned (ok (TcpStream.from id, addr)), w₃) =
        accept-peer l addr id iter w octet (ap (λ n. (n, id, iter)) fine) found in
      subst (Returns (Done ((sid, addr) ∷ others) w))
        (sym (>>=-returned (TcpListener.accept l) (come fuel function) accepted))
        (subst
          (λ before.
            Returns
              (λ ended w'. (ended ≡ some tt) × HandedOver ((sid, addr) ∷ others) before (posted w'))
              (turn fuel function (TcpStream.from id) w₃))
          (ap (λ (v : View). v.posted) view)
          (handed fuel function sid addr others (TcpStream.from id) w₃ known left
            (λ w' here'. accept_all-HandedOver fuel function others w' (omega arith) octets here')))

-- ===== src/Examples/Hall.antt =====
-- The runtime of Post with connections that wait at a listener.
use rust_lib.Common.{ℕ, ◌≡◌, refl, List, [], ◌∷◌, ◌++◌, some, length, arith}
use rust_lib.Delivery.Runtime.{Sight, Lawful}
use rust_lib.Examples.Delivered.{state}
use rust_lib.Examples.Fixture.{fresh}
use rust_lib.Examples.Numbers.{plain_format}
use rust_lib.Examples.Post.{Post, post_step, post_sight}
use rust_lib.Examples.Post.Laws.{find_new, post-Lawful}
use rust_lib.Examples.Fixture.{plain_rmp, table}
use rust_lib.Host.{Host, World, Returns, Call, Answer, networking, NetworkingCall}
use rust_lib.MessageRw
use rust_lib.Net.SocketAddr.{SocketAddr, v4, to_host}
use rust_lib.Net.SocketAddr.RoundTrip.{answered}
use rust_lib.Net.TcpListener
use rust_lib.Net.TcpListener.{TcpListener}
use rust_lib.Programs.Echo.{accept_all}
use rust_lib.Programs.Echo.Calm.{Leaving, Calm}
use rust_lib.Programs.Echo.Serving.{Listening, HandedOver, accept_all-HandedOver}

-- The connections that wait, and the peer of the last that was accepted.
pub record Hall : Type 0 where
  pub post : Post
  pub waiting : List (ℕ × SocketAddr)
  pub peer : SocketAddr

abbrev welcome : List (ℕ × SocketAddr) → Hall → (ℕ × ℕ × ℕ) × Hall
welcome [] s = ((1, 90, 0), s)
welcome ((sid, addr) ∷ others) s = (
  (0, length s.post.streams, 20),
  record {
    post = record s.post { streams = s.post.streams ++ some sid ∷ [] };
    waiting = others;
    peer = addr;
  },
)

abbrev as_post : (c : Call) → Hall → Answer c × Hall
as_post c s = let (a, p) = post_step c s.post in (a, record s { post = p })

abbrev hall_answer : (c : Call) → Hall → Answer c × Hall
hall_answer (networking (NetworkingCall.tcp_accept id limit cell)) s = welcome s.waiting s
hall_answer (networking (NetworkingCall.resolve_next id)) s = (answered (to_host s.peer), s)
hall_answer c s = as_post c s

instance abbrev hall : Host
hall = record { State = Hall; answer = hall_answer }

abbrev hall_sight : Sight
hall_sight = record {
  view = λ s. s.post.view;
  process_of = λ s. post_sight.process_of s.post;
  stream_of = λ s. post_sight.stream_of s.post;
  self = λ s. s.post.self;
}

hall-Lawful : Lawful hall_sight
hall-Lawful = record {
  creates = λ tag capacity s. post-Lawful.creates tag capacity s.post;
  writes = λ bytes s. post-Lawful.writes bytes s.post;
  reads = λ front rest s. post-Lawful.reads front rest s.post;
  pushes_process = λ id pid s. post-Lawful.pushes_process id pid s.post;
  pushes_stream = λ id sid s. post-Lawful.pushes_stream id sid s.post;
  takes_process = λ index pid s. post-Lawful.takes_process index pid s.post;
  takes_stream = λ index sid s. post-Lawful.takes_stream index sid s.post;
  sends = λ id pid s. post-Lawful.sends id pid s.post;
  searches = λ id pid limit s. post-Lawful.searches id pid limit s.post;
  gets_tag = λ s. post-Lawful.gets_tag s.post;
  finds_self = λ s. post-Lawful.finds_self s.post;
  spawns =
      λ link module_id function params s. post-Lawful.spawns link module_id function params s.post;
  inherits = λ link function params s. post-Lawful.inherits link function params s.post;
  spawn_fails = λ link module_id function params s.
      post-Lawful.spawn_fails link module_id function params s.post;
  inherit_fails = λ link function params s. post-Lawful.inherit_fails link function params s.post;
  traps = λ mode s. post-Lawful.traps mode s.post;
  drops_process = λ id s. post-Lawful.drops_process id s.post;
  drops_stream = λ id s. post-Lawful.drops_stream id s.post;
}

waiting_stays : (c : Call) → Leaving c → (s : Hall) → (hall_answer c s).1.waiting ≡ s.waiting
waiting_stays (networking (NetworkingCall.tcp_accept id limit cell)) free s = absurd free
waiting_stays (networking (NetworkingCall.resolve_next id)) free s = refl
waiting_stays c free s = refl

abbrev server : TcpListener
server = TcpListener.from 3

hall-Listening : Listening hall_sight server
hall-Listening = record {
  waiting = λ s. s.waiting;
  accepts = λ sid addr others s here.
      rw here (refl, refl, find_new s.post.streams (some sid), refl, refl);
  closes = λ s here. rw here (omega arith, refl);
  starts = λ link function params s. refl;
  leaves = waiting_stays;
}

hall_writes : (n : ℕ) → Calm hall-Listening.waiting (plain_rmp.serialize_u64 MessageRw.write n)
unfolding hall-Listening MessageRw.write
hall_writes n w = refl

abbrev comers : List (ℕ × SocketAddr)
comers = (41, v4 127 0 0 1 5000) ∷ (42, v4 10 0 0 7 6000) ∷ []

abbrev opened : World
opened = fresh (record { post = state 1 [] []; waiting = comers; peer = v4 0 0 0 0 0 })

-- Two connections are handed over.
accept_all-HandedOver_example :
    Returns
      (λ ended w'.
        (ended ≡ some tt)
        × HandedOver hall-Lawful
            (plain_format hall-Lawful)
            server
            hall-Listening
            hall_writes
            comers
            []
            (hall_sight.view w'.host).posted)
      (accept_all 3 server 70 opened)
unfolding hall-Listening
accept_all-HandedOver_example =
    accept_all-HandedOver hall-Lawful (plain_format hall-Lawful) server hall-Listening hall_writes 3
      70 comers opened (omega arith)
      (
        (omega arith, omega arith, omega arith, omega arith),
        ((omega arith, omega arith, omega arith, omega arith), tt),
      )
      refl

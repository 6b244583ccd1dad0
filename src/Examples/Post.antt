-- ===== src/Examples/Post.antt =====
-- A runtime that keeps messages and handles as its interface says.
pub mod Laws
use rust_lib.Common.{
  ℕ, zero, suc, ◌≡◌, ◌≢◌, ◌∙◌, ap, sym, subst, refl, List, [], ◌∷◌, ◌++◌, Option, none, some,
  length, take, arith, if◌then◌else◌,
}
use rust_lib.Delivery.Order.{asks_for}
use rust_lib.Delivery.Runtime.{
  Carried, a_process, a_stream, Letter, View, add, blank, nth, Sight, Lawful, Keeps, Spares,
}
use rust_lib.Examples.Fixture.{any_answer}
use rust_lib.Host.{
  Host, Call, Answer, MessageCall, MessageAnswer, ProcessCall, ProcessAnswer, message, process,
  networking, error,
}
use rust_lib.Mailbox.{timed_out}

-- A handle's number is its place in its table; `none` is a handle that was moved away.
pub record Post : Type 0 where
  pub view : View
  pub processes : List (Option ℕ)
  pub streams : List (Option ℕ)
  pub self : ℕ
  pub inbox : List Letter

abbrev pub find : List (Option ℕ) → ℕ → Option ℕ
find [] i = none
find (x ∷ xs) zero = x
find (x ∷ xs) (suc i) = find xs i

abbrev pub clear : List (Option ℕ) → ℕ → List (Option ℕ)
clear [] i = []
clear (x ∷ xs) zero = none ∷ xs
clear (x ∷ xs) (suc i) = x ∷ clear xs i

abbrev pub drop : ℕ → List ℕ → List ℕ
drop zero xs = xs
drop (suc n) [] = []
drop (suc n) (x ∷ xs) = drop n xs

-- The first letter of an inbox comes into the buffer.
abbrev pub deliver : List Letter → Post → ℕ × Post
deliver [] s = (timed_out, s)
deliver (l ∷ rest) s =
    (0, record s { view = record s.view { letter = l; unread = l.bytes }; inbox = rest })

-- The first letter that a tag asks for, and the others.
abbrev skip : Letter → Option (Letter × List Letter) → Option (Letter × List Letter)
skip l none = none
skip l (some (found, rest)) = some (found, l ∷ rest)

abbrev pub pick : ℕ → List Letter → Option (Letter × List Letter)
pick tag [] = none
pick tag (l ∷ ls) =
    let picked = skip l (pick tag ls) in if asks_for tag l.tag then some (l, ls) else picked

abbrev pub bring : Option (Letter × List Letter) → Post → ℕ × Post
bring none s = (timed_out, s)
bring (some (l, rest)) s =
    (0, record s { view = record s.view { letter = l; unread = l.bytes }; inbox = rest })

-- The letter in the buffer is posted to the process that was found.
abbrev pub posted_to : Option ℕ → Post → Post
posted_to none s = s
posted_to (some pid) s = record s {
  view = record s.view { posted = (pid, s.view.letter) ∷ s.view.posted };
}

-- A handle that was found moves into the letter, and one in the letter becomes a new handle.
abbrev pub push_process : Option ℕ → ℕ → Post → Post
push_process none id s = s
push_process (some pid) id s = record s {
  view = add s.view [] (a_process pid ∷ []);
  processes = clear s.processes id;
}

abbrev pub push_stream : Option ℕ → ℕ → Post → Post
push_stream none id s = s
push_stream (some sid) id s = record s {
  view = add s.view [] (a_stream sid ∷ []);
  streams = clear s.streams id;
}

abbrev pub take_process : Option Carried → Post → Post
take_process (some (a_process pid)) s = record s { processes = s.processes ++ (some pid ∷ []) }
take_process (some (a_stream sid)) s = s
take_process none s = s

abbrev pub take_stream : Option Carried → Post → Post
take_stream (some (a_stream sid)) s = record s { streams = s.streams ++ (some sid ∷ []) }
take_stream (some (a_process pid)) s = s
take_stream none s = s

abbrev pub message_step : (c : MessageCall) → Post → MessageAnswer c × Post
message_step (MessageCall.create_data tag capacity) s =
    (tt, record s { view = record s.view { letter = blank tag } })
message_step (MessageCall.write_data bytes) s =
    (length bytes, record s { view = add s.view bytes [] })
message_step (MessageCall.read_data len) s = (
  (len, take len s.view.unread),
  record s { view = record s.view { unread = drop len s.view.unread } },
)
message_step (MessageCall.seek_data position) s = (tt, s)
message_step MessageCall.get_tag s = (s.view.letter.tag, s)
message_step MessageCall.data_size s = (length s.view.letter.bytes, s)
message_step (MessageCall.push_process id) s =
    (length s.view.letter.carried, push_process (find s.processes id) id s)
message_step (MessageCall.take_process index) s =
    (length s.processes, take_process (nth s.view.letter.carried index) s)
message_step (MessageCall.push_tcp_stream id) s =
    (length s.view.letter.carried, push_stream (find s.streams id) id s)
message_step (MessageCall.take_tcp_stream index) s =
    (length s.streams, take_stream (nth s.view.letter.carried index) s)
message_step (MessageCall.send id) s = (tt, posted_to (find s.processes id) s)
message_step (MessageCall.send_receive_skip_search id limit) s =
    deliver s.inbox (posted_to (find s.processes id) s)
message_step (MessageCall.receive tag limit) s = bring (pick tag s.inbox) s

abbrev pub post_step : (c : Call) → Post → Answer c × Post
post_step (message c) s = message_step c s
post_step (process ProcessCall.this) s =
    (length s.processes, record s { processes = s.processes ++ (some s.self ∷ []) })
post_step (process (ProcessCall.spawn _ _ _ _ _)) s =
    ((0, length s.processes), record s { processes = s.processes ++ (some 50 ∷ []) })
post_step (process (ProcessCall.inherit_spawn _ _ _ _)) s =
    ((0, length s.processes), record s { processes = s.processes ++ (some 50 ∷ []) })
post_step (process c) s = (any_answer 0 (process c), s)
post_step (networking c) s = (any_answer 0 (networking c), s)
post_step (error c) s = (any_answer 0 (error c), s)

instance abbrev pub post : Host
post = record { State = Post; answer = post_step }

abbrev pub post_sight : Sight
post_sight = record {
  view = λ s. s.view;
  process_of = λ s. find s.processes;
  stream_of = λ s. find s.streams;
  self = λ s. s.self;
}

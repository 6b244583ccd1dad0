-- ===== src/Examples/Delivered.antt =====
-- Messages and requests between two processes at concrete data.
use rust_lib.Common.{ℕ, ◌+◌, ◌≡◌, refl, List, [], ◌∷◌, ok, Option, none, some, arith}
use rust_lib.Delivery.Codec.{Codec, envelope, Holds}
use rust_lib.Delivery.Handles.{process_codec}
use rust_lib.Delivery.Replies.{answered, Answered, request_-reply}
use rust_lib.Delivery.Serving.{serve}
use rust_lib.Delivery.Requests.{Asked}
use rust_lib.Delivery.Requests.Encoded.{request_codec}
use rust_lib.Delivery.Runtime.{Letter, blank}
use rust_lib.Delivery.Sending.{send_-receive_}
use rust_lib.Examples.Fixture.{fresh, plain_rmp, number_serde}
use rust_lib.Examples.Numbers.{plain_format, number_codec, number-Plain}
use rust_lib.Examples.Post.{Post, post, post_sight}
use rust_lib.Examples.Post.Laws.{post-Lawful}
use rust_lib.Host.{World, Returns}
use rust_lib.Mailbox.{Mailbox, mailbox, receive_}
use rust_lib.MessageRw
use rust_lib.Process
use rust_lib.Process.{Process, process_serde, send_, write_message}
use rust_lib.Request
use rust_lib.Request.{Request, request_, request_serde}

-- Process `self`, with handles to others and letters that are to arrive.
abbrev pub state : ℕ → List (Option ℕ) → List Letter → Post
state self processes inbox = record {
  view = record { letter = blank 0; unread = []; posted = [] };
  processes = processes;
  streams = [];
  self = self;
  inbox = inbox;
}

abbrev handles : Codec post_sight (process_serde {T = ℕ}) ℕ
handles = process_codec post-Lawful (plain_format post-Lawful) ℕ

abbrev numbers : Codec post_sight number_serde ℕ
numbers = number_codec post-Lawful

abbrev sender : World
sender = fresh (state 1 (some 7 ∷ some 9 ∷ []) [])

abbrev receiver : World
receiver = fresh (state 7 [] (envelope handles 3 9 ∷ []))

-- Process 1 sends process 7 its handle of process 9.
send_-receive__example :
    Returns
      (λ _ w'. (post_sight.view w'.host).posted ≡ (7, envelope handles 3 9) ∷ [])
      (send_ (Process.from {T = Process ℕ} 0) (some 3) (Process.from 1) sender)
    × Returns
        (λ x v'. (m : Process ℕ) × (x ≡ ok m) × (post_sight.process_of v'.host m.id ≡ some 9))
        (receive_ (let mb : Mailbox (Process ℕ) = mailbox in mb) none none receiver)
unfolding process_codec
send_-receive__example =
    send_-receive_ post-Lawful handles (Process.from {T = Process ℕ} 0) 7 (some 3) (Process.from 1)
      9 sender mailbox none none receiver refl refl (omega arith) (omega arith) (omega arith)
      (omega arith) (refl, refl)

abbrev requests : Codec post_sight (request_serde {T = ℕ} {U = ℕ}) (Asked ℕ)
requests = request_codec post-Lawful (plain_format post-Lawful) ℕ numbers (number-Plain post-Lawful)

abbrev client : World
client = fresh (state 1 (some 5 ∷ []) (envelope numbers 1 42 ∷ []))

abbrev question : Asked ℕ
question = record { about = 41; tag = 1; sender = 1 }

abbrev server : World
server = fresh (state 5 [] (envelope requests 1 question ∷ []))

abbrev one_more : ℕ → ℕ
one_more n = n + 1

is_answered :
    Holds post_sight
      (answered {T = ℕ} {U = ℕ} (Process.from 0) 41 none client).host
      (envelope numbers 1 42)
unfolding write_message Request.serialize Process.serialize MessageRw.write
is_answered = (refl, refl)

-- Process 1 asks process 5 about 41.
request_-reply_example :
    Returns
      (Answered post-Lawful
        (plain_format post-Lawful)
        numbers
        (number-Plain post-Lawful)
        numbers
        5
        41
        42
        client)
      (request_ {T = ℕ} {U = ℕ} (Process.from 0) 41 none client)
    × Returns
        (λ _ v'. (post_sight.view v'.host).posted ≡ (1, envelope numbers 1 42) ∷ [])
        (serve one_more (let mb : Mailbox (Request ℕ ℕ) = mailbox in mb) server)
request_-reply_example =
    request_-reply post-Lawful (plain_format post-Lawful) numbers (number-Plain post-Lawful) numbers
      (Process.from 0) 5 41 none 41 42 client one_more mailbox server refl refl tt
      (λ st m e. omega arith) (λ m id. tt) (omega arith, omega arith, omega arith) (omega arith)
      (omega arith) (omega arith) (refl, refl) is_answered

-- ===== src/Examples/Clients.antt =====
-- The clients of examples and tests, at concrete data.
use rust_lib.Common.{
  ℕ, ◌+◌, ◌*◌, ◌/◌, ◌%◌, ◌^◌, ◌<◌, ◌≡◌, ◌==◌, ap, ap₂, subst, sym, refl, List, [], ◌∷◌, ◌++◌,
  Result, ok, err, append-nil, none, some, arith, if◌then◌else◌,
}
use rust_lib.Common.Bytes.{to_le_bytes}
use rust_lib.Delivery.Codec.{Added, Codec, Plain, Read, envelope, Holds}
use rust_lib.Delivery.Handles.{process_codec}
use rust_lib.Delivery.Requests.{Asked}
use rust_lib.Delivery.Requests.Encoded.{request_codec}
use rust_lib.Delivery.Replies.{answered}
use rust_lib.Delivery.Runtime.{View, Spares, add}
use rust_lib.Examples.Delivered.{state}
use rust_lib.Examples.Fixture.{fresh, plain_rmp, number_serde, table, write_number, read_number}
use rust_lib.Examples.Numbers.{plain_format, number_codec, number_read}
use rust_lib.Examples.Post.{post, post_sight}
use rust_lib.Examples.Post.Laws.{post-Lawful}
use rust_lib.Host.{World, Run, Returns, Returns-bind, pure, ◌>>=◌, after, message, MessageCall}
use rust_lib.Mailbox.{Mailbox, mailbox}
use rust_lib.MessageRw
use rust_lib.Process
use rust_lib.Process.{Process, process_serde, write_message}
use rust_lib.Programs.{Console}
use rust_lib.Programs.Adder.{serve, assert_sum}
use rust_lib.Programs.Adder.Sums.{total, Asks, assert_sum-serve}
use rust_lib.Programs.Fibonacci.{value, value-fib}
use rust_lib.Programs.Greeting.{spawn_child}
use rust_lib.Programs.Greeting.Told
use rust_lib.Request
use rust_lib.Request.{Request, request_serde}
use rust_lib.Serde.{Serde, unit_serde}
use rust_lib.Spawn.Entry.{Table, type_helper_wrapper, type_helper_wrapper_context}

value-fib_example : value 100 ≡ 3736710778780434371
value-fib_example = value-fib 100

-- A pair of numbers is written as one.
abbrev code : ℕ × ℕ → ℕ
code (a, b) = a + 2 ^ 32 * b

abbrev decode : ℕ → ℕ × ℕ
decode n = (n % 2 ^ 32, n / 2 ^ 32)

instance abbrev pair_serde : Serde (ℕ × ℕ)
pair_serde = record {
  serialize = λ writer p. (do written ← write_number writer (code p); pure (written, p));
  deserialize =
      λ reader. (do n ← read_number reader; pure (elim n [ ok m ↦ ok (decode m) | err e ↦ err e ]));
  drop = λ p. pure tt;
}

pair_written :
    (m a : ℕ × ℕ) (w : World)
    → m ≡ a
    → Returns
        (λ (x : Result Unit (Unit {0}) × (ℕ × ℕ)) w'.
          (x.0 ≡ ok tt)
          × Added post_sight (to_le_bytes 8 (code a)) [] w w'
          × Spares post_sight (λ id. Unit {0}) w.host w'.host
          × Unit {0})
        (pair_serde.serialize MessageRw.write m w)
unfolding MessageRw.write
pair_written m a w e =
    let g = post-Lawful.writes (to_le_bytes 8 (code m)) w.host in
    (
      refl,
      (
        subst
            (λ i.
              post_sight.view
                (after (message (MessageCall.write_data (to_le_bytes 8 (code m)))) w).host
              ≡ add (post_sight.view w.host) (to_le_bytes 8 (code i)) [])
            e g.0,
        refl,
      ),
      λ id pid u known. g.1.0 id pid known,
      tt,
    )

abbrev IsPair : ℕ × ℕ → Type 0
IsPair (a, b) = (a < 2 ^ 32) × (b < 2 ^ 32)

decoded : (a b : ℕ) → a < 2 ^ 32 → b < 2 ^ 32 → decode (code (a, b)) ≡ (a, b)
decoded a b small small' = ap₂ (λ x y. (x, y)) (omega arith) (omega arith)

pair_read :
    (a : ℕ × ℕ) (rest : List ℕ) (w : World)
    → IsPair a
    → (post_sight.view w.host).unread ≡ to_le_bytes 8 (code a) ++ rest
    → Returns
        (λ x w'. (m : ℕ × ℕ) × (x ≡ ok m) × ((m ≡ a) × Read post_sight rest w w'))
        (pair_serde.deserialize MessageRw.read w)
pair_read (a, b) rest w (small, small') unread =
    Returns-bind (λ x w'. (x ≡ ok (code (a, b))) × Read post_sight rest w w')
      (λ x w'. (m : ℕ × ℕ) × (x ≡ ok m) × ((m ≡ (a, b)) × Read post_sight rest w w'))
      (read_number MessageRw.read)
      (λ n.
        pure (elim n as (λ _. Result (ℕ × ℕ) (Unit {0})) [ ok m ↦ ok (decode m) | err e ↦ err e ]))
      w (number_read post-Lawful (code (a, b)) rest w (omega arith) unread)
      (λ x w' g. (
        decode (code (a, b)),
        ap
            (λ (n : Result ℕ (Unit {0})). elim n as (λ _. Result (ℕ × ℕ) (Unit {0})) [
              | ok m ↦ ok (decode m)
              | err e ↦ err e
            ])
            g.0,
        (decoded a b small small', g.1),
      ))

abbrev pairs : Codec post_sight pair_serde (ℕ × ℕ)
pairs = record {
  bytes = λ base p. to_le_bytes 8 (code p);
  carried = λ p. [];
  Fits = λ base p. IsPair p;
  Means = λ st m p. m ≡ p;
  stable = λ m p st st' keeps e. e;
  Apart = λ m id. Unit {0};
  fresh = λ m p st id means new. tt;
  Spent = λ m. Unit {0};
  writes = pair_written;
  drops = λ m w. (refl, refl);
  drops_spent = λ m w u. (λ id pid e. e, λ id sid e. e);
  reads = λ a front back rest w fits unread holds. pair_read a rest w fits unread;
}

pairs-Plain : Plain post_sight pair_serde
unfolding MessageRw.write
pairs-Plain = record { keeps = λ p w. (post-Lawful.writes (to_le_bytes 8 (code p)) w.host).1 }

abbrev sums : Codec post_sight number_serde ℕ
sums = number_codec post-Lawful

abbrev requests : Codec post_sight (request_serde {T = ℕ × ℕ} {U = ℕ}) (Asked (ℕ × ℕ))
requests = request_codec post-Lawful (plain_format post-Lawful) ℕ pairs pairs-Plain

abbrev client : World
client = fresh (state 1 (some 5 ∷ []) (envelope sums 1 3 ∷ []))

abbrev one_and_two : Asked (ℕ × ℕ)
one_and_two = record { about = (1, 2); tag = 1; sender = 1 }

abbrev server : World
server = fresh (state 5 [] (envelope requests 1 one_and_two ∷ []))

abbrev add_server : Process (Request (ℕ × ℕ) ℕ)
add_server = Process.from 0

sum_comes :
    Holds post_sight
      (answered {T = ℕ × ℕ} {U = ℕ} add_server (1, 2) none client).host
      (envelope sums 1 (total (1, 2)))
unfolding write_message Request.serialize Process.serialize MessageRw.write
sum_comes = (refl, refl)

assert_sum-serve_example :
    Returns
      (λ _ w'.
        Asks post-Lawful (plain_format post-Lawful) pairs pairs-Plain sums 5 (1, 2) client w')
      (assert_sum add_server (1, 2) (total (1, 2)) client)
    × Returns
        (λ _ v'. (post_sight.view v'.host).posted ≡ (1, envelope sums 1 (total (1, 2))) ∷ [])
        (serve (let mb : Mailbox (Request (ℕ × ℕ) ℕ) = mailbox in mb) server)
assert_sum-serve_example =
    assert_sum-serve post-Lawful (plain_format post-Lawful) pairs pairs-Plain sums add_server 5
      (1, 2) client mailbox server (λ st m a e. e, λ st a. refl, λ m id. tt)
      (λ st m a e. e, λ st a. refl, λ m id. tt) refl
      ((omega arith, omega arith), omega arith, omega arith) (omega arith) (omega arith)
      (omega arith) (refl, refl) sum_comes

nothing_added : (w : World) → post_sight.view w.host ≡ add (post_sight.view w.host) [] []
nothing_added w =
    let v : View = post_sight.view w.host in
    ap₂ (λ bytes sent. record v { letter = record v.letter { bytes = bytes; carried = sent } })
      (sym (append-nil v.letter.bytes)) (sym (append-nil v.letter.carried))

-- `()` takes no bytes.
abbrev nothing : Codec post_sight unit_serde Unit
nothing = record {
  bytes = λ base u. [];
  carried = λ u. [];
  Fits = λ base u. Unit {0};
  Means = λ st m u. Unit {0};
  stable = λ m u st st' keeps e. tt;
  Apart = λ m id. Unit {0};
  fresh = λ m u st id means new. tt;
  Spent = λ m. Unit {0};
  writes = λ m u w means. (refl, (nothing_added w, refl), (λ id pid apart known. known), tt);
  drops = λ m w. (refl, refl);
  drops_spent = λ m w u. (λ id pid e. e, λ id sid e. e);
  reads = λ u front back rest w fits unread holds. (
    tt,
    refl,
    (
      tt,
      (
        ap (λ bytes. record (post_sight.view w.host) { unread = bytes }) unread,
        (λ id pid e. e, λ id sid e. e),
        refl,
      ),
    ),
  );
}

instance abbrev silent : Console
silent = record { println = λ text. pure tt }

instance abbrev plain_functions : Table (Mailbox Unit → Run Unit)
plain_functions = record { at = λ n m. pure tt }

instance abbrev closures : Table (Process Unit → Mailbox Unit → Run Unit)
closures = record { at = λ n. spawn_child }

instance abbrev helpers : Table (ℕ → Run Unit)
helpers = record {
  at = λ n.
      if n == 3 then type_helper_wrapper Unit else type_helper_wrapper_context (Process Unit) Unit;
}

abbrev handles : Codec post_sight (process_serde {T = Unit {0}}) ℕ
handles = process_codec post-Lawful (plain_format post-Lawful) Unit

abbrev parent : World
parent = fresh (state 6 [] [])

abbrev child : World
child = fresh (state 50 [] (envelope handles 0 6 ∷ []))

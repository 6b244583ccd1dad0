-- ===== src/Delivery/Replies.antt =====
-- A request from `request_` to `reply` and back (src/process.rs and src/request.rs), with a server
-- like that of examples/request_replay.rs.
use rust_lib.Common.{
  ℕ, ◌+◌, ◌%◌, ◌^◌, ◌≡◌, ◌≢◌, ◌∙◌, ap, ap₂, refl, [], ◌∷◌, Result, ok, Option, some,
}
use rust_lib.Delivery.Codec.{
  Read, Format, Codec, Plain, Returns-here, Returns-both, envelope, Holds,
}
use rust_lib.Delivery.Requests.{Asked, RequestSpent}
use rust_lib.Delivery.Requests.Encoded.{request_codec}
use rust_lib.Delivery.Runtime.{View, Sight, Lawful, Keeps, Spares}
use rust_lib.Delivery.Sending.{Ready, write_message-Ready, deserialize-Holds}
use rust_lib.Host.{
  Host, World, Run, Returns, Returns-bind, Returns-weaken, pure, ◌>>=◌, ◌>>◌, invoke, after,
  answer_to, process, ProcessCall,
}
use rust_lib.Mailbox.{Mailbox, signal, timed_out}
use rust_lib.MessageRw
use rust_lib.Process
use rust_lib.Process.{Process, write_message}
use rust_lib.Request
use rust_lib.Request.{Request, request_, reply, get_data, request_serde}
use rust_lib.Request.Call.{opened, made, search}
use rust_lib.Serde.{Rmp, Serde}
use rust_lib.Tag
use rust_lib.Timeout.{Duration, timeout_ms}
use rust_lib.Delivery.Serving.{serve, asked, first, serve-posts}

module _ ⦃h : Host⦄ ⦃r : Rmp⦄ {T U : Type 0} ⦃s : Serde T⦄ ⦃u : Serde U⦄ where
  -- The world of `request_` after its search.
  abbrev pub answered : Process (Request T U) → T → Option Duration → World → World
  answered p body limit w =
      after (search p limit) (write_message (made {U = U} body w) (opened w)).1

module _ ⦃h : Host⦄ ⦃r : Rmp⦄ {sight : Sight} (law : Lawful sight) (format : Format sight r)
    {T U A B : Type 0} ⦃s : Serde T⦄ ⦃u : Serde U⦄ (k : Codec sight s A) (plain : Plain sight s)
    (l : Codec sight u B) where
  abbrev requests : Codec sight (request_serde {T = T} {U = U}) (Asked A)
  requests = request_codec law format U k plain

  -- The buffer after the request is written.
  abbrev Written : Process (Request T U) → ℕ → A → World → Request T U → World → Type 0
  Written p pid a w q w' =
      ((sight.view w'.host).letter ≡ envelope requests (asked sight w a).tag (asked sight w a))
      × ((sight.view w'.host).posted ≡ (sight.view w.host).posted)
      × (sight.process_of w'.host p.id ≡ some pid)
      × RequestSpent format k q

  written :
      (p : Process (Request T U)) (pid : ℕ) (body : T) (a : A) (w : World)
      → sight.process_of w.host p.id ≡ some pid
      → k.Means w.host body a
      → k.Apart body p.id
      → Returns (Written p pid a w) (write_message (made {U = U} body w) (opened w))
  written p pid body a w known means apart =
      let this = process ProcessCall.this in
      let next = (w.counter + 1) % 2 ^ 64 in
      let w₀ : World = record (after this w) { counter = next } in
      let (fresh, found, leaves) = law.finds_self w.host in
      let other : p.id ≢ answer_to this w = λ e. cc in
      Returns-weaken
        (λ q w'.
          Ready law requests next (asked sight w a) w₀ w'
          × Spares sight (requests.Apart (made {U = U} body w)) w₀.host w'.host
          × RequestSpent format k q)
        (Written p pid a w) (write_message (made {U = U} body w) (opened w))
        (write_message-Ready law requests next (made {U = U} body w) (asked sight w a) w₀
          (k.stable body a w.host w₀.host leaves.1 means, refl, found))
        (λ q w' g. (
          g.0.0,
          g.0.1 ∙ ap (λ (v : View). v.posted) leaves.0,
          g.1 p.id pid (apart, other) (leaves.1.0 p.id pid known),
          g.2,
        ))

  -- What `request_` returns, and what it has posted.
  abbrev pub Answered : ℕ → A → B → World → Result U r.DecodeError → World → Type 0
  Answered pid a b w x w' =
      (m : U) × (x ≡ ok m)
      × (l.Means w'.host m b
          × ((sight.view w'.host).posted
              ≡ (pid, envelope requests (asked sight w a).tag (asked sight w a))
                ∷ (sight.view w.host).posted))

  -- From the search on.
  pub request_-gets :
      (p : Process (Request T U)) (pid : ℕ) (body : T) (limit : Option Duration) (a : A) (b : B)
      (tag : ℕ) (w : World)
      → sight.process_of w.host p.id ≡ some pid
      → k.Means w.host body a
      → k.Apart body p.id
      → l.Fits 0 b
      → Holds sight (answered p body limit w).host (envelope l tag b)
      → Returns (Answered pid a b w) (request_ p body limit w)
  unfolding request_ Process.this Tag.new
  request_-gets p pid body limit a b tag w known means apart fits holds =
      let ask : Run (Request T U) = write_message (made {U = U} body w) in
      let w₂ = answered p body limit w in
      Returns-here (Written p pid a w) (Answered pid a b w) ask
        (λ q. invoke (search p limit) >>= λ _.
          u.deserialize MessageRw.read >>= λ x. Request.drop q >> pure x)
        (opened w) (written p pid body a w known means apart)
        (λ q g.
          let posts = law.searches p.id pid (timeout_ms limit) (ask (opened w)).1.host g.2 in
          Returns-bind (λ x w₃. (m : U) × (x ≡ ok m) × (l.Means w₃.host m b × Read sight [] w₂ w₃))
            (Answered pid a b w) (u.deserialize MessageRw.read) (λ x. Request.drop q >> pure x) w₂
            (deserialize-Holds law l tag b w₂ fits holds)
            (λ x w₃ d.
              Returns-bind
                (λ _ w₄.
                  ((sight.view w₄.host ≡ sight.view w₃.host) × (w₄.counter ≡ w₃.counter))
                  × Keeps sight w₃.host w₄.host)
                (Answered pid a b w) (Request.drop q) (λ _. pure x) w₃
                (Returns-both
                  (λ _ w₄. (sight.view w₄.host ≡ sight.view w₃.host) × (w₄.counter ≡ w₃.counter))
                  (λ _ w₄. Keeps sight w₃.host w₄.host) (Request.drop q w₃) (requests.drops q w₃)
                  (requests.drops_spent q w₃ g.3))
                (λ _ w₄ e. (
                  d.0,
                  d.1,
                  (
                    l.stable d.0 b w₃.host w₄.host e.1 d.2.0,
                    ap (λ (v : View). v.posted) e.0.0
                        ∙ ap (λ (v : View). v.posted) d.2.1.0
                        ∙ posts.0
                        ∙ ap₂ (λ letter others. (pid, letter) ∷ others) g.0 g.1,
                  ),
                ))))

  -- A request and its reply. `request_` posts one letter, to the process of the handle, which says the
  -- body, a tag and who asks; a server in whose buffer that letter comes to be, and that answers `f`
  -- of the body, posts one letter, to the process that asked and under the tag; and where that
  -- letter is in the buffer after the search, `request_` returns what it stands for. The body holds
  -- no handles (`Plain`), the values fit their encodings, and the server's wait ends with neither a
  -- signal nor a time-out.
  pub request_-reply :
      (p : Process (Request T U)) (pid : ℕ) (body : T) (limit : Option Duration) (a : A) (b : B)
      (w : World) (f : T → U) (mb : Mailbox (Request T U)) (v : World)
      → sight.process_of w.host p.id ≡ some pid
      → k.Means w.host body a
      → k.Apart body p.id
      → ((st : h.State) (m : T) → k.Means st m a → l.Means st (f m) b)
      → ((m : T) (id : ℕ) → l.Apart (f m) id)
      → requests.Fits 0 (asked sight w a)
      → l.Fits 0 b
      → answer_to first v ≢ signal
      → answer_to first v ≢ timed_out
      → Holds sight (after first v).host (envelope requests (asked sight w a).tag (asked sight w a))
      → Holds sight (answered p body limit w).host (envelope l (asked sight w a).tag b)
      → Returns (Answered pid a b w) (request_ p body limit w)
        × Returns
            (λ _ v'.
              (sight.view v'.host).posted
              ≡ (sight.self w.host, envelope l (asked sight w a).tag b)
                ∷ (sight.view (after first v).host).posted)
            (serve f mb v)
  request_-reply p pid body limit a b w f mb v known means apart answers free fits fits' no_signal
        in_time asks replies =
      (
        request_-gets p pid body limit a b (asked sight w a).tag w known means apart fits' replies,
        serve-posts law format k plain l f mb (asked sight w a) b (asked sight w a).tag v answers
            free fits no_signal in_time asks,
      )

-- ===== src/Delivery/Serving.antt =====
-- A server that receives a request and replies (src/request.rs), like that of
-- examples/request_replay.rs.
use rust_lib.Common.{ℕ, ◌+◌, ◌%◌, ◌^◌, ◌≡◌, ◌≢◌, ◌∙◌, ap, [], ◌∷◌, ok, err, none, some}
use rust_lib.Delivery.Codec.{Read, Format, Codec, Plain, Returns-ok, envelope, Holds}
use rust_lib.Delivery.Requests.{Asked, RequestMeans}
use rust_lib.Delivery.Requests.Encoded.{request_codec}
use rust_lib.Delivery.Requests.Writing.{request_dropped}
use rust_lib.Delivery.Runtime.{View, Sight, Lawful}
use rust_lib.Delivery.Sending.{send_-posts, receive_-Holds}
use rust_lib.Host.{
  Host, World, Run, Returns, Returns-bind, Returns-weaken, pure, panic, ◌>>=◌, after, answer_to,
  Call,
}
use rust_lib.Mailbox.{Mailbox, receive, receive_, signal, timed_out}
use rust_lib.Mailbox.Branches.{receive_call}
use rust_lib.Process
use rust_lib.Process.{Process, write_message}
use rust_lib.Request
use rust_lib.Request.{Request, request_, reply, get_data, request_serde}
use rust_lib.Serde.{Rmp, Serde, unwrap}

abbrev pub first : Call
first = receive_call none none

module _ ⦃h : Host⦄ ⦃r : Rmp⦄ {T U : Type 0} ⦃s : Serde T⦄ ⦃u : Serde U⦄ where
  -- One turn of a server that answers `f` of the body.
  unfoldable pub serve : (T → U) → Mailbox (Request T U) → Run Unit
  serve f mb = do request ← unwrap (receive mb); reply request (f (get_data request))

module _ ⦃h : Host⦄ (sight : Sight) {A : Type 0} where
  -- What the request that `request_` makes in `w` says.
  abbrev pub asked : World → A → Asked A
  asked w a = record { about = a; tag = (w.counter + 1) % 2 ^ 64; sender = sight.self w.host }

module _ ⦃h : Host⦄ ⦃r : Rmp⦄ {sight : Sight} (law : Lawful sight) (format : Format sight r)
    {T U A B : Type 0} ⦃s : Serde T⦄ ⦃u : Serde U⦄ (k : Codec sight s A) (plain : Plain sight s)
    (l : Codec sight u B) where
  abbrev requests : Codec sight (request_serde {T = T} {U = U}) (Asked A)
  requests = request_codec law format U k plain

  -- `reply` posts the letter of the answer, under the tag of the request and to its sender.
  pub reply-posts :
      (q : Request T U) (a : Asked A) (answer : U) (b : B) (v : World)
      → RequestMeans format k v.host q a
      → l.Means v.host answer b
      → l.Apart answer q.sender_process.id
      → Returns
          (λ _ v'.
            (sight.view v'.host).posted
            ≡ (a.sender, envelope l a.tag b) ∷ (sight.view v.host).posted)
          (reply q answer v)
  unfolding reply Process.tag_send
  reply-posts q a answer b v means answers apart =
      Returns-bind
        (λ _ v'.
          ((sight.view v'.host).posted
            ≡ (a.sender, envelope l q.tag.id b) ∷ (sight.view v.host).posted)
          × (v'.counter ≡ v.counter))
        (λ _ v'.
          (sight.view v'.host).posted ≡ (a.sender, envelope l a.tag b) ∷ (sight.view v.host).posted)
        (Process.send_ q.sender_process (some q.tag.id) answer) (λ _. Request.drop q) v
        (send_-posts law l q.sender_process a.sender (some q.tag.id) answer b v means.2 answers
          apart)
        (λ _ v₁ g.
          Returns-weaken
            (λ _ v'. (sight.view v'.host ≡ sight.view v₁.host) × (v'.counter ≡ v₁.counter))
            (λ _ v'.
              (sight.view v'.host).posted
              ≡ (a.sender, envelope l a.tag b) ∷ (sight.view v.host).posted)
            (Request.drop q v₁) (request_dropped law format U k plain q v₁)
            (λ _ v' d.
              ap (λ (x : View). x.posted) d.0
              ∙ g.0
              ∙ ap (λ t. (a.sender, envelope l t b) ∷ (sight.view v.host).posted) means.1))

  -- A turn of the server posts the letter of the answer.
  pub serve-posts :
      (f : T → U) (mb : Mailbox (Request T U)) (a : Asked A) (b : B) (tag : ℕ) (v : World)
      → ((st : h.State) (body : T) → k.Means st body a.about → l.Means st (f body) b)
      → ((body : T) (id : ℕ) → l.Apart (f body) id)
      → requests.Fits 0 a
      → answer_to first v ≢ signal
      → answer_to first v ≢ timed_out
      → Holds sight (after first v).host (envelope requests tag a)
      → Returns
          (λ _ v'.
            (sight.view v'.host).posted
            ≡ (a.sender, envelope l a.tag b) ∷ (sight.view (after first v).host).posted)
          (serve f mb v)
  unfolding serve receive get_data
  serve-posts f mb a b tag v answers apart fits no_signal in_time holds =
      let Posted : Unit → World → Type 0 = λ _ v'.
        (sight.view v'.host).posted
        ≡ (a.sender, envelope l a.tag b) ∷ (sight.view (after first v).host).posted in
      Returns-bind
        (λ (q : Request T U) v'.
          RequestMeans format k v'.host q a × Read sight [] (after first v) v')
        Posted (unwrap (receive_ mb none none)) (λ q. reply q (f q.body)) v
        (Returns-ok
          (λ (q : Request T U) v'.
            RequestMeans format k v'.host q a × Read sight [] (after first v) v')
          (λ (q : Request T U) v'.
            RequestMeans format k v'.host q a × Read sight [] (after first v) v')
          (receive_ mb none none)
          (λ x. elim x as (λ _. Run (Request T U)) [ ok q ↦ pure q | err e ↦ panic ]) v
          (receive_-Holds law requests mb none none tag a v fits no_signal in_time holds)
          (λ q v' g. g))
        (λ q v₁ g.
          Returns-weaken
            (λ _ v'.
              (sight.view v'.host).posted
              ≡ (a.sender, envelope l a.tag b) ∷ (sight.view v₁.host).posted)
            Posted (reply q (f q.body) v₁)
            (reply-posts q a (f q.body) b v₁ g.0 (answers v₁.host q.body g.0.0)
              (apart q.body q.sender_process.id))
            (λ _ v' e. e ∙ ap (λ (x : View). (a.sender, envelope l a.tag b) ∷ x.posted) g.1.0))

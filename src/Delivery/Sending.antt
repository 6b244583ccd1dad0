-- ===== src/Delivery/Sending.antt =====
-- A message from `send_` to `receive_` (src/process.rs and src/mailbox.rs).
use rust_lib.Common.{
  ℕ, ◌≡◌, ◌≢◌, ◌∙◌, ap, ap₂, append-nil, inl, inr, subst, sym, refl, [], ◌∷◌, Result, ok, err,
  Option, some, length,
}
use rust_lib.Delivery.Codec.{Added, Read, Codec, Returns-ok, envelope, Holds}
use rust_lib.Delivery.Runtime.{Letter, View, add, blank, Sight, Lawful, Spares}
use rust_lib.Host.{
  Host, World, Run, returned, Returns, Returns-bind, Returns-weaken, pure, ◌>>◌, invoke, after,
  answer_to, message, MessageCall,
}
use rust_lib.Mailbox.{
  Mailbox, ReceiveError, deserialization_failed, signal, timed_out, tag_or_0, receive_, decode,
}
use rust_lib.Mailbox.Branches.{receive_call, receive__branches}
use rust_lib.MessageRw
use rust_lib.Process.{Process, send_, write_message}
use rust_lib.Serde.{Rmp, Serde, unwrap}
use rust_lib.Timeout.{Duration}

module _ ⦃h : Host⦄ ⦃r : Rmp⦄ where
  unwrapped :
      (T : Type 0) (written : Result Unit r.EncodeError) (m : T) (w : World)
      → written ≡ ok tt
      → (unwrap (pure written) >> pure m) w ≡ (returned m, w)
  unwrapped T (ok x) m w e = refl
  unwrapped T (err x) m w e = cc

module _ ⦃h : Host⦄ ⦃r : Rmp⦄ {sight : Sight} (law : Lawful sight) {T A : Type 0} ⦃s : Serde T⦄
    (k : Codec sight s A) where
  -- The letter is in the buffer, and nothing was posted.
  abbrev pub Ready : ℕ → A → World → World → Type 0
  Ready tag a w w' =
      ((sight.view w'.host).letter ≡ envelope k tag a)
      × ((sight.view w'.host).posted ≡ (sight.view w.host).posted)
      × (w'.counter ≡ w.counter)

  -- Writing a message after `create_data` makes its letter.
  pub write_message-Ready :
      (tag : ℕ) (m : T) (a : A) (w : World)
      → k.Means w.host m a
      → Returns
          (λ m' w'. Ready tag a w w' × Spares sight (k.Apart m) w.host w'.host × k.Spent m')
          (write_message m (after (message (MessageCall.create_data tag 0)) w))
  unfolding write_message
  write_message-Ready tag m a w means =
      let w₁ = after (message (MessageCall.create_data tag 0)) w in
      let made = law.creates tag 0 w.host in
      Returns-bind
        (λ (x : Result Unit r.EncodeError × T) w'.
          (x.0 ≡ ok tt)
          × Added sight (k.bytes (length (sight.view w₁.host).letter.carried) a) (k.carried a) w₁ w'
          × Spares sight (k.Apart m) w₁.host w'.host
          × k.Spent x.1)
        (λ m' w'. Ready tag a w w' × Spares sight (k.Apart m) w.host w'.host × k.Spent m')
        (s.serialize MessageRw.write m) (λ x. unwrap (pure x.0) >> pure x.1) w₁
        (k.writes m a w₁ (k.stable m a w.host w₁.host made.1 means))
        (λ x w' g.
          subst
            (Returns
              (λ m' w''. Ready tag a w w'' × Spares sight (k.Apart m) w.host w''.host × k.Spent m'))
            (sym (unwrapped T x.0 x.1 w' g.0))
            (
              (
                ap (λ (v : View). v.letter) (written w w₁ w' made.0 g.1.0),
                ap (λ (v : View). v.posted) (written w w₁ w' made.0 g.1.0),
                g.1.1,
              ),
              λ id pid apart e. g.2 id pid apart (made.1.0 id pid e),
              g.3,
            ))
    where
      written :
          (w w₁ w' : World)
          → sight.view w₁.host ≡ record (sight.view w.host) { letter = blank tag }
          → sight.view w'.host
            ≡ add
                (sight.view w₁.host)
                (k.bytes (length (sight.view w₁.host).letter.carried) a)
                (k.carried a)
          → sight.view w'.host
            ≡ add (record (sight.view w.host) { letter = blank tag }) (k.bytes 0 a) (k.carried a)
      written w w₁ w' blank_letter all =
          all
          ∙ ap (λ (v : View). add v (k.bytes (length v.letter.carried) a) (k.carried a))
              blank_letter

  -- `send_` posts the one letter.
  pub send_-posts :
      (p : Process T) (pid : ℕ) (tag : Option ℕ) (m : T) (a : A) (w : World)
      → sight.process_of w.host p.id ≡ some pid
      → k.Means w.host m a
      → k.Apart m p.id
      → Returns
          (λ _ w'.
            ((sight.view w'.host).posted
              ≡ (pid, envelope k (tag_or_0 tag) a) ∷ (sight.view w.host).posted)
            × (w'.counter ≡ w.counter))
          (send_ p tag m w)
  unfolding send_
  send_-posts p pid tag m a w known means apart =
      let create = message (MessageCall.create_data (tag_or_0 tag) 0) in
      let deliver = message (MessageCall.send p.id) in
      Returns-bind
        (λ m' w'.
          Ready (tag_or_0 tag) a w w' × Spares sight (k.Apart m) w.host w'.host × k.Spent m')
        (λ _ w'.
          ((sight.view w'.host).posted
            ≡ (pid, envelope k (tag_or_0 tag) a) ∷ (sight.view w.host).posted)
          × (w'.counter ≡ w.counter))
        (write_message m) (λ m'. invoke deliver >> s.drop m') (after create w)
        (write_message-Ready (tag_or_0 tag) m a w means)
        (λ m' w' g.
          let posts = law.sends p.id pid w'.host (g.1 p.id pid apart known) in
          Returns-weaken
            (λ _ w''.
              (sight.view w''.host ≡ sight.view (after deliver w').host)
              × (w''.counter ≡ w'.counter))
            (λ _ w''.
              ((sight.view w''.host).posted
                ≡ (pid, envelope k (tag_or_0 tag) a) ∷ (sight.view w.host).posted)
              × (w''.counter ≡ w.counter))
            (s.drop m' (after deliver w')) (k.drops m' (after deliver w'))
            (λ _ w'' d. (
              ap (λ (v : View). v.posted) d.0
                  ∙ posts.0
                  ∙ ap₂ (λ l others. (pid, l) ∷ others) g.0.0 g.0.1,
              d.1 ∙ g.0.2,
            )))

  -- A value read out of the buffer that holds its letter.
  pub deserialize-Holds :
      (tag : ℕ) (a : A) (w : World)
      → k.Fits 0 a
      → Holds sight w.host (envelope k tag a)
      → Returns
          (λ x w'. (m : T) × (x ≡ ok m) × (k.Means w'.host m a × Read sight [] w w'))
          (s.deserialize MessageRw.read w)
  deserialize-Holds tag a w fits (letter, unread) =
      k.reads a [] [] [] w fits (unread ∙ sym (append-nil (k.bytes 0 a)))
        (ap (λ (l : Letter). l.carried) letter ∙ sym (append-nil (k.carried a)))

  abbrev pub Got :
      Option ℕ
      → Option Duration
      → A
      → World
      → Result T (ReceiveError r.DecodeError)
      → World
      → Type 0
  Got from limit a w x w' =
      (m : T) × (x ≡ ok m)
      × (k.Means w'.host m a × Read sight [] (after (receive_call from limit) w) w')

  -- What `receive_` returns where the buffer comes to hold a letter.
  pub receive_-Holds :
      (mb : Mailbox T) (from : Option ℕ) (limit : Option Duration) (tag : ℕ) (a : A) (w : World)
      → k.Fits 0 a
      → answer_to (receive_call from limit) w ≢ signal
      → answer_to (receive_call from limit) w ≢ timed_out
      → Holds sight (after (receive_call from limit) w).host (envelope k tag a)
      → Returns (Got from limit a w) (receive_ mb from limit w)
  unfolding decode
  receive_-Holds mb from limit tag a w fits no_signal in_time holds =
      let w₁ = after (receive_call from limit) w in
      elim (receive__branches mb from limit w) [
        | inl e ↦ absurd (no_signal e.0)
        | inr rest ↦ elim rest [
          | inl e ↦ absurd (in_time e.0)
          | inr e ↦ subst (Returns (Got from limit a w)) (sym e.2) (
              Returns-ok (λ (m : T) w'. k.Means w'.host m a × Read sight [] w₁ w')
                (Got from limit a w) (s.deserialize MessageRw.read)
                (λ x. elim x as (λ _. Run (Result T (ReceiveError r.DecodeError))) [
                  | ok m ↦ pure (ok m)
                  | err d ↦ pure (err (deserialization_failed d))
                ])
                w₁ (deserialize-Holds tag a w₁ fits holds) (λ m w' g. (m, refl, g)))
        ]
      ]

  -- A value that is sent is received: `send_` posts one letter, to the process behind the handle and
  -- under the given tag or 0; and any process whose `receive` answers with that letter in its buffer,
  -- and neither a signal nor a time-out, gets from `receive_` a value that stands for the same. The
  -- value fits its encoding and does not hold the handle that it is sent to.
  pub send_-receive_ :
      (p : Process T) (pid : ℕ) (tag : Option ℕ) (m : T) (a : A) (w : World) (mb : Mailbox T)
      (from : Option ℕ) (limit : Option Duration) (v : World)
      → sight.process_of w.host p.id ≡ some pid
      → k.Means w.host m a
      → k.Apart m p.id
      → k.Fits 0 a
      → answer_to (receive_call from limit) v ≢ signal
      → answer_to (receive_call from limit) v ≢ timed_out
      → Holds sight (after (receive_call from limit) v).host (envelope k (tag_or_0 tag) a)
      → Returns
          (λ _ w'.
            (sight.view w'.host).posted
            ≡ (pid, envelope k (tag_or_0 tag) a) ∷ (sight.view w.host).posted)
          (send_ p tag m w)
        × Returns (λ x v'. (m' : T) × (x ≡ ok m') × k.Means v'.host m' a) (receive_ mb from limit v)
  send_-receive_ p pid tag m a w mb from limit v known means apart fits no_signal in_time holds = (
    Returns-weaken
        (λ _ w'.
          ((sight.view w'.host).posted
            ≡ (pid, envelope k (tag_or_0 tag) a) ∷ (sight.view w.host).posted)
          × (w'.counter ≡ w.counter))
        (λ _ w'.
          (sight.view w'.host).posted
          ≡ (pid, envelope k (tag_or_0 tag) a) ∷ (sight.view w.host).posted)
        (send_ p tag m w) (send_-posts p pid tag m a w known means apart) (λ _ w' g. g.0),
    Returns-weaken (Got from limit a v) (λ x v'. (m' : T) × (x ≡ ok m') × k.Means v'.host m' a)
        (receive_ mb from limit v)
        (receive_-Holds mb from limit (tag_or_0 tag) a v fits no_signal in_time holds)
        (λ x v' g. (g.0, g.1, g.2.0)),
  )

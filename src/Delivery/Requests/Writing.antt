-- ===== src/Delivery/Requests/Writing.antt =====
-- Writing a request (the derived `Serialize` of src/request.rs).
use rust_lib.Common.{
  ℕ, ◌≡◌, ◌≢◌, ◌∙◌, ap, subst, [], ◌∷◌, ◌++◌, append-nil, Result, ok, err, true, some, length,
  length-append,
}
use rust_lib.Delivery.Codec.{Added, Added-trans, Format, Codec, Plain, Returns-is, Returns-both}
use rust_lib.Delivery.Handles.{process_codec}
use rust_lib.Delivery.Runtime.{a_process, View, Sight, Lawful, Keeps, Spares}
use rust_lib.Host.{Host, World, Run, Returns, Returns-bind, Returns-weaken, pure, ◌>>=◌}
use rust_lib.MessageRw
use rust_lib.Process
use rust_lib.Process.{Process, process_serde}
use rust_lib.Request
use rust_lib.Request.{Request, request_serde}
use rust_lib.Serde.{Rmp, Serde}
use rust_lib.Delivery.Requests.{
  Asked, index, fields, request_bytes, request_carried, RequestMeans, RequestApart, RequestSpent,
}

module _ ⦃h : Host⦄ ⦃r : Rmp⦄ {sight : Sight} (law : Lawful sight) (format : Format sight r)
    (U : Type 0) {T A : Type 0} {s : Serde T} (k : Codec sight s A) (plain : Plain sight s) where
  abbrev base_of : World → ℕ
  base_of w = length (sight.view w.host).letter.carried

  -- A request `q` that says `a` was written.
  abbrev Went :
      Request T U → Asked A → World → Result Unit r.EncodeError × Request T U → World → Type 0
  Went q a w x w' =
      (x.0 ≡ ok tt)
      × Added sight (request_bytes format k (base_of w) a) (request_carried format k a) w w'
      × Spares sight (RequestApart format k q) w.host w'.host
      × RequestSpent format k x.1

  -- The last field, after the others.
  sender_written :
      (q : Request T U) (a : Asked A) (body : T) (w w₃ : World)
      → Added sight (fields format k (base_of w) a) (k.carried a.about) w w₃
      → Spares sight (RequestApart format k q) w.host w₃.host
      → k.Spent body
      → sight.process_of w₃.host q.sender_process.id ≡ some a.sender
      → Returns (Went q a w) (
          (Process.serialize MessageRw.write q.sender_process >>= λ x.
          pure (x.0, Request.new body q.tag x.1))
            w₃)
  unfolding process_codec
  sender_written q a body w w₃ added spared body_spent known =
      let base : base_of w₃ ≡ index format k (base_of w) a =
        ap (λ (v : View). length v.letter.carried) added.0
        ∙ length-append (sight.view w.host).letter.carried (k.carried a.about) in
      Returns-bind
        (λ (x : Result Unit r.EncodeError × Process U) w₄.
          (x.0 ≡ ok tt)
          × Added sight (format.u64 (base_of w₃)) (a_process a.sender ∷ []) w₃ w₄
          × Spares sight (λ id. id ≢ q.sender_process.id) w₃.host w₄.host
          × (x.1.consumed ≡ true))
        (Went q a w) (Process.serialize MessageRw.write q.sender_process)
        (λ x. pure (x.0, Request.new body q.tag x.1)) w₃
        ((process_codec law format U).writes q.sender_process a.sender w₃ known)
        (λ x w₄ g. (
          g.0,
          subst
              (λ n.
                Added sight (fields format k (base_of w) a ++ format.u64 n)
                  (request_carried format k a) w w₄)
              base
              (Added-trans sight (fields format k (base_of w) a) (format.u64 (base_of w₃))
                (k.carried a.about) (a_process a.sender ∷ []) w w₃ w₄ added g.1),
          λ id pid apart e. g.2 id pid apart.1 (spared id pid apart e),
          (body_spent, g.3),
        ))

  -- What `serialize` does after each field.
  abbrev after_tag : Request T U → T → Run (Result Unit r.EncodeError × Request T U)
  after_tag q body = Process.serialize MessageRw.write q.sender_process >>= λ x.
      pure (x.0, Request.new body q.tag x.1)

  abbrev after_body :
      Request T U → Result Unit r.EncodeError × T → Run (Result Unit r.EncodeError × Request T U)
  after_body q x = elim x.0 as (λ _. Run (Result Unit r.EncodeError × Request T U)) [
    | err e ↦ pure (err e, record q { body = x.1 })
    | ok _ ↦ r.serialize_i64 MessageRw.write q.tag.id >>= λ y.
        elim y as (λ _. Run (Result Unit r.EncodeError × Request T U)) [
          | err e ↦ pure (err e, record q { body = x.1 })
          | ok _ ↦ after_tag q x.1
        ]
  ]

  -- The letter after the body, and after the tag.
  body-Added :
      (a : Asked A) (w w₁ w₂ : World)
      → Added sight (format.head 3) [] w w₁
      → Added sight (k.bytes (base_of w₁) a.about) (k.carried a.about) w₁ w₂
      → Added sight (format.head 3 ++ k.bytes (base_of w) a.about) (k.carried a.about) w w₂
  body-Added a w w₁ w₂ first second =
      let base : base_of w₁ ≡ base_of w =
        ap (λ (v : View). length v.letter.carried) first.0
        ∙ ap length (append-nil (sight.view w.host).letter.carried) in
      subst (λ n. Added sight (format.head 3 ++ k.bytes n a.about) (k.carried a.about) w w₂) base
        (Added-trans sight (format.head 3) (k.bytes (base_of w₁) a.about) [] (k.carried a.about) w
          w₁ w₂ first second)

  tag-Added :
      (q : Request T U) (a : Asked A) (w w₂ w₃ : World)
      → Added sight (format.head 3 ++ k.bytes (base_of w) a.about) (k.carried a.about) w w₂
      → q.tag.id ≡ a.tag
      → Added sight (format.i64 q.tag.id) [] w₂ w₃
      → Added sight (fields format k (base_of w) a) (k.carried a.about) w w₃
  tag-Added q a w w₂ w₃ added tag last =
      let front = format.head 3 ++ k.bytes (base_of w) a.about in
      subst (λ n. Added sight (front ++ format.i64 n) (k.carried a.about) w w₃) tag
        (subst (λ cs. Added sight (front ++ format.i64 q.tag.id) cs w w₃)
          (append-nil (k.carried a.about))
          (Added-trans sight front (format.i64 q.tag.id) (k.carried a.about) [] w w₂ w₃ added last))

  tag_written :
      (q : Request T U) (a : Asked A) (x : Result Unit r.EncodeError × T) (w w₂ : World)
      → x.0 ≡ ok tt
      → Added sight (format.head 3 ++ k.bytes (base_of w) a.about) (k.carried a.about) w w₂
      → Spares sight (RequestApart format k q) w.host w₂.host
      → k.Spent x.1
      → q.tag.id ≡ a.tag
      → sight.process_of w₂.host q.sender_process.id ≡ some a.sender
      → Returns (Went q a w) (after_body q x w₂)
  tag_written q a (ok _, body) w w₂ fine added spared body_spent tag known =
      Returns-is tt (λ w₃. Added sight (format.i64 q.tag.id) [] w₂ w₃ × Keeps sight w₂.host w₃.host)
        (Went q a w) (r.serialize_i64 MessageRw.write q.tag.id)
        (λ y. elim y as (λ _. Run (Result Unit r.EncodeError × Request T U)) [
          | err e ↦ pure (err e, record q { body = body })
          | ok _ ↦ after_tag q body
        ])
        w₂ (format.writes_i64 q.tag.id w₂)
        (λ w₃ g.
          sender_written q a body w w₃ (tag-Added q a w w₂ w₃ added tag g.0)
            (λ id pid apart e. g.1.0 id pid (spared id pid apart e)) body_spent
            (g.1.0 q.sender_process.id a.sender known))
  tag_written q a (err e, body) w w₂ fine added spared body_spent tag known = cc

  pub request_written :
      (q : Request T U) (a : Asked A) (w : World)
      → RequestMeans format k w.host q a
      → Returns (Went q a w) (Request.serialize ⦃s = s⦄ MessageRw.write q w)
  unfolding Request.serialize
  request_written q a w (about, tag, sender) =
      Returns-is tt (λ w₁. Added sight (format.head 3) [] w w₁ × Keeps sight w.host w₁.host)
        (Went q a w) (r.serialize_struct MessageRw.write 3)
        (λ header. elim header as (λ _. Run (Result Unit r.EncodeError × Request T U)) [
          | err e ↦ pure (err e, q)
          | ok _ ↦ s.serialize MessageRw.write q.body >>= after_body q
        ])
        w (format.writes_head 3 w)
        (λ w₁ g₁.
          Returns-bind
            (λ (x : Result Unit r.EncodeError × T) w₂.
              ((x.0 ≡ ok tt)
                × Added sight (k.bytes (base_of w₁) a.about) (k.carried a.about) w₁ w₂
                × Spares sight (k.Apart q.body) w₁.host w₂.host
                × k.Spent x.1)
              × Keeps sight w₁.host w₂.host)
            (Went q a w) (s.serialize MessageRw.write q.body) (after_body q) w₁
            (Returns-both
              (λ (x : Result Unit r.EncodeError × T) w₂.
                (x.0 ≡ ok tt)
                × Added sight (k.bytes (base_of w₁) a.about) (k.carried a.about) w₁ w₂
                × Spares sight (k.Apart q.body) w₁.host w₂.host
                × k.Spent x.1)
              (λ x w₂. Keeps sight w₁.host w₂.host) (s.serialize MessageRw.write q.body w₁)
              (k.writes q.body a.about w₁ (k.stable q.body a.about w.host w₁.host g₁.1 about))
              (plain.keeps q.body w₁))
            (λ x w₂ g₂.
              tag_written q a x w w₂ g₂.0.0 (body-Added a w w₁ w₂ g₁.0 g₂.0.1)
                (λ id pid apart e. g₂.0.2 id pid apart.0 (g₁.1.0 id pid e)) g₂.0.3 tag
                (g₂.1.0 q.sender_process.id a.sender (g₁.1.0 q.sender_process.id a.sender sender))))

  pub request_dropped :
      (q : Request T U) (w : World)
      → Returns
          (λ _ w'. (sight.view w'.host ≡ sight.view w.host) × (w'.counter ≡ w.counter))
          (Request.drop ⦃s = s⦄ q w)
  unfolding Request.drop process_codec
  request_dropped q w =
      Returns-bind (λ _ w'. (sight.view w'.host ≡ sight.view w.host) × (w'.counter ≡ w.counter))
        (λ _ w'. (sight.view w'.host ≡ sight.view w.host) × (w'.counter ≡ w.counter))
        (s.drop q.body) (λ _. Process.drop q.sender_process) w (k.drops q.body w)
        (λ _ w' g.
          Returns-weaken
            (λ _ w''. (sight.view w''.host ≡ sight.view w'.host) × (w''.counter ≡ w'.counter))
            (λ _ w''. (sight.view w''.host ≡ sight.view w.host) × (w''.counter ≡ w.counter))
            (Process.drop q.sender_process w')
            ((process_codec law format U).drops q.sender_process w')
            (λ _ w'' d. (d.0 ∙ g.0, d.1 ∙ g.1)))

  pub request_dropped_spent :
      (q : Request T U) (w : World)
      → RequestSpent format k q
      → Returns (λ _ w'. Keeps sight w.host w'.host) (Request.drop ⦃s = s⦄ q w)
  unfolding Request.drop Process.drop
  request_dropped_spent q w spent =
      Returns-bind (λ _ w'. Keeps sight w.host w'.host) (λ _ w'. Keeps sight w.host w'.host)
        (s.drop q.body) (λ _. Process.drop q.sender_process) w (k.drops_spent q.body w spent.0)
        (λ _ w' g. rw spent.1 g)

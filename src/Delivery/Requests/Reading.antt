-- ===== src/Delivery/Requests/Reading.antt =====
-- Reading a request (the derived `Deserialize` of src/request.rs).
use rust_lib.Common.{
  ℕ, ◌≡◌, ◌∙◌, ◌^◌, ◌<◌, ap, subst, sym, refl, List, [], ◌∷◌, ◌++◌, append_assoc, Result, ok, err,
  some, length, length-append, arith,
}
use rust_lib.Delivery.Codec.{Read, Read-trans, Format, Codec, Plain, Returns-ok, Returns-is}
use rust_lib.Delivery.Handles.{process_codec}
use rust_lib.Delivery.Runtime.{Carried, a_process, View, Sight, Lawful}
use rust_lib.Host.{Host, World, Run, Returns, pure, ◌>>=◌, ◌>>◌}
use rust_lib.MessageRw
use rust_lib.Process
use rust_lib.Process.{Process, process_serde}
use rust_lib.Request
use rust_lib.Request.{Request, request_serde}
use rust_lib.Serde.{Rmp, Serde}
use rust_lib.Tag
use rust_lib.Tag.{Tag}
use rust_lib.Delivery.Requests.{
  Asked, index, fields, request_bytes, request_carried, RequestFits, RequestMeans,
}

module _ ⦃h : Host⦄ ⦃r : Rmp⦄ {sight : Sight} (law : Lawful sight) (format : Format sight r)
    (U : Type 0) {T A : Type 0} {s : Serde T} (k : Codec sight s A) (plain : Plain sight s) where
  abbrev Came : Asked A → List ℕ → World → Result (Request T U) r.DecodeError → World → Type 0
  Came a rest w x w' =
      (q : Request T U) × (x ≡ ok q) × (RequestMeans format k w'.host q a × Read sight rest w w')

  -- What `deserialize` does after the head, the body and the tag.
  abbrev read_sender : T → ℕ → Run (Result (Request T U) r.DecodeError)
  read_sender body tag = Process.deserialize {T = U} MessageRw.read >>= λ third.
      elim third as (λ _. Run (Result (Request T U) r.DecodeError)) [
        | err e ↦ s.drop body >> pure (err e)
        | ok p ↦ pure (ok (Request.new body (Tag.from tag) p))
      ]

  abbrev read_tag : T → Run (Result (Request T U) r.DecodeError)
  read_tag body = r.deserialize_i64 MessageRw.read >>= λ second.
      elim second as (λ _. Run (Result (Request T U) r.DecodeError)) [
        | err e ↦ s.drop body >> pure (err e)
        | ok tag ↦ read_sender body tag
      ]

  abbrev read_body : Run (Result (Request T U) r.DecodeError)
  read_body = s.deserialize MessageRw.read >>= λ first.
      elim first as (λ _. Run (Result (Request T U) r.DecodeError)) [
        | err e ↦ pure (err e)
        | ok body ↦ read_tag body
      ]

  sender-Read :
      (body : T) (a : Asked A) (front back : List Carried) (rest : List ℕ) (w w₃ : World)
      → RequestFits format k (length front) a
      → (sight.view w.host).letter.carried ≡ front ++ (request_carried format k a ++ back)
      → Read sight (format.u64 (index format k (length front) a) ++ rest) w w₃
      → k.Means w₃.host body a.about
      → Returns (Came a rest w) (read_sender body a.tag w₃)
  unfolding process_codec
  sender-Read body a front back rest w w₃ fits holds sofar means =
      let front' = front ++ k.carried a.about in
      let at : length front' ≡ index format k (length front) a =
        length-append front (k.carried a.about) in
      Returns-ok
        (λ (p : Process U) w₄.
          (sight.process_of w₄.host p.id ≡ some a.sender) × Read sight rest w₃ w₄)
        (Came a rest w) (Process.deserialize MessageRw.read)
        (λ third. elim third as (λ _. Run (Result (Request T U) r.DecodeError)) [
          | err e ↦ s.drop body >> pure (err e)
          | ok p ↦ pure (ok (Request.new body (Tag.from a.tag) p))
        ])
        w₃
        ((process_codec law format U).reads a.sender front' back rest w₃
          (subst (λ n. n < 2 ^ 64) (sym at) fits.2)
          (ap (λ (v : View). v.unread) sofar.0 ∙ ap (λ n. format.u64 n ++ rest) (sym at))
          (ap (λ (v : View). v.letter.carried) sofar.0
            ∙ holds
            ∙ ap (λ cs. front ++ cs)
                (append_assoc (k.carried a.about) (a_process a.sender ∷ []) back)
            ∙ sym (append_assoc front (k.carried a.about) (a_process a.sender ∷ back))))
        (λ p w₄ g. (
          Request.new body (Tag.from a.tag) p,
          refl,
          (
            (k.stable body a.about w₃.host w₄.host g.1.1 means, refl, g.0),
            Read-trans sight (format.u64 (index format k (length front) a) ++ rest) rest w w₃ w₄
                sofar g.1,
          ),
        ))

  tag-Read :
      (body : T) (a : Asked A) (front back : List Carried) (rest : List ℕ) (w w₂ : World)
      → RequestFits format k (length front) a
      → (sight.view w.host).letter.carried ≡ front ++ (request_carried format k a ++ back)
      → Read sight (format.i64 a.tag ++ (format.u64 (index format k (length front) a) ++ rest)) w w₂
      → k.Means w₂.host body a.about
      → Returns (Came a rest w) (read_tag body w₂)
  tag-Read body a front back rest w w₂ fits holds sofar means =
      let rest₃ = format.u64 (index format k (length front) a) ++ rest in
      Returns-is a.tag (Read sight rest₃ w₂) (Came a rest w) (r.deserialize_i64 MessageRw.read)
        (λ second. elim second as (λ _. Run (Result (Request T U) r.DecodeError)) [
          | err e ↦ s.drop body >> pure (err e)
          | ok tag ↦ read_sender body tag
        ])
        w₂ (format.reads_i64 a.tag rest₃ w₂ fits.1 (ap (λ (v : View). v.unread) sofar.0))
        (λ w₃ g.
          sender-Read body a front back rest w w₃ fits holds
            (Read-trans sight (format.i64 a.tag ++ rest₃) rest₃ w w₂ w₃ sofar g)
            (k.stable body a.about w₂.host w₃.host g.1 means))

  body-Read :
      (a : Asked A) (front back : List Carried) (rest : List ℕ) (w w₁ : World)
      → RequestFits format k (length front) a
      → (sight.view w.host).letter.carried ≡ front ++ (request_carried format k a ++ back)
      → Read sight
          (k.bytes (length front) a.about
            ++ (format.i64 a.tag ++ (format.u64 (index format k (length front) a) ++ rest)))
          w
          w₁
      → Returns (Came a rest w) (read_body w₁)
  body-Read a front back rest w w₁ fits holds sofar =
      let rest₂ = format.i64 a.tag ++ (format.u64 (index format k (length front) a) ++ rest) in
      Returns-ok (λ (body : T) w₂. k.Means w₂.host body a.about × Read sight rest₂ w₁ w₂)
        (Came a rest w) (s.deserialize MessageRw.read)
        (λ first. elim first as (λ _. Run (Result (Request T U) r.DecodeError)) [
          | err e ↦ pure (err e)
          | ok body ↦ read_tag body
        ])
        w₁
        (k.reads a.about front ((a_process a.sender ∷ []) ++ back) rest₂ w₁ fits.0
          (ap (λ (v : View). v.unread) sofar.0)
          (ap (λ (v : View). v.letter.carried) sofar.0
            ∙ holds
            ∙ ap (λ cs. front ++ cs)
                (append_assoc (k.carried a.about) (a_process a.sender ∷ []) back)))
        (λ body w₂ g.
          tag-Read body a front back rest w w₂ fits holds
            (Read-trans sight (k.bytes (length front) a.about ++ rest₂) rest₂ w w₁ w₂ sofar g.1)
            g.0)

  -- The bytes of a request, in the order in which they are read.
  request_bytes_in_order :
      (base : ℕ) (a : Asked A) (rest : List ℕ)
      → request_bytes format k base a ++ rest
        ≡ format.head 3
          ++ (k.bytes base a.about
              ++ (format.i64 a.tag ++ (format.u64 (index format k base a) ++ rest)))
  request_bytes_in_order base a rest =
      append_assoc (fields format k base a) (format.u64 (index format k base a)) rest
      ∙ append_assoc (format.head 3 ++ k.bytes base a.about) (format.i64 a.tag)
          (format.u64 (index format k base a) ++ rest)
      ∙ append_assoc (format.head 3) (k.bytes base a.about)
          (format.i64 a.tag ++ (format.u64 (index format k base a) ++ rest))

  pub request_read :
      (a : Asked A) (front back : List Carried) (rest : List ℕ) (w : World)
      → RequestFits format k (length front) a
      → (sight.view w.host).unread ≡ request_bytes format k (length front) a ++ rest
      → (sight.view w.host).letter.carried ≡ front ++ (request_carried format k a ++ back)
      → Returns (Came a rest w) (Request.deserialize ⦃s = s⦄ MessageRw.read w)
  unfolding Request.deserialize
  request_read a front back rest w fits unread holds =
      let rest₁ =
        k.bytes (length front) a.about
        ++ (format.i64 a.tag ++ (format.u64 (index format k (length front) a) ++ rest)) in
      Returns-is tt (Read sight rest₁ w) (Came a rest w) (r.deserialize_struct MessageRw.read 3)
        (λ header. elim header as (λ _. Run (Result (Request T U) r.DecodeError)) [
          | err e ↦ pure (err e)
          | ok _ ↦ read_body
        ])
        w
        (format.reads_head 3 rest₁ w (omega arith)
          (unread ∙ request_bytes_in_order (length front) a rest))
        (λ w₁ g. body-Read a front back rest w w₁ fits holds g)

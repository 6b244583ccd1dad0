-- ===== src/Request/Call.antt =====
-- What `request_` sends and what it returns (src/process.rs).
use rust_lib.Common.{◌+◌, ◌%◌, ◌^◌, ◌<◌, ◌≡◌, ◌∙◌, ap₂, ◌∷◌, Result, ok, Option, arith}
use rust_lib.Host.{
  Host, World, Run, returned, Returns, Returns-bind, >>=-returned, pure, ◌>>=◌, ◌>>◌, invoke, after,
  answer_to, Call, MessageCall, ProcessCall, message, process,
}
use rust_lib.Mailbox.{timed_out}
use rust_lib.MessageRw
use rust_lib.Process
use rust_lib.Process.{Process, write_message}
use rust_lib.Process.Handle.{write_message-Later}
use rust_lib.Request.{Request, new, drop, request_, request_serde}
use rust_lib.Request.Reply.{drop_request-Later}
use rust_lib.Request.Send.{request_serde-Sends}
use rust_lib.Serde.{Rmp, Serde}
use rust_lib.Tag
use rust_lib.Tag.{Tag}
use rust_lib.Timeout.{Duration, timeout_ms}
use rust_lib.Trace.{sent}
use rust_lib.Trace.Quiet.{Later, Quietly-sent, Quietly-current_tag, Sends, Writes, Reads}

module _ ⦃h : Host⦄ where
  -- The world in which `request_` writes its request.
  abbrev pub opened : World → World
  opened w =
      let w' = after (process ProcessCall.this) w in
      let next = (w.counter + 1) % 2 ^ 64 in
      after (message (MessageCall.create_data next 0)) (record w' { counter = next })

module _ ⦃h : Host⦄ ⦃r : Rmp⦄ {T U : Type 0} ⦃s : Serde T⦄ ⦃u : Serde U⦄ where
  -- The request that `request_` makes in `w`.
  abbrev pub made : T → World → Request T U
  made body w =
      let i = answer_to (process ProcessCall.this) w in
      new body (Tag.from ((w.counter + 1) % 2 ^ 64)) (Process.from i)

  abbrev pub search : Process (Request T U) → Option Duration → Call
  search p limit = message (MessageCall.send_receive_skip_search p.id (timeout_ms limit))

  -- Where the request is written, the search answers a time-out, and decoding and dropping the request
  -- return, `request_` returns what decoding the scratch buffer gave, as a success: its caller cannot
  -- tell a time-out from a reply.
  pub request_-timed_out :
      (p : Process (Request T U)) (body : T) (limit : Option Duration) (stale : U)
      (request' : Request T U) (w w₁ w₂ w₃ : World)
      → write_message (made body w) (opened w) ≡ (returned request', w₁)
      → answer_to (search p limit) w₁ ≡ timed_out
      → u.deserialize MessageRw.read (after (search p limit) w₁) ≡ (returned (ok stale), w₂)
      → drop request' w₂ ≡ (returned tt, w₃)
      → request_ p body limit w ≡ (returned (ok stale), w₃)
  unfolding request_ Process.this Tag.new
  request_-timed_out p body limit stale request' w w₁ w₂ w₃ written late decoded dropped =
      >>=-returned (write_message (made body w))
        (λ q.
          invoke (search p limit) >>= λ _. u.deserialize MessageRw.read >>= λ x. drop q >> pure x)
        written
      ∙ >>=-returned (u.deserialize MessageRw.read) (λ x. drop request' >> pure x) decoded
      ∙ >>=-returned (drop request') (λ _. pure (ok stale)) dropped

  module _ (k : Sends s) (l : Reads u) (v : Writes r) where
    -- `request_` sends one message, to the process of the handle and under a tag of its own, the
    -- first one not made before; it makes no other tag. Fewer than 2 ^ 63 tags were made; the body and
    -- the serializer write without an error and send nothing (`Sends`, `Writes`), and decoding the
    -- reply sends nothing and makes no tag (`Reads`).
    pub request_-sent :
        (p : Process (Request T U)) (body : T) (limit : Option Duration) (w : World)
        → w.counter + 1 < 2 ^ 63
        → Returns
            (λ _ w'.
              (sent w'.calls ≡ (p.id, w.counter + 1) ∷ sent w.calls) × (w'.counter ≡ w.counter + 1))
            (request_ p body limit w)
    unfolding request_ Process.this Tag.new
    request_-sent p body limit w small =
        Returns-bind (λ _ w'. Later (opened w) w') (Goal w) (write_message (made body w)) rest
          (opened w) (write_message-Later (request_serde-Sends k v) (made body w) (opened w))
          (λ q w₁ g₁.
            Returns-bind
              (λ _ w'.
                (sent w'.calls ≡ sent (after (search p limit) w₁).calls)
                × (w'.counter ≡ w₁.counter))
              (Goal w) (u.deserialize MessageRw.read) (λ x. drop q >> pure x)
              (after (search p limit) w₁) (l.reads (after (search p limit) w₁))
              (λ x w₂ g₂.
                Returns-bind (λ _ w'. Later w₂ w') (Goal w) (drop q) (λ _. pure x) w₂
                  (drop_request-Later k q w₂)
                  (λ _ w₃ g₃.
                    let next : (w.counter + 1) % 2 ^ 64 ≡ w.counter + 1 = omega arith in
                    (
                      Quietly-sent w₂ w₃ g₃.0
                          ∙ g₂.0
                          ∙ ap₂ (λ t others. (p.id, t) ∷ others)
                              (Quietly-current_tag (opened w) w₁ g₁.0 ∙ next)
                              (Quietly-sent (opened w) w₁ g₁.0),
                      g₃.1 ∙ g₂.1 ∙ g₁.1 ∙ next,
                    ))))
      where
        Goal : World → Result U r.DecodeError → World → Type 0
        Goal w x w' =
            (sent w'.calls ≡ (p.id, w.counter + 1) ∷ sent w.calls) × (w'.counter ≡ w.counter + 1)

        rest : Request T U → Run (Result U r.DecodeError)
        rest q =
            invoke (search p limit) >>= λ _. u.deserialize MessageRw.read >>= λ x. drop q >> pure x

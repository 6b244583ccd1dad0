-- ===== src/Request/Reply.antt =====
-- The tags of requests and replies (src/request.rs, src/process.rs).
use rust_lib.Common.{◌≡◌, ◌∙◌, ◌∷◌, some}
use rust_lib.Host.{Host, World, Returns, Returns-bind, Returns-weaken}
use rust_lib.Process
use rust_lib.Process.{Process, write_message}
use rust_lib.Process.Handle.{send_-sent, drop-Later}
use rust_lib.Request.{Request, drop, reply, request_serde}
use rust_lib.Serde.{Rmp, Serde}
use rust_lib.Trace.{sent}
use rust_lib.Trace.Quiet.{Later, Later-trans, Quietly-sent, Sends}

module _ ⦃h : Host⦄ ⦃r : Rmp⦄ {T U : Type 0} ⦃s : Serde T⦄ (k : Sends s) where
  pub drop_request-Later : (q : Request T U) (w : World) → Returns (λ _ w'. Later w w') (drop q w)
  unfolding drop
  drop_request-Later q w =
      Returns-bind (λ _ w'. Later w w') (λ _ w'. Later w w') (s.drop q.body)
        (λ _. Process.drop q.sender_process) w (k.drops q.body w)
        (λ _ w' g.
          Returns-weaken (λ _ w''. Later w' w'') (λ _ w''. Later w w'')
            (Process.drop q.sender_process w') (drop-Later q.sender_process w')
            (λ _ w'' d. Later-trans w w' w'' g d))

  module _ ⦃u : Serde U⦄ (l : Sends u) where
    -- A reply is one message, to the process that sent the request and under the request's tag. The
    -- types of the request and of the reply are ones whose values are written without an error and
    -- whose writing and dropping send nothing (`Sends`).
    pub reply-sent :
        (q : Request T U) (answer : U) (w : World)
        → Returns
            (λ _ w'. sent w'.calls ≡ (q.sender_process.id, q.tag.id) ∷ sent w.calls)
            (reply q answer w)
    unfolding reply Process.tag_send
    reply-sent q answer w =
        Returns-bind
          (λ _ w'.
            (sent w'.calls ≡ (q.sender_process.id, q.tag.id) ∷ sent w.calls)
            × (w'.counter ≡ w.counter))
          (λ _ w'. sent w'.calls ≡ (q.sender_process.id, q.tag.id) ∷ sent w.calls)
          (Process.send_ q.sender_process (some q.tag.id) answer) (λ _. drop q) w
          (send_-sent l q.sender_process (some q.tag.id) answer w)
          (λ _ w' g.
            Returns-weaken (λ _ w''. Later w' w'')
              (λ _ w''. sent w''.calls ≡ (q.sender_process.id, q.tag.id) ∷ sent w.calls) (drop q w')
              (drop_request-Later q w') (λ _ w'' d. Quietly-sent w' w'' d.0 ∙ g.0))

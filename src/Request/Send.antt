-- ===== src/Request/Send.antt =====
-- A request as a message (src/request.rs), and the message that `request_` sends (src/process.rs).
use rust_lib.Common.{◌≡◌, subst, sym, Result, ok, err}
use rust_lib.Host.{Host, World, Run, Returns, Returns-bind, pure, ◌>>=◌}
use rust_lib.MessageRw
use rust_lib.Process
use rust_lib.Process.{Process}
use rust_lib.Process.Handle.{serialize-Later}
use rust_lib.Request.{Request, new, serialize, request_serde}
use rust_lib.Request.Reply.{drop_request-Later}
use rust_lib.Serde.{Rmp, Serde}
use rust_lib.Trace.Quiet.{Later, Later-trans, Sends, Writes, Written, Written-Later, ok_branch}

module _ ⦃h : Host⦄ ⦃r : Rmp⦄ {T U : Type 0} ⦃s : Serde T⦄ (k : Sends s) (v : Writes r) where
  abbrev Goes : World → Result Unit r.EncodeError × Request T U → World → Type 0
  Goes w written w' = (written.0 ≡ ok tt) × Later w w'

  -- The last field, after the others were written from `w₀` on.
  third_field :
      (q : Request T U) (body : T) (w₀ w : World)
      → Later w₀ w
      → Returns (Goes w₀) (
          (Process.serialize MessageRw.write q.sender_process >>= λ x.
          pure (x.0, new body q.tag x.1))
            w)
  third_field q body w₀ w g =
      Returns-bind (λ x w'. (x.0 ≡ ok tt) × Later w w') (Goes w₀)
        (Process.serialize MessageRw.write q.sender_process) (λ x. pure (x.0, new body q.tag x.1)) w
        (serialize-Later q.sender_process v w) (λ x w' d. (d.0, Later-trans w₀ w w' g d.1))

  serialize_request-Later :
      (q : Request T U) (w : World) → Returns (Goes w) (serialize MessageRw.write q w)
  unfolding serialize
  serialize_request-Later q w =
      Returns-bind (λ x w'. (x ≡ ok tt) × Written w w') (Goes w)
        (r.serialize_struct MessageRw.write 3)
        (λ header. elim header [
          | err e ↦ pure (err e, q)
          | ok _ ↦ (s.serialize MessageRw.write q.body >>= λ x. second x)
        ])
        w (v.writes_struct 3 w)
        (λ header w₁ g₁.
          subst (Returns (Goes w))
            (sym
              (ok_branch header _ (s.serialize MessageRw.write q.body >>= λ x. second x) w₁ g₁.0))
            (Returns-bind (λ x w'. (x.0 ≡ ok tt) × Later w₁ w') (Goes w)
              (s.serialize MessageRw.write q.body) second w₁ (k.writes q.body w₁)
              (λ x w₂ g₂.
                after_body x w₂ g₂.0 (Later-trans w w₁ w₂ (Written-Later w w₁ g₁.1) g₂.1))))
    where
      last : T → Run (Result Unit r.EncodeError × Request T U)
      last body =
          Process.serialize MessageRw.write q.sender_process >>= λ x. pure (x.0, new body q.tag x.1)

      tagged : T → Run (Result Unit r.EncodeError × Request T U)
      tagged body = r.serialize_i64 MessageRw.write q.tag.id >>= λ y. elim y [
        | err e ↦ pure (err e, record q { body = body })
        | ok _ ↦ last body
      ]

      second : Result Unit r.EncodeError × T → Run (Result Unit r.EncodeError × Request T U)
      second x = elim x.0 [ err e ↦ pure (err e, record q { body = x.1 }) | ok _ ↦ tagged x.1 ]

      after_body :
          (x : Result Unit r.EncodeError × T) (w₂ : World)
          → x.0 ≡ ok tt
          → Later w w₂
          → Returns (Goes w) (second x w₂)
      after_body x w₂ e g = subst (Returns (Goes w)) (sym (ok_branch x.0 _ (tagged x.1) w₂ e)) (
          Returns-bind (λ y w'. (y ≡ ok tt) × Written w₂ w') (Goes w)
            (r.serialize_i64 MessageRw.write q.tag.id)
            (λ y. elim y [ err e ↦ pure (err e, record q { body = x.1 }) | ok _ ↦ last x.1 ]) w₂
            (v.writes_i64 q.tag.id w₂)
            (λ y w₃ g₃.
              subst (Returns (Goes w)) (sym (ok_branch y _ (last x.1) w₃ g₃.0))
                (third_field q x.1 w w₃ (Later-trans w w₂ w₃ g (Written-Later w₂ w₃ g₃.1)))))

  -- A request can be sent whenever its body can and the serializer writes.
  pub request_serde-Sends : Sends (request_serde {T = T} {U = U})
  request_serde-Sends = record { writes = serialize_request-Later; drops = drop_request-Later k }

-- ===== src/Process/Handle.antt =====
-- Handles of processes: their identity, and that each is given back once (src/process.rs).
use rust_lib.Common.{
  ℕ, ◌≡◌, ◌∙◌, refl, sym, ap₂, subst, List, ◌∷◌, Result, ok, err, Option, true, ◌==◌, length,
  replicate, fill, length-fill, fill-IsByte, All, arith, eq→==, Bool-cases, inl, inr,
}
use rust_lib.Common.Bytes.{
  IsByte, from_le_bytes, from_le_bytes-injective, bytes_eq, bytes_eq-eq, bytes_eq_refl,
}
use rust_lib.Host.{
  Host, World, returned, Returns, Returns-bind, Returns-weaken, pure, ◌>>=◌, ◌>>◌, invoke, after,
  answer_to, MessageCall, ProcessCall, message, process,
}
use rust_lib.MessageRw
use rust_lib.Process.{
  Process, uuid, eq, process_id, drop, serialize, send_, write_message, process_serde,
}
use rust_lib.Mailbox.{tag_or_0}
use rust_lib.Serde.{Rmp, Serde, unwrap}
use rust_lib.Trace.{sent}
use rust_lib.Trace.Quiet.{
  Later, Later-refl, Later-trans, Quietly-call, Quietly-sent, Quietly-current_tag, Sends, Writes,
  Written, Written-Later,
}

-- The buffers of two identifiers are equal as arrays just when their numbers are.
uuid_buffers :
    (xs ys : List ℕ)
    → bytes_eq (fill (replicate 16 0) xs) (fill (replicate 16 0) ys)
      ≡ (from_le_bytes (fill (replicate 16 0) xs) == from_le_bytes (fill (replicate 16 0) ys))
uuid_buffers xs ys =
    go (fill (replicate 16 0) xs) (fill (replicate 16 0) ys) (length-fill (replicate 16 0) xs)
      (length-fill (replicate 16 0) ys) (fill-IsByte (replicate 16 0) xs (omega arith))
      (fill-IsByte (replicate 16 0) ys (omega arith))
  where
    go :
        (a b : List ℕ)
        → length a ≡ 16
        → length b ≡ 16
        → All IsByte a
        → All IsByte b
        → bytes_eq a b ≡ (from_le_bytes a == from_le_bytes b)
    go a b la lb ha hb = elim (Bool-cases (bytes_eq a b)) [
      | inl same ↦
          rw (bytes_eq-eq a b same)
            (rw bytes_eq_refl (sym (eq→== (from_le_bytes b) (from_le_bytes b) refl)))
      | inr differ ↦ ground (arith, from_le_bytes-injective 16 a b la lb ha hb, bytes_eq_refl b)
    ]

module _ ⦃h : Host⦄ where
  -- `==` of two handles answers what comparing the numbers that `id()` gives for them would, with
  -- the same two calls.
  eq-process_id :
      {T : Type 0} (p q : Process T) (w : World)
      → eq p q w ≡ (do i ← process_id p; j ← process_id q; pure (i == j)) w
  unfolding eq process_id uuid
  eq-process_id p q w = rw uuid_buffers

module _ ⦃h : Host⦄ ⦃r : Rmp⦄ where
  pub drop-Later :
      {T : Type 0} (p : Process T) (w : World) → Returns (λ _ w'. Later w w') (drop p w)
  unfolding drop
  drop-Later p w = elim (Bool-cases p.consumed) [
    | inl gone ↦ rw gone (Later-refl w)
    | inr held ↦ rw held (Quietly-call (process (ProcessCall.drop_process p.id)) w tt, refl)
  ]

  pub serialize-Later :
      {T : Type 0} (p : Process T)
      → Writes r
      → (w : World)
      → Returns (λ written w'. (written.0 ≡ ok tt) × Later w w') (serialize MessageRw.write p w)
  unfolding serialize
  serialize-Later p k w =
      let push = message (MessageCall.push_process p.id) in
      Returns-bind (λ written w'. (written ≡ ok tt) × Written (after push w) w')
        (λ written w'. (written.0 ≡ ok tt) × Later w w')
        (r.serialize_u64 MessageRw.write (answer_to push w))
        (λ written. pure (written, record p { consumed = true })) (after push w)
        (k.writes_u64 (answer_to push w) (after push w))
        (λ written w' g. (
          g.0,
          Later-trans w (after push w) w' (Quietly-call push w tt, refl)
              (Written-Later (after push w) w' g.1),
        ))

  -- A handle can be sent whenever the serializer can write its index.
  pub process_serde-Sends : (T : Type 0) → Writes r → Sends (process_serde {T = T})
  process_serde-Sends T k = record {
    writes = λ p w. serialize-Later p k w;
    drops = λ p w. drop-Later p w;
  }

  unwrap_ok :
      {T : Type 0} (written : Result Unit r.EncodeError) (m : T) (w : World)
      → written ≡ ok tt
      → (unwrap (pure written) >> pure m) w ≡ (returned m, w)
  unwrap_ok (ok x) m w e = refl
  unwrap_ok (err x) m w e = cc

  module _ {T : Type 0} ⦃s : Serde T⦄ (k : Sends s) where
    pub write_message-Later : (m : T) (w : World) → Returns (λ _ w'. Later w w') (write_message m w)
    unfolding write_message
    write_message-Later m w =
        Returns-bind (λ written w'. (written.0 ≡ ok tt) × Later w w') (λ _ w'. Later w w')
          (s.serialize MessageRw.write m) (λ written. unwrap (pure written.0) >> pure written.1) w
          (k.writes m w)
          (λ written w' g.
            subst (Returns (λ _ w''. Later w w'')) (sym (unwrap_ok written.0 written.1 w' g.0)) g.1)

    -- `send_` returns and has sent one message, to the process of the handle, under the given tag
    -- or 0; it makes no tag. The type of the message is one whose values are written without an error
    -- and whose writing and dropping send nothing (`Sends`).
    pub send_-sent :
        (p : Process T) (tag : Option ℕ) (m : T) (w : World)
        → Returns
            (λ _ w'.
              (sent w'.calls ≡ (p.id, tag_or_0 tag) ∷ sent w.calls) × (w'.counter ≡ w.counter))
            (send_ p tag m w)
    unfolding send_
    send_-sent p tag m w =
        let create = message (MessageCall.create_data (tag_or_0 tag) 0) in
        let deliver = message (MessageCall.send p.id) in
        Returns-bind (λ _ w'. Later (after create w) w')
          (λ _ w'. (sent w'.calls ≡ (p.id, tag_or_0 tag) ∷ sent w.calls) × (w'.counter ≡ w.counter))
          (write_message m) (λ m'. invoke deliver >> s.drop m') (after create w)
          (write_message-Later m (after create w))
          (λ m' w' g.
            Returns-weaken (λ _ w''. Later (after deliver w') w'')
              (λ _ w''.
                (sent w''.calls ≡ (p.id, tag_or_0 tag) ∷ sent w.calls) × (w''.counter ≡ w.counter))
              (s.drop m' (after deliver w')) (k.drops m' (after deliver w'))
              (λ _ w'' d. (
                Quietly-sent (after deliver w') w'' d.0
                    ∙ ap₂ (λ t rest. (p.id, t) ∷ rest) (Quietly-current_tag (after create w) w' g.0)
                        (Quietly-sent (after create w) w' g.0),
                d.1 ∙ g.1,
              )))

-- ===== src/Process/Release.antt =====
-- How often a handle is given back to the runtime (src/process.rs).
use rust_lib.Common.{ℕ, zero, suc, ◌+◌, ◌≡◌, refl, ok, true, false, eq→==, arith}
use rust_lib.Host.{
  Host, World, Run, Returns, Returns-bind, Returns-weaken, pure, ◌>>=◌, after, answer_to,
  MessageCall, message,
}
use rust_lib.MessageRw
use rust_lib.Process.{Process, drop, serialize}
use rust_lib.Serde.{Rmp}
use rust_lib.Trace.{releases}
use rust_lib.Trace.Quiet.{Writes, Written, Written-releases}

-- How often a handle that was serialized `n` times is given back by the time it is gone.
abbrev pub returned_times : ℕ → ℕ
returned_times zero = 1
returned_times (suc n) = suc n

module _ ⦃h : Host⦄ ⦃r : Rmp⦄ {T : Type 0} where
  -- The life of a handle: it is serialized `n` times, and then it is dropped.
  pub use_up : ℕ → Process T → Run Unit
  use_up zero p = drop p
  use_up (suc n) p = do (_, p') ← serialize MessageRw.write p; use_up n p'

  -- A handle is serialized once and goes on as a consumed one.
  serialize_step :
      (p : Process T) (k : Writes r) (w : World)
      → Returns
          (λ written w'.
            (written.1 ≡ record p { consumed = true })
            × (releases p.id w'.calls ≡ 1 + releases p.id w.calls))
          (serialize MessageRw.write p w)
  unfolding serialize
  serialize_step p k w =
      let push = message (MessageCall.push_process p.id) in
      Returns-bind (λ written w'. (written ≡ ok tt) × Written (after push w) w')
        (λ written w'.
          (written.1 ≡ record p { consumed = true })
          × (releases p.id w'.calls ≡ 1 + releases p.id w.calls))
        (r.serialize_u64 MessageRw.write (answer_to push w))
        (λ written. pure (written, record p { consumed = true })) (after push w)
        (k.writes_u64 (answer_to push w) (after push w))
        (λ written w' g.
          (refl, rw (Written-releases p.id (after push w) w' g.1) (rw (eq→== p.id p.id refl))))

  -- Serializing once more, where what follows is known of a consumed handle.
  use_up_step :
      (n : ℕ)
      → ((p : Process T) (w : World)
          → p.consumed ≡ true
          → Returns (λ _ w'. releases p.id w'.calls ≡ n + releases p.id w.calls) (use_up n p w))
      → (p : Process T) (k : Writes r) (w : World)
      → Returns
          (λ _ w'. releases p.id w'.calls ≡ suc n + releases p.id w.calls)
          (use_up (suc n) p w)
  unfolding use_up
  use_up_step n ih p k w =
      Returns-bind
        (λ written w'.
          (written.1 ≡ record p { consumed = true })
          × (releases p.id w'.calls ≡ 1 + releases p.id w.calls))
        (λ _ w'. releases p.id w'.calls ≡ suc n + releases p.id w.calls)
        (serialize MessageRw.write p) (λ written. use_up n written.1) w (serialize_step p k w)
        (λ written w' g. rw g.0 (
          Returns-weaken (λ _ w''. releases p.id w''.calls ≡ n + releases p.id w'.calls)
            (λ _ w''. releases p.id w''.calls ≡ suc n + releases p.id w.calls)
            (use_up n (record p { consumed = true }) w') (ih (record p { consumed = true }) w' refl)
            (λ _ w'' d. omega (arith, d, g.1))))

  -- A consumed handle is given back once for each time that it is serialized again.
  use_up_consumed :
      (n : ℕ) (p : Process T) (k : Writes r) (w : World)
      → p.consumed ≡ true
      → Returns (λ _ w'. releases p.id w'.calls ≡ n + releases p.id w.calls) (use_up n p w)
  unfolding use_up
  use_up_consumed zero p k w e = unfold drop in rw e (omega arith)
  use_up_consumed (suc n) p k w e = use_up_step n (λ q v. use_up_consumed n q k v) p k w

  -- A handle that was not sent away, serialized `n` times and then dropped, is given back to the
  -- runtime (dropped or pushed into a message) exactly once where `n` is 0 or 1, and `n` times where
  -- it is more. The serializer writes numbers without an error (`Writes`).
  pub use_up-releases :
      (n : ℕ) (p : Process T) (k : Writes r) (w : World)
      → p.consumed ≡ false
      → Returns
          (λ _ w'. releases p.id w'.calls ≡ returned_times n + releases p.id w.calls)
          (use_up n p w)
  unfolding use_up
  use_up-releases zero p k w e = unfold drop in rw e (rw (eq→== p.id p.id refl))
  use_up-releases (suc n) p k w e = use_up_step n (λ q v. use_up_consumed n q k v) p k w

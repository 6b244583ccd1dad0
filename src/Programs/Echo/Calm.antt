-- ===== src/Programs/Echo/Calm.antt =====
-- Runs that leave a part of the runtime's state as it is, and that handing a connection to a child
-- (`spawn_with` of src/process.rs) is one.
use rust_lib.Common.{
  ℕ, ◌≡◌, ◌∙◌, refl, Result, ok, err, none, Bool, true, false, ◌==◌, if◌then◌else◌,
}
use rust_lib.Host.{
  Host, Returns, World, Run, Outcome, returned, panicked, pure, ◌>>=◌, ◌>>◌, invoke, Call, message,
  networking, process, MessageCall, NetworkingCall, ProcessCall,
}
use rust_lib.LunaticError
use rust_lib.LunaticError.{LunaticError}
use rust_lib.MessageRw
use rust_lib.Net.Attempts.Outcomes.{IfReturns, IfReturns-bind}
use rust_lib.Net.TcpStream
use rust_lib.Net.TcpStream.{TcpStream, tcp_stream_serde}
use rust_lib.Process
use rust_lib.Process.{Process, write_message}
use rust_lib.Serde.{Rmp, unwrap}
use rust_lib.Spawn.{
  Context, with_context, FunctionTable, spawn_, spawn_call, start_child, drop_context, entry_point,
  entry_params,
}

-- The calls that do not take a connection that waits.
abbrev pub Leaving : Call → Type 0
Leaving (networking (NetworkingCall.tcp_accept id timeout cell)) = ⊥
Leaving c = Unit

module _ ⦃h : Host⦄ {X : Type 0} (seen : h.State → X) where
  abbrev pub Same : World → World → Type 0
  Same w w' = seen w'.host ≡ seen w.host

  abbrev pub Calm : {A : Type 0} → Run A → Type 0
  Calm m = (w : World) → IfReturns (λ _ w'. Same w w') (m w)

  onward :
      {A : Type 0} (w w' : World) (o : Outcome A × World)
      → Same w w'
      → IfReturns (λ _ w''. Same w' w'') o
      → IfReturns (λ _ w''. Same w w'') o
  onward w w' (returned a, w'') same more = more ∙ same
  onward w w' (panicked, w'') same more = tt

  -- A run that returns, and is calm.
  pub Returns-Same :
      {A : Type 0} (P : A → World → Type 0) (w : World) (o : Outcome A × World)
      → Returns P o
      → IfReturns (λ _ w'. Same w w') o
      → Returns (λ a w'. P a w' × Same w w') o
  Returns-Same P w (returned a, w') p same = (p, same)
  Returns-Same P w (panicked, w') p same = absurd p

  Calm-bind :
      {A B : Type 0} (m : Run A) (f : A → Run B) → Calm m → ((a : A) → Calm (f a)) → Calm (m >>= f)
  Calm-bind m f calm calms w =
      IfReturns-bind (λ _ w'. Same w w') (λ _ w''. Same w w'') m f w (calm w)
        (λ a w' same. onward w w' (f a w') same (calms a w'))

  Calm-if : {A : Type 0} (b : Bool) (m n : Run A) → Calm m → Calm n → Calm (if b then m else n)
  Calm-if true m n calm calms = calm
  Calm-if false m n calm calms = calms

  Calm-unwrap : {A E : Type 0} (x : Result A E) → Calm (unwrap (pure x))
  Calm-unwrap (ok a) w = refl
  Calm-unwrap (err e) w = tt

  module _ ⦃r : Rmp⦄ ⦃table : FunctionTable⦄
      (leaves : (c : Call) → Leaving c → (s : h.State) → seen (h.answer c s).1 ≡ seen s)
      (writes : (n : ℕ) → Calm (r.serialize_u64 MessageRw.write n)) where
    Calm-drop : (c : TcpStream) → Calm (TcpStream.drop c)
    unfolding TcpStream.drop
    Calm-drop c =
        Calm-if c.consumed (pure tt) (invoke (networking (NetworkingCall.drop_tcp_stream c.id)))
          (λ w. refl) (λ w. leaves (networking (NetworkingCall.drop_tcp_stream c.id)) tt w.host)

    Calm-serialize : (c : TcpStream) → Calm (TcpStream.serialize MessageRw.write c)
    unfolding TcpStream.serialize
    Calm-serialize c =
        Calm-bind (invoke (message (MessageCall.push_tcp_stream c.id)))
          (λ index. r.serialize_u64 MessageRw.write index >>= λ written.
            pure (written, record c { consumed = true }))
          (λ w. leaves (message (MessageCall.push_tcp_stream c.id)) tt w.host)
          (λ index.
            Calm-bind (r.serialize_u64 MessageRw.write index)
              (λ written. pure (written, record c { consumed = true })) (writes index)
              (λ written w. refl))

    Calm-write_message : (c : TcpStream) → Calm (write_message c)
    unfolding write_message
    Calm-write_message c =
        Calm-bind (TcpStream.serialize MessageRw.write c)
          (λ (written, m'). unwrap (pure written) >>= λ _. pure m') (Calm-serialize c)
          (λ (written, m').
            Calm-bind (unwrap (pure written)) (λ _. pure m') (Calm-unwrap written) (λ _ w. refl))

    Calm-send : (p : Process TcpStream) (c : TcpStream) → Calm (Process.send p c)
    unfolding Process.send Process.send_
    Calm-send p c =
        Calm-bind (invoke (message (MessageCall.create_data 0 0)))
          (λ _.
            write_message c >>= λ m'. invoke (message (MessageCall.send p.id)) >> TcpStream.drop m')
          (λ w. leaves (message (MessageCall.create_data 0 0)) tt w.host)
          (λ _.
            Calm-bind (write_message c)
              (λ m'. invoke (message (MessageCall.send p.id)) >> TcpStream.drop m')
              (Calm-write_message c)
              (λ m'.
                Calm-bind (invoke (message (MessageCall.send p.id))) (λ _. TcpStream.drop m')
                  (λ w. leaves (message (MessageCall.send p.id)) tt w.host) (λ _. Calm-drop m')))

    pub Calm-drop_process : {T : Type 0} (p : Process T) → Calm (Process.drop p)
    unfolding Process.drop
    Calm-drop_process p =
        Calm-if p.consumed (pure tt) (invoke (process (ProcessCall.drop_process p.id))) (λ w. refl)
          (λ w. leaves (process (ProcessCall.drop_process p.id)) tt w.host)

    -- Handing over a connection.
    pub Calm-spawn_ :
        (T : Type 0) (c : TcpStream) (function : ℕ)
        → Calm (spawn_ {T = T} none none (with_context function c))
    unfolding spawn_ spawn_call start_child drop_context
    Calm-spawn_ T c function =
        let start : Context TcpStream T = with_context function c in
        Calm-bind (spawn_call none none start)
          (λ (result, id).
            if result == 0
            then (do child ← start_child id start; pure (ok child))
            else (do drop_context start; pure (err (LunaticError.from id))))
          (λ w.
            leaves (process (ProcessCall.inherit_spawn 0 entry_point (entry_params start) 0)) tt
              w.host)
          (λ (result, id).
            Calm-if (result == 0) (do child ← start_child id start; pure (ok child))
              (do drop_context start; pure (err (LunaticError.from id)))
              (Calm-bind (start_child id start) (λ child. pure (ok child))
                (Calm-bind (Process.send (Process.from id) c) (λ _. pure (Process.from id))
                  (Calm-send (Process.from id) c) (λ _ w. refl))
                (λ child w. refl))
              (Calm-bind (drop_context start) (λ _. pure (err (LunaticError.from id))) (Calm-drop c)
                (λ _ w. refl)))

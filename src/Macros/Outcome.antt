-- ===== src/Macros/Outcome.antt =====
-- When a generated test passes (lunatic-macros/src/lib.rs).
use rust_lib.Common.{ℕ, ◌≡◌, ◌≢◌, ◌⊎◌, ap, subst, inl, inr, refl, sym, Result, ok, err, none}
use rust_lib.Host.{
  Host, World, Outcome, Run, returned, panicked, pure, Returns, Returns-bind, >>=-returned, ◌>>◌,
  after, answer_to, ◌>>=◌, message, process, MessageCall, ProcessCall,
}
use rust_lib.LinkMailbox
use rust_lib.LinkMailbox.{normal, LinkMailbox, link_mailbox, mailbox_transform}
use rust_lib.LinkMailbox.Laws.{receive__agrees}
use rust_lib.LunaticError.{LunaticError}
use rust_lib.Macros.{decide, run_test}
use rust_lib.Mailbox
use rust_lib.Mailbox.{Mailbox, mailbox, signal, timed_out}
use rust_lib.Mailbox.Branches.{receive_call, receive__branches}
use rust_lib.MessageRw
use rust_lib.Process
use rust_lib.Process.{Process, process_serde}
use rust_lib.Serde.{Rmp, unit_serde, unwrap}
use rust_lib.Spawn.{FunctionTable}
use rust_lib.Spawn.Family.{spawn_link_with}
use rust_lib.Tag.{Tag}

module _ ⦃h : Host⦄ ⦃r : Rmp⦄ where
  abbrev pub Verdict : Type 0
  Verdict = Result Unit (Unit {0})

  -- How a test ends that has dropped its handle of the child and waits in `v`.
  abbrev pub Decided : World → Outcome Verdict × World → Type 0
  Decided v run =
      let c = receive_call none none in
      (answer_to c v ≡ signal)
        × (run ≡ (returned (err tt), after (message MessageCall.get_tag) (after c v)))
      ⊎ (answer_to c v ≢ signal) × Returns (λ verdict _. verdict ≡ ok tt) run

  unwrap-returned :
      {A B E : Type 0} (m : Run (Result A E)) (f : A → Run B) {a : Result A E} {w w' : World}
      → m w ≡ (returned a, w')
      → (unwrap m >>= f) w ≡ (unwrap (pure a) >>= f) w'
  unwrap-returned {A} {B} {E} m f {w = w} e =
      ap (λ (o : Outcome (Result A E) × World). (unwrap (λ _. o) >>= f) w) e

  -- The message that ends a test can be decoded, or not, but the decoder returns.
  abbrev pub Decodes : Type 0
  Decodes = (w : World) → Returns (λ _ _. Unit) (r.deserialize_unit MessageRw.read w)

  module _ (d : Decodes) where
    decoded : (v : World) → Returns (λ _ _. Unit) (Mailbox.decode {T = Unit {0}} v)
    unfolding Mailbox.decode
    decoded v =
        Returns-bind (λ _ _. Unit) (λ _ _. Unit) (r.deserialize_unit MessageRw.read)
          (λ result. elim result as (λ _. Run (Mailbox.Received Unit)) [
            | ok got ↦ pure (ok got)
            | err e ↦ pure (err (Mailbox.deserialization_failed e))
          ])
          v (d v) (λ result v' _. on_result result v')
      where
        on_result :
            (result : Result Unit r.DecodeError) (v' : World)
            → Returns {A = Mailbox.Received Unit}
                (λ _ _. Unit)
                ((elim result as (λ _. Run (Mailbox.Received Unit)) [
                  | ok got ↦ pure (ok got)
                  | err e ↦ pure (err (Mailbox.deserialization_failed e))
                ])
                  v')
        on_result (ok got) v' = tt
        on_result (err e) v' = tt

    received :
        (m : Mailbox Unit) (v : World)
        → answer_to (receive_call none none) v ≢ signal
        → Returns (λ _ _. Unit) (Mailbox.receive_ m none none v)
    received m v comes = elim (receive__branches m none none v) [
      | inl e ↦ absurd (comes e.0)
      | inr (inl (_, e)) ↦ subst (Returns (λ _ _. Unit)) (sym e) tt
      | inr (inr (_, _, e)) ↦
          subst (Returns (λ _ _. Unit)) (sym e) (decoded (after (receive_call none none) v))
    ]

    passing :
        (m : Mailbox Unit) (v : World)
        → answer_to (receive_call none none) v ≢ signal
        → Returns
            (λ got _. decide got ≡ ok tt)
            ((Mailbox.receive_ m none none >>= λ got. pure (normal got)) v)
    unfolding decide
    passing m v comes =
        Returns-bind (λ _ _. Unit) (λ got _. decide got ≡ ok tt) (Mailbox.receive_ m none none)
          (λ got. pure (normal got)) v (received m v comes) (λ _ _ _. refl)

    -- What a test does with its mailbox.
    verdict : World → Outcome Verdict × World
    verdict = LinkMailbox.receive (let l : LinkMailbox Unit = link_mailbox in l) >>= λ got.
        pure (decide got)

    waiting : (v : World) → Decided v (verdict v)
    unfolding verdict LinkMailbox.receive decide
    waiting v =
        let l : LinkMailbox Unit = link_mailbox in
        elim (receive__agrees l mailbox none none v) [
          | inl (signals, e, _) ↦
              inl (signals, >>=-returned (LinkMailbox.receive l) (λ got. pure (decide got)) e)
          | inr (comes, e) ↦ inr (
            comes,
            Returns-bind (λ got _. decide got ≡ ok tt) (λ result _. result ≡ ok tt)
                (LinkMailbox.receive l) (λ got. pure (decide got)) v
                (subst (Returns (λ got _. decide got ≡ ok tt)) (sym e) (passing mailbox v comes))
                (λ got _ passes. passes),
          )
        ]

    module _ ⦃table : FunctionTable⦄ (T : Type 0) where
      -- How spawning the child of a test ends: with the number of the child and the link tag.
      abbrev pub Spawned : Type 0
      Spawned = Result (ℕ × Tag) LunaticError

      abbrev pub linked : Spawned → Result (Process T × Tag × LinkMailbox Unit) LunaticError
      linked (ok (id, tag)) = ok (Process.from id, tag, link_mailbox)
      linked (err e) = err e

      abbrev pub TestEnds : Spawned → World → Outcome Verdict × World → Type 0
      TestEnds (ok (id, tag)) u run = Decided (after (process (ProcessCall.drop_process id)) u) run
      TestEnds (err e) u run = run ≡ (panicked, u)

      -- What a test does with what spawning gave.
      on_child : Process T × Tag × LinkMailbox Unit → Run Verdict
      on_child (child, _, linked_mailbox) =
          Process.drop child >> (LinkMailbox.receive linked_mailbox >>= λ got. pure (decide got))

      settle : Result (Process T × Tag × LinkMailbox Unit) LunaticError → Run Verdict
      settle spawned = unwrap (pure spawned) >>= on_child

      settled : (spawned : Spawned) (u : World) → TestEnds spawned u (settle (linked spawned) u)
      unfolding settle on_child Process.drop verdict
      settled (ok (id, tag)) u = waiting (after (process (ProcessCall.drop_process id)) u)
      settled (err e) u = refl

      abbrev parent : World → Process Unit
      parent w = Process.from (answer_to (process ProcessCall.this) w)

      -- A test spawns the function with the index `function` as a linked child whose context is a
      -- handle of the test's own process. If that ends with an error, the test panics there. Else it
      -- drops the handle of the child and waits for the first message: it returns `Err(())` where the
      -- runtime answers a signal, and `Ok(())` on any other answer, be the message `()` or one that is
      -- not decoded. The decoder of `()` returns on every message (`Decodes`).
      pub run_test_lem :
          (function : ℕ) (spawned : Spawned) (w u : World)
          → spawn_link_with {T = T} {P = Unit {0}}
              (let m : Mailbox Unit = mailbox in m)
              (parent w)
              function
              (after (process ProcessCall.this) w)
            ≡ (returned (linked spawned), u)
          → TestEnds spawned u (run_test T function w)
      unfolding run_test Process.this settle on_child
      run_test_lem function spawned w u e =
          let m : Mailbox Unit = mailbox in
          let spawning = spawn_link_with {T = T} {P = Unit {0}} m (parent w) function in
          subst (TestEnds spawned u) (sym (unwrap-returned spawning on_child e)) (settled spawned u)

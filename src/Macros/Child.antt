-- ===== src/Macros/Child.antt =====
-- What the child of a generated test tells its parent (lunatic-macros/src/lib.rs).
use rust_lib.Common.{ℕ, ◌≡◌, ap, subst, sym, refl, ◌∷◌, none}
use rust_lib.Host.{
  Host, World, Outcome, Run, returned, panicked, Returns, Returns-bind, >>=-returned, after, ◌>>=◌,
  process, ProcessCall,
}
use rust_lib.Macros.{Flow, completed, early_return, after_block, with_mailbox}
use rust_lib.Mailbox.{Mailbox}
use rust_lib.Process
use rust_lib.Process.{Process}
use rust_lib.Process.Handle.{send_-sent}
use rust_lib.Serde.{Rmp, unit_serde}
use rust_lib.Trace.{sent}
use rust_lib.Trace.Quiet.{Sends}

module _ ⦃h : Host⦄ ⦃r : Rmp⦄ (k : Sends unit_serde) where
  -- How a child ends whose block ended so in `v`.
  abbrev pub ChildEnds : ℕ → Outcome Flow → World → Outcome Unit × World → Type 0
  ChildEnds parent (returned completed) v run =
      Returns (λ _ w'. sent w'.calls ≡ (parent, 0) ∷ sent v.calls) run
  ChildEnds parent (returned early_return) v run =
      run ≡ (returned tt, after (process (ProcessCall.drop_process parent)) v)
  ChildEnds parent panicked v run = run ≡ (panicked, v)

  dropped :
      (parent : ℕ) (v v' : World)
      → sent v'.calls ≡ (parent, 0) ∷ sent v.calls
      → Returns
          (λ _ w'. sent w'.calls ≡ (parent, 0) ∷ sent v.calls)
          (Process.drop (let p : Process Unit = Process.from parent in p) v')
  unfolding Process.drop
  dropped parent v v' e = e

  blocked :
      (parent : ℕ) (flow : Flow) (v : World)
      → ChildEnds parent (returned flow) v (after_block (Process.from parent) flow v)
  unfolding after_block Process.send Process.drop
  blocked parent completed v =
      Returns-bind (λ _ v'. (sent v'.calls ≡ (parent, 0) ∷ sent v.calls) × (v'.counter ≡ v.counter))
        (λ _ w'. sent w'.calls ≡ (parent, 0) ∷ sent v.calls)
        (Process.send_ (Process.from parent) none tt)
        (λ _. Process.drop (let p : Process Unit = Process.from parent in p)) v
        (send_-sent k (Process.from parent) none tt v) (λ _ v' g. dropped parent v v' g.0)
  blocked parent early_return v = refl

  -- The function that a test's child runs sends its parent one message where the user's block comes
  -- to its end. Where the block returns early it sends none and only drops the handle of the parent,
  -- and where the block panics it panics there. Writing `()` succeeds and sends nothing (`Sends`).
  pub with_mailbox_lem :
      {T : Type 0} (block : Mailbox T → Run Flow) (parent : ℕ) (mb : Mailbox T)
      (ended : Outcome Flow) (w v : World)
      → block mb w ≡ (ended, v)
      → ChildEnds parent ended v (with_mailbox block (Process.from parent) mb w)
  unfolding with_mailbox
  with_mailbox_lem block parent mb (returned flow) w v e =
      subst (ChildEnds parent (returned flow) v)
        (sym (>>=-returned (block mb) (after_block (Process.from parent)) e))
        (blocked parent flow v)
  with_mailbox_lem block parent mb panicked w v e =
      ap (λ (o : Outcome Flow × World). ((λ _. o) >>= after_block (Process.from parent)) w) e

-- ===== src/Spawn/Contexts.antt =====
-- Linked children that are given a context (src/process.rs and `ThisModule` of src/environment.rs).
use rust_lib.Common.{
  ℕ, ◌+◌, ◌%◌, ◌^◌, ◌<◌, ◌≡◌, ◌≢◌, ◌⊎◌, ◌∙◌, inl, inr, refl, ap, sym, subst, ◌∷◌, Result, ok, err,
  Option, none, some, arith,
}
use rust_lib.Delivery.Codec.{Codec, envelope}
use rust_lib.Delivery.Runtime.{View, Sight, Lawful}
use rust_lib.Delivery.Starting.{Ends, spawn_-Ends}
use rust_lib.Host.{Host, World, Run, Returns, Returns-bind, pure, ◌>>=◌}
use rust_lib.LinkMailbox.{LinkMailbox, link_mailbox, mailbox_transform}
use rust_lib.LunaticError
use rust_lib.LunaticError.{LunaticError}
use rust_lib.Mailbox.{Mailbox}
use rust_lib.Process
use rust_lib.Process.{Process}
use rust_lib.Serde.{Rmp, Serde}
use rust_lib.Spawn.{Context, with_context, FunctionTable, spawn_}
use rust_lib.Spawn.Calls.{spawn_answer, spawn_world}
use rust_lib.Spawn.Family.{spawn_link_with}
use rust_lib.Spawn.Links.{caught}
use rust_lib.Tag
use rust_lib.Tag.{Tag}
use rust_lib.ThisModule
use rust_lib.ThisModule.{ThisModule}

module _ ⦃h : Host⦄ ⦃r : Rmp⦄ ⦃table : FunctionTable⦄ {sight : Sight} (law : Lawful sight)
    (T P : Type 0) {C A : Type 0} ⦃s : Serde C⦄ (k : Codec sight s A) where
  abbrev begin : ℕ → C → Context C T
  begin function context = with_context function context

  -- The two ends by the runtime's answer to the call in the module, if one is given. The child has its
  -- context, as one letter to the process that its handle is of, and the caller the link tag `n`; or
  -- the number is the error and nothing was posted.
  abbrev pub LinkedWith :
      Option ℕ
      → ℕ
      → ℕ
      → C
      → A
      → World
      → Result (Process T × Tag × LinkMailbox P) LunaticError
      → World
      → Type 0
  LinkedWith module_id n function context a w result w' =
      let answer =
        spawn_answer module_id (some (Tag.from n)) (begin function context) (caught n w) in
      let w₁ = spawn_world module_id (some (Tag.from n)) (begin function context) (caught n w) in
      (answer.0 ≡ 0)
        × ((pid : ℕ) × (sight.process_of w₁.host answer.1 ≡ some pid)
            × (result ≡ ok (Process.from answer.1, Tag.from n, link_mailbox))
            × ((sight.view w'.host).posted ≡ (pid, envelope k 0 a) ∷ (sight.view w.host).posted))
      ⊎ (answer.0 ≢ 0)
        × (result ≡ err (LunaticError.from answer.1))
        × ((sight.view w'.host).posted ≡ (sight.view w.host).posted)

  abbrev on_child :
      ℕ
      → Result (Process T) LunaticError
      → Run (Result (Process T × Tag × LinkMailbox P) LunaticError)
  on_child n child =
      elim child as (λ _. Run (Result (Process T × Tag × LinkMailbox P) LunaticError)) [
        | ok proc ↦ pure (ok (proc, Tag.from n, link_mailbox))
        | err e ↦ pure (err e)
      ]

  -- What the functions do after the tag.
  linked :
      (module_id : Option ℕ) (n function : ℕ) (context : C) (a : A) (w : World)
      → k.Means w.host context a
      → Returns (LinkedWith module_id n function context a w) (
          (spawn_ module_id (some (Tag.from n)) (begin function context) >>= on_child n)
            (caught n w))
  linked module_id n function context a w means =
      let start = begin function context in
      let answer = spawn_answer module_id (some (Tag.from n)) start (caught n w) in
      let w₁ = spawn_world module_id (some (Tag.from n)) start (caught n w) in
      let (view, keeps) = law.traps 0 w.host in
      let before = ap (λ (v : View). v.posted) view in
      Returns-bind (Ends law T k start answer a (caught n w) w₁)
        (LinkedWith module_id n function context a w) (spawn_ module_id (some (Tag.from n)) start)
        (on_child n) (caught n w)
        (spawn_-Ends law T k module_id (some (Tag.from n)) start a (caught n w)
          (k.stable context a w.host (caught n w).host keeps means))
        (λ child w' ends. elim ends [
          | inl (fine, (pid, known, e, posts)) ↦
              subst (λ c. Returns (LinkedWith module_id n function context a w) (on_child n c w'))
                (sym e)
                (inl (
                  fine,
                  (pid, known, refl, posts ∙ ap (λ others. (pid, envelope k 0 a) ∷ others) before),
                ))
          | inr (failed, e, posts) ↦
              subst (λ c. Returns (LinkedWith module_id n function context a w) (on_child n c w'))
                (sym e) (inr (failed, refl, posts ∙ before))
        ])

  -- Both functions end so under the link tag `n`.
  abbrev pub BothLinked : ℕ → Mailbox P → ThisModule → C → A → ℕ → World → Type 0
  BothLinked n m this context a function w =
      Returns (LinkedWith none n function context a w) (spawn_link_with m context function w)
      × Returns (LinkedWith (some this.id) n function context a w)
          (ThisModule.spawn_link_with this m context function w)

  -- `spawn_link_with` and the method of the same name of `ThisModule` link the child under a tag not
  -- made before, as long as fewer than 2 ^ 63 tags were made. At status 0 of the spawning call they
  -- return the child, that same tag and a link mailbox, and have posted one letter, with the context,
  -- to the process that the child's handle is of, and nothing else; at any other status they return
  -- the number as the error and have posted nothing. The type of the context has a codec, and the
  -- runtime keeps to `Lawful`.
  pub spawn_link_with_branches :
      (m : Mailbox P) (this : ThisModule) (context : C) (a : A) (function : ℕ) (w : World)
      → k.Means w.host context a
      → w.counter + 1 < 2 ^ 63
      → BothLinked (w.counter + 1) m this context a function w
  unfolding spawn_link_with ThisModule.spawn_link_with Tag.new
  spawn_link_with_branches m this context a function w means small =
      let n = (w.counter + 1) % 2 ^ 64 in
      let next : (w.counter + 1) % 2 ^ 64 ≡ w.counter + 1 = omega arith in
      subst (λ i. BothLinked i m this context a function w) next
        (
          linked none n function context a w means,
          linked (some this.id) n function context a w means,
        )

-- ===== src/Delivery/Starting.antt =====
-- What a spawning call posts: the context of the child, if it has one (`spawn_` of src/process.rs).
use rust_lib.Common.{
  ◌⊎◌, inl, inr, Bool-cases, ==→eq, ==-false→ne, List, ◌++◌, ℕ, ◌≡◌, ◌≢◌, ◌∙◌, ap, subst, sym, refl,
  [], ◌∷◌, Result, ok, err, Option, none, some, ◌==◌, if◌then◌else◌,
}
use rust_lib.Delivery.Codec.{Codec, envelope}
use rust_lib.Delivery.Runtime.{Letter, View, Sight, Lawful, Spawned}
use rust_lib.Delivery.Sending.{send_-posts}
use rust_lib.Host.{
  Host, World, Run, Returns, Returns-bind, Returns-weaken, >>=-returned, pure, ◌>>=◌, ◌>>◌,
}
use rust_lib.LunaticError
use rust_lib.LunaticError.{LunaticError}
use rust_lib.Process
use rust_lib.Process.{Process}
use rust_lib.Serde.{Rmp, Serde}
use rust_lib.Spawn.{
  without, Context, with_context, FunctionTable, spawn_, spawn_call, link_or_0, entry_point,
  entry_params, start_child, drop_context,
}
use rust_lib.Spawn.Calls.{spawn_answer, spawn_world, spawn_call_lem}
use rust_lib.Tag.{Tag}

module _ ⦃h : Host⦄ ⦃r : Rmp⦄ ⦃table : FunctionTable⦄ {sight : Sight} (law : Lawful sight)
    {C A : Type 0} (T : Type 0) ⦃s : Serde C⦄ (k : Codec sight s A) where
  child_found :
      (module_id : Option ℕ) (link : Option Tag) (start : Context C T) (w : World)
      → (spawn_answer module_id link start w).0 ≡ 0
      → Spawned sight
          (spawn_answer module_id link start w).1
          w.host
          (spawn_world module_id link start w).host
  child_found none link start w fine =
      law.inherits (link_or_0 link) entry_point (entry_params start) w.host fine
  child_found (some module_id) link start w fine =
      law.spawns (link_or_0 link) module_id entry_point (entry_params start) w.host fine

  not_found :
      (module_id : Option ℕ) (link : Option Tag) (start : Context C T) (w : World)
      → (spawn_answer module_id link start w).0 ≢ 0
      → sight.view (spawn_world module_id link start w).host ≡ sight.view w.host
  not_found none link start w failed =
      law.inherit_fails (link_or_0 link) entry_point (entry_params start) w.host failed
  not_found (some module_id) link start w failed =
      law.spawn_fails (link_or_0 link) module_id entry_point (entry_params start) w.host failed

  -- The context, if there is one, stands for the value.
  abbrev pub StandsFor : Context C T → A → World → Type 0
  StandsFor (with_context func context) a w = k.Means w.host context a
  StandsFor (without func) a w = Unit

  abbrev pub first_letters : Context C T → A → ℕ → List (ℕ × Letter)
  first_letters (with_context func context) a pid = (pid, envelope k 0 a) ∷ []
  first_letters (without func) a pid = []

  abbrev posted : World → List (ℕ × Letter)
  posted w = (sight.view w.host).posted

  -- The child's handle is returned, and what was posted is the context, to the process that the
  -- handle is of when the child was started, in `w₁`.
  abbrev pub Started :
      Context C T → ℕ → A → World → World → Result (Process T) LunaticError → World → Type 0
  Started start id a w w₁ child w' =
      (pid : ℕ) × (sight.process_of w₁.host id ≡ some pid)
      × (child ≡ ok (Process.from id))
      × (posted w' ≡ first_letters start a pid ++ posted w)

  abbrev pub Ends :
      Context C T → ℕ × ℕ → A → World → World → Result (Process T) LunaticError → World → Type 0
  Ends start (status, id) a w w₁ child w' =
      (status ≡ 0) × Started start id a w w₁ child w'
      ⊎ (status ≢ 0) × (child ≡ err (LunaticError.from id)) × (posted w' ≡ posted w)

  -- The child after its context was sent.
  abbrev Given : Context C T → ℕ → A → World → World → Process T → World → Type 0
  Given start id a w w₁ child w' =
      (pid : ℕ) × (sight.process_of w₁.host id ≡ some pid)
      × (child ≡ Process.from id)
      × (posted w' ≡ first_letters start a pid ++ posted w)

  given :
      (start : Context C T) (id : ℕ) (a : A) (w w₁ : World)
      → StandsFor start a w
      → Spawned sight id w.host w₁.host
      → Returns (Given start id a w w₁) (start_child id start w₁)
  unfolding start_child Process.send
  given (with_context func context) id a w w₁ means (new, kept, known) =
      Returns-bind
        (λ _ w₂.
          ((sight.view w₂.host).posted ≡ (known.0, envelope k 0 a) ∷ (sight.view w₁.host).posted)
          × (w₂.counter ≡ w₁.counter))
        (Given (with_context func context) id a w w₁)
        (Process.send_ (Process.from {T = C} id) none context) (λ _. pure (Process.from id)) w₁
        (send_-posts law k (Process.from {T = C} id) known.0 none context a w₁ known.1
          (k.stable context a w.host w₁.host kept.1 means) (k.fresh context a w.host id means new))
        (λ _ w₂ g. (
          known.0,
          known.1,
          refl,
          g.0 ∙ ap (λ (v : View). (known.0, envelope k 0 a) ∷ v.posted) kept.0,
        ))
  given (without func) id a w w₁ means (new, kept, known) =
      (known.0, known.1, refl, ap (λ (v : View). v.posted) kept.0)

  dropped :
      (start : Context C T) (w : World)
      → Returns (λ _ w'. posted w' ≡ posted w) (drop_context start w)
  unfolding drop_context
  dropped (with_context func context) w =
      Returns-weaken (λ _ w'. (sight.view w'.host ≡ sight.view w.host) × (w'.counter ≡ w.counter))
        (λ _ w'. posted w' ≡ posted w) (s.drop context w) (k.drops context w)
        (λ _ w' g. ap (λ (v : View). v.posted) g.0)
  dropped (without func) w = refl

  -- What `spawn_` does with the answer.
  abbrev settle : Context C T → ℕ × ℕ → Run (Result (Process T) LunaticError)
  settle start (result, id) =
      if result == 0
      then (do child ← start_child id start; pure (ok child))
      else (do drop_context start; pure (err (LunaticError.from id)))

  settled :
      (start : Context C T) (answer : ℕ × ℕ) (a : A) (w w₁ : World)
      → StandsFor start a w
      → (answer.0 ≡ 0 → Spawned sight answer.1 w.host w₁.host)
      → (answer.0 ≢ 0 → sight.view w₁.host ≡ sight.view w.host)
      → Returns (Ends start answer a w w₁) (settle start answer w₁)
  settled start (status, id) a w w₁ means found lost = elim (Bool-cases (status == 0)) [
    | inl fine ↦ rw fine (
        Returns-bind (Given start id a w w₁) (Ends start (status, id) a w w₁) (start_child id start)
          (λ child. pure (ok child)) w₁ (given start id a w w₁ means (found (==→eq status 0 fine)))
          (λ child w₂ (pid, known, e, posts).
            inl (==→eq status 0 fine, (pid, known, ap ok e, posts))))
    | inr failed ↦ rw failed (
        Returns-bind (λ _ w'. posted w' ≡ posted w₁) (Ends start (status, id) a w w₁)
          (drop_context start) (λ _. pure (err (LunaticError.from id))) w₁ (dropped start w₁)
          (λ _ w₂ same. inr (
            ==-false→ne status 0 failed,
            refl,
            same ∙ ap (λ (v : View). v.posted) (lost (==-false→ne status 0 failed)),
          )))
  ]

  -- `spawn_` ends as the status of the one spawning call says. At 0 it returns a handle of the number
  -- that came with it, and has posted the context, if there is one, as one letter under tag 0 to the
  -- process that this handle is of, and nothing else; at any other status it returns that number as
  -- the error and has posted nothing. The type of the context has a codec, and the runtime keeps to
  -- `Lawful`.
  pub spawn_-Ends :
      (module_id : Option ℕ) (link : Option Tag) (start : Context C T) (a : A) (w : World)
      → StandsFor start a w
      → Returns
          (Ends start
            (spawn_answer module_id link start w)
            a
            w
            (spawn_world module_id link start w))
          (spawn_ module_id link start w)
  unfolding spawn_
  spawn_-Ends module_id link start a w means =
      let answer = spawn_answer module_id link start w in
      let w₁ = spawn_world module_id link start w in
      subst (Returns (Ends start answer a w w₁))
        (sym (
          >>=-returned (spawn_call module_id link start) (settle start)
            (spawn_call_lem module_id link start w)))
        (settled start answer a w w₁ means (child_found module_id link start w)
          (not_found module_id link start w))

  -- Where the child is started.
  pub spawn_-Started :
      (module_id : Option ℕ) (link : Option Tag) (start : Context C T) (a : A) (w : World)
      → StandsFor start a w
      → (spawn_answer module_id link start w).0 ≡ 0
      → Returns
          (Started start
            (spawn_answer module_id link start w).1
            a
            w
            (spawn_world module_id link start w))
          (spawn_ module_id link start w)
  spawn_-Started module_id link start a w means fine =
      let answer = spawn_answer module_id link start w in
      let w₁ = spawn_world module_id link start w in
      Returns-weaken (Ends start answer a w w₁) (Started start answer.1 a w w₁)
        (spawn_ module_id link start w) (spawn_-Ends module_id link start a w means)
        (λ child w' ends. elim ends [
          | inl (_, started) ↦ started
          | inr (failed, _, _) ↦ absurd (failed fine)
        ])

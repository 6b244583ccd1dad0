-- ===== src/Spawn/Watching/Signals.antt =====
-- Which signals a process receives of the children that it links (src/process.rs, src/mailbox.rs).
use mathlib.Core.List.{map, map-append}
use rust_lib.Common.{
  ℕ, ◌+◌, ◌%◌, ◌^◌, ◌<◌, ◌≡◌, ◌∙◌, ap, sym, subst, refl, List, [], ◌∷◌, ◌++◌, length, length-append,
  get_elem?, get_elem?-some, get_elem?-map, some, ok, err, ◌==◌, if◌then◌else◌, arith,
}
use rust_lib.Host.{
  Host, World, Run, Returns, Returns-bind, pure, ◌>>=◌, ◌>>◌, after, answer_to, process,
  ProcessCall,
}
use rust_lib.LinkMailbox
use rust_lib.LinkMailbox.{LinkMailbox, link_mailbox, Message, signalled, link_mailbox_transform}
use rust_lib.LunaticError
use rust_lib.LunaticError.{LunaticError}
use rust_lib.Process
use rust_lib.Process.{Process}
use rust_lib.Serde.{Rmp, Serde, unit_serde, unwrap, and_then}
use rust_lib.Spawn.{
  FunctionTable, no_context, entry_params, entry_point, spawn_call, start_child, drop_context,
  spawn_,
}
use rust_lib.Spawn.Family.{spawn_link}
use rust_lib.Tag
use rust_lib.Tag.{Tag}
use rust_lib.Timeout.{timeout_ms}
use rust_lib.Spawn.Watching.{Links, Action, link, hear, Told, child, heard, Enough, Follows, watch}

abbrev links_of : {T : Type 0} → List (Process T × Tag) → List (ℕ × ℕ)
links_of known = map (λ c. (c.1.id, c.0.id)) known

-- The links and the failures that wait, in the state of the runtime.
abbrev pub Stands :
    ⦃h : Host⦄ {T : Type 0} → Links → List (Process T × Tag) → List ℕ → World → Type 0
Stands law known is w = (law.linked w.host ≡ links_of known) × (law.failures w.host ≡ is)

module _ ⦃h : Host⦄ ⦃r : Rmp⦄ ⦃table : FunctionTable⦄ (T : Type 0) {P : Type 0} ⦃s : Serde P⦄ where
  module _ (law : Links) where
    abbrev Linked : World → Process T × Tag × LinkMailbox P → World → Type 0
    Linked w (p, tag, mb) w' =
        (tag.id ≡ w.counter + 1)
        × (w'.counter ≡ w.counter + 1)
        × (law.linked w'.host ≡ law.linked w.host ++ (tag.id, p.id) ∷ [])
        × (law.failures w'.host ≡ law.failures w.host)

    -- What `spawn_link` does with the runtime's answer, under the tag `n`.
    finish : ℕ → ℕ → LinkMailbox P → ℕ × ℕ → Run (Process T × Tag × LinkMailbox P)
    finish n function mb a = unwrap (
        and_then
          (if a.0 == 0
            then (do started ← start_child a.1 (no_context function); pure (ok started))
            else (do
              drop_context (no_context {T = T} function)
              pure (err (LunaticError.from a.1))))
          λ proc. pure (ok (proc, Tag.from n, mb)))

    finished :
        (n function : ℕ) (mb : LinkMailbox P) (a : ℕ × ℕ) (w w' : World)
        → a.0 ≡ 0
        → Linked w (Process.from a.1, Tag.from n, mb) w'
        → Returns (Linked w) (finish n function mb a w')
    unfolding finish start_child
    finished n function mb (status, id) w w' fine linked = rw fine linked

    spawn_link-Linked :
        (mb : LinkMailbox P) (function : ℕ) (w : World)
        → w.counter + 1 < 2 ^ 64
        → Returns (Linked w) (unwrap (spawn_link {T = T} mb function) w)
    unfolding finish spawn_link spawn_ spawn_call Tag.new
    spawn_link-Linked mb function w small =
        let n = (w.counter + 1) % 2 ^ 64 in
        let next : n ≡ w.counter + 1 = omega arith in
        let v : World = record w { counter = n } in
        let c = process (
          ProcessCall.inherit_spawn n entry_point (entry_params (no_context {T = T} function)) 0) in
        let (fine, linked, failures) =
          law.links n entry_point (entry_params (no_context {T = T} function)) w.host in
        finished n function mb (answer_to c v) w (after c v) fine (next, next, linked, failures)

    abbrev Heard : Tag → List ℕ → World → Message P r.DecodeError → World → Type 0
    Heard tag later w m w' =
        (m ≡ signalled tag)
        × (w'.counter ≡ w.counter)
        × (law.linked w'.host ≡ law.linked w.host)
        × (law.failures w'.host ≡ later)

    receive-Heard :
        (mb : LinkMailbox P) (i : ℕ) (later : List ℕ) (tag : Tag) (id : ℕ) (w : World)
        → law.failures w.host ≡ i ∷ later
        → get_elem? (law.linked w.host) i ≡ some (tag.id, id)
        → Returns (Heard tag later w) (LinkMailbox.receive mb w)
    unfolding LinkMailbox.receive LinkMailbox.receive_ timeout_ms
    receive-Heard mb i later tag id w waits here =
        let (is_signal, tagged, linked, failures) =
          law.tells i later (tag.id, id) w.host waits here in
        rw is_signal (ap (λ n. signalled (Tag.from n)) tagged, refl, linked, failures)

    abbrev after_link :
        List Action → Process T × Tag × LinkMailbox P → Run (List (Told T P r.DecodeError))
    after_link actions (p, tag, mb') = watch T mb' actions >>= λ told. pure (child p tag ∷ told)

    -- A process that links children, and hears of their failures, in any order of these. Every child
    -- comes with a tag above the tags of those before it, and whenever the process receives, what it
    -- receives is the signal with the tag that came with the child that fails next. As often as it
    -- receives, a child that was linked before fails; fewer than 2 ^ 63 tags are made, and the
    -- runtime, which keeps to `Links`, has the links that are known.
    pub watch-Follows :
        (mb : LinkMailbox P) (actions : List Action) (known : List (Process T × Tag)) (is : List ℕ)
        (w : World)
        → Stands law known is w
        → Enough (length known) is actions
        → w.counter + length actions < 2 ^ 63
        → Returns (λ told _. Follows w.counter known is actions told) (watch T mb actions w)
    unfolding watch
    watch-Follows mb [] known is w stands enough small = refl
    watch-Follows mb (link function ∷ actions) known is w (linked, waits) enough small =
        Returns-bind (Linked w)
          (λ told _. Follows w.counter known is (link function ∷ actions) told)
          (unwrap (spawn_link {T = T} mb function)) (after_link actions) w
          (spawn_link-Linked mb function w (omega arith))
          (λ (p, tag, mb') w' (made, counted, more, same).
            Returns-bind (λ told _. Follows w'.counter (known ++ (p, tag) ∷ []) is actions told)
              (λ told _. Follows w.counter known is (link function ∷ actions) told)
              (watch T mb' actions) (λ told. pure (child p tag ∷ told)) w'
              (watch-Follows mb' actions (known ++ (p, tag) ∷ []) is w'
                (
                  more
                      ∙ ap (λ ls. ls ++ (tag.id, p.id) ∷ []) linked
                      ∙ sym (map-append (λ c. (c.1.id, c.0.id)) known ((p, tag) ∷ [])),
                  same ∙ waits,
                )
                (subst (λ n. Enough n is actions)
                  (omega (arith, length-append known ((p, tag) ∷ []))) enough)
                (omega (arith, small, counted)))
              (λ told w'' g. (
                omega arith,
                subst (λ n. Follows n (known ++ (p, tag) ∷ []) is actions told) (counted ∙ sym made)
                    g,
              )))
    watch-Follows mb (hear ∷ actions) known [] w stands enough small = absurd enough
    watch-Follows mb (hear ∷ actions) known (i ∷ is) w (linked, waits) (before, enough) small =
        let ((p, tag), e) = get_elem?-some known i before in
        Returns-bind (Heard tag is w)
          (λ told _. Follows w.counter known (i ∷ is) (hear ∷ actions) told)
          (LinkMailbox.receive mb) (λ m. watch T mb actions >>= λ told. pure (heard m ∷ told)) w
          (receive-Heard mb i is tag p.id w waits (
            subst (λ ls. get_elem? ls i ≡ some (tag.id, p.id)) (sym linked)
              (get_elem?-map (λ c. (c.1.id, c.0.id)) known i (p, tag) e)))
          (λ m w' (is_signal, counted, same, later).
            Returns-bind (λ told _. Follows w'.counter known is actions told)
              (λ told _. Follows w.counter known (i ∷ is) (hear ∷ actions) told)
              (watch T mb actions) (λ told. pure (heard m ∷ told)) w'
              (watch-Follows mb actions known is w' (same ∙ linked, later) enough
                (omega (arith, small, counted)))
              (λ told w'' g.
                (((p, tag), e, is_signal), subst (λ n. Follows n known is actions told) counted g)))

-- ===== src/Module/Links.antt =====
-- The link tag of `Module::spawn_link` (src/environment.rs).
use rust_lib.Common.{ℕ, ◌≡◌, List, [], ◌∷◌, arith}
use rust_lib.Host.{Host, World, Run, Returns, ◌>>=◌, Call, ProcessCall, process}
use rust_lib.LinkMailbox.{mailbox_transform}
use rust_lib.Mailbox.{Mailbox}
use rust_lib.Module.{Module, spawn_link}
use rust_lib.Param.{Param}
use rust_lib.Tag
use rust_lib.Tag.{Tag}

-- The link tag of the latest spawned process.
abbrev pub link_tag : List Call → ℕ
link_tag [] = 0
link_tag (process (ProcessCall.spawn tag module_id function params id) ∷ calls) = tag
link_tag (process (ProcessCall.inherit_spawn tag function params id) ∷ calls) = tag
link_tag (c ∷ calls) = link_tag calls

module _ ⦃h : Host⦄ (T : Type 0) {P : Type 0} where
  -- `Module::spawn_link`, and then `Tag::new`.
  pub link_then_tag : Module → Mailbox P → List ℕ → List Param → Run Tag
  link_then_tag m mb function params = do
    _ ← spawn_link {T = T} {P = P} m mb function params
    Tag.new

  -- In a process that has made no tag, the tag of a link made by `Module::spawn_link` is the very
  -- tag that the process makes next.
  pub spawn_link-collides :
      (m : Module) (mb : Mailbox P) (function : List ℕ) (params : List Param) (w : World)
      → w.counter ≡ 0
      → Returns (λ tag w'. tag.id ≡ link_tag w'.calls) (link_then_tag m mb function params w)
  unfolding link_then_tag spawn_link Tag.new
  spawn_link-collides m mb function params w e = ground arith

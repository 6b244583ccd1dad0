-- ===== src/Macros.antt =====
-- The attributes `#[lunatic::main]` and `#[lunatic::test]` (lunatic-macros/src/lib.rs): which functions
-- they accept, and what the functions that they generate do. Tokens are those of syn and quote, which
-- are crates of others: what is read of a function is a record, and the rest a parameter.
pub mod Accepts
pub mod Child
pub mod Outcome
use rust_lib.Common.{
  ℕ, List, [], ◌∷◌, Result, ok, err, Bool, true, false, length, ◌==◌, if◌then◌else◌,
}
use rust_lib.Common.Bytes.{bytes_eq}
use rust_lib.Common.Text.{codes}
use rust_lib.Host.{Host, Run, pure, ◌>>=◌, ◌>>◌}
use rust_lib.LinkMailbox
use rust_lib.LinkMailbox.{Message, normal, signalled, LinkMailbox, mailbox_transform}
use rust_lib.Mailbox.{Mailbox, mailbox}
use rust_lib.Process
use rust_lib.Process.{Process, process_serde}
use rust_lib.Serde.{Rmp, Serde, unit_serde, unwrap}
use rust_lib.Spawn.{FunctionTable}
use rust_lib.Spawn.Family.{spawn_link_with}
use rust_lib.Tag.{Tag}

-- The types of syn, and `attr.path.is_ident`.
pub record Syn : Type 1 where
  pub Argument : Type 0
  pub Attribute : Type 0
  pub Block : Type 0
  pub is_ident : Attribute → List ℕ → Bool

-- What the macros read of a `syn::ItemFn`.
pub record ItemFn ⦃syn : Syn⦄ : Type 0 where
  pub ident : List ℕ
  pub inputs : List syn.Argument
  pub attrs : List syn.Attribute
  pub block : syn.Block

-- The tokens that a compile error points at.
pub data Spanned ⦃syn : Syn⦄ : Type 0 where
  at_ident : List ℕ → Spanned
  at_attr : syn.Attribute → Spanned

pub record SynError ⦃syn : Syn⦄ : Type 0 where
  pub tokens : Spanned
  pub message : List ℕ

-- The function that is generated, for `main` or for a test.
pub data Generated ⦃syn : Syn⦄ : Type 0 where
  main_fn : List ℕ → List syn.Argument → syn.Block → Generated
  test_fn : List ℕ → List syn.Argument → syn.Block → Generated

abbrev pub not_main : List ℕ
not_main = codes "must be on a `main` function with 1 argument of type Mailbox<T>"

abbrev pub not_one_argument : List ℕ
not_one_argument = codes "test functions accept only 1 argument of type Mailbox<T>"

abbrev pub second_test : List ℕ
second_test = codes "second test attribute is supplied"

module _ ⦃syn : Syn⦄ where
  -- `parse`, which never fails.
  unfoldable pub parse : ItemFn → Bool → Result Generated SynError
  parse input true = ok (test_fn input.ident input.inputs input.block)
  parse input false = ok (main_fn input.ident input.inputs input.block)

  unfoldable pub main : ItemFn → Result Generated SynError
  main input =
      if bytes_eq input.ident (codes "main")
      then (if length input.inputs == 1
          then parse input false
          else err (record { tokens = at_ident input.ident; message = not_main }))
      else err (record { tokens = at_ident input.ident; message = not_main })

  -- The loop over the attributes of a test.
  unfoldable pub check_attrs : ItemFn → List syn.Attribute → Result Generated SynError
  check_attrs input [] = parse input true
  check_attrs input (attr ∷ attrs) =
      if syn.is_ident attr (codes "test")
      then err (record { tokens = at_attr attr; message = second_test })
      else check_attrs input attrs

  unfoldable pub test : ItemFn → Result Generated SynError
  test input =
      if length input.inputs == 1
      then check_attrs input input.attrs
      else err (record { tokens = at_ident input.ident; message = not_one_argument })

-- How the user's block ends where it stands in the generated function: at its end, or at a `return`.
pub data Flow : Type 0 where
  completed : Flow
  early_return : Flow

module _ ⦃h : Host⦄ {T : Type 0} where
  -- What the generated `main` does, over the user's block.
  unfoldable pub run_main : (Mailbox T → Run Flow) → Run Unit
  run_main block = do _ ← block mailbox; pure tt

module _ ⦃h : Host⦄ ⦃r : Rmp⦄ where
  -- What follows the block: the parent is notified at its end, and the handle dropped.
  unfoldable pub after_block : Process Unit → Flow → Run Unit
  after_block parent_process completed = do
    Process.send parent_process tt
    Process.drop parent_process
  after_block parent_process early_return = Process.drop parent_process

  -- `__with__mailbox`, the function that the child of a test runs, over the user's block.
  unfoldable pub with_mailbox :
      {T : Type 0} → (Mailbox T → Run Flow) → Process Unit → Mailbox T → Run Unit
  with_mailbox block parent_process mb = do flow ← block mb; after_block parent_process flow

-- `Ok(())` on a message, and `Err(())` on a signal.
unfoldable pub decide : {D : Type 0} → Message Unit D → Result Unit (Unit {0})
decide (normal m) = ok tt
decide (signalled tag) = err tt

module _ ⦃h : Host⦄ ⦃r : Rmp⦄ ⦃table : FunctionTable⦄ (T : Type 0) where
  -- What the generated test does, where `__with__mailbox` has the index `function`. The `let` drops
  -- the handle of the child.
  unfoldable pub run_test : ℕ → Run (Result Unit (Unit {0}))
  run_test function = do
    let this_mailbox : Mailbox Unit = mailbox
    this_process ← Process.this {T = Unit {0}} this_mailbox
    (child, _, linked_mailbox) ←
        unwrap (spawn_link_with {T = T} {P = Unit {0}} this_mailbox this_process function)
    Process.drop child
    received ← LinkMailbox.receive linked_mailbox
    pure (decide received)

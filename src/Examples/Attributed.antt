-- ===== src/Examples/Attributed.antt =====
-- A `main`, a test, and what the child of a test does, at concrete data.
use rust_lib.Common.{ℕ, refl, List, [], ◌∷◌, ok}
use rust_lib.Common.Bytes.{bytes_eq}
use rust_lib.Common.Text.{codes}
use rust_lib.Examples.Fixture.{runtime, fresh, table, plain_rmp}
use rust_lib.Host.{Host, World, Run, returned, pure, after, process, ProcessCall}
use rust_lib.LinkMailbox.{mailbox_transform}
use rust_lib.Macros.{Syn, ItemFn, Flow, completed, run_test, with_mailbox}
use rust_lib.Macros.Accepts.{MainEnds, TestEnds, accepts_lem}
use rust_lib.Macros.Child.{ChildEnds, with_mailbox_lem}
use rust_lib.Macros.Outcome
use rust_lib.Macros.Outcome.{Decodes, run_test_lem}
use rust_lib.Mailbox.{Mailbox, mailbox}
use rust_lib.Process
use rust_lib.Process.{Process, process_serde}
use rust_lib.Serde.{unit_serde}
use rust_lib.Spawn.Family.{spawn_link_with}
use rust_lib.Tag
use rust_lib.Trace.Quiet.{Sends}

-- An argument is its name, an attribute its path, a block a number.
instance abbrev syntax : Syn
syntax = record { Argument = List ℕ; Attribute = List ℕ; Block = ℕ; is_ident = bytes_eq }

abbrev twice : ItemFn
twice = record {
  ident = codes "twice";
  inputs = codes "mailbox" ∷ [];
  attrs = codes "ignore" ∷ codes "test" ∷ [];
  block = 7;
}

accepts_lem_example : MainEnds twice × TestEnds twice
accepts_lem_example = accepts_lem twice

instance abbrev plain : Host
plain = runtime 0

unit_serde-Sends : Sends unit_serde
unit_serde-Sends = record {
  writes = λ m w. (refl, (([], tt, refl), refl));
  drops = λ m w. (([], tt, refl), refl);
}

abbrev body : Mailbox ℕ → Run Flow
body m = pure completed

with_mailbox_lem_example :
    ChildEnds unit_serde-Sends 1
      (returned completed)
      (fresh tt)
      (with_mailbox body (Process.from 1) mailbox (fresh tt))
with_mailbox_lem_example =
    with_mailbox_lem unit_serde-Sends body 1 mailbox (returned completed) (fresh tt) (fresh tt) refl

plain-Decodes : Decodes
plain-Decodes w = tt

abbrev parent : Process Unit
parent = Process.from 1

abbrev own : Mailbox Unit
own = mailbox

abbrev asked : World
asked =
    (spawn_link_with {T = ℕ} {P = Unit {0}} own parent 70
      (after (process ProcessCall.this) (fresh tt))).1

run_test_lem_example :
    Outcome.TestEnds plain-Decodes ℕ (ok (36, Tag.from 1)) asked (run_test ℕ 70 (fresh tt))
unfolding spawn_link_with rust_lib.Spawn.spawn_ rust_lib.Spawn.spawn_call rust_lib.Spawn.start_child
    Process.send Process.send_ Process.write_message Process.serialize Process.drop
    rust_lib.MessageRw.write Tag.new
run_test_lem_example = run_test_lem plain-Decodes ℕ 70 (ok (36, Tag.from 1)) (fresh tt) asked refl

-- ===== src/Examples/Spawning.antt =====
-- Spawning, links and the registry at concrete data.
use rust_lib.Common.{ℕ, ◌+◌, ◌≡◌, ◌≢◌, ◌⊎◌, refl, [], ◌∷◌, none, some, ok, err, true, false, arith}
use rust_lib.Environment
use rust_lib.Environment.{Environment, incorrect_semver, not_found}
use rust_lib.Environment.Registry.{lookup_branches}
use rust_lib.Examples.Fixture.{runtime, fresh, table, plain_rmp, number_serde}
use rust_lib.Host.{Host, Returns, returned, panicked, after, answer_to, process, ProcessCall}
use rust_lib.LinkMailbox.{LinkMailbox, link_mailbox, mailbox_transform, link_mailbox_transform}
use rust_lib.Mailbox.{Mailbox, mailbox}
use rust_lib.Module.Links.{link_tag, link_then_tag, spawn_link-collides}
use rust_lib.Param.{i32}
use rust_lib.Process
use rust_lib.Process.{Process}
use rust_lib.Spawn.{Context, with_context}
use rust_lib.Spawn.Family.{spawn_link, spawn_link_unwrap}
use rust_lib.Spawn.Links.{LinkedUnder, spawn_link_lem, traps_follow}
use rust_lib.ThisModule.{ThisModule}
use rust_lib.Trace.{traps}

instance abbrev plain : Host
plain = runtime 0

abbrev start : Context ℕ ℕ
start = with_context 70 42

abbrev box : Mailbox ℕ
box = mailbox

spawn_link_lem_example : LinkedUnder ℕ (0 + 1) box 70 (fresh tt)
spawn_link_lem_example = spawn_link_lem ℕ box 70 (fresh tt) (omega arith)

traps_follow_example :
    (traps (spawn_link {T = ℕ} {P = ℕ} box 70 (fresh tt)).1.calls ≡ false)
    × (traps
          (spawn_link {T = ℕ} {P = ℕ}
            (let l : LinkMailbox ℕ = link_mailbox in l)
            70
            (fresh tt)).1.calls
        ≡ true)
    × (traps
          (spawn_link_unwrap {T = ℕ} {P = ℕ}
            (let l : LinkMailbox ℕ = link_mailbox in l)
            70
            (fresh tt)).1.calls
        ≡ true)
    × (traps (spawn_link_unwrap {T = ℕ} {P = ℕ} box 70 (fresh tt)).1.calls ≡ true)
traps_follow_example = traps_follow ℕ box link_mailbox 70 (fresh tt)

spawn_link-collides_example :
    Returns
      (λ tag w'. tag.id ≡ link_tag w'.calls)
      (link_then_tag ℕ (record { id = 5 }) box (97 ∷ []) (i32 1 ∷ []) (fresh tt))
spawn_link-collides_example =
    spawn_link-collides ℕ (record { id = 5 }) box (97 ∷ []) (i32 1 ∷ []) (fresh tt) refl

abbrev place : Environment
place = Environment.from 32

abbrev child : Process ℕ
child = Process.from 6

lookup_branches_example :
    let c = process (ProcessCall.lookup (97 ∷ []) (49 ∷ []) 0) in
    let status : ℕ = (answer_to c (fresh tt)).0 in
    let run = Environment.lookup {T = ℕ} (97 ∷ []) (49 ∷ []) (fresh tt) in
    (status ≡ 0)
      × (run ≡ (returned (ok (some (Process.from (answer_to c (fresh tt)).1))), after c (fresh tt)))
    ⊎ (status ≡ 1) × (run ≡ (returned (err incorrect_semver), after c (fresh tt)))
    ⊎ (status ≡ 2) × (run ≡ (returned (ok none), after c (fresh tt)))
    ⊎ (status ≢ 0) × (status ≢ 1) × (status ≢ 2) × (run ≡ (panicked, after c (fresh tt)))
lookup_branches_example = lookup_branches ℕ (97 ∷ []) (49 ∷ []) (fresh tt)

abbrev here : ThisModule
here = record { id = 34 }

-- ===== src/Examples/Failed.antt =====
-- The calls of examples/environment.rs, at concrete data.
use rust_lib.Common.{ℕ, ◌+◌, List, ◌≡◌, refl, [], ◌∷◌, arith}
use rust_lib.Examples.Fixture.{any_answer, fresh, plain_rmp, table}
use rust_lib.Host.{Host, returned, Call, Answer, process, message, ProcessCall, MessageCall}
use rust_lib.Mailbox.{mailbox, signal}
use rust_lib.Programs.Links.{environment_main}
use rust_lib.Programs.Links.Child.{Failing}
use rust_lib.Programs.Links.Calls.{all_failed, environment_main-calls}

-- Children are numbered from the state on, and each of them fails.
abbrev harsh_answer : (c : Call) → ℕ → Answer c × ℕ
harsh_answer (process (ProcessCall.spawn tag module_id function params cell)) n = ((0, n), n + 1)
harsh_answer (message (MessageCall.receive tag limit)) n = (signal, n)
harsh_answer c n = (any_answer 0 c, n)

instance abbrev harsh : Host
harsh = record { State = ℕ; answer = harsh_answer }

harsh-Failing : Failing
harsh-Failing = record {
  creates = λ config s. refl;
  adds = λ env s. refl;
  spawns = λ tag module_id function params s. refl;
  fails = λ s. refl;
}

environment_main-calls_example :
    environment_main 70 71 72 mailbox (fresh 10) ≡ (returned tt, all_failed 70 71 72 (fresh 10))
environment_main-calls_example =
    environment_main-calls harsh-Failing 70 71 72 mailbox (fresh 10) (omega arith)

abbrev drops_of : List Call → List ℕ
drops_of [] = []
drops_of (process (ProcessCall.drop_process id) ∷ calls) = id ∷ drops_of calls
drops_of (c ∷ calls) = drops_of calls

-- The three children have numbers of their own.
children_numbers : drops_of (all_failed 70 71 72 (fresh 10)).calls ≡ 12 ∷ 11 ∷ 10 ∷ []
children_numbers = refl

-- ===== src/Examples/Watched.antt =====
-- A process that hears of the children it has linked, at concrete data.
use rust_lib.Common.{
  ℕ, ◌+◌, refl, List, [], ◌∷◌, ◌++◌, length, get_elem?, Option, none, some, arith,
}
use rust_lib.Examples.Fixture.{any_answer, fresh, plain_rmp, number_serde, table}
use rust_lib.Host.{Host, World, Returns, Call, Answer, process, message, ProcessCall, MessageCall}
use rust_lib.LinkMailbox.{link_mailbox}
use rust_lib.Mailbox.{signal, timed_out}
use rust_lib.Spawn.Watching.{Links, Action, link, hear, Follows, watch}
use rust_lib.Spawn.Watching.Signals.{watch-Follows}

-- The links, the failures to come, and the tag of the message that was received.
pub record Family : Type 0 where
  pub linked : List (ℕ × ℕ)
  pub failures : List ℕ
  pub tag : ℕ

abbrev tag_of : Option (ℕ × ℕ) → ℕ
tag_of none = 0
tag_of (some l) = l.0

abbrev tell : List ℕ → Family → ℕ × Family
tell [] s = (timed_out, s)
tell (i ∷ is) s = (signal, record s { failures = is; tag = tag_of (get_elem? s.linked i) })

-- The handles of children are numbered from 10 on.
abbrev family_answer : (c : Call) → Family → Answer c × Family
family_answer (process (ProcessCall.inherit_spawn tag function params cell)) s =
    ((0, 10 + length s.linked), record s { linked = s.linked ++ (tag, 10 + length s.linked) ∷ [] })
family_answer (message (MessageCall.receive tag limit)) s = tell s.failures s
family_answer (message MessageCall.get_tag) s = (s.tag, s)
family_answer c s = (any_answer 0 c, s)

instance abbrev family : Host
family = record { State = Family; answer = family_answer }

family-Links : Links
family-Links = record {
  linked = λ s. s.linked;
  failures = λ s. s.failures;
  links = λ tag function params s. (refl, refl, refl);
  tells = λ i later l s waits here. rw waits (refl, rw here refl, refl, refl);
}

-- The third child fails, and then, when another was linked, the first and the fourth.
abbrev doings : List Action
doings = link 1 ∷ link 2 ∷ link 3 ∷ hear ∷ link 4 ∷ hear ∷ hear ∷ []

abbrev parent : World
parent = fresh (record { linked = []; failures = 2 ∷ 0 ∷ 3 ∷ []; tag = 0 })

watch-Follows_example :
    Returns
      (λ told _. Follows 0 [] (2 ∷ 0 ∷ 3 ∷ []) doings told)
      (watch Unit {P = ℕ} link_mailbox doings parent)
unfolding family-Links
watch-Follows_example =
    watch-Follows Unit family-Links link_mailbox doings [] (2 ∷ 0 ∷ 3 ∷ []) parent (refl, refl)
      (omega arith, (omega arith, (omega arith, tt))) (omega arith)

-- ===== src/Examples/Sorted.antt =====
-- Messages under several tags, received at concrete data.
use rust_lib.Common.{ℕ, ◌≡◌, ◌≢◌, subst, sym, refl, List, [], ◌∷◌, Option, none, some, arith}
use rust_lib.Delivery.Codec.{Codec, envelope, Holds}
use rust_lib.Delivery.Order.{
  Picked, found, later, Taken, done, next, Waiting, Each, receive_each, receive_each-Taken,
}
use rust_lib.Delivery.Runtime.{Letter, Keeps}
use rust_lib.Examples.Delivered.{state}
use rust_lib.Examples.Fixture.{fresh, plain_rmp, number_serde}
use rust_lib.Examples.Numbers.{number_codec}
use rust_lib.Examples.Post.{Post, pick, bring, post, post_sight}
use rust_lib.Examples.Post.Laws.{post-Lawful}
use rust_lib.Host.{World, Returns}
use rust_lib.Mailbox.{Mailbox, mailbox, signal, timed_out}
use rust_lib.MessageRw

Picked-pick :
    (tag : ℕ) {ls : List Letter} {l : Letter} {rest : List Letter}
    → Picked (λ (x : Letter). x.tag) tag ls l rest
    → pick tag ls ≡ some (l, rest)
Picked-pick tag (found this_one) = rw this_one refl
Picked-pick tag (later other p) = rw (other, Picked-pick tag p) refl

abbrev IsBrought : Letter → List Letter → Post → ℕ × Post → Type 0
IsBrought l rest s (answer, s') =
    (answer ≢ signal)
    × (answer ≢ timed_out)
    × Holds post_sight s' l
    × (s'.inbox ≡ rest)
    × Keeps post_sight s s'

brought :
    (tag : ℕ) (l : Letter) (rest : List Letter) (s : Post)
    → Picked (λ (x : Letter). x.tag) tag s.inbox l rest
    → IsBrought l rest s (bring (pick tag s.inbox) s)
brought tag l rest s picked =
    subst (λ p. IsBrought l rest s (bring p s)) (sym (Picked-pick tag picked))
      (omega arith, omega arith, (refl, refl), refl, (λ id pid e. e, λ id sid e. e))

abbrev post_waiting : Waiting post_sight
post_waiting = record {
  letters = λ s. s.inbox;
  brings = λ tag limit l rest s picked. brought tag l rest s picked;
}

abbrev numbers : Codec post_sight number_serde ℕ
numbers = number_codec post-Lawful

-- Five numbers under the tags 0, 4, 0, 7 and 4.
abbrev sent : List (ℕ × ℕ)
sent = (0, 10) ∷ (4, 11) ∷ (0, 12) ∷ (7, 13) ∷ (4, 14) ∷ []

abbrev tags : List (Option ℕ)
tags = some 4 ∷ none ∷ some 4 ∷ []

-- What is asked for with tag 4, then with none, and then with tag 4.
taken :
    Taken (λ (p : ℕ × ℕ). p.0) tags sent ((4, 11) ∷ (0, 10) ∷ (4, 14) ∷ []) ((0, 12) ∷ (7, 13) ∷ [])
taken =
    next (later refl (found refl))
      (next (found refl) (next (later refl (later refl (found refl))) done))

abbrev full : World
full = fresh (
    state 7 [] (
      envelope numbers 0 10
      ∷ envelope numbers 4 11
      ∷ envelope numbers 0 12
      ∷ envelope numbers 7 13
      ∷ envelope numbers 4 14
      ∷ []))

calm :
    (w : World)
    → Returns (λ _ w'. w'.host.inbox ≡ w.host.inbox) (number_serde.deserialize MessageRw.read w)
unfolding MessageRw.read
calm w = refl

abbrev own : Mailbox ℕ
own = mailbox

receive_each-Taken_example :
    Returns
      (Each post-Lawful post_waiting numbers calm
        ((4, 11) ∷ (0, 10) ∷ (4, 14) ∷ [])
        ((0, 12) ∷ (7, 13) ∷ [])
        full)
      (receive_each own none tags full)
receive_each-Taken_example =
    receive_each-Taken post-Lawful post_waiting numbers calm own none full taken
      (omega arith, (omega arith, (omega arith, tt))) refl

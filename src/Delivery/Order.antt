-- ===== src/Delivery/Order.antt =====
-- In which order the letters of a process are received, by `Mailbox::receive_` (src/mailbox.rs).
use mathlib.Core.List.{map}
use mathlib.Core.Bool.{◌||◌}
use rust_lib.Common.{
  ℕ, ◌≡◌, ◌≢◌, ◌∙◌, sym, subst, inl, inr, List, [], ◌∷◌, All, Result, ok, err, Option, Bool, true,
  false, ◌==◌,
}
use rust_lib.Delivery.Codec.{Codec, Returns-both, envelope, Holds}
use rust_lib.Delivery.Runtime.{Letter, Sight, Lawful, Keeps, Keeps-trans, next_state}
use rust_lib.Delivery.Sending.{Got, receive_-Holds}
use rust_lib.Host.{
  Host, World, Run, Returns, Returns-bind, Returns-weaken, pure, ◌>>=◌, after, answer_to, message,
  MessageCall,
}
use rust_lib.Mailbox.{
  Mailbox, Received, receive_, signal, timed_out, tag_or_0, decode, deserialization_failed,
}
use rust_lib.Mailbox.Branches.{receive_call, receive__branches}
use rust_lib.MessageRw
use rust_lib.Serde.{Rmp, Serde}
use rust_lib.Timeout.{Duration, timeout_ms}

-- Whether a message of the second tag is asked for by the first, of which 0 asks for any.
abbrev pub asks_for : ℕ → ℕ → Bool
asks_for tag tag' = (tag == 0) || (tag == tag')

-- The first of some letters that a tag asks for, and the others in their order.
pub data Picked {X : Type 0} (tag_of : X → ℕ) (tag : ℕ) : List X → X → List X → Type 0 where
  found : {x : X} {xs : List X} → asks_for tag (tag_of x) ≡ true → Picked tag_of tag (x ∷ xs) x xs
  later :
      {x y : X} {xs rest : List X}
      → asks_for tag (tag_of x) ≡ false
      → Picked tag_of tag xs y rest
      → Picked tag_of tag (x ∷ xs) y (x ∷ rest)

-- Those that several tags ask for, one after the other, and what is left.
pub data Taken {X : Type 0} (tag_of : X → ℕ)
    : List (Option ℕ) → List X → List X → List X → Type 0 where
  done : {xs : List X} → Taken tag_of [] xs [] xs
  next :
      {tag : Option ℕ} {tags : List (Option ℕ)} {y : X} {xs rest ys left : List X}
      → Picked tag_of (tag_or_0 tag) xs y rest
      → Taken tag_of tags rest ys left
      → Taken tag_of (tag ∷ tags) xs (y ∷ ys) left

Picked-map :
    {X Y : Type 0} (f : X → Y) (tag_of : Y → ℕ) (tag : ℕ) {xs : List X} {y : X} {rest : List X}
    → Picked (λ x. tag_of (f x)) tag xs y rest
    → Picked tag_of tag (map f xs) (f y) (map f rest)
Picked-map f tag_of tag (found yes_tag) = found yes_tag
Picked-map f tag_of tag (later no_tag p) = later no_tag (Picked-map f tag_of tag p)

-- What a runtime is asked for: the letters that wait for the process, of which `receive` brings the
-- first that the tag asks for, where there is one.
pub record Waiting ⦃h : Host⦄ (sight : Sight) : Type 0 where
  pub letters : h.State → List Letter
  pub brings :
      (tag limit : ℕ) (l : Letter) (rest : List Letter) (s : h.State)
      → Picked (λ (x : Letter). x.tag) tag (letters s) l rest
      → let c = message (MessageCall.receive tag limit) in
        ((h.answer c s).0 ≢ signal)
        × ((h.answer c s).0 ≢ timed_out)
        × Holds sight (next_state c s) l
        × (letters (next_state c s) ≡ rest)
        × Keeps sight s (next_state c s)

module _ ⦃h : Host⦄ ⦃r : Rmp⦄ {T : Type 0} ⦃s : Serde T⦄ where
  -- A program that receives once for each tag.
  unfoldable pub receive_each :
      Mailbox T → Option Duration → List (Option ℕ) → Run (List (Received T))
  receive_each mb limit [] = pure []
  receive_each mb limit (tag ∷ tags) = do
    x ← receive_ mb tag limit
    xs ← receive_each mb limit tags
    pure (x ∷ xs)

module _ ⦃h : Host⦄ ⦃r : Rmp⦄ {sight : Sight} (law : Lawful sight) (waiting : Waiting sight)
    {T A : Type 0} ⦃s : Serde T⦄ (k : Codec sight s A)
    (calm : (w : World)
      → Returns
          (λ _ w'. waiting.letters w'.host ≡ waiting.letters w.host)
          (s.deserialize MessageRw.read w)) where
  -- The letters of values, each under its tag.
  abbrev pub mail : List (ℕ × A) → List Letter
  mail = map (λ (p : ℕ × A). envelope k p.0 p.1)

  -- What was received stands for the values, in order.
  abbrev pub Stand : h.State → List (Received T) → List (ℕ × A) → Type 0
  Stand st [] [] = Unit
  Stand st [] (p ∷ ps) = ⊥
  Stand st (x ∷ xs) [] = ⊥
  Stand st (x ∷ xs) (p ∷ ps) = ((m : T) × (x ≡ ok m) × k.Means st m p.1) × Stand st xs ps

  Left : World → World → Type 0
  Left w w' = waiting.letters w'.host ≡ waiting.letters w.host

  on_result : Result T r.DecodeError → Run (Received T)
  on_result result = elim result as (λ _. Run (Received T)) [
    | ok m ↦ pure (ok m)
    | err e ↦ pure (err (deserialization_failed e))
  ]

  settled :
      (result : Result T r.DecodeError) (w v : World)
      → Left w v
      → Returns (λ _ w'. Left w w') (on_result result v)
  unfolding on_result
  settled (ok m) w v same = same
  settled (err e) w v same = same

  decode-Left : (w : World) → Returns (λ _ w'. Left w w') (decode {T = T} w)
  unfolding decode Left on_result
  decode-Left w =
      Returns-bind (λ _ v. Left w v) (λ _ w'. Left w w') (s.deserialize MessageRw.read) on_result w
        (calm w) (λ result v same. settled result w v same)

  receive_-Left :
      (mb : Mailbox T) (tag : Option ℕ) (limit : Option Duration) (w : World)
      → answer_to (receive_call tag limit) w ≢ signal
      → answer_to (receive_call tag limit) w ≢ timed_out
      → Returns (λ _ w'. Left (after (receive_call tag limit) w) w') (receive_ mb tag limit w)
  receive_-Left mb tag limit w no_signal in_time =
      let w₁ = after (receive_call tag limit) w in
      elim (receive__branches mb tag limit w) [
        | inl e ↦ absurd (no_signal e.0)
        | inr (inl e) ↦ absurd (in_time e.0)
        | inr (inr e) ↦ subst (Returns (λ _ w'. Left w₁ w')) (sym e.2) (decode-Left w₁)
      ]

  -- One letter is received.
  Received1 : ℕ × A → List (ℕ × A) → World → Received T → World → Type 0
  Received1 p rest w x w' =
      ((m : T) × (x ≡ ok m) × k.Means w'.host m p.1)
      × (waiting.letters w'.host ≡ mail rest)
      × Keeps sight w.host w'.host

  received_one :
      (mb : Mailbox T) (tag : Option ℕ) (limit : Option Duration) (p : ℕ × A) (rest : List (ℕ × A))
      (w : World)
      → k.Fits 0 p.1
      → Picked
          (λ (x : Letter). x.tag)
          (tag_or_0 tag)
          (waiting.letters w.host)
          (envelope k p.0 p.1)
          (mail rest)
      → Returns (Received1 p rest w) (receive_ mb tag limit w)
  unfolding Received1 Left
  received_one mb tag limit p rest w fits picked =
      let (no_signal, in_time, holds, left, kept) =
        waiting.brings (tag_or_0 tag) (timeout_ms limit) (envelope k p.0 p.1) (mail rest) w.host
          picked in
      let w₁ = after (receive_call tag limit) w in
      Returns-weaken (λ x w'. Got law k tag limit p.1 w x w' × Left w₁ w') (Received1 p rest w)
        (receive_ mb tag limit w)
        (Returns-both (Got law k tag limit p.1 w) (λ _ w'. Left w₁ w') (receive_ mb tag limit w)
          (receive_-Holds law k mb tag limit p.0 p.1 w fits no_signal in_time holds)
          (receive_-Left mb tag limit w no_signal in_time))
        (λ x w' ((m, is_ok, (means, (view, keeps, counted))), same).
          ((m, is_ok, means), same ∙ left, Keeps-trans sight w.host w₁.host w'.host kept keeps))

  abbrev pub Each : List (ℕ × A) → List (ℕ × A) → World → List (Received T) → World → Type 0
  Each ps left w xs w' =
      Stand w'.host xs ps × (waiting.letters w'.host ≡ mail left) × Keeps sight w.host w'.host

  -- A process receives once for each of some tags; a receive without a tag asks for any message. Each
  -- gives a value that stands for what was sent in the first waiting message that its tag asks for,
  -- those that were received before being gone, and the messages that are left wait in the order in
  -- which they came. There is such a message for each of the tags, the values that come fit their
  -- encodings, decoding leaves the messages that wait alone, and the runtime keeps to `Lawful` and
  -- `Waiting`.
  pub receive_each-Taken :
      (mb : Mailbox T) (limit : Option Duration) {tags : List (Option ℕ)}
      {sent got left : List (ℕ × A)} (w : World)
      → Taken (λ (p : ℕ × A). p.0) tags sent got left
      → All (λ (p : ℕ × A). k.Fits 0 p.1) got
      → waiting.letters w.host ≡ mail sent
      → Returns (Each got left w) (receive_each mb limit tags w)
  unfolding receive_each Received1
  receive_each-Taken mb limit w done fits here = (tt, here, (λ id pid e. e, λ id sid e. e))
  receive_each-Taken mb limit w
        (next {tag = tag} {tags = tags} {y = p} {rest = rest} {ys = ps} {left = left} picked taken)
        (fit, fits) here =
      Returns-bind (Received1 p rest w) (Each (p ∷ ps) left w) (receive_ mb tag limit)
        (λ x. receive_each mb limit tags >>= λ xs. pure (x ∷ xs)) w
        (received_one mb tag limit p rest w fit (
          subst
            (λ ls.
              Picked (λ (l : Letter). l.tag) (tag_or_0 tag) ls (envelope k p.0 p.1) (mail rest))
            (sym here)
            (Picked-map (λ (q : ℕ × A). envelope k q.0 q.1) (λ (l : Letter). l.tag) (tag_or_0 tag)
              picked)))
        (λ x w₁ ((m, is_ok, means), left_one, kept).
          Returns-bind (Each ps left w₁) (Each (p ∷ ps) left w) (receive_each mb limit tags)
            (λ xs. pure (x ∷ xs)) w₁ (receive_each-Taken mb limit w₁ taken fits left_one)
            (λ xs w₂ (stands, lefts, keeps). (
              ((m, is_ok, k.stable m p.1 w₁.host w₂.host keeps means), stands),
              lefts,
              Keeps-trans sight w.host w₁.host w₂.host kept keeps,
            )))

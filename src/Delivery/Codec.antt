-- ===== src/Delivery/Codec.antt =====
-- What is asked of the serde code of a type: it writes the bytes of a value, and reads them back.
use rust_lib.Common.{
  ℕ, ◌≡◌, ◌∙◌, ◌^◌, ◌<◌, ap, subst, sym, refl, List, [], ◌++◌, Result, ok, none, length,
}
use rust_lib.Delivery.Runtime.{
  Carried, Letter, View, add, add-add, Keeps-trans, Sight, Keeps, Spares,
}
use rust_lib.Host.{Host, World, Run, Outcome, returned, panicked, Returns, Returns-bind, ◌>>=◌}
use rust_lib.MessageRw
use rust_lib.Serde.{Rmp, Serde}

module _ ⦃h : Host⦄ (sight : Sight) where
  -- Bytes and handles were added to the message in the buffer.
  abbrev pub Added : List ℕ → List Carried → World → World → Type 0
  Added bytes carried w w' =
      (sight.view w'.host ≡ add (sight.view w.host) bytes carried) × (w'.counter ≡ w.counter)

  -- The message in the buffer was read up to `rest`.
  abbrev pub Read : List ℕ → World → World → Type 0
  Read rest w w' =
      (sight.view w'.host ≡ record (sight.view w.host) { unread = rest })
      × Keeps sight w.host w'.host
      × (w'.counter ≡ w.counter)

-- The binary format of numbers and of the head of a struct.
pub record Format ⦃h : Host⦄ (sight : Sight) (r : Rmp) : Type 0 where
  pub u64 : ℕ → List ℕ
  pub i64 : ℕ → List ℕ
  pub head : ℕ → List ℕ
  pub writes_u64 :
      (n : ℕ) (w : World)
      → Returns
          (λ x w'. (x ≡ ok tt) × (Added sight (u64 n) [] w w' × Keeps sight w.host w'.host))
          (r.serialize_u64 MessageRw.write n w)
  pub writes_i64 :
      (n : ℕ) (w : World)
      → Returns
          (λ x w'. (x ≡ ok tt) × (Added sight (i64 n) [] w w' × Keeps sight w.host w'.host))
          (r.serialize_i64 MessageRw.write n w)
  pub writes_head :
      (n : ℕ) (w : World)
      → Returns
          (λ x w'. (x ≡ ok tt) × (Added sight (head n) [] w w' × Keeps sight w.host w'.host))
          (r.serialize_struct MessageRw.write n w)
  pub reads_u64 :
      (n : ℕ) (rest : List ℕ) (w : World)
      → n < 2 ^ 64
      → (sight.view w.host).unread ≡ u64 n ++ rest
      → Returns (λ x w'. (x ≡ ok n) × Read sight rest w w') (r.deserialize_u64 MessageRw.read w)
  pub reads_i64 :
      (n : ℕ) (rest : List ℕ) (w : World)
      → n < 2 ^ 64
      → (sight.view w.host).unread ≡ i64 n ++ rest
      → Returns (λ x w'. (x ≡ ok n) × Read sight rest w w') (r.deserialize_i64 MessageRw.read w)
  pub reads_head :
      (n : ℕ) (rest : List ℕ) (w : World)
      → n < 2 ^ 64
      → (sight.view w.host).unread ≡ head n ++ rest
      → Returns
          (λ x w'. (x ≡ ok tt) × Read sight rest w w')
          (r.deserialize_struct MessageRw.read n w)

-- A type of messages whose values stand for an `A`, which is what a message says to its receiver: a
-- number stands for itself, a handle for the process behind it. The bytes depend on how many
-- handles the message has already.
pub record Codec ⦃h : Host⦄ (sight : Sight) ⦃r : Rmp⦄ {T : Type 0} (s : Serde T) (A : Type 0)
    : Type 1 where
  pub bytes : ℕ → A → List ℕ
  pub carried : A → List Carried
  pub Fits : ℕ → A → Type 0
  pub Means : h.State → T → A → Type 0
  pub stable : (m : T) (a : A) (s s' : h.State) → Keeps sight s s' → Means s m a → Means s' m a
  -- The process handles that are none of the value's own.
  pub Apart : T → ℕ → Type 0
  pub fresh :
      (m : T) (a : A) (st : h.State) (id : ℕ)
      → Means st m a
      → sight.process_of st id ≡ none
      → Apart m id
  -- What is left of a value that was written: dropping it gives no handle back.
  pub Spent : T → Type 0
  pub writes :
      (m : T) (a : A) (w : World)
      → Means w.host m a
      → Returns
          (λ x w'.
            (x.0 ≡ ok tt)
            × Added sight (bytes (length (sight.view w.host).letter.carried) a) (carried a) w w'
            × Spares sight (Apart m) w.host w'.host
            × Spent x.1)
          (s.serialize MessageRw.write m w)
  pub drops :
      (m : T) (w : World)
      → Returns
          (λ _ w'. (sight.view w'.host ≡ sight.view w.host) × (w'.counter ≡ w.counter))
          (s.drop m w)
  pub drops_spent :
      (m : T) (w : World) → Spent m → Returns (λ _ w'. Keeps sight w.host w'.host) (s.drop m w)
  pub reads :
      (a : A) (front back : List Carried) (rest : List ℕ) (w : World)
      → Fits (length front) a
      → (sight.view w.host).unread ≡ bytes (length front) a ++ rest
      → (sight.view w.host).letter.carried ≡ front ++ (carried a ++ back)
      → Returns
          (λ x w'. (m : T) × (x ≡ ok m) × (Means w'.host m a × Read sight rest w w'))
          (s.deserialize MessageRw.read w)

-- A type of messages without handles: writing it moves none.
pub record Plain ⦃h : Host⦄ (sight : Sight) ⦃r : Rmp⦄ {T : Type 0} (s : Serde T) : Type 0 where
  pub keeps :
      (m : T) (w : World)
      → Returns (λ _ w'. Keeps sight w.host w'.host) (s.serialize MessageRw.write m w)

-- The message that a value is sent as, under a tag.
abbrev pub envelope :
    ⦃h : Host⦄ {sight : Sight} ⦃r : Rmp⦄ {T A : Type 0} {s : Serde T}
    → Codec sight s A
    → ℕ
    → A
    → Letter
envelope k tag a = record { tag = tag; bytes = k.bytes 0 a; carried = k.carried a }

-- A message that the receiver finds in its buffer.
abbrev pub Holds : ⦃h : Host⦄ → Sight → h.State → Letter → Type 0
Holds sight s l = ((sight.view s).letter ≡ l) × ((sight.view s).unread ≡ l.bytes)

module _ ⦃h : Host⦄ where
  -- A bind whose first part returns a success.
  pub Returns-ok :
      {A B E : Type 0} (P : A → World → Type 0) (Q : B → World → Type 0) (m : Run (Result A E))
      (k : Result A E → Run B) (w : World)
      → Returns (λ x w'. (a : A) × (x ≡ ok a) × P a w') (m w)
      → ((a : A) (w' : World) → P a w' → Returns Q (k (ok a) w'))
      → Returns Q ((m >>= k) w)
  Returns-ok P Q m k w first next =
      Returns-bind (λ x w'. (a : _) × (x ≡ ok a) × P a w') Q m k w first
        (λ x w' g. subst (λ x'. Returns Q (k x' w')) (sym g.1) (next g.0 w' g.2))

  -- The same where the value is known.
  pub Returns-is :
      {A B E : Type 0} (a : A) (P : World → Type 0) (Q : B → World → Type 0) (m : Run (Result A E))
      (k : Result A E → Run B) (w : World)
      → Returns (λ x w'. (x ≡ ok a) × P w') (m w)
      → ((w' : World) → P w' → Returns Q (k (ok a) w'))
      → Returns Q ((m >>= k) w)
  Returns-is a P Q m k w first next =
      Returns-bind (λ x w'. (x ≡ ok a) × P w') Q m k w first
        (λ x w' g. subst (λ x'. Returns Q (k x' w')) (sym g.0) (next w' g.1))

  -- A bind whose first part ends in the world that it is computed to end in.
  pub Returns-here :
      {A B : Type 0} (P : A → World → Type 0) (Q : B → World → Type 0) (m : Run A) (f : A → Run B)
      (w : World)
      → Returns P (m w)
      → ((a : A) → P a (m w).1 → Returns Q (f a (m w).1))
      → Returns Q ((m >>= f) w)
  Returns-here {A} {B} P Q m f w r k = go (m w) r k
    where
      go :
          (o : Outcome A × World)
          → Returns P o
          → ((a : A) → P a o.1 → Returns Q (f a o.1))
          → Returns Q (elim o.0 as (λ _. Outcome B × World) [
            | returned a ↦ f a o.1
            | panicked ↦ (panicked, o.1)
          ])
      go (returned a, w') p k' = k' a p
      go (panicked, w') p k' = absurd p

  -- The value and the world that a run returns with.
  pub Returns-equation :
      {A : Type 0} (P : A → World → Type 0) (o : Outcome A × World)
      → Returns P o
      → (a : A) × (w : World) × (o ≡ (returned a, w)) × P a w
  Returns-equation P (returned a, w) p = (a, w, refl, p)
  Returns-equation P (panicked, w) p = absurd p

  pub Returns-both :
      {A : Type 0} (P Q : A → World → Type 0) (o : Outcome A × World)
      → Returns P o
      → Returns Q o
      → Returns (λ a w. P a w × Q a w) o
  Returns-both P Q (returned a, w) p q = (p, q)
  Returns-both P Q (panicked, w) p q = absurd p

  module _ (sight : Sight) where
    pub Read-trans :
        (rest rest' : List ℕ) (w w' w'' : World)
        → Read sight rest w w'
        → Read sight rest' w' w''
        → Read sight rest' w w''
    Read-trans rest rest' w w' w'' (view, keeps, counted) (view', keeps', counted') = (
      view' ∙ ap (λ (v : View). record v { unread = rest' }) view,
      Keeps-trans sight w.host w'.host w''.host keeps keeps',
      counted' ∙ counted,
    )

    pub Added-trans :
        (bs bs' : List ℕ) (cs cs' : List Carried) (w w' w'' : World)
        → Added sight bs cs w w'
        → Added sight bs' cs' w' w''
        → Added sight (bs ++ bs') (cs ++ cs') w w''
    Added-trans bs bs' cs cs' w w' w'' (view, counted) (view', counted') = (
      view' ∙ ap (λ (v : View). add v bs' cs') view ∙ add-add (sight.view w.host) bs bs' cs cs',
      counted' ∙ counted,
    )

-- ===== src/Serde.antt =====
-- Messages as bytes. `serde` and `rmp_serde` are crates of others, so their methods are parameters;
-- a type that can be sent has an instance of `Serde`, which the library writes for its handles.
use rust_lib.Common.{ℕ, List, Result, ok, err}
use rust_lib.Host.{Host, Run, pure, panic, ◌>>=◌}
use rust_lib.LunaticError.{IoError}

module _ ⦃h : Host⦄ where
  -- `Write::write` of a buffer, and `Read::read` into one: the count and the buffer after it.
  abbrev pub Writer : Type 0
  Writer = List ℕ → Run (Result ℕ IoError)

  abbrev pub Reader : Type 0
  Reader = List ℕ → Run (Result (ℕ × List ℕ) IoError)

-- The methods of `rmp_serde`'s serializer and deserializer that the library calls.
pub record Rmp ⦃h : Host⦄ : Type 1 where
  pub EncodeError : Type 0
  pub DecodeError : Type 0
  pub serialize_u64 : Writer → ℕ → Run (Result Unit EncodeError)
  pub serialize_i64 : Writer → ℕ → Run (Result Unit EncodeError)
  pub serialize_unit : Writer → Run (Result Unit EncodeError)
  pub serialize_struct : Writer → ℕ → Run (Result Unit EncodeError)
  pub deserialize_u64 : Reader → Run (Result ℕ DecodeError)
  pub deserialize_i64 : Reader → Run (Result ℕ DecodeError)
  pub deserialize_unit : Reader → Run (Result Unit DecodeError)
  pub deserialize_struct : Reader → ℕ → Run (Result Unit DecodeError)

-- `T : Serialize + DeserializeOwned`, with what dropping a `T` does. Serializing takes `&T`, but it
-- may write to a cell inside, so the value comes back.
pub record Serde ⦃h : Host⦄ ⦃r : Rmp⦄ (T : Type 0) : Type 0 where
  pub serialize : Writer → T → Run (Result Unit r.EncodeError × T)
  pub deserialize : Reader → Run (Result T r.DecodeError)
  pub drop : T → Run Unit

-- `()`, as `serde` treats it.
instance abbrev pub unit_serde : ⦃h : Host⦄ ⦃r : Rmp⦄ → Serde Unit
unit_serde ⦃r⦄ = record {
  serialize = λ writer _. (do written ← r.serialize_unit writer; pure (written, tt));
  deserialize = r.deserialize_unit;
  drop = λ _. pure tt;
}

-- The operator `?` on a result inside a run.
module _ ⦃h : Host⦄ where
  abbrev pub and_then :
      {A B E : Type 0} → Run (Result A E) → (A → Run (Result B E)) → Run (Result B E)
  and_then m f = m >>= elim [ ok a ↦ f a | err e ↦ pure (err e) ]

  -- `Result::unwrap`
  abbrev pub unwrap : {A E : Type 0} → Run (Result A E) → Run A
  unwrap m = m >>= elim [ ok a ↦ pure a | err e ↦ panic ]

-- ===== src/LunaticError/Text.antt =====
-- The text of an error (src/error.rs).
use rust_lib.Common.{
  ℕ, zero, suc, ◌≡◌, ◌∙◌, ◌⊎◌, inl, inr, refl, List, true, false, replicate, fill, length,
  length-fill, Bool-cases, arith,
}
use rust_lib.Common.Utf8.{is_utf8}
use rust_lib.Host.{Host, World, returned, panicked, after, answer_to, ErrorCall, error}
use rust_lib.LunaticError.{LunaticError, fmt}

length-replicate : (n : ℕ) → length (replicate {A = ℕ} n 0) ≡ n
length-replicate zero = refl
length-replicate (suc n) = omega (arith, length-replicate n)

module _ ⦃h : Host⦄ where
  -- `fmt` asks for the size of the text and for the text. If these bytes, in a buffer of that size,
  -- are UTF-8, it writes them out, and otherwise it panics.
  pub fmt_branches :
      (e : LunaticError) (w : World)
      → let c = error (ErrorCall.string_size e.id) in
        let d = error (ErrorCall.to_string e.id) in
        let size = answer_to c w in
        let buff = fill (replicate size 0) (answer_to d (after c w)) in
        (length buff ≡ size)
        × ((is_utf8 buff ≡ true) × (fmt e w ≡ (returned buff, after d (after c w)))
            ⊎ (is_utf8 buff ≡ false) × (fmt e w ≡ (panicked, after d (after c w))))
  unfolding fmt
  fmt_branches e w =
      let c = error (ErrorCall.string_size e.id) in
      let d = error (ErrorCall.to_string e.id) in
      let size : ℕ = answer_to c w in
      let buff : List ℕ = fill (replicate size 0) (answer_to d (after c w)) in
      (
        length-fill (replicate size 0) (answer_to d (after c w)) ∙ length-replicate size,
        elim (Bool-cases (is_utf8 buff)) [ inl e ↦ inl (e, rw e) | inr e ↦ inr (e, rw e) ],
      )

-- ===== src/Tag/Order.antt =====
-- Tags made one after the other (src/tag.rs).
use rust_lib.Common.{ℕ, zero, suc, ◌+◌, ◌%◌, ◌^◌, ◌<◌, ◌≡◌, List, [], ◌∷◌, arith}
use rust_lib.Host.{Host, Run, World, Returns, Returns-bind, pure, ◌>>=◌}
use rust_lib.Tag
use rust_lib.Tag.{Tag}

-- Each tag's number is above `low` and above those before it.
abbrev Ascending : ℕ → List Tag → Type 0
Ascending low [] = Unit
Ascending low (t ∷ ts) = (low < t.id) × Ascending t.id ts

module _ ⦃h : Host⦄ where
  -- `Tag::new`, `n` times.
  new_tags : ℕ → Run (List Tag)
  new_tags zero = pure []
  new_tags (suc n) = do t ← Tag.new; ts ← new_tags n; pure (t ∷ ts)

  -- Tags made in a row, fewer than 2 ^ 63 in all, have growing numbers above those made before: they
  -- differ from one another, from earlier ones and from 0, and the counter has counted them.
  new_tags-Ascending :
      (n : ℕ) (w : World)
      → w.counter + n < 2 ^ 63
      → Returns (λ ts w'. Ascending w.counter ts × (w'.counter ≡ w.counter + n)) (new_tags n w)
  unfolding new_tags Tag.new
  new_tags-Ascending zero w b = (tt, omega arith)
  new_tags-Ascending (suc n) w b =
      let next : (w.counter + 1) % 2 ^ 64 ≡ w.counter + 1 = omega arith in
      let w₁ : World = record w { counter = (w.counter + 1) % 2 ^ 64 } in
      Returns-bind (λ ts w'. Ascending w₁.counter ts × (w'.counter ≡ w₁.counter + n))
        (λ ts w'. Ascending w.counter ts × (w'.counter ≡ w.counter + suc n)) (new_tags n)
        (λ ts. pure (Tag.from w₁.counter ∷ ts)) w₁ (new_tags-Ascending n w₁ (omega arith))
        (λ ts w' p. ((omega arith, p.0), omega arith))

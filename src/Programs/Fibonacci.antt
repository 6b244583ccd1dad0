-- ===== src/Programs/Fibonacci.antt =====
-- The function `fibonacci` of tests/process_test.rs, over `Wrapping<u64>`.
use rust_lib.Common.{
  ℕ, zero, suc, ◌+◌, ◌-◌, ◌%◌, ◌^◌, ◌≡◌, refl, arith, ◌==◌, if◌then◌else◌, Bool-cases, ==→eq, inl,
  inr,
}
use rust_lib.Host.{Host, Run, ◌>>◌}
use rust_lib.Mailbox.{Mailbox}
use rust_lib.Process
use rust_lib.Process.{Process}
use rust_lib.Serde.{Rmp, Serde}

pub record Sums : Type 0 where
  pub sum : ℕ
  pub last : ℕ
  pub curr : ℕ

-- The body of `for _i in 1..input`, and the loop of that many rounds.
unfoldable pub add_up : Sums → Sums
add_up s = let sum = (s.last + s.curr) % 2 ^ 64 in record { sum = sum; last = s.curr; curr = sum }

unfoldable pub rounds : ℕ → Sums → Sums
rounds zero s = s
rounds (suc n) s = rounds n (add_up s)

unfoldable pub value : ℕ → ℕ
value input =
    if input == 1 then 1 else (rounds (input - 1) (record { sum = 0; last = 0; curr = 1 })).sum

module _ ⦃h : Host⦄ ⦃r : Rmp⦄ ⦃s : Serde ℕ⦄ where
  -- `fibonacci`, which drops the handle of the parent at either end.
  unfoldable pub fibonacci : Process ℕ → ℕ → Mailbox Unit → Run Unit
  fibonacci parent input _ = do Process.send parent (value input); Process.drop parent

-- The sequence, without a bound.
abbrev pub fib : ℕ → ℕ
fib zero = 0
fib (suc zero) = 1
fib (suc (suc n)) = fib (suc n) + fib n

rounds-fib :
    (n k j : ℕ) (s : Sums)
    → n + suc k ≡ j
    → s.sum ≡ fib (suc k) % 2 ^ 64
    → s.last ≡ fib k % 2 ^ 64
    → s.curr ≡ fib (suc k) % 2 ^ 64
    → (rounds n s).sum ≡ fib j % 2 ^ 64
unfolding rounds add_up
rounds-fib zero k j s e sum last curr = let same : j ≡ suc k = omega arith in rw same sum
rounds-fib (suc n) k j s e sum last curr =
    let next : (s.last + s.curr) % 2 ^ 64 ≡ fib (suc (suc k)) % 2 ^ 64 =
      omega (arith, last, curr) in
    rounds-fib n (suc k) j (add_up s) (omega arith) next curr next

abbrev start : Sums
start = record { sum = 0; last = 0; curr = 1 }

later : (n : ℕ) → (rounds (suc n) start).sum ≡ fib (suc (suc n)) % 2 ^ 64
unfolding rounds add_up
later n = rounds-fib n 1 (suc (suc n)) (add_up start) (omega arith) refl refl refl

-- The program computes the Fibonacci sequence modulo 2 ^ 64, from `fib 0 ≡ 0` on.
pub value-fib : (input : ℕ) → value input ≡ fib input % 2 ^ 64
unfolding value rounds
value-fib zero = refl
value-fib (suc zero) = refl
value-fib (suc (suc n)) = elim (Bool-cases (suc (suc n) == 1)) [
  | inl one ↦ absurd (omega (arith, ==→eq (suc (suc n)) 1 one))
  | inr other ↦ let before : suc (suc n) - 1 ≡ suc n = omega arith in rw other (rw before (later n))
]

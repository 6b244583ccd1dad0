-- ===== src/Programs/Adder/Sums.antt =====
-- A sum that the client of examples/request_replay.rs asks for.
use rust_lib.Common.{
  ◌+◌, ◌%◌, ◌^◌, ℕ, ◌≡◌, ◌≢◌, ap, sym, subst, ◌∷◌, ok, err, none, some, ◌==◌, eq→==,
}
use rust_lib.Delivery.Codec.{Format, Codec, Plain, Returns-ok, envelope, Holds}
use rust_lib.Delivery.Replies.{answered, Answered, request_-reply}
use rust_lib.Delivery.Requests.{Asked}
use rust_lib.Delivery.Requests.Encoded.{request_codec}
use rust_lib.Delivery.Runtime.{Sight, Lawful}
use rust_lib.Delivery.Serving.{asked, first}
use rust_lib.Host.{Host, World, Run, Returns, Returns-bind, pure, panic, after, answer_to}
use rust_lib.Mailbox.{Mailbox, signal, timed_out}
use rust_lib.Process.{Process}
use rust_lib.Programs.{assert}
use rust_lib.Programs.Adder.{sum_of, serve, assert_sum}
use rust_lib.Request.{Request, request, request_, request_serde}
use rust_lib.Serde.{Rmp, Serde, unwrap}

-- What is to come of two numbers.
abbrev pub total : ℕ × ℕ → ℕ
total (a, b) = (a + b) % 2 ^ 32

module _ ⦃h : Host⦄ ⦃r : Rmp⦄ {sight : Sight} where
  -- Values that stand for themselves and hold no handles.
  abbrev pub Exact : {A : Type 0} ⦃s : Serde A⦄ → Codec sight s A → Type 0
  Exact {A} k =
      ((st : h.State) (m a : A) → k.Means st m a → m ≡ a)
      × ((st : h.State) (a : A) → k.Means st a a)
      × ((m : A) (id : ℕ) → k.Apart m id)

module _ ⦃h : Host⦄ ⦃r : Rmp⦄ {sight : Sight} (law : Lawful sight) (format : Format sight r)
    ⦃pair : Serde (ℕ × ℕ)⦄ ⦃sum : Serde ℕ⦄ (k : Codec sight pair (ℕ × ℕ)) (plain : Plain sight pair)
    (l : Codec sight sum ℕ) where
  abbrev requests : Codec sight (request_serde {T = ℕ × ℕ} {U = ℕ}) (Asked (ℕ × ℕ))
  requests = request_codec law format ℕ k plain

  -- The letters that one request and its reply are.
  abbrev pub question : ℕ × ℕ → World → Asked (ℕ × ℕ)
  question numbers w = asked sight w numbers

  abbrev pub Asks : ℕ → ℕ × ℕ → World → World → Type 0
  Asks pid numbers w w' =
      (sight.view w'.host).posted
      ≡ (pid, envelope requests (question numbers w).tag (question numbers w))
        ∷ (sight.view w.host).posted

  summed :
      (add_server : Process (Request (ℕ × ℕ) ℕ)) (pid : ℕ) (numbers : ℕ × ℕ) (w : World)
      → Exact l
      → Returns
          (Answered law format k plain l pid numbers (sum_of numbers) w)
          (request_ add_server numbers none w)
      → Returns (λ _ w'. Asks pid numbers w w') (assert_sum add_server numbers (sum_of numbers) w)
  unfolding assert_sum request
  summed add_server pid numbers w (is_same, _, _) gets =
      Returns-bind (λ answer w'. (answer ≡ sum_of numbers) × Asks pid numbers w w')
        (λ _ w'. Asks pid numbers w w') (unwrap (request_ add_server numbers none))
        (λ answer. assert (answer == sum_of numbers)) w
        (Returns-ok (λ m w'. l.Means w'.host m (sum_of numbers) × Asks pid numbers w w')
          (λ answer w'. (answer ≡ sum_of numbers) × Asks pid numbers w w')
          (request_ add_server numbers none)
          (λ x. elim x as (λ _. Run ℕ) [ ok a ↦ pure a | err e ↦ panic ]) w gets
          (λ m w' g. (is_same w'.host m (sum_of numbers) g.0, g.1)))
        (λ answer w' g. rw (eq→== answer (sum_of numbers) g.0) g.1)

  -- A sum is asked for and given. The client's request posts one letter, with the two numbers, a tag
  -- and who asks; a round of the server in whose buffer that letter comes to be posts one letter, with
  -- the sum modulo 2 ^ 32, to the process that asked and under the tag; and where that letter is in the
  -- buffer after the client's search, the client's `assert_eq!` with the sum holds. The numbers stand
  -- for themselves in messages and hold no handles (`Exact`, `Plain`), they fit their encodings, and
  -- the server's wait ends with neither a signal nor a time-out.
  pub assert_sum-serve :
      (add_server : Process (Request (ℕ × ℕ) ℕ)) (pid : ℕ) (numbers : ℕ × ℕ) (w : World)
      (inbox : Mailbox (Request (ℕ × ℕ) ℕ)) (v : World)
      → Exact k
      → Exact l
      → sight.process_of w.host add_server.id ≡ some pid
      → requests.Fits 0 (question numbers w)
      → l.Fits 0 (total numbers)
      → answer_to first v ≢ signal
      → answer_to first v ≢ timed_out
      → Holds sight
          (after first v).host
          (envelope requests (question numbers w).tag (question numbers w))
      → Holds sight
          (answered add_server numbers none w).host
          (envelope l (question numbers w).tag (total numbers))
      → Returns (λ _ w'. Asks pid numbers w w') (assert_sum add_server numbers (total numbers) w)
        × Returns
            (λ _ v'.
              (sight.view v'.host).posted
              ≡ (sight.self w.host, envelope l (question numbers w).tag (total numbers))
                ∷ (sight.view (after first v).host).posted)
            (serve inbox v)
  unfolding sum_of serve rust_lib.Delivery.Serving.serve
  assert_sum-serve add_server pid numbers w inbox v exact exact' known fits fits' no_signal in_time
        asks replies =
      let (gets, posts) =
        request_-reply law format k plain l add_server pid numbers none numbers (total numbers) w
          sum_of inbox v known (exact.1 w.host numbers) (exact.2 numbers add_server.id)
          (λ st m e.
            subst (λ n. l.Means st n (total numbers)) (ap sum_of (sym (exact.0 st m numbers e)))
              (exact'.1 st (total numbers)))
          (λ m id. exact'.2 (sum_of m) id) fits fits' no_signal in_time asks replies in
      (summed add_server pid numbers w exact' gets, posts)

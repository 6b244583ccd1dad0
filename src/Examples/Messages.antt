-- ===== src/Examples/Messages.antt =====
-- Parameters, tags, mailboxes, handles and requests at concrete data.
use rust_lib.Common.{ℕ, ◌+◌, ◌^◌, ◌≡◌, ◌≢◌, ◌⊎◌, refl, [], ◌∷◌, none, some, arith}
use rust_lib.Common.Int.{pos, negsuc}
use rust_lib.Examples.Fixture.{
  runtime, fresh, plain_rmp, number_serde, plain_rmp-Writes, number_serde-Sends, number_serde-Reads,
}
use rust_lib.Host.{
  Host, Returns, returned, panicked, after, answer_to, pure, ◌>>=◌, message, MessageCall,
}
use rust_lib.LinkMailbox
use rust_lib.LinkMailbox.{link_mailbox, normal, signalled}
use rust_lib.LinkMailbox.Laws.{receive__agrees}
use rust_lib.Mailbox
use rust_lib.Mailbox.{Mailbox, mailbox, signal, timed_out, timeout, decode}
use rust_lib.Mailbox.Branches.{receive_call, receive_timeout_endless}
use rust_lib.Param.{i32, i64, v128, params_to_vec}
use rust_lib.Param.Decode.{int32, int64, vector, read_params, read_params-params_to_vec}
use rust_lib.Process
use rust_lib.Process.{Process, eq, process_id, send_}
use rust_lib.Process.Release.{use_up, use_up-releases}
use rust_lib.Request.{Request, request_, request_serde}
use rust_lib.Request.Call.{request_-sent}
use rust_lib.Tag
use rust_lib.Timeout.{Duration}
use rust_lib.Trace.{sent, releases}

instance abbrev plain : Host
plain = runtime 0

-- The parameters -1 and 7 of 32 and 64 bits, and a vector.
read_params-params_to_vec_example :
    read_params (params_to_vec (i32 0xffff_ffff ∷ i64 7 ∷ v128 (2 ^ 100) ∷ []))
    ≡ some (int32 (negsuc 0) ∷ int64 (pos 7) ∷ vector (2 ^ 100) ∷ [])
read_params-params_to_vec_example =
    read_params-params_to_vec (i32 0xffff_ffff ∷ i64 7 ∷ v128 (2 ^ 100) ∷ []) (omega arith)

abbrev box : Mailbox ℕ
box = mailbox

receive__agrees_example :
    let c = receive_call (some 4) none in
    let g = message MessageCall.get_tag in
    (answer_to c (fresh tt) ≡ signal)
      × (LinkMailbox.receive_ {T = ℕ} link_mailbox (some 4) none (fresh tt) ≡ (
        returned (signalled (Tag.from (answer_to g (after c (fresh tt))))),
        after g (after c (fresh tt)),
      ))
      × (Mailbox.receive_ box (some 4) none (fresh tt) ≡ (panicked, after c (fresh tt)))
    ⊎ (answer_to c (fresh tt) ≢ signal)
      × (LinkMailbox.receive_ {T = ℕ} link_mailbox (some 4) none (fresh tt)
          ≡ (Mailbox.receive_ box (some 4) none >>= λ received. pure (normal received)) (fresh tt))
receive__agrees_example = receive__agrees link_mailbox box (some 4) none (fresh tt)

-- 4,294,967.296 seconds.
abbrev seven_weeks : Duration
seven_weeks = record { secs = 4_294_967; nanos = 296_000_000 }

receive_timeout_endless_example :
    Mailbox.receive_timeout box seven_weeks (fresh tt) ≡ Mailbox.receive box (fresh tt)
receive_timeout_endless_example =
    receive_timeout_endless box seven_weeks (fresh tt) (omega arith) (omega arith)

abbrev peer : Process ℕ
peer = Process.from 6

use_up-releases_example : Returns (λ _ w'. releases 6 w'.calls ≡ 1 + 0) (use_up 1 peer (fresh tt))
use_up-releases_example = use_up-releases 1 peer plain_rmp-Writes (fresh tt) refl

abbrev server : Process (Request ℕ ℕ)
server = Process.from 2

request_-sent_example :
    Returns
      (λ _ w'. (sent w'.calls ≡ (2, 0 + 1) ∷ []) × (w'.counter ≡ 0 + 1))
      (request_ server 3 none (fresh tt))
request_-sent_example =
    request_-sent number_serde-Sends number_serde-Reads plain_rmp-Writes server 3 none (fresh tt)
      (omega arith)

-- ===== src/Examples/Fixture.antt =====
-- A runtime with no state, a serializer of fixed width, and messages that are numbers.
use rust_lib.Common.{ℕ, refl, [], ◌∷◌, Result, ok, err, replicate}
use rust_lib.Common.Bytes.{to_le_bytes, from_le_bytes}
use rust_lib.Host.{
  Host, World, Run, pure, ◌>>=◌, Call, Answer, ErrorCall, MessageCall, NetworkingCall, ProcessCall,
  error, message, networking, process, ErrorAnswer, MessageAnswer, NetworkingAnswer, ProcessAnswer,
}
use rust_lib.MessageRw
use rust_lib.Serde.{Rmp, Serde, Writer, Reader}
use rust_lib.Spawn.{FunctionTable}
use rust_lib.Trace.Quiet.{Sends, Writes, Reads}

abbrev error_answer : ℕ → (c : ErrorCall) → ErrorAnswer c
error_answer kind (ErrorCall.string_size _) = 2
error_answer kind (ErrorCall.to_string _) = 0x6f ∷ 0x6b ∷ []
error_answer kind (ErrorCall.drop _) = tt

abbrev message_answer : ℕ → (c : MessageCall) → MessageAnswer c
message_answer kind (MessageCall.create_data _ _) = tt
message_answer kind (MessageCall.write_data _) = 8
message_answer kind (MessageCall.read_data _) = (8, 42 ∷ [])
message_answer kind (MessageCall.seek_data _) = tt
message_answer kind MessageCall.get_tag = 5
message_answer kind MessageCall.data_size = 8
message_answer kind (MessageCall.push_process _) = 0
message_answer kind (MessageCall.take_process _) = 11
message_answer kind (MessageCall.push_tcp_stream _) = 0
message_answer kind (MessageCall.take_tcp_stream _) = 12
message_answer kind (MessageCall.send _) = tt
message_answer kind (MessageCall.send_receive_skip_search _ _) = kind
message_answer kind (MessageCall.receive _ _) = kind

abbrev networking_answer : ℕ → (c : NetworkingCall) → NetworkingAnswer c
networking_answer kind (NetworkingCall.resolve _ _ _) = (kind, 20)
networking_answer kind (NetworkingCall.drop_dns_iterator _) = tt
networking_answer kind (NetworkingCall.resolve_next _) = record {
  status = 0;
  addr_type = 4;
  addr = 127 ∷ 0 ∷ 0 ∷ 1 ∷ [];
  port = 80;
  flow_info = 0;
  scope_id = 0;
}
networking_answer kind (NetworkingCall.tcp_bind _ _) = (kind, 21)
networking_answer kind (NetworkingCall.drop_tcp_listener _) = tt
networking_answer kind (NetworkingCall.tcp_accept _ _ _) = (kind, 22, 20)
networking_answer kind (NetworkingCall.tcp_connect _ _ _) = (kind, 23)
networking_answer kind (NetworkingCall.drop_tcp_stream _) = tt
networking_answer kind (NetworkingCall.clone_tcp_stream _) = 24
networking_answer kind (NetworkingCall.tcp_write_vectored _ _ _ _) = (kind, 3)
networking_answer kind (NetworkingCall.tcp_read _ _ _ _) = (kind, 1, 9 ∷ [])
networking_answer kind (NetworkingCall.tcp_flush _ _) = (kind, 0)

abbrev process_answer : ℕ → (c : ProcessCall) → ProcessAnswer c
process_answer kind (ProcessCall.create_config _ _) = 30
process_answer kind (ProcessCall.drop_config _) = tt
process_answer kind (ProcessCall.allow_namespace _ _) = tt
process_answer kind (ProcessCall.add_plugin _ _ _) = (kind, 31)
process_answer kind (ProcessCall.create_environment _ _) = (kind, 32)
process_answer kind (ProcessCall.drop_environment _) = tt
process_answer kind (ProcessCall.add_module _ _ _) = (kind, 33)
process_answer kind (ProcessCall.add_this_module _ _) = (kind, 34)
process_answer kind (ProcessCall.drop_module _) = tt
process_answer kind (ProcessCall.spawn _ _ _ _ _) = (kind, 35)
process_answer kind (ProcessCall.inherit_spawn _ _ _ _) = (kind, 36)
process_answer kind (ProcessCall.drop_process _) = tt
process_answer kind (ProcessCall.clone_process _) = 37
process_answer kind (ProcessCall.sleep_ms _) = tt
process_answer kind (ProcessCall.die_when_link_dies _) = tt
process_answer kind ProcessCall.this = 1
process_answer kind (ProcessCall.id process_id) = process_id ∷ 2 ∷ []
process_answer kind ProcessCall.this_env = 38
process_answer kind (ProcessCall.link _ _) = tt
process_answer kind (ProcessCall.unlink _) = tt
process_answer kind (ProcessCall.register _ _ _ _) = kind
process_answer kind (ProcessCall.unregister _ _ _) = kind
process_answer kind (ProcessCall.lookup _ _ _) = (kind, 39)

abbrev pub any_answer : ℕ → (c : Call) → Answer c
any_answer kind (error c) = error_answer kind c
any_answer kind (message c) = message_answer kind c
any_answer kind (networking c) = networking_answer kind c
any_answer kind (process c) = process_answer kind c

-- A runtime whose every status is `kind`.
abbrev pub runtime : ℕ → Host
runtime kind = record { State = Unit {0}; answer = λ c s. (any_answer kind c, s) }

module _ ⦃h : Host⦄ where
  abbrev pub write_number : Writer → ℕ → Run (Result Unit (Unit {0}))
  write_number writer n = do _ ← writer (to_le_bytes 8 n); pure (ok tt)

  abbrev pub read_number : Reader → Run (Result ℕ (Unit {0}))
  read_number reader = do
    got ← reader (replicate 8 0)
    pure (elim got [ ok (n, buff) ↦ ok (from_le_bytes buff) | err e ↦ err tt ])

  instance abbrev pub plain_rmp : Rmp
  plain_rmp = record {
    EncodeError = Unit {0};
    DecodeError = Unit {0};
    serialize_u64 = write_number;
    serialize_i64 = write_number;
    serialize_unit = λ writer. pure (ok tt);
    serialize_struct = write_number;
    deserialize_u64 = read_number;
    deserialize_i64 = read_number;
    deserialize_unit = λ reader. pure (ok tt);
    deserialize_struct = λ reader n. (do _ ← reader (replicate 8 0); pure (ok tt));
  }

  instance abbrev pub number_serde : Serde ℕ
  number_serde = record {
    serialize = λ writer n. (do written ← write_number writer n; pure (written, n));
    deserialize = read_number;
    drop = λ _. pure tt;
  }

  pub plain_rmp-Writes : Writes plain_rmp
  unfolding MessageRw.write
  plain_rmp-Writes = record {
    writes_u64 = λ n w.
        (refl, (message (MessageCall.write_data (to_le_bytes 8 n)) ∷ [], (tt, tt), refl, refl));
    writes_i64 = λ n w.
        (refl, (message (MessageCall.write_data (to_le_bytes 8 n)) ∷ [], (tt, tt), refl, refl));
    writes_struct = λ n w.
        (refl, (message (MessageCall.write_data (to_le_bytes 8 n)) ∷ [], (tt, tt), refl, refl));
  }

  pub number_serde-Sends : Sends number_serde
  unfolding MessageRw.write
  number_serde-Sends = record {
    writes = λ n w.
        (refl, ((message (MessageCall.write_data (to_le_bytes 8 n)) ∷ [], (tt, tt), refl), refl));
    drops = λ n w. (([], tt, refl), refl);
  }

  pub number_serde-Reads : Reads number_serde
  unfolding MessageRw.read
  number_serde-Reads = record { reads = λ w. (refl, refl) }

instance abbrev pub table : FunctionTable
table = record { wrapper = 3; wrapper_context = 4 }

abbrev pub fresh : ⦃h : Host⦄ → h.State → World
fresh s = record { host = s; counter = 0; calls = [] }

-- ===== src/Host/Calls.antt =====
-- The functions that the runtime exports to a guest (src/host_api.rs), one constructor for each, and
-- the type of its answer. A pointer with a length is the list of bytes behind it. An out pointer
-- that the runtime may leave as it was is an argument (what the cell holds before the call) and a
-- part of the answer (what it holds after). Every integer is its unsigned bit pattern.
use Prim.Native.Nat.{ℕ}
use mathlib.Core.List.{List}

-- `lunatic::error`
pub data ErrorCall : Type 0 where
  string_size : ℕ → ErrorCall
  to_string : ℕ → ErrorCall
  drop : ℕ → ErrorCall

abbrev pub ErrorAnswer : ErrorCall → Type 0
ErrorAnswer (ErrorCall.string_size error_id) = ℕ
ErrorAnswer (ErrorCall.to_string error_id) = List ℕ
ErrorAnswer (ErrorCall.drop error_id) = Unit

-- `lunatic::message`
pub data MessageCall : Type 0 where
  create_data : ℕ → ℕ → MessageCall
  write_data : List ℕ → MessageCall
  read_data : ℕ → MessageCall
  seek_data : ℕ → MessageCall
  get_tag : MessageCall
  data_size : MessageCall
  push_process : ℕ → MessageCall
  take_process : ℕ → MessageCall
  push_tcp_stream : ℕ → MessageCall
  take_tcp_stream : ℕ → MessageCall
  send : ℕ → MessageCall
  send_receive_skip_search : ℕ → ℕ → MessageCall
  receive : ℕ → ℕ → MessageCall

abbrev pub MessageAnswer : MessageCall → Type 0
MessageAnswer (MessageCall.create_data tag capacity) = Unit
MessageAnswer (MessageCall.write_data bytes) = ℕ
MessageAnswer (MessageCall.read_data len) = ℕ × List ℕ
MessageAnswer (MessageCall.seek_data position) = Unit
MessageAnswer MessageCall.get_tag = ℕ
MessageAnswer MessageCall.data_size = ℕ
MessageAnswer (MessageCall.push_process process_id) = ℕ
MessageAnswer (MessageCall.take_process index) = ℕ
MessageAnswer (MessageCall.push_tcp_stream tcp_stream_id) = ℕ
MessageAnswer (MessageCall.take_tcp_stream index) = ℕ
MessageAnswer (MessageCall.send process_id) = Unit
MessageAnswer (MessageCall.send_receive_skip_search process_id timeout) = ℕ
MessageAnswer (MessageCall.receive tag timeout) = ℕ

-- What `resolve_next` writes: the status, and the five out cells.
pub record NextAddr : Type 0 where
  pub status : ℕ
  pub addr_type : ℕ
  pub addr : List ℕ
  pub port : ℕ
  pub flow_info : ℕ
  pub scope_id : ℕ

-- The arguments that `tcp_bind` and `tcp_connect` share.
pub record HostAddr : Type 0 where
  pub addr_type : ℕ
  pub addr : List ℕ
  pub port : ℕ
  pub flow_info : ℕ
  pub scope_id : ℕ

-- `lunatic::networking`. The last number of a call with an `id` cell is what the cell holds.
pub data NetworkingCall : Type 0 where
  resolve : List ℕ → ℕ → ℕ → NetworkingCall
  drop_dns_iterator : ℕ → NetworkingCall
  resolve_next : ℕ → NetworkingCall
  tcp_bind : HostAddr → ℕ → NetworkingCall
  drop_tcp_listener : ℕ → NetworkingCall
  tcp_accept : ℕ → ℕ → ℕ → NetworkingCall
  tcp_connect : HostAddr → ℕ → ℕ → NetworkingCall
  drop_tcp_stream : ℕ → NetworkingCall
  clone_tcp_stream : ℕ → NetworkingCall
  tcp_write_vectored : ℕ → List (List ℕ) → ℕ → ℕ → NetworkingCall
  tcp_read : ℕ → ℕ → ℕ → ℕ → NetworkingCall
  tcp_flush : ℕ → ℕ → NetworkingCall

abbrev pub NetworkingAnswer : NetworkingCall → Type 0
NetworkingAnswer (NetworkingCall.resolve name timeout cell) = ℕ × ℕ
NetworkingAnswer (NetworkingCall.drop_dns_iterator dns_iter_id) = Unit
NetworkingAnswer (NetworkingCall.resolve_next dns_iter_id) = NextAddr
NetworkingAnswer (NetworkingCall.tcp_bind socket_addr cell) = ℕ × ℕ
NetworkingAnswer (NetworkingCall.drop_tcp_listener tcp_listener_id) = Unit
NetworkingAnswer (NetworkingCall.tcp_accept listener_id cell peer_cell) = ℕ × ℕ × ℕ
NetworkingAnswer (NetworkingCall.tcp_connect socket_addr timeout cell) = ℕ × ℕ
NetworkingAnswer (NetworkingCall.drop_tcp_stream tcp_stream_id) = Unit
NetworkingAnswer (NetworkingCall.clone_tcp_stream tcp_stream_id) = ℕ
NetworkingAnswer (NetworkingCall.tcp_write_vectored tcp_stream_id ciovecs timeout cell) = ℕ × ℕ
NetworkingAnswer (NetworkingCall.tcp_read tcp_stream_id len timeout cell) = ℕ × ℕ × List ℕ
NetworkingAnswer (NetworkingCall.tcp_flush tcp_stream_id cell) = ℕ × ℕ

-- `lunatic::process`
pub data ProcessCall : Type 0 where
  create_config : ℕ → ℕ → ProcessCall
  drop_config : ℕ → ProcessCall
  allow_namespace : ℕ → List ℕ → ProcessCall
  add_plugin : ℕ → List ℕ → ℕ → ProcessCall
  create_environment : ℕ → ℕ → ProcessCall
  drop_environment : ℕ → ProcessCall
  add_module : ℕ → List ℕ → ℕ → ProcessCall
  add_this_module : ℕ → ℕ → ProcessCall
  drop_module : ℕ → ProcessCall
  spawn : ℕ → ℕ → List ℕ → List ℕ → ℕ → ProcessCall
  inherit_spawn : ℕ → List ℕ → List ℕ → ℕ → ProcessCall
  drop_process : ℕ → ProcessCall
  clone_process : ℕ → ProcessCall
  sleep_ms : ℕ → ProcessCall
  die_when_link_dies : ℕ → ProcessCall
  this : ProcessCall
  id : ℕ → ProcessCall
  this_env : ProcessCall
  link : ℕ → ℕ → ProcessCall
  unlink : ℕ → ProcessCall
  register : List ℕ → List ℕ → ℕ → ℕ → ProcessCall
  unregister : List ℕ → List ℕ → ℕ → ProcessCall
  lookup : List ℕ → List ℕ → ℕ → ProcessCall

abbrev pub ProcessAnswer : ProcessCall → Type 0
ProcessAnswer (ProcessCall.create_config max_memory max_fuel) = ℕ
ProcessAnswer (ProcessCall.drop_config config_id) = Unit
ProcessAnswer (ProcessCall.allow_namespace config_id name) = Unit
ProcessAnswer (ProcessCall.add_plugin config_id plugin cell) = ℕ × ℕ
ProcessAnswer (ProcessCall.create_environment config_id cell) = ℕ × ℕ
ProcessAnswer (ProcessCall.drop_environment env_id) = Unit
ProcessAnswer (ProcessCall.add_module env_id module_data cell) = ℕ × ℕ
ProcessAnswer (ProcessCall.add_this_module env_id cell) = ℕ × ℕ
ProcessAnswer (ProcessCall.drop_module mod_id) = Unit
ProcessAnswer (ProcessCall.spawn tag module_id function params cell) = ℕ × ℕ
ProcessAnswer (ProcessCall.inherit_spawn tag function params cell) = ℕ × ℕ
ProcessAnswer (ProcessCall.drop_process process_id) = Unit
ProcessAnswer (ProcessCall.clone_process process_id) = ℕ
ProcessAnswer (ProcessCall.sleep_ms millis) = Unit
ProcessAnswer (ProcessCall.die_when_link_dies trap) = Unit
ProcessAnswer ProcessCall.this = ℕ
ProcessAnswer (ProcessCall.id process_id) = List ℕ
ProcessAnswer ProcessCall.this_env = ℕ
ProcessAnswer (ProcessCall.link tag process_id) = Unit
ProcessAnswer (ProcessCall.unlink process_id) = Unit
ProcessAnswer (ProcessCall.register name version env_id process_id) = ℕ
ProcessAnswer (ProcessCall.unregister name version env_id) = ℕ
ProcessAnswer (ProcessCall.lookup name query cell) = ℕ × ℕ

-- Any call of the four groups.
pub data Call : Type 0 where
  error : ErrorCall → Call
  message : MessageCall → Call
  networking : NetworkingCall → Call
  process : ProcessCall → Call

abbrev pub Answer : Call → Type 0
Answer (error c) = ErrorAnswer c
Answer (message c) = MessageAnswer c
Answer (networking c) = NetworkingAnswer c
Answer (process c) = ProcessAnswer c

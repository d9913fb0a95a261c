-- ===== src/Rpc/Protocol/ErrCode.antt =====
-- `enum class ErrCode : uint8_t` (rpc/protocol.h).
use xzmjx_rpc.Prelude.{ℕ}

abbrev pub rpc_default : ℕ
rpc_default = 0

abbrev pub rpc_success : ℕ
rpc_success = 1

abbrev pub rpc_no_method : ℕ
rpc_no_method = 2

abbrev pub rpc_param_not_match : ℕ
rpc_param_not_match = 3

abbrev pub rpc_method_call_exception : ℕ
rpc_method_call_exception = 4

abbrev pub rpc_server_busy : ℕ
rpc_server_busy = 5

abbrev pub rpc_server_closed : ℕ
rpc_server_closed = 6

abbrev pub rpc_call_timeout : ℕ
rpc_call_timeout = 7

abbrev pub rpc_ret_type_not_match : ℕ
rpc_ret_type_not_match = 8

abbrev pub rpc_protocol_format_error : ℕ
rpc_protocol_format_error = 9

abbrev pub rpc_unknown_error : ℕ
rpc_unknown_error = 10

-- ===== src/Rpc/Protocol/MessageType.antt =====
-- `enum class Type : uint8_t` (rpc/protocol.h).
use xzmjx_rpc.Prelude.{ℕ}

abbrev pub rpc_method_request : ℕ
rpc_method_request = 0

abbrev pub rpc_method_response : ℕ
rpc_method_response = 1

abbrev pub rpc_service_discover_request : ℕ
rpc_service_discover_request = 2

abbrev pub rpc_service_discover_response : ℕ
rpc_service_discover_response = 3

abbrev pub rpc_service_provider : ℕ
rpc_service_provider = 4

abbrev pub rpc_service_register_request : ℕ
rpc_service_register_request = 5

abbrev pub rpc_service_register_response : ℕ
rpc_service_register_response = 6

abbrev pub rpc_heartbeat : ℕ
rpc_heartbeat = 7

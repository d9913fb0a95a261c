-- ===== src/Rpc/Provider/Laws.antt =====
-- What the registry makes of the messages of a server that starts (rpc/rpc_server.cpp and
-- rpc/rpc_service_registry.cpp).
use xzmjx_rpc.Prelude.{
  Option, ℕ, ◌<◌, List, [], ◌∷◌, ◌++◌, some, true, false, if◌then◌else◌, length, Outcome, ok, ◌>>=◌,
}
use xzmjx_rpc.ByteArray.Defs.{ByteArray, Endian}
use xzmjx_rpc.Serializer.Defs.{Ty}
use xzmjx_rpc.Serializer.RoundTrip.{Fits, format}
use xzmjx_rpc.Rpc.Text.{same}
use xzmjx_rpc.Rpc.Protocol.Defs.{Protocol, create_plain, create_with}
use xzmjx_rpc.Rpc.Protocol.ErrCode
use xzmjx_rpc.Rpc.Protocol.MessageType
use xzmjx_rpc.Rpc.Registry.Defs.{Registry, Connection, leave, again, register, handle_request}
use xzmjx_rpc.Rpc.Provider.Defs.{Provider}

-- The messages that a server puts into its channel.
abbrev pub announcement : ℕ → Protocol
announcement port = create_plain MessageType.rpc_service_provider (format Ty.uint32 port) 0

abbrev pub registration : List ℕ → Protocol
registration service =
    create_plain MessageType.rpc_service_register_request (format Ty.string service) 0

abbrev pub registrations : List (List ℕ) → List Protocol
registrations [] = []
registrations (service ∷ services) = registration service ∷ registrations services

-- A name that the serializer takes and that fits into one node.
abbrev pub IsName : List ℕ → Type 0
IsName service = Fits Ty.string service × (length (format Ty.string service) < 4096)

-- The registry's turns on messages in order, on one connection that stays open.
unfoldable pub serve :
    Endian
    → (ℕ → ℕ)
    → Option (ℕ → List ℕ)
    → List Protocol
    → Connection
    → Registry
    → Outcome (Connection × Registry)
serve there memory address_of_port [] c r = ok (c, r)
serve there memory address_of_port (req ∷ reqs) c r =
    handle_request there memory address_of_port (some req) c r >>= λ q. elim q.0 [
      | leave ↦ ok (c, q.1)
      | again rsp c' ↦ serve there memory address_of_port reqs c' q.1
    ]

-- The registry with an address entered for each service in turn.
abbrev pub register_all : List (List ℕ) → List ℕ → Registry → Registry
register_all [] addr r = r
register_all (service ∷ services) addr r = register_all services addr (register service addr r)

-- The address, once for each time that the service stands among the services.
abbrev pub entries : List ℕ → List (List ℕ) → List ℕ → List (List ℕ)
entries key [] addr = []
entries key (service ∷ services) addr =
    (if same service key then addr ∷ [] else []) ++ entries key services addr

-- The registry's answer.
registered_answer : Protocol
registered_answer =
    create_with MessageType.rpc_service_register_response
      (record { code = ErrCode.rpc_success; msg = [] }) [] 0

-- A server that has bound and started.
abbrev pub started : ℕ → List (List ℕ) → Provider
started port services = record {
  port = port;
  is_stop = false;
  session = some true;
  heartbeat_rsp = true;
  timer = true;
  send_chan = announcement port ∷ registrations services;
}

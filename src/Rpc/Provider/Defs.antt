-- ===== src/Rpc/Provider/Defs.antt =====
-- `RpcServer` at the registry (rpc/rpc_server.cpp): how it announces itself and its services, and the
-- heartbeats. A channel is the list of the messages in it; a step is what a coroutine or a timer does
-- between two waits. Whether the registry is reached and the clock are arguments.
use xzmjx_rpc.Prelude.{
  ℕ, List, [], ◌∷◌, ◌++◌, Option, none, some, Bool, true, false, if◌then◌else◌, ◌==◌, Outcome, ok,
  ◌>>=◌,
}
use xzmjx_rpc.ByteArray.Defs.{Endian}
use xzmjx_rpc.ByteArray.Access.{to_string}
use xzmjx_rpc.Serializer.Defs.{Ty, Value, empty, serialize, reset}
use xzmjx_rpc.Rpc.Protocol.Defs.{Protocol, create_plain, heartbeat_protocol}
use xzmjx_rpc.Rpc.Protocol.MessageType

-- `session` is none before `bindRegistry`, and whether the session is connected behind it.
pub record Provider : Type 0 where
  pub port : ℕ
  pub is_stop : Bool
  pub session : Option Bool
  pub heartbeat_rsp : Bool
  pub timer : Bool
  pub send_chan : List Protocol

unfoldable pub new_provider : Provider
new_provider = record {
  port = 0;
  is_stop = true;
  session = none;
  heartbeat_rsp = false;
  timer = false;
  send_chan = [];
}

-- `m_registry_session && m_registry_session->isConnected()`
abbrev pub is_connected : Option Bool → Bool
is_connected none = false
is_connected (some connected) = connected

unfoldable pub push : Protocol → Provider → Provider
push msg p = record p { send_chan = p.send_chan ++ (msg ∷ []) }

-- `bind`, which keeps the port of the address.
unfoldable pub bind_port : ℕ → Provider → Provider
bind_port port p = record p { port = port }

module _ (native : Endian) (memory : ℕ → ℕ) where
  -- `Serializer serializer; serializer << v; serializer.reset(); serializer.toString()`
  unfoldable pub payload_of : (t : Ty) → Value t → Outcome (List ℕ)
  payload_of t v = serialize native t v (empty memory) >>= λ s. reset s >>= to_string

  -- `bindRegistry`, by whether the socket connects.
  unfoldable pub bind_registry : Bool → Provider → Outcome (Bool × Provider)
  unfolding payload_of push
  bind_registry connected p =
      if connected
      then (payload_of Ty.uint32 p.port >>= λ content. ok (
        true,
        push (create_plain MessageType.rpc_service_provider content 0)
            (record p { session = some true }),
      ))
      else ok (false, p)

  unfoldable pub register_service_to_registry : List ℕ → Provider → Outcome Provider
  unfolding payload_of push
  register_service_to_registry service p = payload_of Ty.string service >>= λ content.
      ok (push (create_plain MessageType.rpc_service_register_request content 0) p)

  -- The loop of `start` over the names of the services.
  unfoldable pub register_services : List (List ℕ) → Provider → Outcome Provider
  unfolding register_service_to_registry
  register_services [] p = ok p
  register_services (service ∷ services) p =
      register_service_to_registry service p >>= register_services services

  -- `start`, with `TcpServer::start`.
  unfoldable pub start : List (List ℕ) → Provider → Outcome (Bool × Provider)
  unfolding register_services
  start services p =
      let registered = register_services services p >>= λ q.
      ok (true, record q { heartbeat_rsp = true; timer = true; is_stop = false }) in
      if p.is_stop
      then if is_connected p.session then registered else ok (true, record p { is_stop = false })
      else ok (false, p)

-- `registry_heartbeat_cb`, when the timer expires.
unfoldable pub on_heartbeat_timer : Provider → Provider
unfolding push
on_heartbeat_timer p =
    if p.heartbeat_rsp
    then record (push heartbeat_protocol p) { timer = true; heartbeat_rsp = false }
    else record p { session = some false; timer = false }

-- One round of `handleRegistrySessionRecv`, on what `recvProtocol` returned: whether the loop goes
-- on.
unfoldable pub handle_registry_recv : Option Protocol → Provider → Bool × Provider
handle_registry_recv none p = (false, record p { session = some false; timer = false })
handle_registry_recv (some req) p =
    if req.type == MessageType.rpc_heartbeat
    then (true, record p { heartbeat_rsp = true })
    else (true, p)

-- One round of `handleRegistrySessionSend`: the message to send, and whether the loop goes on.
unfoldable pub handle_registry_send : Provider → Option Protocol × Bool × Provider
handle_registry_send p = elim p.send_chan [
  | [] ↦ (none, true, p)
  | msg ∷ rest ↦
      if is_connected p.session
      then (some msg, true, record p { send_chan = rest })
      else (none, false, record p { send_chan = rest })
]

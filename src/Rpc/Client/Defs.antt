-- ===== src/Rpc/Client/Defs.antt =====
-- `RpcClient` (rpc/rpc_client.h, rpc/rpc_client.cpp): its state, and what each of its coroutines does to
-- it between two waits. A channel is the list of the messages in it. The scheduler, the timers and
-- the socket are left out: whether a call times out or a connection succeeds is an argument.
use xzmjx_rpc.Prelude.{
  ℕ, suc, ◌%◌, ◌^◌, List, [], ◌∷◌, ◌++◌, Option, none, some, Bool, true, false, not, ◌||◌,
  if◌then◌else◌, ◌==◌, Outcome, ok, ◌>>=◌,
}
use xzmjx_rpc.ByteArray.Defs.{ByteArray, Endian}
use xzmjx_rpc.Serializer.Defs.{Ty, Value, of_string, deserialize}
use xzmjx_rpc.Rpc.Protocol.Defs.{Protocol, Context, create_plain, heartbeat_protocol}
use xzmjx_rpc.Rpc.Protocol.ErrCode
use xzmjx_rpc.Rpc.Protocol.MessageType
use xzmjx_rpc.Rpc.Registry.Defs.{caught}
use xzmjx_rpc.Rpc.Text.{text}

-- A call without an answer yet: its sequence number and its channel.
abbrev pub Call : Type 0
Call = ℕ × List Protocol

pub record Client : Type 0 where
  pub has_session : Bool
  pub is_closed : Bool
  pub heartbeat_response : Bool
  pub chan : List Protocol
  pub seq_id : ℕ
  pub outstanding_call : List Call

unfoldable pub new_client : Client
new_client = record {
  has_session = false;
  is_closed = true;
  heartbeat_response = false;
  chan = [];
  seq_id = 0;
  outstanding_call = [];
}

-- `connect`, by whether the socket connects.
unfoldable pub connect : Bool → Client → Bool × Client
connect connected c =
    if connected
    then (true, record c { is_closed = false; has_session = true; heartbeat_response = true })
    else (false, c)

unfoldable pub close : Client → Client
close c = if c.is_closed then c else record c { is_closed = true }

-- `m_outstanding_call.insert({id, recv_chan})`
unfoldable pub insert_call : ℕ → List Call → List Call
insert_call id [] = (id, []) ∷ []
insert_call id ((i, q) ∷ m) = if i == id then (i, q) ∷ m else (i, q) ∷ insert_call id m

-- `m_outstanding_call.erase(id)`
unfoldable pub erase_call : ℕ → List Call → List Call
erase_call id [] = []
erase_call id ((i, q) ∷ m) = if i == id then erase_call id m else (i, q) ∷ erase_call id m

-- `m_outstanding_call.find(id)`
unfoldable pub find_call : ℕ → List Call → Option (List Protocol)
find_call id [] = none
find_call id ((i, q) ∷ m) = if i == id then some q else find_call id m

-- `m_outstanding_call[id] << msg`, of a call that is there.
unfoldable pub put_call : ℕ → Protocol → List Call → List Call
put_call id msg [] = []
put_call id msg ((i, q) ∷ m) =
    if i == id then (i, q ++ (msg ∷ [])) ∷ m else (i, q) ∷ put_call id msg m

unfoldable pub server_closed : Context
server_closed = record { code = ErrCode.rpc_server_closed; msg = text "server closed" }

-- `call_internal` up to its wait: the sequence number, or none where there is no connection.
unfoldable pub begin_call : List ℕ → Client → Option ℕ × Client
unfolding insert_call create_plain
begin_call content c = if not c.has_session || c.is_closed then (none, c) else (
  some c.seq_id,
  record c {
    seq_id = suc c.seq_id % 2 ^ 64;
    outstanding_call = insert_call c.seq_id c.outstanding_call;
    chan = c.chan ++ (create_plain MessageType.rpc_method_request content c.seq_id ∷ []);
  },
)

-- `call_internal` behind its wait: the call is taken out of the table.
unfoldable pub end_call : ℕ → Client → Client
unfolding erase_call
end_call id c = record c { outstanding_call = erase_call id c.outstanding_call }

unfoldable pub handle_method_response : Protocol → Client → Client
unfolding find_call put_call
handle_method_response msg c = elim (find_call msg.seq c.outstanding_call) [
  | none ↦ c
  | some q ↦ record c { outstanding_call = put_call msg.seq msg c.outstanding_call }
]

unfoldable pub handle_heartbeat : Client → Client
handle_heartbeat c = record c { heartbeat_response = true }

-- `m_heartbeat_cb`
unfoldable pub on_heartbeat_timer : Client → Client
unfolding close heartbeat_protocol
on_heartbeat_timer c =
    if c.heartbeat_response
    then record c { chan = c.chan ++ (heartbeat_protocol ∷ []); heartbeat_response = false }
    else close c

-- One round of `handleSend`: the message that goes to `sendProtocol`, none while the channel is
-- empty. Whether it could be sent is only logged.
unfoldable pub handle_send : Client → Option Protocol × Client
handle_send c = elim c.chan [ [] ↦ (none, c) | msg ∷ msgs ↦ (some msg, record c { chan = msgs }) ]

-- One round of `handleRecv`, on what `recvProtocol` returned.
unfoldable pub handle_recv : Option Protocol → Client → Client
unfolding close handle_heartbeat handle_method_response
handle_recv none c = close c
handle_recv (some msg) c =
    if msg.type == MessageType.rpc_heartbeat
    then handle_heartbeat c
    else if msg.type == MessageType.rpc_method_response
    then handle_method_response msg c
    else c

-- The context of a call that timed out.
unfoldable pub timed_out : List ℕ → Context
timed_out name = record {
  code = ErrCode.rpc_call_timeout;
  msg = text "call method " ++ (name ++ text " timeout");
}

-- `call_internal` for `void`, from the answer on; none is a call that timed out.
unfoldable pub call_result_void : List ℕ → Option Protocol → Context
unfolding timed_out
call_result_void name none = timed_out name
call_result_void name (some rsp) = record { code = rsp.err_code; msg = rsp.err_msg }

-- What is returned of a parse, by whether it threw.
unfoldable pub value_or :
    (t : Ty) → List ℕ → Context → Option (Value t × ByteArray) → Option (Value t) × Context
value_or t what context none = (none, record { code = ErrCode.rpc_ret_type_not_match; msg = what })
value_or t what context (some (v, s)) = (some v, context)

module _ (native : Endian) (memory : ℕ → ℕ) where
  -- `se >> ret`, with its handler; `what` is the text of the exception.
  unfoldable pub parsed_result :
      (t : Ty) → List ℕ → Context → List ℕ → Outcome (Option (Value t) × Context)
  parsed_result t what context payload = of_string memory payload >>= λ s.
      caught (deserialize native t s) >>= λ r. ok (value_or t what context r)

  -- What `call_internal` for any other type makes of the answer; none is a call that timed out.
  unfoldable pub call_result :
      (t : Ty) → List ℕ → List ℕ → Option Protocol → Outcome (Option (Value t) × Context)
  unfolding timed_out
  call_result t name what none = ok (none, timed_out name)
  call_result t name what (some rsp) =
      let context : Context = record { code = rsp.err_code; msg = rsp.err_msg } in
      if rsp.err_code == ErrCode.rpc_success
      then parsed_result t what context rsp.payload
      else ok (none, context)

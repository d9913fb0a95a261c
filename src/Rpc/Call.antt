-- ===== src/Rpc/Call.antt =====
-- A method call from its arguments to what the client returns: the server's `internal_method_impl`
-- and `handleMethodCall` (rpc/rpc_server.h, rpc/rpc_server.cpp) between the two halves of
-- `call_internal` (rpc/rpc_client.h), with `sendProtocol` and `recvProtocol` (rpc/rpc_session.cpp) on
-- both ways.
pub mod Answer
use xzmjx_rpc.Prelude.{
  ℕ, ◌+◌, ◌^◌, ◌<◌, ◌≡◌, refl, ap, ap₂, ◌∙◌, arith, List, [], ◌++◌, Option, none, some, length,
  Outcome, ok, threw, bad_alloc, ◌>>=◌, length-append,
}
use xzmjx_rpc.ByteArray.Defs.{Endian}
use xzmjx_rpc.Codec.Varint.{encoding, length-encoding}
use xzmjx_rpc.Codec.Scalar.{string_bytes}
use xzmjx_rpc.Serializer.Defs.{Ty, Value, of_string}
use xzmjx_rpc.Serializer.RoundTrip.{Fits, format}
use xzmjx_rpc.Rpc.Protocol.Defs.{Protocol, Context, create_with, create_plain}
use xzmjx_rpc.Rpc.Protocol.ErrCode
use xzmjx_rpc.Rpc.Protocol.MessageType
use xzmjx_rpc.Rpc.Protocol.Encode.{encode_error_throws}
use xzmjx_rpc.Rpc.Session.Carry.{Link, IsReliable, carry, carry_lem, carry_throws}
use xzmjx_rpc.Rpc.Server.{
  Invoked, returned, raised, Method, find, internal_method_impl, handle_method_call,
  handle_method_call_lem, answer,
}
use xzmjx_rpc.Rpc.Client.Defs.{
  Client, call_result, server_closed, begin_call, handle_send, find_call,
}
use xzmjx_rpc.Rpc.Client.Waiting.{
  awaited, awaited_lem, IsIdle, waiting, begin_call-send, waiting-free,
}
use xzmjx_rpc.Rpc.Call.Answer.{
  success, IsSendable, wrapped, internal_method_impl_lem, plain_fields, sees_string,
}

-- What a call ends with on the way back: the name, or what `encode` throws.
abbrev pub seen : (u : Ty) → List ℕ → Invoked (Value u) → Outcome (Option (List ℕ) × Context)
seen u name (returned w) = ok (some name, success)
seen u name (raised what) = threw bad_alloc

-- A text of an exception that is longer than a request of `n` bytes, and fits into a node.
abbrev pub Outgrows : (u : Ty) → ℕ → Invoked (Value u) → Type 0
Outgrows u n (returned w) = Unit {0}
Outgrows u n (raised what) = (n < length what) × (length what + 30 < 4096)

-- The way of one call: the request to the server, its answer there, and the way back. A server that
-- receives nothing, or has no answer, leaves the caller to its timeout, which does not come before
-- an answer does.
module _ (client server : Endian) (memory memory' : ℕ → ℕ) (out back : Link) (x : out.Sender)
    (y : back.Sender) (services : List (List ℕ × Method)) where
  unfoldable pub send_back : Option Protocol → Outcome (Option Protocol)
  unfolding carry
  send_back none = ok none
  send_back (some rsp) = carry back server client memory' memory y rsp

  unfoldable pub reply_to : Option Protocol → Outcome (Option Protocol)
  unfolding send_back answer
  reply_to none = ok none
  reply_to (some req) = answer server memory' services req >>= send_back

  -- The end of `call_internal`, on a message that the client received, or on a timeout.
  unfoldable pub finish_call :
      List ℕ → List ℕ → ℕ → Client → Option Protocol → Outcome (Option (List ℕ) × Context)
  unfolding awaited
  finish_call name what id c msg = call_result client memory Ty.string name what (awaited id c msg)

  -- A call with this number, on what `handleSend` takes out of the client's channel.
  unfoldable pub call_on :
      List ℕ → List ℕ → Option ℕ → Option Protocol × Client → Outcome (Option (List ℕ) × Context)
  unfolding carry reply_to finish_call
  call_on name what none q = ok (none, server_closed)
  call_on name what (some id) (none, c) = finish_call name what id c none
  call_on name what (some id) (some req, c) =
      carry out client server memory memory' x req >>= reply_to >>= finish_call name what id c

  -- `call_internal` for a string, on the serialized name and arguments.
  unfoldable pub remote_call :
      List ℕ → List ℕ → List ℕ → Client → Outcome (Option (List ℕ) × Context)
  unfolding call_on begin_call handle_send
  remote_call name what content c =
      let (id, c1) = begin_call content c in call_on name what id (handle_send c1)

  module _ (name args what : List ℕ) (id : ℕ) (id_fits : id < 2 ^ 64)
      (small : length (string_bytes name ++ args) + 20 < 4096) where
    abbrev content : List ℕ
    content = string_bytes name ++ args

    abbrev request : Protocol
    request = create_plain MessageType.rpc_method_request content id

    content_pos : 0 < length content
    content_pos = omega (
      arith,
      length-append (string_bytes name) args,
      length-append (encoding 9 (length name)) name,
      length-encoding 9 (length name),
    )

    -- The way back of the answer to a call that ended in `o`.
    way_back :
        (u : Ty) (o : Invoked (Value u))
        → IsReliable back y
        → Outgrows u (length content) o
        → (c : Client) → find_call id c.outstanding_call ≡ some []
        → (send_back (
              some (create_with MessageType.rpc_method_response (wrapped memory' u o).1 content id))
            >>= finish_call name what id c)
          ≡ seen u name o
    unfolding send_back create_plain finish_call
    way_back u (returned w) rel h c waits =
        let rsp = create_plain MessageType.rpc_method_response content id in
        let (code, msg, payload, seq, kind) =
          plain_fields MessageType.rpc_method_response content id in
        ap (λ q. q >>= finish_call name what id c)
          (carry_lem back y rel server client memory' memory MessageType.rpc_method_response id
            content (omega arith) id_fits small content_pos)
        ∙ ap (call_result client memory Ty.string name what) (awaited_lem id c rsp kind seq waits)
        ∙ sees_string client memory name args what id (omega arith)
    way_back u (raised text) rel h c waits =
        ap (λ q. q >>= finish_call name what id c)
          (carry_throws back server client memory' memory y _ (
            encode_error_throws server memory' MessageType.rpc_method_response
              ErrCode.rpc_method_call_exception id text content (omega arith) (omega arith) id_fits
              h.0 h.1))

    -- A call whose request arrives and is answered.
    there_and_back :
        (u : Ty) (o : Invoked (Value u))
        → IsReliable out x
        → IsReliable back y
        → Outgrows u (length content) o
        → handle_method_call server memory' services request
          ≡ ok (create_with MessageType.rpc_method_response (wrapped memory' u o).1 content id)
        → (c : Client) → find_call id c.outstanding_call ≡ some []
        → call_on name what (some id) (some request, c) ≡ seen u name o
    unfolding call_on reply_to answer create_plain handle_method_call of_string
    there_and_back u o there rel h answered c waits =
        ap (λ q. q >>= reply_to >>= finish_call name what id c)
          (carry_lem out x there client server memory memory' MessageType.rpc_method_request id
            content (omega arith) id_fits small content_pos)
        ∙ ap
            (λ (q : Outcome Protocol).
              (q >>= λ rsp. ok (some rsp)) >>= send_back >>= finish_call name what id c)
            answered
        ∙ way_back u o rel h c waits

-- A call of a registered function with its name and arguments, that does not time out, on hosts of
-- any byte order and over connections on which what is sent arrives, by a client with no other
-- message to send, for a string, with a request of fewer than 4076 bytes: the client queues the
-- request and sends it, the server receives it, calls the function and sends its answer, and the
-- client receives that and hands it to the call. If the function returns a value of fewer than
-- 4096 bytes, the caller gets the name of the function with `kRpcSuccess`, whatever the value; if
-- it throws, with a text that is longer than the request and fits into a node, the server throws
-- `bad_alloc` where it encodes the answer.
pub call_returns_name :
    (client server : Endian) (memory memory' : ℕ → ℕ) (out back : Link) (x : out.Sender)
    (y : back.Sender) (t u : Ty) (f : Value t → Invoked (Value u))
    (services : List (List ℕ × Method)) (name what : List ℕ) (v : Value t) (c : Client)
    (o : Invoked (Value u))
    → IsReliable out x
    → IsReliable back y
    → Fits t v
    → length (string_bytes name ++ format t v) + 20 < 4096
    → c.seq_id < 2 ^ 64
    → IsIdle c
    → f v ≡ o
    → IsSendable u o
    → Outgrows u (length (string_bytes name ++ format t v)) o
    → find name services ≡ some (internal_method_impl server memory' t u f)
    → remote_call client server memory memory' out back x y services name what
        (string_bytes name ++ format t v)
        c
      ≡ seen u name o
unfolding remote_call
call_returns_name client server memory memory' out back x y t u f services name what v c o there rel
      fits h hi idle e s g found =
    let id = c.seq_id in
    let args = format t v in
    let content = string_bytes name ++ args in
    let req = create_plain MessageType.rpc_method_request content id in
    let (code, msg, whole, seq, kind) = plain_fields MessageType.rpc_method_request content id in
    let small : length args < 4096 = omega (arith, h, length-append (string_bytes name) args) in
    let ran = internal_method_impl_lem server memory' t u f name v o fits small e s in
    let ctx : Context = (wrapped memory' u o).1 in
    let answered : handle_method_call server memory' services req
        ≡ ok (create_with MessageType.rpc_method_response ctx req.payload req.seq) =
      handle_method_call_lem server memory' services req name args whole (omega arith)
      ∙ rw (found, ran) refl in
    let (began, sent) = begin_call-send content c idle in
    ap₂ (call_on client server memory memory' out back x y services name what) began sent
    ∙ there_and_back client server memory memory' out back x y services name args what id hi h u o
        there rel g
        (answered ∙ ap₂ (λ p i. ok (create_with MessageType.rpc_method_response ctx p i)) whole seq)
        (waiting c) (waiting-free c idle)

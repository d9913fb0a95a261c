-- ===== src/Rpc/Call/Answer.antt =====
-- What the server makes of a call (rpc/rpc_server.h), and what the client makes of a plain answer
-- (rpc/rpc_client.h).
use xzmjx_rpc.Prelude.{
  ℕ, ◌<◌, ◌≡◌, refl, ap, ap₂, sym, ◌∙◌, arith, List, [], ◌++◌, some, length, ok, ◌>>=◌,
}
use xzmjx_rpc.ByteArray.Defs.{ByteArray, Endian, clear}
use xzmjx_rpc.ByteArray.Tape.{advanced}
use xzmjx_rpc.ByteArray.Rewind.{rewound}
use xzmjx_rpc.Codec.Scalar.{string_bytes, read_string_vint}
use xzmjx_rpc.Serializer.Defs.{Ty, Value, empty, of_string, serialize, deserialize}
use xzmjx_rpc.Serializer.RoundTrip.{Fits, format, serialize-Writes}
use xzmjx_rpc.Serializer.Transfer.{transfer, filled, of_string-filled, write_filled}
use xzmjx_rpc.Rpc.Protocol.Defs.{Context, create_plain}
use xzmjx_rpc.Rpc.Protocol.ErrCode
use xzmjx_rpc.Rpc.Protocol.MessageType
use xzmjx_rpc.Rpc.Registry.Defs.{caught}
use xzmjx_rpc.Rpc.Server.{Invoked, returned, raised, internal_method_impl, parsed}
use xzmjx_rpc.Rpc.Client.Defs.{call_result, parsed_result}
use xzmjx_rpc.Rpc.Client.Laws.{success_lem, parsed_lem}

abbrev pub success : Context
success = record { code = ErrCode.rpc_success; msg = [] }

abbrev pub exception : List ℕ → Context
exception what = record { code = ErrCode.rpc_method_call_exception; msg = what }

-- A result that can be serialized into one node; an exception always can.
abbrev pub IsSendable : (u : Ty) → Invoked (Value u) → Type 0
IsSendable u (returned w) = Fits u w × (length (format u w) < 4096)
IsSendable u (raised what) = Unit {0}

-- What the server's wrapper returns for how the function ended.
abbrev pub wrapped : (memory : ℕ → ℕ) (u : Ty) → Invoked (Value u) → ByteArray × Context
wrapped memory u (returned w) = (filled memory (format u w), success)
wrapped memory u (raised what) = (clear (empty memory), exception what)

module _ (native : Endian) (memory : ℕ → ℕ) (t u : Ty) (f : Value t → Invoked (Value u)) where
  -- The wrapper of a function, on the string that its arguments are serialized to: it calls the
  -- function on those arguments, and returns its serialized result with `kRpcSuccess`, or nothing
  -- with the text of its exception.
  pub internal_method_impl_lem :
      (name : List ℕ) (v : Value t) (o : Invoked (Value u))
      → Fits t v
      → length (format t v) < 4096
      → f v ≡ o
      → IsSendable u o
      → internal_method_impl native memory t u f name (format t v) ≡ ok (wrapped memory u o)
  unfolding internal_method_impl caught
  internal_method_impl_lem name v (returned w) fits small e s =
      let made = of_string-filled memory (format t v) small in
      let read =
        ap (λ o. o >>= deserialize native t) (sym made)
        ∙ (transfer native native memory memory t v fits small).1 in
      rw
        (
          made,
          read,
          e,
          write_filled memory (serialize native u w) (format u w) (serialize-Writes native u w s.0)
              s.1,
        )
        refl
  internal_method_impl_lem name v (raised what) fits small e s =
      let made = of_string-filled memory (format t v) small in
      let read =
        ap (λ o. o >>= deserialize native t) (sym made)
        ∙ (transfer native native memory memory t v fits small).1 in
      rw (made, read, e) refl

-- What a plain message is made of.
pub plain_fields :
    (type : ℕ) (content : List ℕ) (id : ℕ)
    → let p = create_plain type content id in
      (p.err_code ≡ ErrCode.rpc_success)
      × (p.err_msg ≡ [])
      × (p.payload ≡ content)
      × (p.seq ≡ id)
      × (p.type ≡ type)
unfolding create_plain
plain_fields type content id = ground arith

-- A string at the front of an answer.
read_front :
    (native : Endian) (memory : ℕ → ℕ) (name args : List ℕ)
    → length (string_bytes name ++ args) < 4096
    → (s : ByteArray) × ((of_string memory (string_bytes name ++ args)
          >>= deserialize native Ty.string)
        ≡ ok (name, s))
unfolding deserialize
read_front native memory name args h = (
  advanced (rewound (filled memory (string_bytes name ++ args))) (length (string_bytes name)),
  ap (λ o. o >>= read_string_vint) (of_string-filled memory (string_bytes name ++ args) h)
      ∙ (parsed native memory name args h).0,
)

-- What the client makes of a plain answer that begins with a string.
pub sees_string :
    (client : Endian) (memory : ℕ → ℕ) (name args what : List ℕ) (id : ℕ)
    → length (string_bytes name ++ args) < 4096
    → call_result client memory Ty.string name what
        (some (create_plain MessageType.rpc_method_response (string_bytes name ++ args) id))
      ≡ ok (some name, success)
sees_string client memory name args what id h =
    let content = string_bytes name ++ args in
    let rsp = create_plain MessageType.rpc_method_response content id in
    let (code, msg, payload, seq, kind) = plain_fields MessageType.rpc_method_response content id in
    let context : Context = record { code = rsp.err_code; msg = rsp.err_msg } in
    let (s, back) = read_front client memory name args h in
    success_lem client memory Ty.string name what rsp code
    ∙ ap (parsed_result client memory Ty.string what context) payload
    ∙ parsed_lem client memory Ty.string name what context content s back
    ∙ ap₂ (λ (c : ℕ) (m : List ℕ). ok (some name, record { code = c; msg = m })) code msg

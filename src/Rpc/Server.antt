-- ===== src/Rpc/Server.antt =====
-- The calls that `RpcServer` answers (rpc/rpc_server.h, rpc/rpc_server.cpp): a registered function,
-- and the answer to a request. The sockets, the timers and the log are left out.
use xzmjx_rpc.Prelude.{
  ℕ, ◌^◌, ◌<◌, ◌≡◌, refl, ap, sym, ◌∙◌, List, [], ◌∷◌, ◌++◌, Option, none, some, if◌then◌else◌,
  ◌==◌, arith, length, length-append, Option-cases, inl, inr, threw, crashed, stuck, Outcome, ok,
  ◌>>=◌,
}
use xzmjx_rpc.ByteArray.Defs.{ByteArray, Endian, clear}
use xzmjx_rpc.ByteArray.Access.{to_string}
use xzmjx_rpc.ByteArray.Tape.{advanced, advanced-IsSmall, unread-advanced}
use xzmjx_rpc.ByteArray.Rewind.{rewound, set_position-rewound, rewound-IsSmall, to_string-unread}
use xzmjx_rpc.Codec.Varint
use xzmjx_rpc.Codec.Scalar.{read_string_vint, read_string_vint-Reads, string_bytes}
use xzmjx_rpc.Serializer.Defs.{Ty, Value, empty, of_string, reset, serialize, deserialize}
use xzmjx_rpc.Serializer.Transfer.{
  filled, filled-IsSmall, unread-filled, of_string-filled, to_string-filled,
}
use xzmjx_rpc.Rpc.Protocol.Defs.{Protocol, Context, new_context, create_with, heartbeat_protocol}
use xzmjx_rpc.Rpc.Protocol.ErrCode
use xzmjx_rpc.Rpc.Protocol.MessageType
use xzmjx_rpc.Rpc.Registry.Defs.{caught}
use xzmjx_rpc.Rpc.Text.{text, same}

-- How a function that is called ends: with a value, or with a `std::exception` of this text.
pub data Invoked (A : Type 0) : Type 0 where
  returned : A → Invoked A
  raised : List ℕ → Invoked A

-- `FuncType`: from the name and the serialized arguments.
abbrev pub Method : Type 0
Method = List ℕ → List ℕ → Outcome (ByteArray × Context)

-- `m_services[name] = real_call`, in front of what was there.
unfoldable pub register_method : List ℕ → Method → List (List ℕ × Method) → List (List ℕ × Method)
register_method name f services = (name, f) ∷ services

-- `m_services.find(func_name)`
unfoldable pub find : List ℕ → List (List ℕ × Method) → Option Method
find name [] = none
find name ((k, f) ∷ m) = let rest = find name m in if same k name then some f else rest

bind_assoc :
    (o : Outcome ByteArray) (content : List ℕ) (f : List ℕ → Outcome Protocol)
    → (o >>= to_string) ≡ ok content
    → (o >>= λ s. to_string s >>= f) ≡ f content
bind_assoc (ok s) content f e = ap (λ x. x >>= f) e
bind_assoc (threw x) content f e = cc
bind_assoc crashed content f e = cc
bind_assoc stuck content f e = cc

-- Whatever a function does, `s.reset()` and `s.toString()` behind it give `content`.
echo :
    (s : ByteArray) (content : List ℕ)
    → (reset s >>= to_string) ≡ ok content
    → (k : Context → List ℕ → Protocol) (o : Outcome (ByteArray × Context))
    → (o >>= λ res. reset s >>= λ s1. to_string s1 >>= λ c. ok (k res.1 c))
      ≡ (o >>= λ res. ok (k res.1 content))
echo s content e k (ok res) = bind_assoc (reset s) content (λ c. ok (k res.1 c)) e
echo s content e k (threw x) = refl
echo s content e k crashed = refl
echo s content e k stuck = refl

module _ (native : Endian) (memory : ℕ → ℕ) where
  -- `internal_method_impl` for a function of type `t → u`; `void` is `unit`.
  unfoldable pub internal_method_impl : (t u : Ty) → (Value t → Invoked (Value u)) → Method
  unfolding new_context
  internal_method_impl t u f name args = do
    s ← of_string memory args
    arg ← caught (deserialize native t s)
    elim arg [
      | none ↦
          ok (
            empty memory,
            record { code = ErrCode.rpc_param_not_match; msg = text "args not match" },
          )
      | some (arg_tp, _) ↦ elim (f arg_tp) [
        | raised what ↦
            ok (
              clear (empty memory),
              record { code = ErrCode.rpc_method_call_exception; msg = what },
            )
        | returned rt ↦ serialize native u rt (empty memory) >>= λ res.
            ok (res, record new_context { code = ErrCode.rpc_success })
      ]
    ]

  -- `handleMethodCall`. The answer carries the string of `s`, the request's serializer.
  unfoldable pub handle_method_call : List (List ℕ × Method) → Protocol → Outcome Protocol
  handle_method_call services req = do
    s0 ← of_string memory req.payload
    name ← read_string_vint s0
    res ← elim (find name.0 services) as (λ x. Outcome (ByteArray × Context)) [
      | none ↦ ok (
        empty memory,
        record { code = ErrCode.rpc_no_method; msg = text "no function named " ++ name.0 },
      )
      | some f ↦ to_string name.1 >>= f name.0
    ]
    s1 ← reset name.1
    content ← to_string s1
    ok (create_with MessageType.rpc_method_response res.1 content req.seq)

  -- The switch of `handleClient` on one request: the answer, if there is one.
  unfoldable pub answer : List (List ℕ × Method) → Protocol → Outcome (Option Protocol)
  answer services req =
      if req.type == MessageType.rpc_method_request
      then (handle_method_call services req >>= λ rsp. ok (some rsp))
      else if req.type == MessageType.rpc_heartbeat
      then ok (some heartbeat_protocol)
      else ok none

  -- The string at the front of a payload, what stands behind it, and the payload again.
  pub parsed :
      (name args : List ℕ)
      → length (string_bytes name ++ args) < 4096
      → let t = rewound (filled memory (string_bytes name ++ args)) in
        let u = advanced t (length (string_bytes name)) in
        (read_string_vint t ≡ ok (name, u))
        × (to_string u ≡ ok args)
        × (reset u ≡ reset (filled memory (string_bytes name ++ args)))
  unfolding reset
  parsed name args h =
      let bytes = string_bytes name ++ args in
      let t = rewound (filled memory bytes) in
      let sm = filled-IsSmall memory bytes h in
      let here = unread-filled memory bytes in
      let short : length name < 2 ^ 64 = omega (
        arith,
        length-append (string_bytes name) args,
        length-append (Varint.encoding 9 (length name)) name,
      ) in
      let su = advanced-IsSmall t (string_bytes name) args (rewound-IsSmall _ sm) here in
      (
        read_string_vint-Reads name short t args (rewound-IsSmall _ sm) here,
        to_string-unread _ su
            ∙ ap ok (unread-advanced t (string_bytes name) args (rewound-IsSmall _ sm) here),
        set_position-rewound _ su ∙ sym (set_position-rewound _ sm),
      )

  -- A call of fewer than 4096 bytes, whose payload is a name and serialized arguments: a name that
  -- is not registered is answered with `kRpcNoMethod`, and a registered function is run on its name
  -- and the argument bytes, its code and text going into the answer. In both cases the content of
  -- the answer is the payload of the request, and not what the function returned.
  pub handle_method_call_lem :
      (services : List (List ℕ × Method)) (req : Protocol) (name args : List ℕ)
      → req.payload ≡ string_bytes name ++ args
      → length (string_bytes name ++ args) < 4096
      → handle_method_call services req ≡ elim (find name services) as (λ x. Outcome Protocol) [
        | none ↦ ok (
            create_with MessageType.rpc_method_response
              (record { code = ErrCode.rpc_no_method; msg = text "no function named " ++ name })
              req.payload
              req.seq)
        | some f ↦ f name args >>= λ r.
            ok (create_with MessageType.rpc_method_response r.1 req.payload req.seq)
      ]
  unfolding handle_method_call
  handle_method_call_lem services req name args e h =
      let bytes = string_bytes name ++ args in
      let (p, q, r) = parsed name args h in
      let u = advanced (rewound (filled memory bytes)) (length (string_bytes name)) in
      let back : (reset u >>= to_string) ≡ ok req.payload =
        ap (λ o. o >>= to_string) r ∙ to_string-filled memory bytes h ∙ ap ok (sym e) in
      let k : Context → List ℕ → Protocol =
        λ c content. create_with MessageType.rpc_method_response c content req.seq in
      elim (Option-cases (find name services)) [
        | inl none_found ↦
            rw (e, of_string-filled memory bytes h, p, none_found)
              (echo u req.payload back k (
                ok (
                  empty memory,
                  record { code = ErrCode.rpc_no_method; msg = text "no function named " ++ name },
                )))
        | inr (f, found) ↦
            rw (e, of_string-filled memory bytes h, p, found, q)
              (echo u req.payload back k (f name args))
      ]

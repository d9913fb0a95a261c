-- ===== src/Rpc/Registry/Defs.antt =====
-- `RpcServiceRegistry`. A `std::multimap` is the list of its entries in the order of their
-- insertion, which is the order of an equal range. The lock, the log and the sockets are left out:
-- `handle_request` is one turn of the loop of `handleClient`, on what `recvProtocol` returned.
use xzmjx_rpc.Prelude.{
  ℕ, zero, suc, List, [], ◌∷◌, ◌++◌, Option, none, some, Bool, true, false, ◌&&◌, ◌==◌,
  if◌then◌else◌, length, Outcome, ok, threw, crashed, stuck, ◌>>=◌,
}
use xzmjx_rpc.ByteArray.Defs.{Endian}
use xzmjx_rpc.ByteArray.Access.{to_string}
use xzmjx_rpc.Codec.Varint.{read_uint32}
use xzmjx_rpc.Codec.Scalar.{read_string_vint}
use xzmjx_rpc.Serializer.Defs.{empty, of_string, reset, serialize, vector, string}
use xzmjx_rpc.Rpc.Protocol.Defs.{Protocol, Context, create_with, create_plain, heartbeat_protocol}
use xzmjx_rpc.Rpc.Protocol.ErrCode
use xzmjx_rpc.Rpc.Protocol.MessageType
use xzmjx_rpc.Rpc.Text.{text, same}

abbrev pub Entry : Type 0
Entry = List ℕ × List ℕ

pub record Registry : Type 0 where
  pub services_provider : List Entry
  pub address_to_service : List Entry

-- The values of `equal_range(key)`.
unfoldable pub equal_range : List ℕ → List Entry → List (List ℕ)
equal_range key [] = []
equal_range key ((k, v) ∷ m) = let rest = equal_range key m in if same k key then v ∷ rest else rest

-- `m_services_provider.emplace(service, addr); m_address_to_service.emplace(addr, service);`
unfoldable pub register : List ℕ → List ℕ → Registry → Registry
register service addr r = record {
  services_provider = r.services_provider ++ ((service, addr) ∷ []);
  address_to_service = r.address_to_service ++ ((addr, service) ∷ []);
}

-- The iterators, as positions from `i` on, of the entries of `service` whose value is `addr`.
unfoldable pub iterators : List ℕ → List ℕ → ℕ → List Entry → List ℕ
iterators service addr i [] = []
iterators service addr i ((k, v) ∷ m) =
    let rest = iterators service addr (suc i) m in
    if same k service && same v addr then i ∷ rest else rest

-- `del`: the iterators for each service of the address in turn.
unfoldable pub to_delete : List (List ℕ) → List ℕ → List Entry → List ℕ
to_delete [] addr m = []
to_delete (service ∷ services) addr m = iterators service addr 0 m ++ to_delete services addr m

-- `erase(i)`, where erased entries are kept as `none`: an iterator that was erased before is
-- dangling.
unfoldable pub erase : ℕ → List (Option Entry) → Outcome (List (Option Entry))
erase i [] = crashed
erase zero (none ∷ m) = crashed
erase zero (some e ∷ m) = ok (none ∷ m)
erase (suc i) (e ∷ m) = erase i m >>= λ m'. ok (e ∷ m')

unfoldable pub erase_all : List ℕ → List (Option Entry) → Outcome (List (Option Entry))
erase_all [] m = ok m
erase_all (i ∷ del) m = erase i m >>= erase_all del

unfoldable pub present : List Entry → List (Option Entry)
present [] = []
present (e ∷ m) = some e ∷ present m

unfoldable pub remaining : List (Option Entry) → List Entry
remaining [] = []
remaining (none ∷ m) = remaining m
remaining (some e ∷ m) = e ∷ remaining m

-- `m_address_to_service.erase(range.first, range.second)`
unfoldable pub erase_key : List ℕ → List Entry → List Entry
erase_key key [] = []
erase_key key ((k, v) ∷ m) =
    let rest = erase_key key m in if same k key then rest else (k, v) ∷ rest

unfoldable pub unregister_service : List ℕ → Registry → Outcome Registry
unregister_service addr r =
    let services = equal_range addr r.address_to_service in
    if length services == 0 then ok r else do
      m ← erase_all (to_delete services addr r.services_provider) (present r.services_provider)
      ok (record {
        services_provider = remaining m;
        address_to_service = erase_key addr r.address_to_service;
      })

-- A parse under `try { ... } catch (...)`: `none` is an exception.
unfoldable pub caught : {A : Type 0} → Outcome A → Outcome (Option A)
caught (ok a) = ok (some a)
caught (threw e) = ok none
caught crashed = crashed
caught stuck = stuck

-- What `handleClient` keeps of one connection, and how a turn of its loop ends.
pub record Connection : Type 0 where
  pub is_service_provider : Bool
  pub provider_addr : List ℕ

pub data Turn : Type 0 where
  leave : Turn
  again : Option Protocol → Connection → Turn

module _ (native : Endian) (memory : ℕ → ℕ) where
  -- `handleRegisterService`; the serializer of the answer is cleared, so the answer is empty.
  unfoldable pub handle_register_service :
      List ℕ → Protocol → Registry → Outcome (Protocol × Registry)
  handle_register_service addr req r =
      let answer : Context → Protocol =
        λ ctx. create_with MessageType.rpc_service_register_response ctx [] req.seq in
      if length req.payload == 0
      then ok (create_plain MessageType.rpc_service_register_response [] 0, r)
      else do
        s ← of_string memory req.payload
        name ← caught (read_string_vint s)
        ok (elim name [
          | none ↦ (
            answer (record {
              code = ErrCode.rpc_protocol_format_error;
              msg = text "cannot parse msg content";
            }),
            r,
          )
          | some (service, _) ↦
              (answer (record { code = ErrCode.rpc_success; msg = [] }), register service addr r)
        ])

  -- The code and text for the addresses found.
  unfoldable pub discover_context : List ℕ → List (List ℕ) → Context
  discover_context name ret =
      if length ret == 0
      then record {
        code = ErrCode.rpc_no_method;
        msg = text "service discover with unregister name:" ++ name;
      }
      else record { code = ErrCode.rpc_success; msg = [] }

  -- A parse that fails leaves its own text where the lookup does not replace it.
  unfoldable pub discover_answer : List ℕ → Bool → Registry → Context × List (List ℕ)
  discover_answer name parsed r =
      let ret = equal_range name r.services_provider in
      let ctx = discover_context name ret in
      (
        record ctx {
          msg =
              if length ret == 0
              then ctx.msg
              else if parsed
              then []
              else text "service discover with unknown name format";
        },
        ret,
      )

  -- `handleServiceDiscover`; a name that does not parse stays empty, and is looked up.
  unfoldable pub handle_service_discover : Protocol → Registry → Outcome Protocol
  handle_service_discover req r = do
    s ← of_string memory req.payload
    parsed ← caught (read_string_vint s)
    let (name, fine) = elim parsed as (λ x. List ℕ × Bool) [
      | none ↦ ([], false)
      | some (name, _) ↦ (name, true)
    ]
    let (ctx, ret) = discover_answer name fine r
    out ← serialize native (vector string) ret (empty memory)
    content ← reset out >>= to_string
    ok (create_with MessageType.rpc_service_discover_response ctx content req.seq)

  -- `handleProvider`: the port is put into the peer's IPv4 address, whose text is a parameter; none
  -- is a peer with no address, or one that is no IPv4 address, whose null pointer is followed.
  unfoldable pub handle_provider : Option (ℕ → List ℕ) → Protocol → Outcome (List ℕ)
  handle_provider address_of_port req = do
    s ← of_string memory req.payload
    port ← read_uint32 s
    elim address_of_port [ none ↦ crashed | some f ↦ ok (f port.0) ]

  -- One turn of the loop of `handleClient`: the answer to send, if there is one. A null request of
  -- a connection that is no provider's is followed, `req->getType()`.
  unfoldable pub handle_request :
      Option (ℕ → List ℕ) → Option Protocol → Connection → Registry → Outcome (Turn × Registry)
  handle_request address_of_port none c r =
      if c.is_service_provider
      then (unregister_service c.provider_addr r >>= λ r'. ok (leave, r'))
      else crashed
  handle_request address_of_port (some req) c r =
      if req.type == MessageType.rpc_heartbeat
      then ok (again (some heartbeat_protocol) c, r)
      else if req.type == MessageType.rpc_service_discover_request
      then (handle_service_discover req r >>= λ rsp. ok (again (some rsp) c, r))
      else if req.type == MessageType.rpc_service_provider
      then (handle_provider address_of_port req >>= λ addr.
          ok (again none (record { is_service_provider = true; provider_addr = addr }), r))
      else if req.type == MessageType.rpc_service_register_request
      then (handle_register_service c.provider_addr req r >>= λ q. ok (again (some q.0) c, q.1))
      else ok (again none c, r)

  -- The loop of `handleClient` on the requests that arrive before the connection ends: the registry
  -- behind it. Answers go to a socket, and are left out.
  unfoldable pub handle_client :
      Option (ℕ → List ℕ) → List Protocol → Connection → Registry → Outcome Registry
  handle_client address_of_port [] c r = handle_request address_of_port none c r >>= λ q. ok q.1
  handle_client address_of_port (req ∷ reqs) c r =
      handle_request address_of_port (some req) c r >>= λ q. elim q.0 [
        | leave ↦ ok q.1
        | again rsp c' ↦ handle_client address_of_port reqs c' q.1
      ]

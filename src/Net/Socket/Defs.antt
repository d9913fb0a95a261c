-- ===== src/Net/Socket/Defs.antt =====
-- `Socket` (net/socket.h, net/socket.cpp): its state, and the system calls that each operation makes.
-- What the system answers is an argument; the names it gives are the bytes of a structure. The
-- sends and receives of streams, with their data, are in `Net/Stream`.
use xzmjx_rpc.Prelude.{
  ℕ, ◌-◌, ◌*◌, ◌/◌, ◌%◌, ◌^◌, List, [], ◌∷◌, ◌++◌, Option, none, some, Bool, true, false, not, ◌&&◌,
  if◌then◌else◌, ◌==◌, take, drop, length, Outcome, ok, crashed,
}
use xzmjx_rpc.ByteArray.Defs.{Endian}
use xzmjx_rpc.Codec.Endian.{object_value}
use xzmjx_rpc.Rpc.Text.{text}
use xzmjx_rpc.Net.Address.Defs.{
  Address, ipv4, ipv6, unix, unknown, af_unix, af_inet, af_inet6, replicate,
}
use xzmjx_rpc.Net.Address.Any.{read_ipv4, read_ipv6, get_family}
use xzmjx_rpc.Net.Address.Print.{decimal}

-- `SOCK_STREAM` and `SOCK_DGRAM`.
abbrev pub tcp : ℕ
tcp = 1

abbrev pub udp : ℕ
udp = 2

-- `m_sock_fd` is none for -1; an address is none for a null pointer.
pub record Socket : Type 0 where
  pub sock_fd : Option ℕ
  pub family : ℕ
  pub type : ℕ
  pub protocol : ℕ
  pub is_connect : Bool
  pub local_address : Option Address
  pub peer_address : Option Address

-- A system call by what it does to descriptors: it opens one, uses one (none is -1), closes one.
pub data SysCall : Type 0 where
  opened : ℕ → SysCall
  used : Option ℕ → SysCall
  closed : ℕ → SysCall

-- The result of an operation, the socket behind it, and its system calls in order.
abbrev pub Step : Type 0 → Type 0
Step A = A × Socket × List SysCall

unfoldable pub new_socket : ℕ → ℕ → ℕ → Socket
new_socket family type protocol = record {
  sock_fd = none;
  family = family;
  type = type;
  protocol = protocol;
  is_connect = false;
  local_address = none;
  peer_address = none;
}

unfoldable pub create_tcp : Address → Socket
unfolding new_socket get_family
create_tcp address = new_socket (get_family address) tcp 0

unfoldable pub create_udp : Address → Socket
unfolding new_socket get_family
create_udp address = new_socket (get_family address) udp 0

-- `CreateTCPSocket`, `CreateTCPSocket6`, `CreateUnixTCPSocket`, and those of UDP, by the family.
unfoldable pub create_tcp_socket : ℕ → Socket
unfolding new_socket
create_tcp_socket family = new_socket family tcp 0

unfoldable pub create_udp_socket : ℕ → Socket
unfolding new_socket
create_udp_socket family = new_socket family udp 0

unfoldable pub is_descriptor : Option ℕ → Bool
is_descriptor none = false
is_descriptor (some fd) = true

-- `isVaild`
unfoldable pub is_valid : Socket → Bool
unfolding is_descriptor
is_valid s = is_descriptor s.sock_fd

-- `getSendTimeout`, `getRecvTimeout`, by what the descriptor's context says, if it has one.
unfoldable pub get_timeout : Option ℕ → ℕ
get_timeout none = 2 ^ 64 - 1
get_timeout (some microseconds) = microseconds

-- The `timeval` of `setSendTimeout` and `setRecvTimeout`: seconds, as the bits of an `int`, and
-- microseconds.
unfoldable pub timeval : ℕ → ℕ × ℕ
timeval v = (v / 1000 % 2 ^ 32, v % 1000 * 1000)

-- `getOpt`, `setOpt`, by whether the call returns 0.
unfoldable pub get_opt : Bool → Socket → Step Bool
get_opt done s = (done, s, used s.sock_fd ∷ [])

unfoldable pub set_opt : Bool → Socket → Step Bool
set_opt done s = (done, s, used s.sock_fd ∷ [])

-- `getError`, by what `getsockopt` says of the socket, or of itself.
unfoldable pub get_error : Option ℕ → ℕ → ℕ
get_error none errno = errno
get_error (some error) errno = error

-- `initSock`: both results are dropped.
unfoldable pub init_sock : Socket → List SysCall
init_sock s = used s.sock_fd ∷ (if s.type == tcp then used s.sock_fd ∷ [] else [])

-- `newSock`, by what `socket` returns.
unfoldable pub new_sock : Option ℕ → Socket → Socket × List SysCall
unfolding init_sock
new_sock none s = (record s { sock_fd = none }, [])
new_sock (some fd) s =
    (record s { sock_fd = some fd }, opened fd ∷ init_sock (record s { sock_fd = some fd }))

module _ (native : Endian) where
  -- The address of a family whose structure has these bytes.
  unfoldable pub address_of : ℕ → List ℕ → Address
  address_of family b =
      if family == af_inet
      then ipv4 (read_ipv4 native b)
      else if family == af_inet6
      then ipv6 (read_ipv6 native b)
      else if family == af_unix
      then unix (record {
        sun_family = object_value native (take 2 b);
        sun_path = drop 2 b ++ replicate (110 - length b) 0;
        addr_len = length b;
      })
      else unknown (record { sa_family = object_value native (take 2 b); sa_data = drop 2 b })

  -- What `getsockname` or `getpeername` answered, none for an error, as an address, and whether it
  -- is kept.
  unfoldable pub name_of : ℕ → Option (List ℕ) → Address × Bool
  unfolding address_of
  name_of family none = (unknown (record { sa_family = family; sa_data = replicate 14 0 }), false)
  name_of family (some b) = (address_of family b, true)

  -- `getLocalAddress`, by the address that is kept.
  unfoldable pub local_from : Option (List ℕ) → Socket → Option Address → Step Address
  unfolding name_of
  local_from name s (some a) = (a, s, [])
  local_from name s none =
      let (a, kept) = name_of s.family name in
      (a, record s { local_address = if kept then some a else none }, used s.sock_fd ∷ [])

  unfoldable pub get_local_address : Option (List ℕ) → Socket → Step Address
  unfolding local_from
  get_local_address name s = local_from name s s.local_address

  -- `getPeerAddress`, by the address that is kept.
  unfoldable pub peer_from : Option (List ℕ) → Socket → Option Address → Step Address
  unfolding name_of
  peer_from name s (some a) = (a, s, [])
  peer_from name s none =
      let (a, kept) = name_of s.family name in
      (a, record s { peer_address = if kept then some a else none }, used s.sock_fd ∷ [])

  unfoldable pub get_peer_address : Option (List ℕ) → Socket → Step Address
  unfolding peer_from
  get_peer_address name s = peer_from name s s.peer_address

-- `close`, by the descriptor; it returns -1 as a `bool` where there was something to close.
unfoldable pub close_fd : Option ℕ → Socket → Step Bool
close_fd none s = (true, record s { is_connect = false }, [])
close_fd (some fd) s = (true, record s { sock_fd = none; is_connect = false }, closed fd ∷ [])

unfoldable pub close : Socket → Step Bool
unfolding close_fd
close s = close_fd s.sock_fd s

-- `if (!isVaild()) newSock();`
unfoldable pub ensure_valid : Option ℕ → Socket → Socket × List SysCall
unfolding is_valid new_sock
ensure_valid fresh s = if is_valid s then (s, []) else new_sock fresh s

-- What the system answers while a socket binds or connects: a new descriptor, whether the timeout
-- can be set, whether the call succeeds, and the two names.
pub record Answers : Type 0 where
  pub fresh : Option ℕ
  pub timeout_set : Bool
  pub succeeds : Bool
  pub local_name : Option (List ℕ)
  pub peer_name : Option (List ℕ)

-- A further step behind the system calls already made.
abbrev pub after : {A : Type 0} → List SysCall → Step A → Step A
after calls r = (r.0, r.1, calls ++ r.2)

-- `listen`, which goes on with a descriptor of -1.
unfoldable pub listen : Bool → Socket → Step Bool
listen done s = (done, s, used s.sock_fd ∷ [])

module _ (native : Endian) where
  unfoldable pub bind : Answers → Socket → Step Bool
  unfolding ensure_valid is_valid get_local_address
  bind r s =
      let (s1, calls) = ensure_valid r.fresh s in
      let (a, s2, calls2) = get_local_address native r.local_name s1 in
      if is_valid s1
      then if r.succeeds
        then (true, s2, calls ++ (used s1.sock_fd ∷ calls2))
        else (false, s1, calls ++ (used s1.sock_fd ∷ []))
      else (false, s1, calls)

  -- The end of `connect`, once the system has connected.
  unfoldable pub connected : Answers → Socket → Step Bool
  unfolding get_local_address get_peer_address
  connected r s =
      let (p, s1, calls1) = get_peer_address native r.peer_name (record s { is_connect = true }) in
      let (a, s2, calls2) = get_local_address native r.local_name s1 in (true, s2, calls1 ++ calls2)

  -- `close(); return false;`
  unfoldable pub give_up : Socket → Step Bool
  unfolding close
  give_up s = (false, (close s).1, (close s).2)

  -- `connect` once there is a descriptor, which `calls` led to: the address is followed.
  unfoldable pub connect_to :
      Bool → Answers → Socket → List SysCall → Option Address → Outcome (Step Bool)
  unfolding connected give_up
  connect_to timed r s calls none = crashed
  connect_to timed r s calls (some addr) =
      let tried = calls ++ (if timed then used s.sock_fd ∷ [] else []) in
      if timed && not r.timeout_set
      then ok (after tried (give_up s))
      else ok
          (after (tried ++ (used s.sock_fd ∷ [])) (if r.succeeds then connected r s else give_up s))

  -- `connect`, with a timeout or without.
  unfoldable pub connect : Bool → Answers → Option Address → Socket → Outcome (Step Bool)
  unfolding ensure_valid is_valid connect_to
  connect timed r addr s =
      let (s1, calls) = ensure_valid r.fresh (record s { peer_address = addr }) in
      if is_valid s1 then connect_to timed r s1 calls addr else ok (false, s1, calls)

  unfoldable pub reconnect : Bool → Answers → Socket → Outcome (Step Bool)
  unfolding connect
  reconnect timed r s = connect timed r s.peer_address (record s { local_address = none })

  -- `init` of a descriptor, by whether the hooks know it as a socket.
  unfoldable pub init : Bool → Answers → ℕ → Socket → Step Bool
  unfolding init_sock get_local_address get_peer_address
  init known r fd s =
      let s1 = record s { sock_fd = some fd; is_connect = true } in
      let (a, s2, calls2) = get_local_address native r.local_name s1 in
      let (p, s3, calls3) = get_peer_address native r.peer_name s2 in
      if known then (true, s3, init_sock s1 ++ (calls2 ++ calls3)) else (false, s, [])

  -- `accept`, by the descriptor that the system gives: the client's socket, the system calls on its
  -- descriptor, and those on the own one.
  unfoldable pub accept :
      Bool → Answers → Option ℕ → Socket → Option Socket × List SysCall × List SysCall
  unfolding init new_socket
  accept known r none s = (none, [], used s.sock_fd ∷ [])
  accept known r (some fd) s =
      let (done, client, calls) = init known r fd (new_socket s.family s.type s.protocol) in
      (if done then some client else none, opened fd ∷ calls, used s.sock_fd ∷ [])

-- `send`, `sendTo`, `recv` and `recvFrom`, on a buffer or on several: the system is called only
-- while the socket is connected; `result` is what it returns, and none is -1.
unfoldable pub send : Option ℕ → Socket → Step (Option ℕ)
send result s = if s.is_connect then (result, s, used s.sock_fd ∷ []) else (none, s, [])

unfoldable pub send_to : Option ℕ → Socket → Step (Option ℕ)
send_to result s = if s.is_connect then (result, s, used s.sock_fd ∷ []) else (none, s, [])

unfoldable pub recv : Option ℕ → Socket → Step (Option ℕ)
recv result s = if s.is_connect then (result, s, used s.sock_fd ∷ []) else (none, s, [])

unfoldable pub recv_from : Option ℕ → Socket → Step (Option ℕ)
recv_from result s = if s.is_connect then (result, s, used s.sock_fd ∷ []) else (none, s, [])

-- `dump`, where `text_of` is the text of an address.
unfoldable pub dump : (Address → List ℕ) → Socket → List ℕ
unfolding decimal
dump text_of s =
    let fd : List ℕ = elim s.sock_fd [ none ↦ text "-1" | some fd ↦ decimal fd ] in
    let local : List ℕ = elim s.local_address [
      | none ↦ []
      | some a ↦ text " local_address=" ++ text_of a
    ] in
    let peer : List ℕ = elim s.peer_address [
      | none ↦ []
      | some a ↦ text " peer_address=" ++ text_of a
    ] in
    text "[socket sock="
    ++ (fd
        ++ (text " is_connect="
            ++ ((if s.is_connect then text "1" else text "0")
                ++ (text " family="
                    ++ (decimal s.family
                        ++ (text " type="
                            ++ (decimal s.type
                                ++ (text " protocol="
                                    ++ (decimal s.protocol ++ (local ++ (peer ++ text "]")))))))))))

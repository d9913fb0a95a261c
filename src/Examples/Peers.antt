-- ===== src/Examples/Peers.antt =====
-- Concrete runs of the results on the configuration and the environment (the utils folder), on
-- streams (the net folder), and on sessions and clients (the rpc folder).
use xzmjx_rpc.Prelude.{
  ℕ, zero, suc, ◌-◌, ◌<◌, ◌≡◌, refl, List, [], ◌∷◌, ◌++◌, Option, some, none, Bool, true, false,
  length, arith, take, min, All, ◌==◌, leb, ok,
}
use xzmjx_rpc.ByteArray.Defs.{ByteArray, little, big}
use xzmjx_rpc.ByteArray.Tape.{IsSmall, appended, unread}
use xzmjx_rpc.Serializer.Defs.{uint8}
use xzmjx_rpc.Serializer.RoundTrip.{format}
use xzmjx_rpc.Rpc.Protocol.Defs.{Protocol, create_plain}
use xzmjx_rpc.Rpc.Protocol.Header.{header_bytes}
use xzmjx_rpc.Rpc.Session.Defs.{send_protocol, recv_protocol}
use xzmjx_rpc.Rpc.Session.Laws.{send_protocol_lem, recv_protocol_lem}
use xzmjx_rpc.Rpc.Client.Defs.{Client, new_client, connect, begin_call, find_call, call_result}
use xzmjx_rpc.Rpc.Client.Laws.{
  Reach, here, next, call, connects, outstanding_call-IsSafe, call_result_lem,
}
use xzmjx_rpc.Net.Stream.Defs.{Count, got, Received, bytes, read_fixed_size, write_fixed_size}
use xzmjx_rpc.Net.Stream.Laws.{Sends, read_fixed_size_overreads, write_fixed_size_sends}
use xzmjx_rpc.Net.TcpServer.{TcpServer, bind, bind_lem}
use xzmjx_rpc.Utils.Dict.{lookup}
use xzmjx_rpc.Utils.Config.Defs.{
  Node, scalar, map, entry, end, ConfigVar, Vars, load_from_yaml, lookup_default, is_name,
  is_name_char,
}
use xzmjx_rpc.Utils.Config.Laws.{IsNamed, Looked, load_from_yaml_others, lookup_default_lem}
use xzmjx_rpc.Utils.Env.Defs.{Env, is_option, init, front}
use xzmjx_rpc.Utils.Env.Laws.{Setting, IsPlain, render, settle, init-render}

abbrev equal : ℕ → ℕ → Bool
equal a b = a == b

abbrev from_string : ℕ → List ℕ → Option ℕ
from_string kind text = some (length text)

abbrev emit : Node → List ℕ
emit node = []

-- A variable `b`, and a file that sets `a` and `b`.
abbrev vars : Vars ℕ equal from_string emit
vars =
    (98 ∷ [], record { name = 98 ∷ []; description = []; kind = 1; value = 5; listeners = [] }) ∷ []

abbrev root : Node
root = map (entry (97 ∷ []) (scalar (49 ∷ [])) (entry (98 ∷ []) (scalar (50 ∷ [])) end))

load_from_yaml_example :
    lookup (98 ∷ []) (load_from_yaml ℕ equal from_string emit root vars).1 ≡ lookup (98 ∷ []) vars
load_from_yaml_example =
    load_from_yaml_others ℕ equal from_string emit 97 [] (scalar (49 ∷ []))
      (entry (98 ∷ []) (scalar (50 ∷ [])) end) (98 ∷ []) vars refl

nothing-IsNamed : IsNamed ℕ equal from_string emit []
unfolding lookup
nothing-IsNamed k v e = cc

name_ok : is_name (97 ∷ []) ≡ true
unfolding is_name is_name_char
name_ok = refl

lookup_default_example :
    (r : Option (ConfigVar ℕ)) × (m : Vars ℕ equal from_string emit) × (lookup_default ℕ equal
        from_string emit 1
        (97 ∷ [])
        5
        []
        []
      ≡ ok (r, m))
    × Looked ℕ equal from_string emit 1 (97 ∷ []) r m
lookup_default_example =
    lookup_default_lem ℕ equal from_string emit 1 (97 ∷ []) 5 [] [] nothing-IsNamed name_ok

abbrev env : Env
env = record { args = []; args_helps = []; program = []; exe = []; cwd = [] }

-- `-c f -d`
abbrev settings : List Setting
settings = (99 ∷ [], some (102 ∷ [])) ∷ (100 ∷ [], none) ∷ []

settings-IsPlain : All IsPlain settings
unfolding is_option
settings-IsPlain = ((omega arith, refl), (omega arith, tt))

init-render_example : init (47 ∷ 97 ∷ []) (97 ∷ []) (render settings) env ≡ (
  true,
  settle settings (record env {
    exe = 47 ∷ 97 ∷ [];
    cwd = front (47 ∷ 97 ∷ []) ++ (47 ∷ []);
    program = 97 ∷ [];
  }),
)
init-render_example = init-render (47 ∷ 97 ∷ []) (97 ∷ []) settings env settings-IsPlain

abbrev array : ByteArray
array = record {
  position = 0;
  base_size = 16;
  capacity = 16;
  size = 0;
  nodes = 1;
  cur = some 0;
  cells = λ x. x;
  endian = big;
}

array-IsSmall : IsSmall array
array-IsSmall = record {
  valid = omega arith;
  at_root = refl;
  size_lt = omega arith;
  network_order = refl;
}

-- A peer that sends one byte, and then two.
abbrev trickle : ℕ → ℕ → Received × ℕ
trickle n zero = (bytes (7 ∷ []), 1)
trickle n (suc x) = (bytes (8 ∷ 9 ∷ []), 2)

read_fixed_size_example :
    read_fixed_size trickle 2 array (record { is_connect = true; peer = 0 })
    ≡ ok (got 2, appended array (7 ∷ 8 ∷ 9 ∷ []), record { is_connect = true; peer = 2 })
read_fixed_size_example =
    read_fixed_size_overreads trickle (7 ∷ []) (8 ∷ 9 ∷ []) array 0 1 2 array-IsSmall refl
      (omega arith) (omega arith) (omega arith) (omega arith) refl refl

-- A connection that takes a byte at a time.
abbrev one_byte : List ℕ → List ℕ → Count × List ℕ
one_byte b x = (got (min 1 (length b)), x ++ take (min 1 (length b)) b)

abbrev all_sent : List ℕ → List ℕ
all_sent x = x

one_byte-Sends : Sends one_byte all_sent
one_byte-Sends = record {
  part = λ b x. min 1 (length b);
  after = λ b x. x ++ take (min 1 (length b)) b;
  part_pos = λ b x h. omega arith;
  part_le = λ b x. omega arith;
  returns = λ b x h. refl;
  delivers = λ b x. refl;
}

abbrev stored : ByteArray
stored = record array { size = 3 }

stored-IsSmall : IsSmall stored
stored-IsSmall = record {
  valid = omega arith;
  at_root = refl;
  size_lt = omega arith;
  network_order = refl;
}

write_fixed_size_example :
    (y : List ℕ) × (write_fixed_size one_byte
        (stored.size - stored.position)
        stored
        (record { is_connect = true; peer = [] })
      ≡ ok (
        got (stored.size - stored.position),
        record stored { position = stored.size },
        record { is_connect = true; peer = y },
      ))
    × (all_sent y ≡ all_sent [] ++ unread stored)
write_fixed_size_example =
    write_fixed_size_sends one_byte all_sent one_byte-Sends stored [] stored-IsSmall (omega arith)

abbrev memory : ℕ → ℕ
memory x = 0

abbrev message : Protocol
message = create_plain 0 (1 ∷ 2 ∷ []) 7

send_protocol_example :
    (y : List ℕ) × (send_protocol little one_byte memory message
        (record { is_connect = true; peer = [] })
      ≡ ok (true, record { is_connect = true; peer = y }))
    × (all_sent y ≡ all_sent [] ++ (header_bytes message ++ (1 ∷ 2 ∷ [])))
send_protocol_example =
    send_protocol_lem little memory 0 7 (1 ∷ 2 ∷ []) (omega arith) (omega arith) (omega arith)
      one_byte all_sent one_byte-Sends []

-- A peer that sends the header of a message, and then its content.
abbrev whole : ℕ → ℕ → Received × ℕ
whole n zero = (bytes (header_bytes message), 1)
whole n (suc x) = (bytes (1 ∷ 2 ∷ []), 2)

recv_protocol_example :
    recv_protocol little whole memory (record { is_connect = true; peer = 0 })
    ≡ ok (some message, record { is_connect = true; peer = 2 })
recv_protocol_example =
    recv_protocol_lem little memory 0 7 (1 ∷ 2 ∷ []) (omega arith) (omega arith) (omega arith) whole
      0 1 2 (omega arith) refl refl

abbrev joined : Client
joined = record new_client { is_closed = false; has_session = true; heartbeat_response = true }

-- A client with one call.
abbrev calling : Client
calling = (begin_call [] (connect true new_client).1).1

calling-Reach : Reach new_client calling
unfolding new_client connect
calling-Reach = next (next here (connects true)) (call [] (omega arith))

calling_found : find_call 0 calling.outstanding_call ≡ some []
unfolding new_client connect begin_call find_call
calling_found = refl

outstanding_call_example :
    (0 < calling.seq_id)
    × All (λ (p : Protocol). p.seq ≡ 0) []
    × (find_call calling.seq_id calling.outstanding_call ≡ none)
outstanding_call_example = outstanding_call-IsSafe calling 0 [] calling-Reach calling_found

abbrev reply : Protocol
reply = record message { err_code = 1; payload = 5 ∷ [] }

reply_format : reply.payload ≡ format uint8 5
unfolding format
reply_format = refl

reply_small : length (format uint8 5) < 4096
unfolding format
reply_small = omega arith

call_result_example :
    call_result little memory uint8 [] [] (some reply)
    ≡ ok (some 5, record { code = reply.err_code; msg = reply.err_msg })
call_result_example =
    call_result_lem little memory uint8 5 [] [] reply (omega arith) reply_small refl reply_format

-- Ports from 1024 on bind, and all listen.
abbrev high : ℕ → Bool
high port = leb 1024 port

abbrev always : ℕ → Bool
always port = true

abbrev server : TcpServer ℕ
server = record { listen_socks = 2000 ∷ []; is_stop = true }

bind_example :
    bind high always (80 ∷ 8080 ∷ []) [] server
    ≡ (false, 80 ∷ [], record server { listen_socks = [] })
bind_example = bind_lem high always (80 ∷ 8080 ∷ []) [] server

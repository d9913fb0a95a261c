-- ===== src/Examples.antt =====
-- Concrete runs of the results, on the byte array (utils/byte_array.cpp), the serializer and the
-- messages of the rpc folder.
mod Peers
mod Sockets
mod Casts
mod Sets
mod Hosts
mod Calls
use xzmjx_rpc.Prelude.{
  ℕ, ◌+◌, ◌-◌, ◌%◌, ◌^◌, ◌≤◌, ◌<◌, ◌≡◌, ◌≢◌, refl, [], ◌∷◌, ◌++◌, some, false, length, arith, take,
  drop, ok, threw, crashed, out_of_range, bad_alloc, none, ◌>>=◌,
}
use xzmjx_rpc.ByteArray.Defs.{ByteArray, little, big, read, add_capacity}
use xzmjx_rpc.ByteArray.Access.{set_position, get_read_buffers, get_write_buffers, to_string}
use xzmjx_rpc.ByteArray.View.{IsValid, IsReady, content}
use xzmjx_rpc.ByteArray.Refine.{Wrote, write_refines}
use xzmjx_rpc.ByteArray.Read.{Gave, read_refines}
use xzmjx_rpc.ByteArray.Cursor.{Sought, set_position_lem, read_stale}
use xzmjx_rpc.ByteArray.Buffers.{get_read_buffers_lem, get_write_buffers_lem}
use xzmjx_rpc.ByteArray.Tape.{advanced}
use xzmjx_rpc.ByteArray.Rewind.{rewound}
use xzmjx_rpc.Codec.Endian.{object_bytes, object_value, endian_cast, wire}
use xzmjx_rpc.Codec.Zigzag.{Coding32, Coding64, zigzag_roundtrip}
use xzmjx_rpc.Codec.Scalar.{string_bytes}
use xzmjx_rpc.Codec.Varint.{encoding}
use xzmjx_rpc.Serializer.Defs.{
  Ty, Value, bool, int8, tuple, serialize, deserialize, empty, of_string, reset,
}
use xzmjx_rpc.Serializer.RoundTrip.{format}
use xzmjx_rpc.Serializer.Transfer.{filled, transfer}
use xzmjx_rpc.Rpc.Text.{text, same}
use xzmjx_rpc.Rpc.Protocol.Defs.{
  Protocol, new_protocol, heartbeat_protocol, create_plain, create_with, encode, decode_header,
}
use xzmjx_rpc.Rpc.Protocol.Header.{header_bytes}
use xzmjx_rpc.Rpc.Protocol.Encode.{encode-decode_header, encode_error_throws}
use xzmjx_rpc.Rpc.Registry.Defs.{Registry, Connection, register, unregister_service, handle_client}
use xzmjx_rpc.Rpc.Registry.Laws.{unregister_service-register, handle_client-ne-ok}
use xzmjx_rpc.Rpc.Server.{find, handle_method_call, handle_method_call_lem}

abbrev array : ByteArray
array = record {
  position = 3;
  base_size = 4;
  capacity = 12;
  size = 10;
  nodes = 3;
  cur = some 0;
  cells = λ x. x;
  endian = big;
}

array-IsValid : IsValid array
array-IsValid = omega arith

array-IsReady : IsReady array
array-IsReady = (omega arith, omega arith, omega arith)

write_refines_example : (t : ByteArray) × Wrote (7 ∷ 8 ∷ []) array t
write_refines_example = write_refines (7 ∷ 8 ∷ []) array array-IsValid array-IsReady (omega arith)

read_refines_example : (t : ByteArray) × Gave 5 array t
read_refines_example = read_refines 5 0 array array-IsValid array-IsReady refl (omega arith)

set_position_example : (t : ByteArray) × Sought 11 array t
set_position_example = set_position_lem 11 array array-IsValid (omega arith)

read_stale_example :
    (t u : ByteArray) × (read 1 array ≡ ok (take 1 (drop array.position (content array)), t))
    × (read 2 t ≡ ok (take 2 (drop (array.position + 1 - array.base_size) (content array)), u))
read_stale_example =
    read_stale 1 2 0 array array-IsValid array-IsReady refl (λ e. absurd (omega (arith, e)))
      (omega arith) (omega arith) (omega arith) (omega arith)

get_read_buffers_example :
    (array.position % array.base_size + 5 ≤ array.base_size
      → get_read_buffers [] 5 array
        ≡ ok (5, record { iov_base = array.position; iov_len = 5 } ∷ []))
    × (array.base_size < 5 → get_read_buffers [] 5 array ≡ crashed)
get_read_buffers_example =
    get_read_buffers_lem [] 5 array array-IsValid array-IsReady (omega arith) (omega arith)

get_write_buffers_example :
    (array.position % array.base_size + 1 ≤ array.base_size
      → get_write_buffers [] 1 array
        ≡ ok (1, record { iov_base = array.position; iov_len = 1 } ∷ [], add_capacity 1 array))
    × (array.base_size < 1 → get_write_buffers [] 1 array ≡ crashed)
get_write_buffers_example =
    get_write_buffers_lem [] 1 array array-IsValid array-IsReady (omega arith) (omega arith)

zigzag_example : Coding32 4294967295 × Coding64 (2 ^ 62)
zigzag_example = zigzag_roundtrip 4294967295 (2 ^ 62) (omega arith) (omega arith)

abbrev memory : ℕ → ℕ
memory x = 0

abbrev shape : Ty
shape = tuple bool int8

abbrev value : Value shape
value = (false, 5)

value_small : length (format shape value) < 4096
unfolding format
value_small = omega arith

transfer_example :
    ((serialize little shape value (empty memory) >>= λ s. reset s >>= to_string)
      ≡ ok (format shape value))
    × ((of_string memory (format shape value) >>= deserialize big shape)
        ≡ ok (
          value,
          advanced (rewound (filled memory (format shape value))) (length (format shape value)),
        ))
transfer_example = transfer little big memory memory shape value (tt, omega arith) value_small

abbrev message : Protocol
message = create_plain 0 (1 ∷ 2 ∷ []) 7

encode_decode_example :
    (encode little memory message
      ≡ ok (rewound (filled memory (header_bytes message ++ (1 ∷ 2 ∷ [])))))
    × (decode_header little new_protocol
          (rewound (filled memory (header_bytes message ++ (1 ∷ 2 ∷ []))))
        ≡ ok (
          record new_protocol {
            carry_msg = false;
            magic = 0xfc;
            version = 0x10;
            type = 0;
            err_code = 1;
            seq = 7;
            payload_len = 2;
          },
          advanced (rewound (filled memory (header_bytes message ++ (1 ∷ 2 ∷ [])))) 20,
        ))
encode_decode_example =
    encode-decode_header little memory 0 7 (1 ∷ 2 ∷ []) (omega arith) (omega arith) (omega arith)
      new_protocol

encode_error_example :
    encode little memory (create_with 1 (record { code = 2; msg = 110 ∷ 111 ∷ [] }) (9 ∷ []) 7)
    ≡ threw bad_alloc
encode_error_example =
    encode_error_throws little memory 1 2 7 (110 ∷ 111 ∷ []) (9 ∷ []) (omega arith) (omega arith)
      (omega arith) (omega arith) (omega arith)

-- A registry that knows another provider of the same service.
abbrev known : Registry
known = record {
  services_provider = (1 ∷ [], 3 ∷ []) ∷ [];
  address_to_service = (3 ∷ [], 1 ∷ []) ∷ [];
}

unregister_service_example :
    (unregister_service (2 ∷ []) (register (1 ∷ []) (2 ∷ []) known) ≡ ok known)
    × (unregister_service (2 ∷ []) (register (1 ∷ []) (2 ∷ []) (register (1 ∷ []) (2 ∷ []) known))
        ≡ crashed)
unfolding same
unregister_service_example =
    unregister_service-register (1 ∷ []) (2 ∷ []) known ((refl, tt), (refl, tt))

abbrev vacant : Registry
vacant = record { services_provider = []; address_to_service = [] }

abbrev client : Connection
client = record { is_service_provider = false; provider_addr = [] }

handle_client_example :
    handle_client little memory none (heartbeat_protocol ∷ []) client vacant ≢ ok vacant
unfolding heartbeat_protocol
handle_client_example =
    handle_client-ne-ok little memory none (heartbeat_protocol ∷ []) client vacant vacant refl
      (refl, tt)

abbrev call : Protocol
call = record message { payload = string_bytes (97 ∷ []) ++ (5 ∷ []) }

call_small : length (string_bytes (97 ∷ []) ++ (5 ∷ [])) < 4096
unfolding encoding
call_small = omega arith

handle_method_call_example :
    handle_method_call little memory [] call
    ≡ ok (
        create_with 1
          (record { code = 2; msg = text "no function named " ++ (97 ∷ []) })
          call.payload
          call.seq)
unfolding find
handle_method_call_example =
    handle_method_call_lem little memory [] call (97 ∷ []) (5 ∷ []) refl call_small

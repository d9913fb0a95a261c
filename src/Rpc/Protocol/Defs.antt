-- ===== src/Rpc/Protocol/Defs.antt =====
-- `Protocol` and `Context` (rpc/protocol.h, rpc/protocol.cpp, rpc/context.h). A type and an error
-- code are bytes, since `decodeHeader` casts whatever byte arrives.
use xzmjx_rpc.Prelude.{
  ℕ, suc, ◌+◌, ◌-◌, ◌*◌, ◌/◌, ◌%◌, ◌^◌, List, [], ◌∷◌, ◌++◌, length, take, bit_and, bit_or, Bool,
  true, false, not, Outcome, ok, crashed, threw, bad_alloc, ◌>>=◌, if◌then◌else◌, ◌==◌, leb,
}
use xzmjx_rpc.ByteArray.Defs.{ByteArray, Endian, write}
use xzmjx_rpc.ByteArray.Access.{set_position}
use xzmjx_rpc.Codec.Varint.{read_byte}
use xzmjx_rpc.Codec.Scalar.{write_fint8, write_fint64, read_fint64, write_string_vint}
use xzmjx_rpc.Serializer.Defs.{empty}
use xzmjx_rpc.Rpc.Protocol.ErrCode
use xzmjx_rpc.Rpc.Protocol.MessageType

abbrev pub default_version : ℕ
default_version = 0x10

abbrev pub magic_number : ℕ
magic_number = 0xfc

abbrev pub header_len : ℕ
header_len = 20

-- `Context`, with its default code.
pub record Context : Type 0 where
  pub code : ℕ
  pub msg : List ℕ

unfoldable pub new_context : Context
new_context = record { code = ErrCode.rpc_default; msg = [] }

pub record Protocol : Type 0 where
  pub carry_msg : Bool
  pub magic : ℕ
  pub version : ℕ
  pub type : ℕ
  pub err_code : ℕ
  pub seq : ℕ
  pub payload_len : ℕ
  pub err_msg : List ℕ
  pub payload : List ℕ

-- `Protocol()`
unfoldable pub new_protocol : Protocol
new_protocol = record {
  carry_msg = false;
  magic = magic_number;
  version = default_version;
  type = 0;
  err_code = ErrCode.rpc_success;
  seq = 0;
  payload_len = 0;
  err_msg = [];
  payload = [];
}

-- `setErrMsg`: the size goes to `m_payload`, a string, as one more character.
unfoldable pub set_err_msg : List ℕ → Protocol → Protocol
set_err_msg msg p = if length msg == 0 then p else record p {
  carry_msg = true;
  payload = p.payload ++ (length msg % 256 ∷ []);
  err_msg = msg;
}

-- `setPayloadLength` adds.
unfoldable pub set_payload_length : ℕ → Protocol → Protocol
set_payload_length len p = record p { payload_len = (p.payload_len + len) % 2 ^ 64 }

-- `getPayloadLength`, on `uint64_t`.
unfoldable pub get_payload_length : Protocol → ℕ
get_payload_length p = (p.payload_len + 2 ^ 64 - length p.err_msg) % 2 ^ 64

-- `Create(type, ctx, content, id)`
unfoldable pub create_with : ℕ → Context → List ℕ → ℕ → Protocol
unfolding new_protocol set_err_msg set_payload_length
create_with type ctx content id =
    let p = set_err_msg ctx.msg (record new_protocol { type = type; err_code = ctx.code }) in
    record (set_payload_length (length content) p) { payload = content; seq = id }

-- `Create(type, content, id)`
unfoldable pub create_plain : ℕ → List ℕ → ℕ → Protocol
unfolding create_with
create_plain type content id =
    create_with type (record { code = ErrCode.rpc_success; msg = [] }) content id

unfoldable pub heartbeat_protocol : Protocol
unfolding new_protocol
heartbeat_protocol = record new_protocol { type = MessageType.rpc_heartbeat }

abbrev pub flag : Bool → ℕ
flag true = 1
flag false = 0

-- The `n` bytes from `c_str()` on: the string and its zero byte may be read, and no more.
unfoldable pub c_str_bytes : List ℕ → ℕ → Outcome (List ℕ)
c_str_bytes str n =
    if leb n (length str)
    then ok (take n str)
    else if n == suc (length str)
    then ok (str ++ (0 ∷ []))
    else crashed

module _ (native : Endian) where
  unfoldable pub encode_header : Protocol → ByteArray → Outcome ByteArray
  unfolding write_fint8 write_fint64
  encode_header p s = do
    s1 ← write_fint8 native p.magic s
    s2 ← write_fint8 native p.version s1
    s3 ← write_fint8 native p.type s2
    s4 ← write_fint8 native (bit_or (p.err_code * 2) (flag p.carry_msg) % 256) s3
    s5 ← write_fint64 native p.seq s4
    write_fint64 native p.payload_len s5

  unfoldable pub decode_header : Protocol → ByteArray → Outcome (Protocol × ByteArray)
  unfolding read_byte read_fint64
  decode_header p s = read_byte s >>= λ magic. read_byte magic.1 >>= λ version.
      read_byte version.1 >>= λ type. read_byte type.1 >>= λ temp.
      read_fint64 native temp.1 >>= λ seq. read_fint64 native seq.1 >>= λ len. ok (
        record p {
          magic = magic.0;
          version = version.0;
          type = type.0;
          err_code = temp.0 / 2;
          carry_msg = not (bit_and temp.0 1 == 0);
          seq = seq.0;
          payload_len = len.0;
        },
        len.1,
      )

  -- The error text of `encode`, if there is one.
  unfoldable pub encode_msg : Protocol → ByteArray → Outcome ByteArray
  encode_msg p s = if p.carry_msg then write_string_vint p.err_msg s else ok s

  -- The payload of `encode`, whose size is what the payload length leaves. `write` makes room for
  -- that size before it reads the bytes, and no allocator has room for 2 ^ 63 bytes.
  unfoldable pub encode_payload : Protocol → ByteArray → Outcome ByteArray
  encode_payload p s =
      let n = get_payload_length p in
      if n == 0
      then ok s
      else if leb (2 ^ 63) n
      then threw bad_alloc
      else (c_str_bytes p.payload n >>= λ bytes. write bytes s)

  -- All that `encode` writes, and `encode`.
  unfoldable pub encode_body : Protocol → ByteArray → Outcome ByteArray
  encode_body p s = encode_header p s >>= λ s1. encode_msg p s1 >>= encode_payload p

  unfoldable pub encode : (ℕ → ℕ) → Protocol → Outcome ByteArray
  encode memory p = encode_body p (empty memory) >>= set_position 0

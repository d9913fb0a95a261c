-- ===== src/Rpc/Session/Defs.antt =====
-- `RpcSession` (rpc/rpc_session.cpp), over a socket whose `recvmsg` and `sendmsg` are parameters. The
-- lock and the log are left out.
use xzmjx_rpc.Prelude.{
  ℕ, List, Option, none, some, Bool, false, if◌then◌else◌, ◌==◌, ltb, Outcome, ok, ◌>>=◌,
}
use xzmjx_rpc.ByteArray.Defs.{ByteArray, Endian, clear}
use xzmjx_rpc.ByteArray.Access.{set_position, to_string}
use xzmjx_rpc.Codec.Scalar.{read_string_vint}
use xzmjx_rpc.Serializer.Defs.{empty}
use xzmjx_rpc.Net.Stream.Defs.{
  Count, got, failed, Received, Socket, read_fixed_size, write_fixed_size,
}
use xzmjx_rpc.Rpc.Protocol.Defs.{
  Protocol, new_protocol, set_err_msg, get_payload_length, decode_header, encode, magic_number,
  default_version, header_len,
}

-- `n > 0`, of an `int`.
unfoldable pub positive : Count → Bool
positive failed = false
positive (got n) = ltb 0 n

-- The error text at the front of the content, if the header says so.
unfoldable pub recv_msg : Protocol → ByteArray → Outcome (Protocol × ByteArray)
unfolding set_err_msg
recv_msg msg bt =
    if msg.carry_msg
    then (read_string_vint bt >>= λ r. ok (set_err_msg r.0 msg, r.1))
    else ok (msg, bt)

module _ {S : Type 0} where
  -- The content of `recvProtocol`, behind the reading of its bytes.
  unfoldable pub recv_content :
      Protocol → Count × ByteArray × Socket S → Outcome (Option Protocol × Socket S)
  unfolding positive recv_msg
  recv_content msg r =
      if positive r.0
      then (set_position 0 r.1 >>= λ bt. recv_msg msg bt >>= λ m.
          to_string m.1 >>= λ content. ok (some (record m.0 { payload = content }), r.2))
      else ok (none, r.2)

module _ (native : Endian) {S : Type 0} (recvmsg : ℕ → S → Received × S) where
  -- The checks of the header, and what follows it.
  unfoldable pub recv_payload :
      Protocol → ByteArray → Socket S → Outcome (Option Protocol × Socket S)
  unfolding recv_content
  recv_payload msg bt sock =
      if msg.magic == magic_number
      then if msg.version == default_version
        then if get_payload_length msg == 0
          then ok (some msg, sock)
          else (read_fixed_size recvmsg (get_payload_length msg) (clear bt) sock
              >>= recv_content msg)
        else ok (none, sock)
      else ok (none, sock)

  -- `recvProtocol`: the message, or none for a null pointer.
  unfoldable pub recv_header : Count × ByteArray × Socket S → Outcome (Option Protocol × Socket S)
  unfolding positive recv_payload
  recv_header r =
      if positive r.0
      then (set_position 0 r.1 >>= λ bt.
          decode_header native new_protocol bt >>= λ m. recv_payload m.0 m.1 r.2)
      else ok (none, r.2)

  unfoldable pub recv_protocol : (ℕ → ℕ) → Socket S → Outcome (Option Protocol × Socket S)
  unfolding recv_header
  recv_protocol memory sock = read_fixed_size recvmsg header_len (empty memory) sock >>= recv_header

module _ (native : Endian) {S : Type 0} (sendmsg : List ℕ → S → Count × S) where
  -- `sendProtocol`
  unfoldable pub send_protocol : (ℕ → ℕ) → Protocol → Socket S → Outcome (Bool × Socket S)
  unfolding positive
  send_protocol memory msg sock = encode native memory msg >>= λ bt.
      write_fixed_size sendmsg bt.size bt sock >>= λ r. ok (positive r.0, r.2)

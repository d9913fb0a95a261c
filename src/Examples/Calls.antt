-- ===== src/Examples/Calls.antt =====
-- A concrete call, over connections that hold the bytes in transit.
use xzmjx_rpc.Prelude.{
  ℕ, ◌+◌, ◌<◌, ◌≡◌, refl, arith, List, [], ◌∷◌, ◌++◌, true, false, some, length, take, drop,
}
use xzmjx_rpc.ByteArray.Defs.{little, big}
use xzmjx_rpc.Codec.Varint.{encoding}
use xzmjx_rpc.Codec.Scalar.{string_bytes}
use xzmjx_rpc.Serializer.Defs.{Ty}
use xzmjx_rpc.Serializer.RoundTrip.{format}
use xzmjx_rpc.Net.Stream.Defs.{Count, got, Received, bytes}
use xzmjx_rpc.Net.Stream.Laws.{Sends}
use xzmjx_rpc.Rpc.Text.{text, same}
use xzmjx_rpc.Rpc.Client.Defs.{Client, find_call}
use xzmjx_rpc.Rpc.Client.Waiting.{IsIdle}
use xzmjx_rpc.Rpc.Server.{Invoked, returned, Method, find, internal_method_impl}
use xzmjx_rpc.Rpc.Session.Carry.{Link, IsReliable}
use xzmjx_rpc.Rpc.Call.{seen, remote_call, call_returns_name}

abbrev memory : ℕ → ℕ
memory x = 0

-- All of a text is taken at once, and all that is asked for is given, if it has arrived.
abbrev send_all : List ℕ → List ℕ → Count × List ℕ
send_all b x = (got (length b), x ++ take (length b) b)

abbrev give : ℕ → List ℕ → Received × List ℕ
give n r = (bytes (take n r), drop n r)

abbrev wire : Link
wire = record {
  Sender = List ℕ;
  Receiver = List ℕ;
  sendmsg = send_all;
  recvmsg = give;
  arrive = λ x. x;
}

send_all-Sends : Sends send_all (λ x. x)
send_all-Sends = record {
  part = λ b x. length b;
  after = λ b x. x ++ take (length b) b;
  part_pos = λ b x h. h;
  part_le = λ b x. omega arith;
  returns = λ b x h. refl;
  delivers = λ b x. refl;
}

wire-IsReliable : IsReliable wire []
wire-IsReliable = record {
  delivered = λ x. x;
  pending = λ r. r;
  after = λ n r. drop n r;
  sends = send_all-Sends;
  unused = refl;
  arrives = λ y. refl;
  gives = λ n r pos long. refl;
  leaves = λ n r. refl;
}

-- A function that returns its argument.
abbrev same_byte : ℕ → Invoked ℕ
same_byte x = returned x

abbrev one_service : List (List ℕ × Method)
one_service = (text "id", internal_method_impl little memory Ty.uint8 Ty.uint8 same_byte) ∷ []

found_id :
    find (text "id") one_service
    ≡ some (internal_method_impl little memory Ty.uint8 Ty.uint8 same_byte)
unfolding find same
found_id = refl

short_call : length (string_bytes (text "id") ++ format Ty.uint8 7) + 20 < 4096
unfolding format encoding
short_call = omega arith

short_byte : length (format Ty.uint8 7) < 4096
unfolding format
short_byte = omega arith

abbrev caller : Client
caller = record {
  has_session = true;
  is_closed = false;
  heartbeat_response = true;
  chan = [];
  seq_id = 3;
  outstanding_call = [];
}

caller-IsIdle : IsIdle caller
unfolding find_call
caller-IsIdle = record { connected = refl; is_open = refl; nothing_queued = refl; free = refl }

call_returns_name_example :
    remote_call big little memory memory wire wire [] [] one_service
      (text "id")
      []
      (string_bytes (text "id") ++ format Ty.uint8 7)
      caller
    ≡ seen Ty.uint8 (text "id") (returned 7)
call_returns_name_example =
    call_returns_name big little memory memory wire wire [] [] Ty.uint8 Ty.uint8 same_byte
      one_service (text "id") [] 7 caller (returned 7) wire-IsReliable wire-IsReliable (omega arith)
      short_call (omega arith) caller-IsIdle refl (omega arith, short_byte) tt found_id

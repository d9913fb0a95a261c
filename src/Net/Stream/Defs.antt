-- ===== src/Net/Stream/Defs.antt =====
-- `SocketStream` on byte arrays (net/socketstream.cpp), the socket's calls that it makes
-- (net/socket.cpp) and the loops of `Stream` (net/stream.cpp). The system's `recvmsg` and `sendmsg`
-- are parameters, on a state `S` of the connection.
use xzmjx_rpc.Prelude.{
  ℕ, zero, suc, ◌+◌, ◌-◌, ◌%◌, ◌^◌, List, [], ◌∷◌, ◌++◌, Bool, if◌then◌else◌, ◌==◌, ltb, length,
  take, drop, Outcome, ok, stuck, ◌>>=◌,
}
use xzmjx_rpc.ByteArray.Defs.{ByteArray, copy_in, copy_out}
use xzmjx_rpc.ByteArray.Access.{Iovec, get_read_buffers, get_write_buffers, set_position}

-- An `int` that a call returns: a count, or a negative number.
pub data Count : Type 0 where
  got : ℕ → Count
  failed : Count

-- A `size_t` cut to an `int`.
unfoldable pub to_int : ℕ → Count
to_int n = if ltb (n % 2 ^ 32) (2 ^ 31) then got (n % 2 ^ 32) else failed

-- What `recvmsg` does: it stores bytes, none of them at the end of the stream, or fails.
pub data Received : Type 0 where
  bytes : List ℕ → Received
  error : Received

-- `Socket`: `m_is_connect`, and the connection.
pub record Socket (S : Type 0) : Type 0 where
  pub is_connect : Bool
  pub peer : S

-- The sum of the lengths of the buffers.
unfoldable pub capacity_of : List Iovec → ℕ
capacity_of [] = 0
capacity_of (v ∷ vs) = v.iov_len + capacity_of vs

-- Bytes stored in the buffers in turn, and taken from them.
unfoldable pub scatter : List Iovec → List ℕ → (ℕ → ℕ) → ℕ → ℕ
scatter [] data' cells = cells
scatter (v ∷ vs) data' cells =
    scatter vs (drop v.iov_len data') (copy_in cells v.iov_base (take v.iov_len data'))

unfoldable pub gather : List Iovec → (ℕ → ℕ) → List ℕ
gather [] cells = []
gather (v ∷ vs) cells = copy_out cells v.iov_base v.iov_len ++ gather vs cells

module _ {S : Type 0} where
  -- What `SocketStream::read` does with the result of `recv` on its buffers.
  unfoldable pub received :
      ByteArray → List Iovec → Received × Socket S → Outcome (Count × ByteArray × Socket S)
  unfolding scatter
  received ba iov (error, sock) = ok (failed, ba, sock)
  received ba iov (bytes b, sock) =
      let filled = record ba { cells = scatter iov b ba.cells } in
      if length b == 0
      then ok (got 0, filled, sock)
      else (set_position (filled.position + length b) filled >>= λ ba'.
          ok (got (length b), ba', sock))

  -- What `SocketStream::write` does with the result of `send`.
  unfoldable pub sent : ByteArray → Count × Socket S → Outcome (Count × ByteArray × Socket S)
  sent ba (failed, sock) = ok (failed, ba, sock)
  sent ba (got k, sock) =
      if k == 0
      then ok (got 0, ba, sock)
      else (set_position (ba.position + k) ba >>= λ ba'. ok (got k, ba', sock))

module _ {S : Type 0} (recvmsg : ℕ → S → Received × S) where
  -- `Socket::recv(iovec*, size_t, int)`
  unfoldable pub recv : ℕ → Socket S → Received × Socket S
  recv n sock =
      let (r, peer) = recvmsg n sock.peer in
      if sock.is_connect then (r, record sock { peer = peer }) else (error, sock)

  -- `SocketStream::read(ByteArray::ptr, size_t)`
  unfoldable pub read : ℕ → ByteArray → Socket S → Outcome (Count × ByteArray × Socket S)
  unfolding received
  read n ba sock =
      if sock.is_connect
      then (get_write_buffers [] n ba >>= λ w. received w.2 w.1 (recv (capacity_of w.1) sock))
      else ok (failed, ba, sock)

  -- The loop of `readFixedSize(ByteArray::ptr, size_t)`; a round that does not end it takes a byte
  -- at least from `left`. Each round asks for `length` again.
  unfoldable pub read_loop :
      ℕ → ℕ → ℕ → ByteArray → Socket S → Outcome (Count × ByteArray × Socket S)
  read_loop zero size left ba sock = stuck
  read_loop (suc fuel) size left ba sock =
      let round = read size ba sock >>= λ r. elim r.0 [
        | failed ↦ ok (failed, r.1, r.2)
        | got n ↦
            let more = read_loop fuel size (left - n) r.1 r.2 in
            if n == 0 then ok (got 0, r.1, r.2) else more
      ] in
      if left == 0 then ok (to_int size, ba, sock) else round

  -- `int left = length;` and the loop.
  unfoldable pub read_from :
      Count → ℕ → ByteArray → Socket S → Outcome (Count × ByteArray × Socket S)
  read_from failed size ba sock = ok (failed, ba, sock)
  read_from (got left) size ba sock = read_loop (suc left) size left ba sock

  unfoldable pub read_fixed_size : ℕ → ByteArray → Socket S → Outcome (Count × ByteArray × Socket S)
  unfolding read_from
  read_fixed_size size ba sock = read_from (to_int size) size ba sock

module _ {S : Type 0} (sendmsg : List ℕ → S → Count × S) where
  -- `Socket::send(const iovec*, size_t, int)`
  unfoldable pub send : List ℕ → Socket S → Count × Socket S
  send data' sock =
      let (r, peer) = sendmsg data' sock.peer in
      if sock.is_connect then (r, record sock { peer = peer }) else (failed, sock)

  -- `SocketStream::write(ByteArray::ptr, size_t)`
  unfoldable pub write : ℕ → ByteArray → Socket S → Outcome (Count × ByteArray × Socket S)
  unfolding sent
  write n ba sock =
      if sock.is_connect
      then (get_read_buffers [] n ba >>= λ w. sent ba (send (gather w.1 ba.cells) sock))
      else ok (failed, ba, sock)

  -- The loop of `writeFixedSize(ByteArray::ptr, size_t)`.
  unfoldable pub write_loop :
      ℕ → ℕ → ℕ → ByteArray → Socket S → Outcome (Count × ByteArray × Socket S)
  write_loop zero size left ba sock = stuck
  write_loop (suc fuel) size left ba sock =
      let round = write size ba sock >>= λ r. elim r.0 [
        | failed ↦ ok (failed, r.1, r.2)
        | got n ↦
            let more = write_loop fuel size (left - n) r.1 r.2 in
            if n == 0 then ok (got 0, r.1, r.2) else more
      ] in
      if left == 0 then ok (to_int size, ba, sock) else round

  -- `int left = length;` and the loop.
  unfoldable pub write_from :
      Count → ℕ → ByteArray → Socket S → Outcome (Count × ByteArray × Socket S)
  write_from failed size ba sock = ok (failed, ba, sock)
  write_from (got left) size ba sock = write_loop (suc left) size left ba sock

  unfoldable pub write_fixed_size :
      ℕ → ByteArray → Socket S → Outcome (Count × ByteArray × Socket S)
  unfolding write_from
  write_fixed_size size ba sock = write_from (to_int size) size ba sock
